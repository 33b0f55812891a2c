-- ===== src/Fragment/Joining.antt =====
-- Dicts joined field by field.
use gofixmsg.Prelude.{
  ◌≡◌, ◌↔◌, ==_iff, refl, sym, ap, ◌∙◌, Bool, true, false, ◌&&◌, ◌||◌, not, arith, text_eq_iff,
}
use gofixmsg.Fragment.{Tag, number, name, tag_eq, Fragment, end, field, Entry, has, set}

pub tag_eq_iff : (a b : Tag) → (tag_eq a b ≡ true) ↔ (a ≡ b)
tag_eq_iff (number a) (number b) = ground (arith, ==_iff a b)
tag_eq_iff (number a) (name t) = ground arith
tag_eq_iff (name s) (number b) = ground arith
tag_eq_iff (name s) (name t) = ground (arith, text_eq_iff s t)

-- Reading the fields of a dict one by one onto another.
unfoldable pub join : Fragment → Fragment → Fragment
join m end = m
join m (field t e rest) = join (set t e m) rest

-- One dict behind another.
unfoldable pub behind : Fragment → Fragment → Fragment
behind end m = m
behind (field t e rest) m = field t e (behind rest m)

unfoldable pub distinct_tags : Fragment → Bool
unfolding has
distinct_tags end = true
distinct_tags (field t e rest) = not (has t rest) && distinct_tags rest

set-fresh :
    (t : Tag) (e : Entry) (m : Fragment) → has t m ≡ false → set t e m ≡ behind m (field t e end)
unfolding set has behind
set-fresh t e end h = refl
set-fresh t e (field u x m) h = ground (arith, set-fresh t e m)

behind_assoc :
    (m : Fragment) (t : Tag) (e : Entry) (r : Fragment)
    → behind (behind m (field t e end)) r ≡ behind m (field t e r)
unfolding behind
behind_assoc end t e r = refl
behind_assoc (field u x m) t e r = ap (field u x) (behind_assoc m t e r)

pub has_both : (t : Tag) (m r : Fragment) → has t (behind m r) ≡ (has t m || has t r)
unfolding has behind
has_both t end r = refl
has_both t (field u x m) r = ground (arith, has_both t m r)

pub tag_eq_sym : (t u : Tag) → tag_eq t u ≡ tag_eq u t
tag_eq_sym (number a) (number b) = ground arith
tag_eq_sym (number a) (name t) = refl
tag_eq_sym (name s) (number b) = refl
tag_eq_sym (name s) (name t) = ground (arith, text_eq_iff s t, text_eq_iff t s)

behind-end : (m : Fragment) → behind m end ≡ m
unfolding behind
behind-end end = refl
behind-end (field t e m) = ap (field t e) (behind-end m)

has-behind :
    (t : Tag) (e : Entry) (m r : Fragment)
    → distinct_tags (behind m (field t e r)) ≡ true
    → has t m ≡ false
unfolding distinct_tags behind has
has-behind t e end r h = refl
has-behind t e (field u x m) r h =
    ground (arith, has-behind t e m r, has_both u m (field t e r), tag_eq_sym t u)

-- Fields with distinct tags are appended as they stand.
pub join-behind : (m r : Fragment) → distinct_tags (behind m r) ≡ true → join m r ≡ behind m r
unfolding join
join-behind m end h = sym (behind-end m)
join-behind m (field t e r) h =
    ap (λ x. join x r) (set-fresh t e m (has-behind t e m r h))
    ∙ join-behind (behind m (field t e end)) r (rw (behind_assoc m t e r) h)
    ∙ behind_assoc m t e r
