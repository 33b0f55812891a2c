-- ===== src/Fragment/Searching.antt =====
-- The searches of FixFragment and RepeatingGroup agree.
use gofixmsg.Prelude.{
  ℕ, ◌+◌, ◌≡◌, refl, ap, ◌∙◌, Bool, true, false, ◌||◌, List, [], ◌∷◌, ◌++◌, map, arith,
  if◌then◌else◌,
}
use gofixmsg.Fragment.Joining.{tag_eq_iff}
use gofixmsg.Fragment.{
  Tag, Fragment, end, field, Entry, leaf, repeat, Members, nil, member, has, anywhere,
  anywhere_groups, anywhere_entry, anywhere_member, FieldPath, own_path, find_groups, find_entry,
  find_members, find_all, at, index, among_tags, unique, listed_tags, entry_tags, member_tags,
  all_tags,
}

-- Whether a search came back with a path.
abbrev pub found_any : List FieldPath → Bool
found_any [] = false
found_any (p ∷ ps) = true

found-append : (ps qs : List FieldPath) → found_any (ps ++ qs) ≡ (found_any ps || found_any qs)
found-append [] qs = refl
found-append (p ∷ ps) qs = refl

found-map : (f : FieldPath → FieldPath) (ps : List FieldPath) → found_any (map f ps) ≡ found_any ps
found-map f [] = refl
found-map f (p ∷ ps) = refl

found-own : (tag : Tag) (m : Fragment) → found_any (own_path tag m) ≡ has tag m
found-own tag m = ground arith

found_here :
    (tag : Tag) (m : Fragment)
    → found_any (find_groups tag m) ≡ anywhere_groups tag m
    → found_any (find_all tag m) ≡ anywhere tag m
found_here tag m h =
    rw (found-append (own_path tag m) (find_groups tag m)) (rw (found-own tag m, h))

-- What a member adds to the paths found, behind its own search.
found_member :
    (here ih : Bool) (f : FieldPath → FieldPath) (ps qs : List FieldPath)
    → found_any ps ≡ here
    → found_any qs ≡ ih
    → found_any ((if here then map f ps else []) ++ qs) ≡ (here || ih)
found_member true ih f ps qs h k = rw (found-append (map f ps) qs) (rw (found-map f ps, h))
found_member false ih f ps qs h k = k

mutual
  unfolding anywhere_groups find_groups

  found-groups : (tag : Tag) (m : Fragment) → found_any (find_groups tag m) ≡ anywhere_groups tag m
  found-groups tag end = refl
  found-groups tag (field t e rest) =
      found-append (map (λ p. at t ∷ p) (find_entry tag e)) (find_groups tag rest)
      ∙ ap (λ b. b || found_any (find_groups tag rest))
          (found-map (λ p. at t ∷ p) (find_entry tag e) ∙ found-entry tag e)
      ∙ ap (λ b. anywhere_entry tag e || b) (found-groups tag rest)

  found-entry : (tag : Tag) (e : Entry) → found_any (find_entry tag e) ≡ anywhere_entry tag e
  found-entry tag (leaf v) = refl
  found-entry tag (repeat ms) = found-members tag 0 ms

  found-members :
      (tag : Tag) (i : ℕ) (ms : Members)
      → found_any (find_members tag i ms) ≡ anywhere_member tag ms
  found-members tag i nil = refl
  found-members tag i (member m ms) =
      found_member (anywhere tag m) (anywhere_member tag ms) (λ p. index i ∷ p) (find_all tag m)
        (find_members tag (i + 1) ms) (found_here tag m (found-groups tag m))
        (found-members tag (i + 1) ms)

among-append :
    (t : Tag) (xs ys : List Tag) → among_tags t (xs ++ ys) ≡ (among_tags t xs || among_tags t ys)
unfolding among_tags
among-append t [] ys = refl
among-append t (x ∷ xs) ys = ground (arith, among-append t xs ys)

among-unique : (t : Tag) (xs : List Tag) → among_tags t (unique xs) ≡ among_tags t xs
unfolding among_tags unique
among-unique t [] = refl
among-unique t (x ∷ xs) = ground (arith, among-unique t xs, among-unique x xs, tag_eq_iff x t)

mutual
  unfolding listed_tags anywhere_groups has among_tags

  among-listed : (tag : Tag) (m : Fragment) → among_tags tag (listed_tags m) ≡ anywhere tag m
  among-listed tag end = refl
  among-listed tag (field t e rest) =
      among-append tag (entry_tags e) (t ∷ listed_tags rest)
      ∙ ground (arith, among-listed tag rest, among-entry tag e)

  among-entry : (tag : Tag) (e : Entry) → among_tags tag (entry_tags e) ≡ anywhere_entry tag e
  among-entry tag (leaf v) = refl
  among-entry tag (repeat ms) = among-unique tag (member_tags ms) ∙ among-members tag ms

  among-members :
      (tag : Tag) (ms : Members) → among_tags tag (member_tags ms) ≡ anywhere_member tag ms
  among-members tag nil = refl
  among-members tag (member m ms) =
      among-append tag (unique (listed_tags m)) (member_tags ms)
      ∙ ap (λ b. b || among_tags tag (member_tags ms))
          (among-unique tag (listed_tags m) ∙ among-listed tag m)
      ∙ ap (λ b. anywhere tag m || b) (among-members tag ms)

-- The three searches agree on every message, however deep its groups: `find_all` yields a path
-- exactly when `anywhere` says that the tag is there, and exactly then `all_tags` lists it.
pub searches_agree :
    (tag : Tag) (m : Fragment)
    → (found_any (find_all tag m) ≡ anywhere tag m) × (among_tags tag (all_tags m) ≡ anywhere tag m)
unfolding all_tags
searches_agree tag m =
    (found_here tag m (found-groups tag m), among-unique tag (listed_tags m) ∙ among-listed tag m)
