-- ===== src/Codec/Order.antt =====
-- Writing a message whose fields stand in the order of the specification.
use gofixmsg.Prelude.{
  ℕ, ltb, ◌≡◌, refl, ap, Bool, true, false, ◌&&◌, not, Option, none, some, List, [], ◌∷◌, ◌++◌,
  arith, Text, Option-cases, inl, inr, avoids, avoids-isdigit, is_digit,
}
use gofixmsg.Decimal.{show, int-show, isdigit-show}
use gofixmsg.Message.{Value, str, int_value, null}
use gofixmsg.Fragment.{
  Tag, number, name, Fragment, end, field, leaf, repeat, Members, nil, member, count,
}
use gofixmsg.Spec.{Composition, Envelope, extract_sorting_key, sort_key}
use gofixmsg.Codec.{
  Field, Chunk, Token, find_group, tag_key, insert_chunk, expanded, sort_chunks, expand_members,
  write_fields, tag_text, value_text, read_tags, delimiter, ◌>>=◌,
}
use gofixmsg.Codec.Fields.{flat, flat_members, texts, shown}
use gofixmsg.Codec.Scan.{written, Separable}
use gofixmsg.Codec.Inner.{split, not-true}

abbrev pub key_at : Envelope → Composition → Tag → ℕ
key_at env c (number n) = sort_key (extract_sorting_key c env) n
key_at env c (name t) = 0

abbrev pub is_number : Tag → Bool
is_number (number n) = true
is_number (name t) = false

-- The first field, if there is one, does not sort before the key.
abbrev pub not_before : Envelope → Composition → ℕ → Fragment → Bool
not_before env c k end = true
not_before env c k (field t e rest) = not (ltb (key_at env c t) k)

-- Whether the fields, those of the members of groups too, stand in the order of their keys.
unfoldable mutual
  pub in_order : Envelope → Composition → Fragment → Bool
  in_order env c end = true
  in_order env c (field t (leaf v) rest) =
      (is_number t && not_before env c (key_at env c t) rest) && in_order env c rest
  in_order env c (field t (repeat ms) rest) =
      (is_number t && not_before env c (key_at env c t) rest)
      && (elim (find_group t c) [ none ↦ false | some g ↦ members_in_order env g ms ]
          && in_order env c rest)

  pub members_in_order : Envelope → Composition → Members → Bool
  members_in_order env c nil = true
  members_in_order env c (member m ms) = in_order env c m && members_in_order env c ms

-- The chunks of fields that stand in order.
unfoldable chunks_of : Envelope → Composition → Fragment → List Chunk
unfolding flat
chunks_of env c end = []
chunks_of env c (field t (leaf v) rest) = (key_at env c t, (t, v) ∷ []) ∷ chunks_of env c rest
chunks_of env c (field t (repeat ms) rest) =
    (key_at env c t, (t, int_value (count ms)) ∷ flat_members ms) ∷ chunks_of env c rest

expanded-chunks_of :
    (env : Envelope) (c : Composition) (m : Fragment) → expanded (chunks_of env c m) ≡ flat m
unfolding expanded chunks_of flat
expanded-chunks_of env c end = refl
expanded-chunks_of env c (field t (leaf v) rest) =
    ap (λ r. (t, v) ∷ r) (expanded-chunks_of env c rest)
expanded-chunks_of env c (field t (repeat ms) rest) =
    ap (λ r. (t, int_value (count ms)) ∷ (flat_members ms ++ r)) (expanded-chunks_of env c rest)

insert_front :
    (env : Envelope) (c : Composition) (k : ℕ) (x : List Field) (m : Fragment)
    → not_before env c k m ≡ true
    → insert_chunk (k, x) (chunks_of env c m) ≡ (k, x) ∷ chunks_of env c m
unfolding insert_chunk chunks_of
insert_front env c k x end h = refl
insert_front env c k x (field t (leaf v) rest) h = rw (not-true _ h) refl
insert_front env c k x (field t (repeat ms) rest) h = rw (not-true _ h) refl

key_number :
    (env : Envelope) (c : Composition) (t : Tag)
    → is_number t ≡ true
    → tag_key (extract_sorting_key c env) t ≡ some (key_at env c t)
key_number env c (number n) h = refl
key_number env c (name t) h = cc

mutual
  unfolding sort_chunks in_order flat chunks_of

  sort_in_order :
      (m : Fragment) (env : Envelope) (c : Composition)
      → in_order env c m ≡ true
      → sort_chunks env c m ≡ some (chunks_of env c m)
  sort_in_order end env c h = refl
  sort_in_order (field t (leaf v) rest) env c h =
      let (here, later) = split _ (in_order env c rest) h in
      let (num, first) = split (is_number t) _ here in
      rw (key_number env c t num, sort_in_order rest env c later)
        (ap some (insert_front env c (key_at env c t) ((t, v) ∷ []) rest first))
  sort_in_order (field t (repeat ms) rest) env c h = elim (Option-cases (find_group t c)) [
    | inl absent ↦
        let none_fits : ((is_number t && not_before env c (key_at env c t) rest) && false) ≡ true =
          rw absent at h in
        let (_, impossible) = split _ false none_fits in cc
    | inr (g, found) ↦
        let whole : ((is_number t && not_before env c (key_at env c t) rest)
              && (members_in_order env g ms && in_order env c rest))
            ≡ true =
          rw found at h in
        let (here, later) = split _ (members_in_order env g ms && in_order env c rest) whole in
        let (num, first) = split (is_number t) _ here in
        let (inner, tail) = split (members_in_order env g ms) _ later in
        rw
          (
            key_number env c t num,
            found,
            expand_in_order ms env g inner,
            sort_in_order rest env c tail,
          )
          (ap some (
            insert_front env c (key_at env c t) ((t, int_value (count ms)) ∷ flat_members ms) rest
              first))
  ]

  expand_in_order :
      (ms : Members) (env : Envelope) (c : Composition)
      → members_in_order env c ms ≡ true
      → expand_members env c ms ≡ some (flat_members ms)
  expand_in_order nil env c h = refl
  expand_in_order (member m ms) env c h =
      let (first, later) = split (in_order env c m) _ h in
      rw (sort_in_order m env c first, expand_in_order ms env c later)
        (ap (λ x. some (x ++ flat_members ms)) (expanded-chunks_of env c m))

-- Fields in order are written as they stand.
pub sorted-flat :
    (m : Fragment) (env : Envelope) (c : Composition)
    → in_order env c m ≡ true
    → (sort_chunks env c m >>= λ xs. some (expanded xs)) ≡ some (flat m)
sorted-flat m env c h = rw (sort_in_order m env c h) (ap some (expanded-chunks_of env c m))

-- Values that hold no separator, and tags that are numbers.
abbrev pub clean_value : ℕ → Value → Bool
clean_value sep (str t) = avoids sep t
clean_value sep (int_value n) = true
clean_value sep null = false

unfoldable pub clean : ℕ → List Field → Bool
clean sep [] = true
clean sep ((t, v) ∷ rest) = (is_number t && clean_value sep v) && clean sep rest

unfoldable pub tokens_of : List Field → List Token
tokens_of [] = []
tokens_of ((t, v) ∷ rest) = (tag_text t, shown v) ∷ tokens_of rest

value_written : (sep : ℕ) (v : Value) → clean_value sep v ≡ true → value_text v ≡ some (shown v)
value_written sep (str t) h = refl
value_written sep (int_value n) h = refl
value_written sep null h = cc

pub write-clean :
    (sep : ℕ) (fields : List Field)
    → clean sep fields ≡ true
    → write_fields sep fields ≡ some (written sep (tokens_of fields))
unfolding write_fields clean written tokens_of
write-clean sep [] h = refl
write-clean sep ((t, v) ∷ rest) h =
    let (here, later) = split _ (clean sep rest) h in
    let (_, value) = split (is_number t) _ here in
    rw (value_written sep v value, write-clean sep rest later) refl

value_avoids :
    (sep : ℕ) (v : Value)
    → is_digit sep ≡ false
    → clean_value sep v ≡ true
    → avoids sep (shown v) ≡ true
value_avoids sep (str t) d h = h
value_avoids sep (int_value n) d h = avoids-isdigit sep (show n) d (isdigit-show n)
value_avoids sep null d h = cc

tag_avoids :
    (x : ℕ) (t : Tag) → is_digit x ≡ false → is_number t ≡ true → avoids x (tag_text t) ≡ true
tag_avoids x (number n) d h = avoids-isdigit x (show n) d (isdigit-show n)
tag_avoids x (name t) d h = cc

pub tokens-Separable :
    (sep : ℕ) (fields : List Field)
    → is_digit sep ≡ false
    → clean sep fields ≡ true
    → Separable sep (tokens_of fields)
unfolding clean tokens_of
tokens-Separable sep [] d h = tt
tokens-Separable sep ((t, v) ∷ rest) d h =
    let (here, later) = split _ (clean sep rest) h in
    let (num, value) = split (is_number t) _ here in
    (
      tag_avoids delimiter t refl num,
      tag_avoids sep t d num,
      value_avoids sep v d value,
      tokens-Separable sep rest d later,
    )

pub read_tags-tokens :
    (other : Text → Option Tag) (sep : ℕ) (fields : List Field)
    → clean sep fields ≡ true
    → read_tags other (tokens_of fields) ≡ some (texts fields)
unfolding clean tokens_of read_tags texts
read_tags-tokens other sep [] h = refl
read_tags-tokens other sep ((number n, v) ∷ rest) h =
    let (_, later) = split _ (clean sep rest) h in
    rw (isdigit-show n, int-show n, read_tags-tokens other sep rest later) refl
read_tags-tokens other sep ((name t, v) ∷ rest) h = ground arith
