-- ===== src/Checksum/Weights.antt =====
-- BodyLength and CheckSum do not depend on the order of the fields.
use gofixmsg.Prelude.{
  ℕ, ◌+◌, ◌==◌, ◌≡◌, refl, sym, ap, ◌∙◌, Bool, true, false, ◌&&◌, not, Option, some, List, [], ◌∷◌,
  ◌++◌, arith, Text, Bool-cases, inl, inr, length, length-append, contains, insert, nat_eq,
  contains-insert, append-nil, append_assoc,
}
use gofixmsg.Decimal.{show}
use gofixmsg.Fragment.{
  Tag, number, name, Fragment, end, field, Entry, leaf, repeat, Members, nil, member, has, count,
}
use gofixmsg.Codec.{Schema}
use gofixmsg.Checksum.{
  Part, TypeSpec, byte_sum, join_parts, encode_value, field_bytes, field_part, insert_item,
  sort_items, joined, group_spec, processed_items, entry_part, members_part, calculate_length,
  concat, before, order_key, body_fields, begin_bytes, len_and_chsum, type_spec, text_at,
}

-- A field on the wire: the tag, "=", the value and the separator.
abbrev pub written_field : ℕ → Text → Text
written_field n s = show n ++ (b'=' ∷ (s ++ (1 ∷ [])))

-- The fields of a fragment in the order of its dict, as bytes.
unfoldable mutual
  pub bytes_of : Fragment → Text
  bytes_of end = []
  bytes_of (field (name t) e rest) = bytes_of rest
  bytes_of (field (number n) e rest) = entry_bytes n e ++ bytes_of rest

  pub entry_bytes : ℕ → Entry → Text
  entry_bytes n (leaf v) = written_field n (encode_value v)
  entry_bytes n (repeat ms) = written_field n (show (count ms)) ++ members_bytes ms

  pub members_bytes : Members → Text
  members_bytes nil = []
  members_bytes (member m ms) = bytes_of m ++ members_bytes ms

-- A dict whose keys are ints, in its groups too; no two keys of a dict are the same.
unfoldable mutual
  unfolding has

  pub is_dict : Fragment → Bool
  is_dict end = true
  is_dict (field (name t) e rest) = false
  is_dict (field (number n) e rest) = (not (has (number n) rest) && entry_is_dict e) && is_dict rest

  entry_is_dict : Entry → Bool
  entry_is_dict (leaf v) = true
  entry_is_dict (repeat ms) = members_are_dicts ms

  members_are_dicts : Members → Bool
  members_are_dicts nil = true
  members_are_dicts (member m ms) = is_dict m && members_are_dicts ms

byte_sum-append : (xs ys : Text) → byte_sum (xs ++ ys) ≡ byte_sum xs + byte_sum ys
unfolding byte_sum
byte_sum-append [] ys = omega arith
byte_sum-append (x ∷ xs) ys = omega (arith, byte_sum-append xs ys)

concat-append : (xs ys : List Text) → concat (xs ++ ys) ≡ concat xs ++ concat ys
unfolding concat
concat-append [] ys = refl
concat-append (x ∷ xs) ys = rw (concat-append xs ys) (sym (append_assoc x (concat xs) (concat ys)))

-- A part weighs as much as a text: it has its length, and its bytes have the same sum.
abbrev sum_of : Part → ℕ
sum_of (n, xs) = byte_sum (concat xs)

abbrev len_of : Part → ℕ
len_of (n, xs) = n

abbrev Weighs : Part → Text → Type 0
Weighs p s = (len_of p ≡ length s) × (sum_of p ≡ byte_sum s)

sum-join : (p q : Part) → sum_of (join_parts p q) ≡ sum_of p + sum_of q
sum-join (n, xs) (m, ys) =
    ap byte_sum (concat-append xs ys) ∙ byte_sum-append (concat xs) (concat ys)

len-join : (p q : Part) → len_of (join_parts p q) ≡ len_of p + len_of q
len-join (n, xs) (m, ys) = refl

join-Weighs : (p q : Part) (s t : Text) → Weighs p s → Weighs q t → Weighs (join_parts p q) (s ++ t)
join-Weighs p q s t h k = (
  omega (arith, len-join p q, length-append s t, h.0, k.0),
  omega (arith, sum-join p q, byte_sum-append s t, h.1, k.1),
)

field-Weighs : (n : ℕ) (s : Text) → Weighs (field_part n s) (field_bytes n s)
unfolding concat
field-Weighs n s = (refl, rw append-nil refl)

-- Two lists of items that weigh the same.
abbrev SameWeight : Part → Part → Type 0
SameWeight p q = (len_of p ≡ len_of q) × (sum_of p ≡ sum_of q)

swap-SameWeight :
    (p q r s : Part)
    → SameWeight s (join_parts p r)
    → SameWeight (join_parts q s) (join_parts p (join_parts q r))
swap-SameWeight p q r s h = (
  omega (arith, len-join q s, len-join p (join_parts q r), len-join q r, len-join p r, h.0),
  omega (arith, sum-join q s, sum-join p (join_parts q r), sum-join q r, sum-join p r, h.1),
)

insert_item-SameWeight :
    (spec : TypeSpec) (n : ℕ) (p : Part) (d : List (ℕ × Part))
    → SameWeight (joined (insert_item spec (n, p) d)) (join_parts p (joined d))
unfolding insert_item joined
insert_item-SameWeight spec n p [] = (refl, refl)
insert_item-SameWeight spec n p ((m, q) ∷ d) =
    elim (Bool-cases (before (order_key spec m) (order_key spec n))) [
      | inl later ↦ rw later (
          swap-SameWeight p q (joined d) (joined (insert_item spec (n, p) d))
            (insert_item-SameWeight spec n p d))
      | inr here ↦ rw here (refl, refl)
    ]

sort-SameWeight :
    (spec : TypeSpec) (d : List (ℕ × Part)) → SameWeight (joined (sort_items spec d)) (joined d)
unfolding sort_items joined
sort-SameWeight spec [] = (refl, refl)
sort-SameWeight spec ((n, p) ∷ d) =
    let i = insert_item-SameWeight spec n p (sort_items spec d) in
    let ih = sort-SameWeight spec d in
    (
      omega (arith, i.0, ih.0, len-join p (joined (sort_items spec d)), len-join p (joined d)),
      omega (arith, i.1, ih.1, sum-join p (joined (sort_items spec d)), sum-join p (joined d)),
    )

-- A new key is written behind the others.
insert-SameWeight :
    (n : ℕ) (p : Part) (d : List (ℕ × Part))
    → contains n d ≡ false
    → SameWeight (joined (insert n p d)) (join_parts p (joined d))
unfolding insert contains joined
insert-SameWeight n p [] c = (refl, refl)
insert-SameWeight n p ((m, q) ∷ d) c =
    let other : (m == n) ≡ false = ground arith in
    rw other (
      swap-SameWeight p q (joined d) (joined (insert n p d))
        (insert-SameWeight n p d (ground arith)))

-- None of the fragment's keys has been processed.
fresh : Fragment → List (ℕ × Part) → Bool
fresh end d = true
fresh (field (name t) e rest) d = fresh rest d
fresh (field (number n) e rest) d = not (contains n d) && fresh rest d

fresh-insert :
    (n : ℕ) (p : Part) (m : Fragment) (d : List (ℕ × Part))
    → has (number n) m ≡ false
    → fresh m d ≡ true
    → fresh m (insert n p d) ≡ true
unfolding fresh has
fresh-insert n p end d h f = refl
fresh-insert n p (field (name t) e rest) d h f = fresh-insert n p rest d (ground arith) f
fresh-insert n p (field (number k) e rest) d h f =
    ground (arith, contains-insert n k p d, fresh-insert n p rest d)

fresh-nil : (m : Fragment) → fresh m [] ≡ true
unfolding fresh contains
fresh-nil end = refl
fresh-nil (field (name t) e rest) = fresh-nil rest
fresh-nil (field (number n) e rest) = fresh-nil rest

Weighs-insert :
    (n : ℕ) (p : Part) (d : List (ℕ × Part)) (s t : Text)
    → contains n d ≡ false
    → Weighs (joined d) s
    → Weighs p t
    → Weighs (joined (insert n p d)) (s ++ t)
Weighs-insert n p d s t c h k =
    let i = insert-SameWeight n p d c in
    (
      omega (arith, i.0, len-join p (joined d), h.0, k.0, length-append s t),
      omega (arith, i.1, sum-join p (joined d), h.1, k.1, byte_sum-append s t),
    )

Weighs-sort :
    (spec : TypeSpec) (d : List (ℕ × Part)) (s : Text)
    → Weighs (joined d) s
    → Weighs (joined (sort_items spec d)) s
Weighs-sort spec d s h =
    let i = sort-SameWeight spec d in (omega (arith, i.0, h.0), omega (arith, i.1, h.1))

empty-Weighs : Weighs (0, []) []
unfolding concat
empty-Weighs = (refl, refl)

nothing-Weighs : Weighs (joined []) []
unfolding joined concat
nothing-Weighs = (refl, refl)

-- What is known of a field of a dict.
field_parts :
    (n : ℕ) (e : Entry) (rest : Fragment)
    → is_dict (field (number n) e rest) ≡ true
    → (has (number n) rest ≡ false) × (entry_is_dict e ≡ true) × (is_dict rest ≡ true)
unfolding is_dict
field_parts n e rest h = (ground arith, ground arith, ground arith)

module _ (int_of : Text → Option ℕ) where
  mutual
    unfolding processed_items is_dict bytes_of fresh

    processed-Weighs :
        (m : Fragment) (spec : TypeSpec) (d : List (ℕ × Part)) (s : Text)
        → is_dict m ≡ true
        → fresh m d ≡ true
        → Weighs (joined d) s
        → (r : List (ℕ × Part)) × (processed_items int_of spec m d ≡ some r)
          × Weighs (joined r) (s ++ bytes_of m)
    processed-Weighs end spec d s h f w = (d, refl, rw append-nil w)
    processed-Weighs (field (name t) e rest) spec d s h f w = cc
    processed-Weighs (field (number n) e rest) spec d s h f w =
        let (absent, inner, later) = field_parts n e rest h in
        let (p, ep, wp) = entry-Weighs e spec n inner in
        let next : fresh rest (insert n p d) ≡ true =
          fresh-insert n p rest d absent (ground arith) in
        let w' = Weighs-insert n p d s (entry_bytes n e) (ground arith) w wp in
        let (r, er, wr) =
          processed-Weighs rest spec (insert n p d) (s ++ entry_bytes n e) later next w' in
        (r, rw (ep, er) refl, rw (← append_assoc s (entry_bytes n e) (bytes_of rest)) wr)

    entry-Weighs :
        (e : Entry) (spec : TypeSpec) (n : ℕ)
        → entry_is_dict e ≡ true
        → (p : Part) × (entry_part int_of spec n e ≡ some p) × Weighs p (entry_bytes n e)
    entry-Weighs (leaf v) spec n h =
        (field_part n (encode_value v), refl, field-Weighs n (encode_value v))
    entry-Weighs (repeat ms) spec n h =
        let (p, e, w) = members-Weighs ms (group_spec spec n) h in
        let first = field_part n (show (count ms)) in
        (
          join_parts first p,
          rw e refl,
          join-Weighs first p (field_bytes n (show (count ms))) (members_bytes ms)
              (field-Weighs n (show (count ms))) w,
        )

    members-Weighs :
        (ms : Members) (spec : TypeSpec)
        → members_are_dicts ms ≡ true
        → (p : Part) × (members_part int_of spec ms ≡ some p) × Weighs p (members_bytes ms)
    members-Weighs nil spec h = ((0, []), refl, empty-Weighs)
    members-Weighs (member m ms) spec h =
        let (r, er, wr) =
          processed-Weighs m spec [] [] (ground arith) (fresh-nil m) nothing-Weighs in
        let (p, ep, wp) = members-Weighs ms spec (ground arith) in
        (
          join_parts (joined (sort_items spec r)) p,
          rw (er, ep) refl,
          join-Weighs (joined (sort_items spec r)) p (bytes_of m) (members_bytes ms)
              (Weighs-sort spec r (bytes_of m) wr) wp,
        )

  -- Whatever the specification says of the order, the length and the sum of the bytes that are
  -- computed for a dict of fields are those of its fields in the order of the dict.
  calculate_length-Weighs :
      (spec : TypeSpec) (m : Fragment)
      → is_dict m ≡ true
      → (p : Part) × (calculate_length int_of spec m ≡ some p) × Weighs p (bytes_of m)
  unfolding calculate_length
  calculate_length-Weighs spec m h =
      let (r, er, wr) = processed-Weighs m spec [] [] h (fresh-nil m) nothing-Weighs in
      (joined (sort_items spec r), rw er refl, Weighs-sort spec r (bytes_of m) wr)

has-body_fields :
    (int_of : Text → Option ℕ) (t : Tag) (m : Fragment)
    → has t m ≡ false
    → has t (body_fields int_of m) ≡ false
unfolding has body_fields
has-body_fields int_of t end h = refl
has-body_fields int_of t (field u e rest) h = ground (arith, has-body_fields int_of t rest)

body_fields-is_dict :
    (int_of : Text → Option ℕ) (m : Fragment)
    → is_dict m ≡ true
    → is_dict (body_fields int_of m) ≡ true
unfolding is_dict body_fields
body_fields-is_dict int_of end h = refl
body_fields-is_dict int_of (field (name t) e rest) h = cc
body_fields-is_dict int_of (field (number n) e rest) h =
    ground (arith, body_fields-is_dict int_of rest, has-body_fields int_of (number n) rest)

-- The header fields and the body, as bytes in the order of the dict.
abbrev pub summed : Option Text → Text → Text
summed version body = begin_bytes version ++ (field_bytes 9 (show (length body)) ++ body)

summed_part :
    (version : Option Text) (p : Part) (body : Text)
    → Weighs p body
    → let bytes = begin_bytes version ++ (field_bytes 9 (show (len_of p)) ++ concat p.1) in
      ◌≡◌ {A = Option (ℕ × ℕ)}
        (some (len_of p, byte_sum bytes))
        (some (length body, byte_sum (summed version body)))
summed_part version (n, xs) body w =
    let tail = λ (k : ℕ) (s : Text). byte_sum-append (field_bytes 9 (show k)) s in
    let all =
      λ (k : ℕ) (s : Text). byte_sum-append (begin_bytes version) (field_bytes 9 (show k) ++ s) in
    let sums : byte_sum (begin_bytes version ++ (field_bytes 9 (show n) ++ concat xs))
        ≡ byte_sum (begin_bytes version ++ (field_bytes 9 (show n) ++ body)) =
      omega (arith, w.1, tail n (concat xs), tail n body, all n (concat xs), all n body) in
    rw (← w.0) (ap (λ b. some (n, b)) sums)

-- The length and the sum, in terms of the fields that the code takes for the body.
pub len_and_chsum-body_fields :
    (int_of : Text → Option ℕ) (list_text : Members → Text) (spec : Option Schema) (m : Fragment)
    → is_dict m ≡ true
    → let body = bytes_of (body_fields int_of m) in
      len_and_chsum int_of list_text spec m
      ≡ some (length body, byte_sum (summed (text_at list_text 8 m) body))
unfolding len_and_chsum
len_and_chsum-body_fields int_of list_text spec m h =
    let body = bytes_of (body_fields int_of m) in
    let (p, e, w) =
      calculate_length-Weighs int_of (type_spec list_text spec m) (body_fields int_of m)
        (body_fields-is_dict int_of m h) in
    rw e (summed_part (text_at list_text 8 m) p body w)
