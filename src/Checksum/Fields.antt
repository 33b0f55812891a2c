-- ===== src/Checksum/Fields.antt =====
-- The fields of a clean message as bytes.
use gofixmsg.Prelude.{
  ℕ, ◌≡◌, refl, sym, ap, ◌∙◌, true, List, [], ◌∷◌, ◌++◌, arith, Text, append_assoc,
}
use gofixmsg.Decimal.{show}
use gofixmsg.Message.{Value, str, int_value, null}
use gofixmsg.Fragment.{
  number, name, Fragment, end, field, leaf, repeat, Members, nil, member, count,
}
use gofixmsg.Fragment.Joining.{behind}
use gofixmsg.Codec.{Field, delimiter, separator, tag_text}
use gofixmsg.Codec.Scan.{written}
use gofixmsg.Codec.Fields.{flat, flat_members, shown}
use gofixmsg.Codec.Inner.{split}
use gofixmsg.Codec.Order.{clean, clean_value, tokens_of}
use gofixmsg.Checksum.{encode_value, field_bytes}
use gofixmsg.Checksum.Weights.{bytes_of, members_bytes}

pub flat-behind : (m r : Fragment) → flat (behind m r) ≡ flat m ++ flat r
unfolding flat behind
flat-behind end r = refl
flat-behind (field t (leaf v) m) r = ap (λ x. (t, v) ∷ x) (flat-behind m r)
flat-behind (field t (repeat ms) m) r =
    ap (λ x. (t, int_value (count ms)) ∷ x)
      (ap (λ x. flat_members ms ++ x) (flat-behind m r)
        ∙ sym (append_assoc (flat_members ms) (flat m) (flat r)))

-- The bytes of fields one after another.
abbrev pub bytes : List Field → Text
bytes fields = written separator (tokens_of fields)

pub bytes-append : (xs ys : List Field) → bytes (xs ++ ys) ≡ bytes xs ++ bytes ys
unfolding written tokens_of
bytes-append [] ys = refl
bytes-append ((t, v) ∷ xs) ys =
    ap (λ r. tag_text t ++ (delimiter ∷ (shown v ++ (separator ∷ r)))) (bytes-append xs ys)
    ∙ sym (
        append_assoc (tag_text t) (delimiter ∷ (shown v ++ (separator ∷ bytes xs))) (bytes ys)
        ∙ ap (λ r. tag_text t ++ (delimiter ∷ r))
            (append_assoc (shown v) (separator ∷ bytes xs) (bytes ys)))

pub field-bytes :
    (n : ℕ) (s : Text) (r : Text)
    → field_bytes n s ++ r ≡ show n ++ (delimiter ∷ (s ++ (separator ∷ r)))
field-bytes n s r =
    append_assoc (show n) (delimiter ∷ (s ++ (separator ∷ []))) r
    ∙ ap (λ x. show n ++ (delimiter ∷ x)) (append_assoc s (separator ∷ []) r)

pub clean-append :
    (xs ys : List Field)
    → clean separator (xs ++ ys) ≡ true
    → (clean separator xs ≡ true) × (clean separator ys ≡ true)
unfolding clean
clean-append [] ys h = (refl, h)
clean-append ((t, v) ∷ xs) ys h =
    let (here, later) = split _ (clean separator (xs ++ ys)) h in
    let (a, b) = clean-append xs ys later in (ground arith, b)

pub shown_clean : (v : Value) → clean_value separator v ≡ true → encode_value v ≡ shown v
shown_clean (str t) h = refl
shown_clean (int_value n) h = refl
shown_clean null h = cc

mutual
  unfolding bytes_of flat clean written tokens_of

  pub bytes_of-flat : (m : Fragment) → clean separator (flat m) ≡ true → bytes_of m ≡ bytes (flat m)
  bytes_of-flat end h = refl
  bytes_of-flat (field (name t) (leaf v) r) h = ground arith
  bytes_of-flat (field (name t) (repeat ms) r) h = ground arith
  bytes_of-flat (field (number n) (leaf v) r) h =
      let (here, later) = split _ (clean separator (flat r)) h in
      field-bytes n (encode_value v) (bytes_of r)
      ∙ ap (λ s. show n ++ (delimiter ∷ (s ++ (separator ∷ bytes_of r)))) (shown_clean v here)
      ∙ ap (λ x. show n ++ (delimiter ∷ (shown v ++ (separator ∷ x)))) (bytes_of-flat r later)
  bytes_of-flat (field (number n) (repeat ms) r) h =
      let (inner, later) = clean-append (flat_members ms) (flat r) h in
      let mine = field_bytes n (show (count ms)) in
      append_assoc mine (members_bytes ms) (bytes_of r)
      ∙ ap (λ x. mine ++ (members_bytes ms ++ x)) (bytes_of-flat r later)
      ∙ ap (λ x. mine ++ (x ++ bytes (flat r))) (members_bytes-flat ms inner)
      ∙ ap (λ x. mine ++ x) (sym (bytes-append (flat_members ms) (flat r)))
      ∙ field-bytes n (show (count ms)) (bytes (flat_members ms ++ flat r))

  pub members_bytes-flat :
      (ms : Members)
      → clean separator (flat_members ms) ≡ true
      → members_bytes ms ≡ bytes (flat_members ms)
  members_bytes-flat nil h = refl
  members_bytes-flat (member m ms) h =
      let (first, later) = clean-append (flat m) (flat_members ms) h in
      ap (λ x. x ++ members_bytes ms) (bytes_of-flat m first)
      ∙ ap (λ x. bytes (flat m) ++ x) (members_bytes-flat ms later)
      ∙ sym (bytes-append (flat m) (flat_members ms))
