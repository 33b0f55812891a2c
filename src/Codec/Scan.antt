-- ===== src/Codec/Scan.antt =====
-- Cutting a written message into its tags and values.
use gofixmsg.Prelude.{
  ℕ, ◌==◌, ◌≡◌, refl, ap, ◌∙◌, Bool, true, false, List, [], ◌∷◌, ◌++◌, append_assoc, append-nil,
  arith, Text, avoids,
}
use gofixmsg.Codec.{Token, delimiter, word_sep, scan_tag, scan_value}

-- Tags and values as they stand on the wire.
unfoldable pub written : ℕ → List Token → Text
written sep [] = []
written sep ((t, v) ∷ rest) = t ++ (delimiter ∷ (v ++ (sep ∷ written sep rest)))

-- No tag holds the delimiter, and no separator stands in a tag or a value.
abbrev pub Separable : ℕ → List Token → Type 0
Separable sep [] = Unit
Separable sep ((t, v) ∷ rest) =
    (avoids delimiter t ≡ true) × (avoids sep t ≡ true) × (avoids sep v ≡ true) × Separable sep rest

module _ (sep : ℕ) (other : (sep == delimiter) ≡ false) where
  word_sep-tag :
      (b : Bool) (t rest : Text)
      → avoids sep t ≡ true
      → word_sep sep b (t ++ (delimiter ∷ rest)) ≡ false
  unfolding word_sep avoids
  word_sep-tag b [] rest h = ground (arith, other)
  word_sep-tag b (c ∷ t) rest h = ground (arith, word_sep-tag true t rest)

  word_sep-written :
      (tokens : List Token) → Separable sep tokens → word_sep sep false (written sep tokens) ≡ false
  unfolding written
  word_sep-written [] h = unfold word_sep in refl
  word_sep-written ((t, v) ∷ rest) h = word_sep-tag false t (v ++ (sep ∷ written sep rest)) h.1

  scan_tag-append :
      (acc t rest : Text)
      → avoids delimiter t ≡ true
      → avoids sep t ≡ true
      → scan_tag sep acc (t ++ (delimiter ∷ rest)) ≡ scan_value sep (acc ++ t) [] rest
  unfolding scan_tag avoids
  scan_tag-append acc [] rest h k = rw append-nil refl
  scan_tag-append acc (c ∷ t) rest h k =
      ground (arith, scan_tag-append (acc ++ c ∷ []) t rest, append_assoc acc (c ∷ []) t)

  scan_value-append :
      (tag acc v rest : Text)
      → avoids sep v ≡ true
      → word_sep sep false rest ≡ false
      → scan_value sep tag acc (v ++ (sep ∷ rest)) ≡ (tag, acc ++ v) ∷ scan_tag sep [] rest
  unfolding scan_tag avoids
  scan_value-append tag acc [] rest h k = rw (k, append-nil) (ground arith)
  scan_value-append tag acc (c ∷ v) rest h k =
      ground (arith, scan_value-append tag (acc ++ c ∷ []) v rest, append_assoc acc (c ∷ []) v)

  -- The expression finds exactly the tags and values that were written.
  pub scan-written :
      (tokens : List Token) → Separable sep tokens → scan_tag sep [] (written sep tokens) ≡ tokens
  unfolding written
  scan-written [] h = unfold scan_tag in refl
  scan-written ((t, v) ∷ rest) h =
      scan_tag-append [] t (v ++ (sep ∷ written sep rest)) h.0 h.1
      ∙ scan_value-append t [] v (written sep rest) h.2 (word_sep-written rest h.3)
      ∙ ap (λ r. (t, v) ∷ r) (scan-written rest h.3)
