-- ===== src/IdGen.antt =====
-- zz_archive/pyfixmsg_plus/idgen/id_generator.py: the generators of client order ids, and their round
-- trips. `datetime.time.time()` raises, so a generator with `seed=True` is not made.
mod Tests
mod Ose
mod Nyse
use gofixmsg.Prelude.{
  ℕ, zero, suc, ◌+◌, ◌-◌, ◌*◌, ◌%◌, ◌^◌, ◌<◌, ◌≡◌, refl, sym, ap, ◌∙◌, Bool, true, false, ◌||◌,
  Option, none, some, List, [], ◌∷◌, ◌++◌, Text, arith, ltb, leb, isdigit, int, if◌then◌else◌, drop,
  lt→ltb,
}
use gofixmsg.Decimal.{show, int-show, isdigit-show, codes}

-- The numbers of Python that a difference may be.
pub data ℤ : Type 0 where
  pos negsuc : ℕ → ℤ

abbrev pub minus : ℕ → ℕ → ℤ
minus a b = if ltb a b then negsuc (b - a - 1) else pos (a - b)

-- The fields of a NumericClOrdIdGenerator.
pub record Numeric : Type 0 where
  pub uid : ℕ
  pub max_cl_ord_id : ℕ

-- `__init__` and `init`; the segment of the day is 1 without a seed.
unfoldable pub numeric : ℕ → ℕ → Bool → Option Numeric
numeric eid length seed =
    if ltb length 10 || seed
    then none
    else some (record {
      uid = (eid % 10 ^ (length - 8) + 1 * 10 ^ (length - 8)) * 10 ^ (length - 1);
      max_cl_ord_id = 10 ^ (length - 1);
    })

unfoldable pub encode : Numeric → ℕ → Option Text
encode g n = if leb g.max_cl_ord_id n then none else some (show (g.uid + n))

-- MonthClOrdIdGenerator: a Numeric of length 13 behind a letter for the day of the month.
abbrev pub day_index : ℕ → ℕ
day_index today = if ltb today 26 then b'A' + today else b'a' + today - 26

abbrev pub prefixed : ℕ → Option Text → Option Text
prefixed c none = none
prefixed c (some t) = some (c ∷ t)

unfoldable pub month_encode : ℕ → Numeric → ℕ → Option Text
month_encode today g n =
    if leb g.max_cl_ord_id n then none else prefixed (day_index today) (encode g n)

not_above : (m n : ℕ) → n < m → leb m n ≡ false
not_above m n h = ground arith

-- What `int` makes of a text that is not all digits is a parameter: it takes signs and spaces too.
module _ (int_other : Text → Option ℤ) where
  abbrev pub to_int : Text → Option ℤ
  to_int t = if isdigit t then some (pos (int t)) else int_other t

  abbrev pub less_uid : ℕ → Option ℤ → Option ℤ
  less_uid uid none = none
  less_uid uid (some (pos n)) = some (minus n uid)
  less_uid uid (some (negsuc n)) = some (negsuc (n + uid))

  unfoldable pub decode : Numeric → Text → Option ℤ
  decode g t = less_uid g.uid (to_int t)

  minus_sum : (u n : ℕ) → minus (u + n) u ≡ pos n
  minus_sum u n = ground arith

  decode-show : (g : Numeric) (n : ℕ) → decode g (show (g.uid + n)) ≡ some (pos n)
  unfolding decode
  decode-show g n =
      rw (isdigit-show (g.uid + n)) (rw (int-show (g.uid + n)) (ap some (minus_sum g.uid n)))

  encode_fits : (g : Numeric) (n : ℕ) → n < g.max_cl_ord_id → encode g n ≡ some (show (g.uid + n))
  unfolding encode
  encode_fits g n h = rw (not_above g.max_cl_ord_id n h) refl

  -- Every number below the maximum is encoded to an id, and the id decodes to the number.
  pub decode-encode :
      (g : Numeric) (n : ℕ)
      → n < g.max_cl_ord_id
      → (t : Text) × (encode g n ≡ some t) × (decode g t ≡ some (pos n))
  decode-encode g n h = (show (g.uid + n), encode_fits g n h, decode-show g n)

  unfoldable pub month_decode : Numeric → Text → Option ℤ
  month_decode g t = decode g (drop 1 t)

  -- Every number below the maximum is encoded to an id that begins with the letter of the day, for
  -- every day, and the id decodes to the number.
  pub month_decode-month_encode :
      (today : ℕ) (g : Numeric) (n : ℕ)
      → n < g.max_cl_ord_id
      → (t : Text) × (month_encode today g n ≡ some t) × (month_decode g t ≡ some (pos n))
  unfolding month_encode month_decode
  month_decode-month_encode today g n h = (
    day_index today ∷ show (g.uid + n),
    rw (not_above g.max_cl_ord_id n h) (ap (prefixed (day_index today)) (encode_fits g n h)),
    decode-show g n,
  )

-- The fields of a YMDClOrdIdGenerator.
pub record Ymd : Type 0 where
  pub ymd_prefix : Text
  pub counter : ℕ

-- `convert[i]`
abbrev pub convert : ℕ → ℕ
convert i = if ltb i 26 then b'A' + i else b'0' + i - 26

unfoldable pub ymd : ℕ → ℕ → ℕ → Ymd
ymd year month day = record {
  ymd_prefix = convert (year % 36) ∷ convert month ∷ convert day ∷ b'-' ∷ [];
  counter = 1;
}

unfoldable pub next_id : Ymd → Text × Ymd
next_id g = (g.ymd_prefix ++ show g.counter, record g { counter = g.counter + 1 })

abbrev pub or_minus_one : Option ℤ → ℤ
or_minus_one none = negsuc 0
or_minus_one (some z) = z

-- -1 for what `int` refuses.
unfoldable pub ymd_decode : (Text → Option ℤ) → Text → ℤ
ymd_decode int_other t = or_minus_one (to_int int_other (drop 4 t))

-- A generator behind `n` calls of `next_id`.
unfoldable pub after_ids : ℕ → Ymd → Ymd
after_ids zero g = g
after_ids (suc n) g = after_ids n (next_id g).1

ymd_fields :
    (n : ℕ) (g : Ymd)
    → ((after_ids n g).ymd_prefix ≡ g.ymd_prefix) × ((after_ids n g).counter ≡ n + g.counter)
unfolding after_ids next_id
ymd_fields zero g = (refl, omega arith)
ymd_fields (suc n) g = let (p, q) = ymd_fields n (next_id g).1 in (p, omega arith)

decode-id :
    (int_other : Text → Option ℤ) (a b c d n : ℕ)
    → ymd_decode int_other ((a ∷ b ∷ c ∷ d ∷ []) ++ show n) ≡ pos n
unfolding ymd_decode
decode-id int_other a b c d n = rw (isdigit-show n) (rw (int-show n) refl)

id_lem :
    (year month day n : ℕ)
    → (next_id (after_ids n (ymd year month day))).0
      ≡ (ymd year month day).ymd_prefix ++ show (n + 1)
unfolding next_id ymd
id_lem year month day n =
    let f = ymd_fields n (ymd year month day) in
    ap (λ p. p ++ show (after_ids n (ymd year month day)).counter) f.0
    ∙ ap (λ k. (ymd year month day).ymd_prefix ++ show k) f.1

-- The id that a new generator gives after `n` others decodes to `n + 1`, for every date.
pub ymd_decode-next_id :
    (int_other : Text → Option ℤ) (year month day n : ℕ)
    → ymd_decode int_other (next_id (after_ids n (ymd year month day))).0 ≡ pos (n + 1)
unfolding ymd
ymd_decode-next_id int_other year month day n =
    ap (ymd_decode int_other) (id_lem year month day n)
    ∙ decode-id int_other (convert (year % 36)) (convert month) (convert day) b'-' (n + 1)
