-- ===== src/IdGen/Tests.antt =====
-- Witnesses for the theorems about id_generator.py.
use gofixmsg.Prelude.{◌≡◌, Option, none, some, Text, arith}
use gofixmsg.IdGen.{
  ℤ, pos, Numeric, encode, decode, decode-encode, ymd, next_id, after_ids, ymd_decode,
  ymd_decode-next_id,
}

-- `int` refuses every text that is not all digits.
abbrev strict : Text → Option ℤ
strict t = none

abbrev generator : Numeric
generator = record { uid = 107000000000; max_cl_ord_id = 1000000000 }

decode-encode_example :
    (t : Text) × (encode generator 42 ≡ some t) × (decode strict generator t ≡ some (pos 42))
decode-encode_example = decode-encode strict generator 42 (omega arith)

ymd_decode-next_id_example : ymd_decode strict (next_id (after_ids 11 (ymd 2025 11 25))).0 ≡ pos 12
ymd_decode-next_id_example = ymd_decode-next_id strict 2025 11 25 11
