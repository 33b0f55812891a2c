-- ===== src/Checksum/Tests.antt =====
-- BodyLength and CheckSum of the sample order, with witnesses.
use gofixmsg.Prelude.{
  ℕ, ◌+◌, ◌%◌, ◌<◌, ◌≤◌, ◌≡◌, refl, ◌++◌, arith, some, none, Option, Text, [], length, true,
  isdigit, int, lookup, insert, text_eq, avoids,
}
use gofixmsg.Decimal.{codes, show}
use gofixmsg.Message.{str}
use gofixmsg.Fragment.{
  number, Members, Fragment, end, field, leaf, repeat, nil, member, has, get, count,
}
use gofixmsg.Fragment.Joining.{behind}
use gofixmsg.Spec.{extract_sorting_key, number_items, get_groups, is_member_tag}
use gofixmsg.Codec.{separator, parse}
use gofixmsg.Codec.Fields.{fits, flat, mentions}
use gofixmsg.Codec.Order.{in_order, clean}
use gofixmsg.Codec.RoundTrip.{message, codec_of, WellFormed}
use gofixmsg.Codec.Samples.{schema, order_single, broker, client, no_names}
use gofixmsg.Framer.{round, deliver}
use gofixmsg.Checksum.{checksum, len_and_chsum, to_wire, byte_sum}
use gofixmsg.Checksum.BodyLength.{body_bytes, len_and_chsum_lem}
use gofixmsg.Checksum.Weights.{written_field, bytes_of, is_dict}
use gofixmsg.Checksum.Digits.{checksum_bounds}
use gofixmsg.Checksum.Sealing.{Draft, sealed, finished, body_len}
use gofixmsg.Checksum.Wire.{to_wire-delivered}

abbrev no_int : Text → Option ℕ
no_int t = none

abbrev no_list : Members → Text
no_list ms = []

abbrev draft : Draft
draft = record {
  version = codes ".4.4";
  msg_type = codes "D";
  fourth = number 11;
  entry = leaf (str (codes "id"));
  rest =
      field (number 453) (repeat (member broker (member client nil)))
        (field (number 55) (leaf (str (codes "S"))) end);
}

abbrev logout : Fragment
logout =
    field (number 8) (leaf (str (codes "FIX.4.4"))) (field (number 35) (leaf (str (codes "5"))) end)

logout_len : len_and_chsum no_int no_list none logout ≡ some (5, 936)
unfolding len_and_chsum show lookup insert get text_eq
logout_len = refl

logout_sum : checksum 936 ≡ codes "168"
unfolding checksum
logout_sum = refl

len_and_chsum_lem_example :
    let body = body_bytes logout in
    let sized = written_field 9 (show (length body)) in
    len_and_chsum no_int no_list none logout
    ≡ some (length body, byte_sum (written_field 8 (codes "FIX.4.4") ++ (sized ++ body)))
unfolding is_dict has get
len_and_chsum_lem_example = len_and_chsum_lem no_int no_list none logout (codes "FIX.4.4") refl refl

checksum_bounds_example :
    (length (checksum 936) ≡ 3)
    × (isdigit (checksum 936) ≡ true)
    × (int (checksum 936) ≡ 936 % 256)
    × (int (checksum 936) < 256)
checksum_bounds_example = checksum_bounds 936

draft-WellFormed : WellFormed schema separator order_single (finished draft)
unfolding fits in_order clean flat has mentions number_items extract_sorting_key lookup insert
    get_groups is_member_tag text_eq avoids behind bytes_of show count checksum byte_sum
draft-WellFormed = record {
  not_delimiter = refl;
  no_digit = refl;
  typed = refl;
  shaped = refl;
  ordered = refl;
  separable = refl;
}

draft-is_dict : is_dict (message (sealed draft [] [])) ≡ true
unfolding is_dict has behind
draft-is_dict = refl

draft_short : length draft.version + length (body_len draft) ≤ 4000
unfolding bytes_of show count
draft_short = omega arith

to_wire-delivered_example :
    (w : Text) × (to_wire no_int no_list (codec_of schema) (message (sealed draft [] [])) ≡ some w)
    × (round w ≡ deliver w (length w))
    × (parse no_names (codec_of schema) separator w ≡ some (message (finished draft)))
to_wire-delivered_example =
    to_wire-delivered no_int no_list no_names schema order_single draft [] [] draft-is_dict
      draft-WellFormed draft_short
