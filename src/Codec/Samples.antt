-- ===== src/Codec/Samples.antt =====
-- An order with two parties, each with sub-parties of its own, and the specification of its type.
use gofixmsg.Prelude.{[], ◌∷◌, Text, Option, some}
use gofixmsg.Decimal.{codes}
use gofixmsg.Message.{str}
use gofixmsg.Fragment.{Tag, number, name, Fragment, end, field, leaf, repeat, nil, member}
use gofixmsg.Spec.{Composition, done, fix_tag, group}
use gofixmsg.Codec.{Schema}
use gofixmsg.Codec.RoundTrip.{Opening}

abbrev pub sub_ids : Composition
sub_ids = fix_tag 523 (fix_tag 803 done)

abbrev pub parties : Composition
parties = fix_tag 448 (fix_tag 447 (group 802 sub_ids (fix_tag 452 done)))

abbrev pub order_single : Composition
order_single = fix_tag 11 (group 453 parties (fix_tag 55 done))

abbrev pub schema : Schema
schema = record {
  msg_types = (codes "D", order_single) ∷ [];
  envelope = record { header = []; trailer = [] };
}

abbrev pub sub_id : Fragment
sub_id = field (number 523) (leaf (str (codes "X"))) end

abbrev pub broker : Fragment
broker = field (number 448) (leaf (str (codes "B"))) (
    field (number 802) (repeat (member sub_id (member sub_id nil)))
      (field (number 452) (leaf (str (codes "1"))) end))

abbrev pub client : Fragment
client =
    field (number 448) (leaf (str (codes "C")))
      (field (number 802) (repeat (member sub_id nil)) end)

abbrev pub order : Opening
order = record {
  version = codes "FIX.4.4";
  body_length = codes "5";
  msg_type = codes "D";
  fourth = number 11;
  entry = leaf (str (codes "id"));
  rest = field (number 453) (repeat (member broker (member client nil))) (
      field (number 55) (leaf (str (codes "S")))
        (field (number 10) (leaf (str (codes "123"))) end));
}

abbrev pub no_names : Text → Option Tag
no_names t = some (name t)
