-- ===== src/Codec/Tests.antt =====
-- The codec on an order with two parties, one of them with a group of its own, with witnesses.
use gofixmsg.Prelude.{
  isdigit, int, ◌≡◌, refl, ◌∷◌, [], some, none, Text, lookup, arith, insert, text_eq, avoids,
}
use gofixmsg.Decimal.{codes}
use gofixmsg.Message.{str}
use gofixmsg.Fragment.{number, end, field, leaf, repeat, member, set, nil, append, has}
use gofixmsg.Spec.{
  done, fix_tag, group, extract_sorting_key, number_items, get_groups, is_member_tag,
}
use gofixmsg.Codec.{Schema, top_field, scan_tag, serialise, parse, separator, returned}
use gofixmsg.Codec.Fields.{fits, mentions, flat}
use gofixmsg.Codec.Order.{in_order, clean}
use gofixmsg.Codec.RoundTrip.{message, WellFormed, codec_of, parse-serialise}
use gofixmsg.Codec.Samples.{schema, order_single, order, sub_ids, no_names}
use gofixmsg.Codec.Edges.{parse-few}

order-WellFormed : WellFormed schema separator order_single order
unfolding fits in_order clean flat has mentions number_items extract_sorting_key lookup insert
    get_groups is_member_tag text_eq avoids
order-WellFormed = record {
  not_delimiter = refl;
  no_digit = refl;
  typed = refl;
  shaped = refl;
  ordered = refl;
  separable = refl;
}

parse-serialise_example :
    (w : Text) × (serialise (codec_of schema) separator (message order) ≡ some w)
    × (parse no_names (codec_of schema) separator w ≡ some (message order))
parse-serialise_example =
    parse-serialise no_names schema separator order_single order order-WellFormed

parse-few_example : parse no_names (codec_of schema) separator (codes "8=FIX") ≡ none
unfolding scan_tag
parse-few_example = parse-few no_names schema separator (codes "8=FIX") (omega arith)

-- A count of 0 for a group inside a member: the field behind it, which belongs to the member, is read as the
-- first of a member of that group.
empty_inner :
    parse no_names (codec_of schema) b'|' (codes "8=F|9=5|35=D|453=1|448=B|802=0|452=1|10=0|")
    ≡ some (
        field (number 8) (leaf (str (codes "F"))) (
          field (number 9) (leaf (str (codes "5"))) (
            field (number 35) (leaf (str (codes "D"))) (
              field
                (number 453)
                (repeat (
                  member
                    (field (number 448) (leaf (str (codes "B"))) (
                      field
                        (number 802)
                        (repeat (member (field (number 452) (leaf (str (codes "1"))) end) nil))
                        end))
                    nil))
                (field (number 10) (leaf (str (codes "0"))) end)))))
unfolding parse lookup isdigit text_eq top_field get_groups insert int is_member_tag returned set
    append
empty_inner = refl

-- A type whose members have two inner groups.
abbrev two_inner : Schema
two_inner = record schema {
  msg_types =
      (codes "D", group 453 (fix_tag 448 (group 802 sub_ids (group 539 sub_ids done))) done) ∷ [];
}

-- The count of the second inner group ends the enclosing group, and is read as a field of the message.
second_inner :
    parse no_names
      (codec_of two_inner)
      b'|'
      (codes "8=F|9=5|35=D|453=1|448=B|802=1|523=X|539=1|10=0|")
    ≡ some (
        field (number 8) (leaf (str (codes "F"))) (
          field (number 9) (leaf (str (codes "5"))) (
            field (number 35) (leaf (str (codes "D"))) (
              field
                (number 453)
                (repeat (
                  member
                    (field (number 448) (leaf (str (codes "B"))) (
                      field
                        (number 802)
                        (repeat (member (field (number 523) (leaf (str (codes "X"))) end) nil))
                        end))
                    nil))
                (field
                  (number 539)
                  (leaf (str (codes "1")))
                  (field (number 10) (leaf (str (codes "0"))) end))))))
unfolding parse lookup isdigit text_eq top_field get_groups insert int is_member_tag returned set
    append
second_inner = refl
