-- ===== src/Fragment/Tests.antt =====
-- The searches on a message with two parties, with a witness.
use gofixmsg.Prelude.{◌≡◌, refl, ◌∷◌, []}
use gofixmsg.Message.{str}
use gofixmsg.Fragment.{
  number, Fragment, end, field, leaf, repeat, nil, member, anywhere, find_all, at, index,
  among_tags, all_tags, has, anywhere_groups, find_groups,
}
use gofixmsg.Fragment.Searching.{found_any, searches_agree}

abbrev party : Fragment
party = field (number 448) (leaf (str (b'A' ∷ []))) end

abbrev order : Fragment
order =
    field (number 35) (leaf (str (b'D' ∷ [])))
      (field (number 453) (repeat (member end (member party nil))) end)

paths : find_all (number 448) order ≡ (at (number 453) ∷ index 1 ∷ at (number 448) ∷ []) ∷ []
unfolding has anywhere_groups find_groups
paths = refl

searches_agree_example :
    (found_any (find_all (number 448) order) ≡ anywhere (number 448) order)
    × (among_tags (number 448) (all_tags order) ≡ anywhere (number 448) order)
searches_agree_example = searches_agree (number 448) order
