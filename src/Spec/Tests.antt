-- ===== src/Spec/Tests.antt =====
-- The specification's tables on a group of parties, with witnesses.
use gofixmsg.Prelude.{[], ◌∷◌, ◌≡◌, refl, true, length, lookup, insert, nat_eq}
use gofixmsg.Spec.{
  Composition, done, fix_tag, component, group, Envelope, extract_sorting_key, sort_key,
  is_member_tag, or_default, header_tags, number_items,
}
use gofixmsg.Spec.Keys.{
  Numbered, tags_in_order, distinct, absent, apart, no_components, sorting_key-Numbered,
  component_overlaps,
}

abbrev parties : Composition
parties = fix_tag 448 (fix_tag 447 (group 802 (fix_tag 523 (fix_tag 803 done)) done))

abbrev order_single : Composition
order_single = fix_tag 11 (component (group 453 parties done) (fix_tag 55 (fix_tag 54 done)))

abbrev bare : Envelope
bare = record { header = []; trailer = [] }

parties_keys : sort_key (extract_sorting_key parties bare) 447 ≡ 33
unfolding extract_sorting_key number_items lookup insert
parties_keys = refl

trailer_key : sort_key (extract_sorting_key parties bare) 10 ≡ 10000000000
unfolding extract_sorting_key number_items lookup insert
trailer_key = refl

members : is_member_tag 448 parties ≡ true
unfolding is_member_tag
members = refl

sorting_key-Numbered_example :
    Numbered
      (extract_sorting_key parties bare)
      (length (or_default bare.header header_tags))
      (tags_in_order parties)
unfolding no_components distinct absent tags_in_order
sorting_key-Numbered_example = sorting_key-Numbered parties bare refl refl

abbrev pair : Composition
pair = fix_tag 1 (fix_tag 2 done)

component_overlaps_example :
    let keys = number_items 40 (component pair (fix_tag 55 (fix_tag 54 done))) [] in
    Numbered keys 41 (1 ∷ 2 ∷ []) × Numbered keys 41 (55 ∷ 54 ∷ [])
unfolding distinct absent apart tags_in_order no_components
component_overlaps_example =
    component_overlaps pair (fix_tag 55 (fix_tag 54 done)) 40 [] refl refl refl refl refl
