-- ===== src/Tests/Structures.antt =====
-- The theorems about src/hddm-c.cpp at small templates.
use hddm.Prelude.{◌≡◌, ◌≢◌, refl, [], true, false, length, none, some, ◌==◌}
use hddm.Prelude.Text.{Text, codes, text_eq}
use hddm.Outcome.{Outcome, ok}
use hddm.Dom.{Node, element, attributes, get_attribute, is_occurs}
use hddm.Scalar.{atoi}
use hddm.HddmC.{
  Entry, Builder, check_consistency, construct_group, plural, attributes_agree, attribute_agrees,
  occurs_bound, children_agree, consult, list_type, longer_with, ends_with,
}
use hddm.HddmC.Declaration.{write_header, child_members, list_structure, child_member}
use hddm.HddmC.Consistency.{check_consistency-agrees}
use hddm.HddmC.Groups.{Extends, is_listed, construct_group-Extends}
use hddm.HddmC.Plural.{plural-throws}
use hddm.Tests.Document.{hit, root_attrs, root_kids}

abbrev first_hit : Entry
first_hit = record { parent = 1; node = hit }

abbrev second_hit : Entry
second_hit = record { parent = 2; node = hit }

check_consistency-agrees_example :
    ((2 == 1) ≡ false)
    × ((name : Text)
        → is_occurs name ≡ false
        → get_attribute name (attributes hit) ≡ get_attribute name (attributes hit))
unfolding check_consistency attributes_agree attribute_agrees text_eq get_attribute occurs_bound
    children_agree
check_consistency-agrees_example = check_consistency-agrees second_hit first_hit refl

abbrev root : Node
root = element (codes "HDDM") root_attrs root_kids

abbrev started : Builder
started = record { tags = []; header = [] }

abbrev built : Outcome Builder → Builder
built (ok s) = s
built _ = started

abbrev finished : Builder
unfolding construct_group
finished = built (construct_group (write_header (codes "s")) 0 root started)

construct_group-Extends_example :
    Extends [] finished.tags × (is_listed (codes "HDDM") finished.tags ≡ true)
unfolding construct_group consult text_eq write_header child_members list_structure occurs_bound
    get_attribute list_type plural longer_with ends_with child_member atoi finished
construct_group-Extends_example =
    construct_group-Extends (write_header (codes "s")) 0 root started finished refl

plural-throws_example :
    (length (codes "ab") ≡ 2 → plural (codes "ab") ≡ none)
    × (length (codes "ab") ≢ 2 → (r : Text) × (plural (codes "ab") ≡ some r))
plural-throws_example = plural-throws (codes "ab")
