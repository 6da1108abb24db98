-- ===== src/Tests/Document.antt =====
-- A template, two documents and a device to run the tools on.
use hddm.Prelude.{
  ℕ, zero, suc, ◌≡◌, ◌≤◌, refl, true, false, List, [], ◌∷◌, length, take, drop, inr, leb→le,
}
use hddm.Prelude.Text.{Text, Bytes, codes, text_eq}
use hddm.Prelude.Int.{pos, negsuc}
use hddm.Outcome.{Outcome, ok}
use hddm.Dom.{
  Node, Nodes, element, text, nil, cons, Attribute, attr_type, is_occurs, get_attribute, max_occurs,
}
use hddm.Stream.{Device, Machine, file}
use hddm.XmlHddm.{
  output_records, output_record, output_stream, expected_count, output_attributes, output_value,
  collect, output_children,
}
use hddm.Scalar.{extract}
use hddm.Template.{AllTemplates, IsTemplate}
use hddm.Prelude.Int.{int_max}
use hddm.Extent.{extent_children, extent_all}
use hddm.Render.{count_tag}
use hddm.RoundTrip.Records.{AllRecords}
use hddm.RoundTrip.Top.{AllSupplied}
use hddm.Tests.Codec.{codec}

abbrev pub newline : Node
newline = text (10 ∷ [])

-- <hit label="string" energy="int" maxOccurs="unbounded" />
abbrev pub hit : Node
hit =
    element (codes "hit")
      ((codes "label", codes "string")
        ∷ (codes "energy", codes "int")
        ∷ (codes "maxOccurs", codes "unbounded")
        ∷ [])
      nil

-- <event number="long"> ... </event>
abbrev pub event_attrs : List Attribute
event_attrs = (codes "number", codes "long") ∷ []

abbrev pub event_kids : Nodes
event_kids = cons newline (cons hit (cons newline nil))

abbrev pub root_kids : Nodes
root_kids = cons newline (cons (element (codes "event") event_attrs event_kids) (cons newline nil))

-- <HDDM class="t">
abbrev pub root_attrs : List Attribute
root_attrs = (codes "class", codes "t") ∷ []

abbrev pub a_hit : Text → Text → Node
a_hit label energy =
    element (codes "hit") ((codes "label", label) ∷ (codes "energy", energy) ∷ []) nil

abbrev pub document : Text → Nodes → Node
document number hits =
    element (codes "HDDM") root_attrs
      (cons (element (codes "event") ((codes "number", number) ∷ []) hits) nil)

abbrev pub two_hits : Nodes
two_hits = cons (a_hit (codes "ab") (codes "-3")) (cons (a_hit (codes "") (codes " 70")) nil)

abbrev pub documents : List Node
documents = document (codes "1") two_hits ∷ document (codes "2") nil ∷ []

-- The bytes of a stream that was written.
abbrev pub bytes_of : Outcome Bytes → Bytes
bytes_of (ok b) = b
bytes_of _ = []

abbrev pub zeros : ℕ → Bytes
zeros zero = []
zeros (suc n) = 0 ∷ zeros n

-- A file in memory.
abbrev pub memory : Device
memory = record {
  Raw = Bytes;
  content = λ r. r;
  sgetn = λ chain n r. (take n r, drop n r);
  crc32 = λ b. pos (length b);
  fresh = zeros;
  sgetn-file = λ n r. refl;
  content-sgetn = λ n r. refl;
}

abbrev pub machine : Bytes → Machine memory
machine input = record {
  out = [];
  raw = input;
  chain = file;
  good = true;
  buffer = zeros 8;
  event_buffer_size = 8;
  integrity_check_mode = 0;
  compression_mode = 0;
  bad_crc = false;
  reqcount = negsuc 0;
  answers = [];
}

abbrev pub stored : Bytes
unfolding output_records
stored = bytes_of (output_records codec (element (codes "HDDM") root_attrs root_kids) documents)

pub stored_eq :
    output_records codec (element (codes "HDDM") root_attrs root_kids) documents ≡ ok stored
unfolding output_records output_record output_stream expected_count text_eq get_attribute
    output_attributes is_occurs output_value attr_type collect extract max_occurs
stored_eq = refl

pub root_kids-AllTemplates : AllTemplates root_kids
unfolding IsTemplate attr_type is_occurs text_eq
root_kids-AllTemplates = (
  tt,
  (
    (
      ((λ h. cc), tt),
      refl,
      (tt, ((((λ h. cc), ((λ h. cc), ((λ h. refl), tt))), refl, tt), (tt, tt))),
    ),
    (tt, tt),
  ),
)

pub documents-AllRecords : AllRecords codec root_kids documents
unfolding extent_children count_tag extent_all text_eq get_attribute output_attributes is_occurs
    output_value attr_type extract max_occurs
documents-AllRecords = (
  record {
    supplied = ((λ h. cc), ((λ h. inr (inr (leb→le 1 1 refl))), ((λ h. cc), tt)));
    small = leb→le 1044 int_max refl;
  },
  (
    record {
      supplied = ((λ h. cc), ((λ h. inr (inr (leb→le 1 1 refl))), ((λ h. cc), tt)));
      small = leb→le 1024 int_max refl;
    },
    tt,
  ),
)

-- The first document's tags, as written and as printed.
abbrev pub first_children : Nodes
first_children = cons (element (codes "event") ((codes "number", codes "1") ∷ []) two_hits) nil

abbrev pub first_bytes : Bytes
unfolding output_stream
first_bytes = bytes_of (output_children codec first_children root_kids)

pub first_bytes_eq : output_children codec first_children root_kids ≡ ok first_bytes
unfolding output_stream expected_count text_eq get_attribute output_attributes is_occurs
    output_value attr_type collect extract max_occurs
first_bytes_eq = refl

pub first_small : extent_children codec first_children root_kids ≤ int_max
unfolding extent_children extent_all text_eq get_attribute output_attributes is_occurs output_value
    attr_type extract max_occurs
first_small = leb→le 44 int_max refl

pub first_children-AllSupplied : AllSupplied root_kids first_children
unfolding count_tag text_eq
first_children-AllSupplied = ((λ h. cc), ((λ h. inr (inr (leb→le 1 1 refl))), ((λ h. cc), tt)))

-- A tag without content that may repeat.
abbrev pub empty_attrs : List Attribute
empty_attrs = (codes "maxOccurs", codes "unbounded") ∷ []

abbrev pub empty_tag : Node
empty_tag = element (codes "mark") empty_attrs nil

-- A file that turns compression and checksums on.
abbrev pub switching : Machine memory
switching =
    record (machine (0 ∷ 0 ∷ 0 ∷ 1 ∷ 0 ∷ 0 ∷ 0 ∷ 8 ∷ 0 ∷ 0 ∷ 0 ∷ 0 ∷ 0 ∷ 0 ∷ 0 ∷ 17 ∷ stored)) {
      event_buffer_size = 16;
    }
