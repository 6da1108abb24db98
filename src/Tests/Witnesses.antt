-- ===== src/Tests/Witnesses.antt =====
-- The theorems about records and streams at concrete templates, documents and files.
use hddm.Prelude.{◌≡◌, drop, false, refl, ◌++◌, ◌∷◌, [], ◌+◌, true, length, some, leb→le}
use hddm.Prelude.Text.{Bytes, codes, text_eq}
use hddm.Prelude.Int.{int_max, pos}
use hddm.Outcome.{ok, exit, fault}
use hddm.Dom.{element, nil, attr_type, is_occurs, max_occurs, get_attribute}
use hddm.Extent.{extent_children}
use hddm.XmlHddm.{collect, frame}
use hddm.XmlHddm.Counting.{collect-within}
use hddm.HddmXml.{construct_children, construct_xml, read_child}
use hddm.Render.{count_tag, render_children}
use hddm.Stream.{run, turn, again, file, Machine, unzip, read_tops}
use hddm.Stream.Reading.{on_file}
use hddm.Stream.Modes.{zlib, bzip2, turn-modifier}
use hddm.Stream.Freed.{turn-freed}
use hddm.RoundTrip.Record.{construct_children-output_children}
use hddm.RoundTrip.Top.{read_tops-Reads}
use hddm.RoundTrip.Records.{run-output_records, render_records}
use hddm.RoundTrip.Empty.{read_child-frame_empty}
use hddm.Tests.Codec.{codec}
use hddm.Tests.Document.{
  root_attrs, root_kids, documents, stored, stored_eq, memory, machine, root_kids-AllTemplates,
  documents-AllRecords, first_children, first_bytes, first_bytes_eq, first_small,
  first_children-AllSupplied, two_hits, empty_attrs, empty_tag, switching,
}

run-output_records_example :
    run codec memory 3 (element (codes "HDDM") root_attrs root_kids) (on_file (machine stored))
    ≡ ok (some (render_records codec root_kids documents ++ (codes "</HDDM>" ++ (10 ∷ []))))
unfolding extent_children is_occurs text_eq attr_type
run-output_records_example =
    run-output_records codec memory (codes "HDDM") root_attrs root_kids documents stored
      (machine stored) 0 refl refl root_kids-AllTemplates documents-AllRecords stored_eq refl refl

construct_children-output_children_example :
    construct_children codec root_kids 0
      (record { out = []; size = pos (length first_bytes + 3); input = first_bytes ++ (7 ∷ []) })
    ≡ ok (record {
      out = render_children codec 0 first_children root_kids;
      size = pos 3;
      input = 7 ∷ [];
    })
construct_children-output_children_example =
    construct_children-output_children codec root_kids first_children 0 first_bytes
      root_kids-AllTemplates first_bytes_eq first_small [] 3 (7 ∷ [])

collect-within_example : collect (λ n. ok (1 ∷ [])) (codes "hit") (pos 1) 0 two_hits ≡ exit 1
unfolding count_tag text_eq
collect-within_example =
    collect-within (λ n. ok (1 ∷ [])) (λ n. 1 ∷ []) (codes "hit") (pos 1) 0 two_hits
      (λ t attrs kids h. refl)

read_child-frame_empty_example :
    read_child codec
      (λ n out input. construct_xml codec empty_tag n 1 out input)
      (record { out = []; size = pos 8; input = frame codec (max_occurs empty_attrs) [] 2 ++ [] })
    ≡ exit 5
unfolding max_occurs get_attribute text_eq
read_child-frame_empty_example =
    read_child-frame_empty codec (codes "mark") empty_attrs nil 1 2 [] (pos 8) [] refl
      (leb→le 1 2 refl) (leb→le 2 int_max refl)

-- What the zlib decompressor gives here is a modifier record for bzip2.
abbrev stacking : Machine memory
stacking =
    record (machine (0 ∷ 0 ∷ 0 ∷ 1 ∷ 0 ∷ 0 ∷ 0 ∷ 8 ∷ 0 ∷ 0 ∷ 0 ∷ 0 ∷ 0 ∷ 0 ∷ 0 ∷ 32 ∷ stored)) {
      event_buffer_size = 16;
      chain = unzip file;
      compression_mode = 0x10;
    }

turn-freed_example :
    (m' : Machine memory) × (turn codec memory
        (element (codes "HDDM") root_attrs root_kids)
        stacking
      ≡ ok (again m'))
    × (turn codec memory (element (codes "HDDM") root_attrs root_kids) m' ≡ fault)
turn-freed_example =
    turn-freed codec memory (element (codes "HDDM") root_attrs root_kids) stacking zlib bzip2 false
      (drop 4 stacking.raw) (drop 8 stacking.raw) stored refl refl refl refl (leb→le 16 16 refl)
      refl refl refl refl

turn-modifier_example :
    (r : Bytes) × (buffer : Bytes) × (r ≡ stored)
    × (turn codec memory (element (codes "HDDM") root_attrs root_kids) (on_file switching)
        ≡ ok (
            again (record switching {
              raw = r;
              buffer = buffer;
              chain = unzip file;
              good = true;
              compression_mode = 0x10;
              integrity_check_mode = 1;
            })))
turn-modifier_example =
    turn-modifier codec memory (element (codes "HDDM") root_attrs root_kids) switching zlib true
      stored refl (leb→le 16 16 refl) refl refl

read_tops-Reads_example :
    read_tops codec root_kids ([], first_bytes ++ (7 ∷ []), [])
    ≡ ok (render_children codec 0 first_children root_kids, 7 ∷ [], [])
read_tops-Reads_example =
    read_tops-Reads codec root_kids first_children first_bytes root_kids-AllTemplates
      first_children-AllSupplied first_bytes_eq first_small [] (7 ∷ []) []
