-- ===== src/Tests/Concatenation.antt =====
-- The theorems about headers at two small files for src/hddmcat.cpp, and at a small template.
use hddm.Prelude.{◌++◌, ◌≡◌, refl, ◌∷◌, [], Option, some, none, List, if◌then◌else◌}
use hddm.Prelude.Text.{Text, Bytes, codes, text_eq}
use hddm.Outcome.{ok, exit}
use hddm.Hddmcat.{append_file, cat}
use hddm.Hddmcat.Headers.{
  IsFirst, AreLines, stream_of, closed, text_of, append_file-stream_of, append_file-truncated,
}
use hddm.Hddmcat.Contents.{concat, AllStreams, cat-AllStreams}
use hddm.Dom.{element}
use hddm.HddmXml.{quoted}
use hddm.HddmXml.Header.{read_header, contains, xml_preamble}
use hddm.XmlHddm.Document.{construct_document, print_attributes}
use hddm.RoundTrip.Header.{root_line, read_header-construct_document}
use hddm.RoundTrip.Header.Lines.{AllPlain, IsPlain, documents_lines}
use hddm.RoundTrip.Concatenation.{cat-output_records}
use hddm.XmlHddm.{output_records}
use hddm.Tests.Codec.{codec}
use hddm.Tests.Document.{root_attrs, root_kids, documents, stored, stored_eq}

-- Two files with the same header, and one that was cut off inside it.
abbrev first_line : Text
first_line = codes "<HDDM>"

abbrev header_body : List Text
header_body = codes " <a />" ∷ []

abbrev files : Text → Option Bytes
files name =
    if text_eq name (codes "one")
    then some (stream_of first_line header_body (1 ∷ 2 ∷ []))
    else if text_eq name (codes "two")
    then some (stream_of first_line header_body (3 ∷ []))
    else none

first_line-IsFirst : IsFirst first_line
unfolding text_eq
first_line-IsFirst = record { plain = refl; hddm = refl }

header_body-AreLines : AreLines header_body
unfolding text_eq
header_body-AreLines = (refl, refl, tt)

cat-AllStreams_example :
    cat files [] (codes "one" ∷ codes "two" ∷ [])
    ≡ ok (stream_of first_line header_body (1 ∷ 2 ∷ 3 ∷ []))
unfolding AllStreams text_eq
cat-AllStreams_example =
    cat-AllStreams files [] first_line header_body (codes "one") (codes "two" ∷ [])
      ((1 ∷ 2 ∷ []) ∷ (3 ∷ []) ∷ []) first_line-IsFirst header_body-AreLines refl (refl, (refl, tt))

append_file-stream_of_example :
    append_file (first_line ∷ closed header_body) (stream_of first_line [] (3 ∷ [])) ≡ exit 1
unfolding text_eq
append_file-stream_of_example =
    append_file-stream_of first_line first_line header_body [] (3 ∷ []) first_line-IsFirst
      first_line-IsFirst header_body-AreLines tt

append_file-truncated_example :
    append_file (first_line ∷ closed header_body) (text_of (first_line ∷ [])) ≡ ok []
append_file-truncated_example =
    append_file-truncated first_line [] header_body first_line-IsFirst tt

root_kids-AllPlain : AllPlain root_kids
unfolding IsPlain
root_kids-AllPlain = (
  tt,
  (
    (
      refl,
      (refl, refl, tt),
      (tt, ((refl, (refl, refl, (refl, refl, (refl, refl, tt))), tt), (tt, tt))),
    ),
    (tt, tt),
  ),
)

read_header-construct_document_example :
    read_header (construct_document 0 (element (codes "HDDM") root_attrs root_kids) ++ (1 ∷ []))
    ≡ ok (record {
      preamble = xml_preamble;
      line = root_line root_attrs ++ (10 ∷ []);
      document =
          (xml_preamble ++ (root_line root_attrs ++ (10 ∷ [])))
          ++ concat (closed (documents_lines 1 root_kids));
      content = 1 ∷ [];
    })
unfolding contains print_attributes quoted text_eq
read_header-construct_document_example =
    read_header-construct_document (codes "class") (codes "t") [] root_kids (1 ∷ [])
      (refl, refl, tt) root_kids-AllPlain refl refl refl

-- Two files that were written after the template.
abbrev written : Bytes
written = construct_document 0 (element (codes "HDDM") root_attrs root_kids) ++ stored

cat-output_records_example :
    (b : Bytes) × (output_records codec
        (element (codes "HDDM") root_attrs root_kids)
        (documents ++ documents)
      ≡ ok b)
    × (cat (λ name. some written) [] (codes "one" ∷ codes "two" ∷ [])
        ≡ ok (construct_document 0 (element (codes "HDDM") root_attrs root_kids) ++ b))
cat-output_records_example =
    cat-output_records codec (λ name. some written) [] root_attrs root_kids documents documents
      stored stored (codes "one") (codes "two") (refl, refl, tt) root_kids-AllPlain refl refl
      stored_eq stored_eq refl refl
