-- ===== src/Tests/Splits.antt =====
-- The theorems about the splitting of XML input, at a closed tag and an element on three lines.
use hddm.Prelude.{◌≡◌, refl, List, [], ◌∷◌, ◌++◌, arith, map}
use hddm.Prelude.Text.{codes, text_eq}
use hddm.HddmXml.Header.{contains}
use hddm.XmlRecords.{
  completed, unfinished, reading, find_first, begins_tag, is_empty, last_is, end_tag, name_of,
  split_records, document_of,
}
use hddm.XmlRecords.Splitting.{
  Record, closed, opened, BeginsRecord, is_closed, is_opened, AreSplit, body_of, lines_of_all,
  split_records-AreSplit,
}
use hddm.XmlRecords.Truncation.{split_records-truncated}

abbrev records : List Record
records =
    closed (codes " <a x=\"1\" />")
    ∷ opened (codes " <b>") (codes "  <c />" ∷ []) (codes " </b>")
    ∷ []

a-BeginsRecord : BeginsRecord (codes " <a x=\"1\" />")
unfolding find_first begins_tag is_empty
a-BeginsRecord = record { begins = refl; ends = refl; some_head = refl; short = omega arith }

b-BeginsRecord : BeginsRecord (codes " <b>")
unfolding find_first begins_tag is_empty
b-BeginsRecord = record { begins = refl; ends = refl; some_head = refl; short = omega arith }

records-AreSplit : AreSplit records
unfolding find_first begins_tag is_empty last_is end_tag name_of contains text_eq
records-AreSplit = (
  is_closed (codes " <a x=\"1\" />") [] 62 a-BeginsRecord refl refl refl,
  (
    is_opened (codes " <b>") (codes "  <c />" ∷ []) (codes " </b>") b-BeginsRecord refl
        (refl, (refl, tt)) refl refl,
    tt,
  ),
)

split_records-AreSplit_example :
    split_records (codes "<?xml?>") (codes "<HDDM>") 5 [] (reading (lines_of_all records))
    ≡ completed (map (λ r. document_of (codes "<?xml?>") (codes "<HDDM>") (body_of r)) records)
split_records-AreSplit_example =
    split_records-AreSplit (codes "<?xml?>") (codes "<HDDM>") records 5 [] records-AreSplit
      (omega arith)

split_records-truncated_example :
    split_records
      (codes "<?xml?>")
      (codes "<HDDM>")
      9
      []
      (reading (lines_of_all records ++ (codes " <b>" ∷ codes "  <c />" ∷ [])))
    ≡ unfinished
unfolding find_first begins_tag is_empty last_is end_tag name_of contains text_eq
split_records-truncated_example =
    split_records-truncated (codes "<?xml?>") (codes "<HDDM>") records 9 [] (codes " <b>")
      (codes "  <c />" ∷ []) records-AreSplit (omega arith) b-BeginsRecord refl (refl, (refl, tt))
