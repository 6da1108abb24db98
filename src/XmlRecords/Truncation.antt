-- ===== src/XmlRecords/Truncation.antt =====
-- Input that ends inside a record is never done.
use hddm.Prelude.{
  ℕ, zero, suc, ◌<◌, ◌≡◌, refl, ap, ◌∙◌, true, false, List, [], ◌∷◌, ◌++◌, append_assoc, length,
  length-append, ltb, arith,
}
use hddm.Prelude.Text.{Text, text_eq}
use hddm.HddmXml.Header.{contains}
use hddm.XmlRecords.{
  unfinished, reading, failed, get_line, less_code, greater_code, slash, find_first, begins_tag,
  last_is, end_tag, complete_tag, copy_element, copy_tag, one_tag, one_line, split_records,
}
use hddm.XmlRecords.Splitting.{
  Record, lines_of, HaveNot, BeginsRecord, AreSplit, lines_of_all, copy_element-next,
  copy_tag-opened, length-lines_of, split_records-record,
}

-- On a stream that has failed the loop copies the text it has, for ever.
copy_element-failed :
    (fuel : ℕ) (closing text : Text)
    → contains closing text ≡ false
    → copy_element fuel closing text failed ≡ unfinished
unfolding get_line
copy_element-failed zero closing text h = unfold copy_element in refl
copy_element-failed (suc fuel) closing text h =
    copy_element-next fuel closing text text failed failed h refl
    ∙ rw (copy_element-failed fuel closing text h) refl

copy_element-truncated :
    (fuel : ℕ) (closing text : Text) (lines : List Text)
    → contains closing [] ≡ false
    → HaveNot closing (text ∷ lines)
    → copy_element fuel closing text (reading lines) ≡ unfinished
unfolding get_line
copy_element-truncated zero closing text lines some_tag h = unfold copy_element in refl
copy_element-truncated (suc fuel) closing text [] some_tag (h, hs) =
    copy_element-next fuel closing text [] (reading []) failed h refl
    ∙ rw (copy_element-failed fuel closing [] some_tag) refl
copy_element-truncated (suc fuel) closing text (l ∷ lines) some_tag (h, hs) =
    copy_element-next fuel closing text l (reading (l ∷ lines)) (reading lines) h refl
    ∙ rw (copy_element-truncated fuel closing l lines some_tag hs) refl

contains-end_tag : (text : Text) → begins_tag text ≡ true → contains (end_tag text) [] ≡ false
unfolding contains end_tag begins_tag text_eq
contains-end_tag [] h = cc
contains-end_tag (c ∷ text) h = refl

module _ (xml_header doc_header : Text) where
  one_line-truncated :
      (fuel : ℕ) (first : Text) (lines : List Text)
      → BeginsRecord first
      → last_is slash (find_first greater_code first).0 ≡ false
      → HaveNot (end_tag (find_first less_code first).1) (first ∷ lines)
      → one_line xml_header doc_header fuel first (reading lines) ≡ unfinished
  unfolding one_line one_tag complete_tag
  one_line-truncated zero first lines b no_slash have_not =
      let fits : ltb 500000 (length first) ≡ false = let s = b.short in ground (arith, s) in
      rw (fits, b.begins) refl
  one_line-truncated (suc fuel) first lines b no_slash have_not =
      let fits : ltb 500000 (length first) ≡ false = let s = b.short in ground (arith, s) in
      let copied : copy_tag (suc fuel) first (reading lines) ≡ unfinished =
        copy_tag-opened (suc fuel) first (reading lines) b.some_head no_slash
        ∙ copy_element-truncated (suc fuel) (end_tag (find_first less_code first).1) first lines
            (contains-end_tag (find_first less_code first).1 b.begins) have_not in
      rw (fits, b.begins, b.ends, copied) refl

  -- Where the input ends before the end tag of a record, with whole records in front of it, the loop has
  -- not ended with any fuel above the number of their lines: getline fails, the text stays without the
  -- end tag, and the loop goes on.
  pub split_records-truncated :
      (rs : List Record) (fuel : ℕ) (old first : Text) (lines : List Text)
      → AreSplit rs
      → length (lines_of_all rs) < fuel
      → BeginsRecord first
      → last_is slash (find_first greater_code first).0 ≡ false
      → HaveNot (end_tag (find_first less_code first).1) (first ∷ lines)
      → split_records xml_header doc_header fuel old (reading (lines_of_all rs ++ (first ∷ lines)))
        ≡ unfinished
  split_records-truncated rs zero old first lines h enough b no_slash have_not =
      unfold split_records in refl
  split_records-truncated [] (suc fuel) old first lines h enough b no_slash have_not =
      unfold split_records get_line in
      rw (one_line-truncated fuel first lines b no_slash have_not) refl
  split_records-truncated (r ∷ rs) (suc fuel) old first lines (h, hs) enough b no_slash have_not =
      let total = length-append (lines_of r) (lines_of_all rs) in
      let (line, e) =
        split_records-record xml_header doc_header fuel old r (lines_of_all rs ++ (first ∷ lines))
          (omega (arith, total)) h in
      ap (λ l. split_records xml_header doc_header (suc fuel) old (reading l))
        (append_assoc (lines_of r) (lines_of_all rs) (first ∷ lines))
      ∙ e
      ∙ rw
          (split_records-truncated rs fuel line first lines hs
            (omega (arith, total, length-lines_of r)) b no_slash have_not)
          refl
