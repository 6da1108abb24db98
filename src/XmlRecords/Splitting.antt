-- ===== src/XmlRecords/Splitting.antt =====
-- Input that is made of records is split into them.
use hddm.Prelude.{
  ℕ, zero, suc, ◌+◌, ◌≤◌, ◌<◌, ◌≡◌, refl, ap, sym, ◌∙◌, true, false, List, [], ◌∷◌, ◌++◌,
  append_assoc, length, length-append, take, map, some, ltb, arith,
}
use hddm.Prelude.Text.{Text}
use hddm.HddmXml.Header.{contains}
use hddm.XmlRecords.{
  completed, ◌then_run◌, Input, reading, get_line, less_code, greater_code, slash, find_first,
  begins_tag, is_empty, last_is, end_tag, complete_tag, copy_element, copy_tag, one_tag, after_tag,
  document_of, one_line, split_records,
}

-- A record as it stands in the input: a line with a closed tag, or a first line, others, and a last one.
pub data Record : Type 0 where
  closed : Text → Record
  opened : Text → List Text → Text → Record

abbrev pub lines_of : Record → List Text
lines_of (closed line) = line ∷ []
lines_of (opened first inner last) = first ∷ (inner ++ (last ∷ []))

abbrev pub HaveNot : Text → List Text → Type 0
HaveNot part [] = Unit
HaveNot part (line ∷ lines) = (contains part line ≡ false) × HaveNot part lines

-- A line that begins a tag, with the end of that tag, and is not too long.
pub record BeginsRecord (line : Text) : Type 0 where
  pub begins : begins_tag (find_first less_code line).1 ≡ true
  pub ends : is_empty (find_first greater_code line).1 ≡ false
  pub some_head : is_empty (find_first greater_code line).0 ≡ false
  pub short : length line ≤ 500000

pub data IsSplit : Record → Type 0 where
  is_closed :
      (line rest : Text) (c : ℕ)
      → BeginsRecord line
      → last_is slash (find_first greater_code line).0 ≡ true
      → (find_first greater_code line).1 ≡ c ∷ rest
      → begins_tag (find_first less_code rest).1 ≡ false
      → IsSplit (closed line)
  is_opened :
      (first : Text) (inner : List Text) (last : Text)
      → BeginsRecord first
      → last_is slash (find_first greater_code first).0 ≡ false
      → HaveNot (end_tag (find_first less_code first).1) (first ∷ inner)
      → contains (end_tag (find_first less_code first).1) last ≡ true
      → begins_tag (find_first less_code last).1 ≡ false
      → IsSplit (opened first inner last)

pub complete_tag-whole :
    (fuel : ℕ) (line : Text) (input : Input)
    → is_empty (find_first greater_code line).1 ≡ false
    → complete_tag (suc fuel) line line input ≡ completed (line, line, input)
unfolding complete_tag
complete_tag-whole fuel line input h = rw h refl

copy_element-found :
    (fuel : ℕ) (closing text : Text) (input : Input)
    → contains closing text ≡ true
    → copy_element (suc fuel) closing text input ≡ completed (text ∷ [], text, input)
unfolding copy_element
copy_element-found fuel closing text input h = rw h refl

pub copy_element-next :
    (fuel : ℕ) (closing text text' : Text) (input input' : Input)
    → contains closing text ≡ false
    → get_line text input ≡ (text', input')
    → copy_element (suc fuel) closing text input
      ≡ (copy_element fuel closing text' input' then_run λ r. completed (text ∷ r.0, r.1, r.2))
unfolding copy_element
copy_element-next fuel closing text text' input input' h e = rw (h, e) refl

copy_element-HaveNot :
    (fuel : ℕ) (closing line : Text) (inner : List Text) (last : Text) (lines : List Text)
    → length inner + 2 ≤ fuel
    → HaveNot closing (line ∷ inner)
    → contains closing last ≡ true
    → copy_element fuel closing line (reading (inner ++ (last ∷ lines)))
      ≡ completed (line ∷ (inner ++ (last ∷ [])), last, reading lines)
unfolding get_line
copy_element-HaveNot zero closing line inner last lines enough h found = absurd (omega arith)
copy_element-HaveNot (suc zero) closing line inner last lines enough h found = absurd (omega arith)
copy_element-HaveNot (suc (suc fuel)) closing line [] last lines enough (h, hs) found =
    copy_element-next (suc fuel) closing line last (reading (last ∷ lines)) (reading lines) h refl
    ∙ rw (copy_element-found fuel closing last (reading lines) found) refl
copy_element-HaveNot (suc (suc fuel)) closing line (i ∷ inner) last lines enough (h, hs) found =
    copy_element-next (suc fuel) closing line i (reading ((i ∷ inner) ++ (last ∷ lines)))
      (reading (inner ++ (last ∷ lines))) h refl
    ∙ rw (copy_element-HaveNot (suc fuel) closing i inner last lines (omega arith) hs found) refl

copy_tag-closed :
    (fuel : ℕ) (line rest : Text) (c : ℕ) (input : Input)
    → is_empty (find_first greater_code line).0 ≡ false
    → last_is slash (find_first greater_code line).0 ≡ true
    → (find_first greater_code line).1 ≡ c ∷ rest
    → copy_tag fuel line input
      ≡ completed (((find_first greater_code line).0 ++ (c ∷ [])) ∷ [], rest, input)
unfolding copy_tag
copy_tag-closed fuel line rest c input some_head is_slash tail = rw (some_head, is_slash, tail) refl

pub copy_tag-opened :
    (fuel : ℕ) (line : Text) (input : Input)
    → is_empty (find_first greater_code line).0 ≡ false
    → last_is slash (find_first greater_code line).0 ≡ false
    → copy_tag fuel line input
      ≡ copy_element fuel (end_tag (find_first less_code line).1) line input
unfolding copy_tag
copy_tag-opened fuel line input some_head no_slash = rw (some_head, no_slash) refl

-- A first tag that is there, and nothing that begins a tag behind it.
one_line-done :
    (xml_header doc_header : Text) (fuel : ℕ) (line rest : Text) (input input' : Input)
    (body : List Text)
    → BeginsRecord line
    → copy_tag (suc fuel) line input ≡ completed (body, rest, input')
    → begins_tag (find_first less_code rest).1 ≡ false
    → one_line xml_header doc_header (suc fuel) line input
      ≡ completed (some (document_of xml_header doc_header body), input')
unfolding one_line one_tag after_tag
one_line-done xml_header doc_header fuel line rest input input' body b copied no_more =
    let fits : ltb 500000 (length line) ≡ false = let s = b.short in ground (arith, s) in
    rw (fits, b.begins, complete_tag-whole fuel line input b.ends, copied, no_more) refl

-- What is written to the temporary file of a record: the closed tag, or its lines.
abbrev pub body_of : Record → List Text
body_of (closed line) =
    ((find_first greater_code line).0 ++ take 1 (find_first greater_code line).1) ∷ []
body_of (opened first inner last) = first ∷ (inner ++ (last ∷ []))

abbrev pub lines_of_all : List Record → List Text
lines_of_all [] = []
lines_of_all (r ∷ rs) = lines_of r ++ lines_of_all rs

abbrev pub AreSplit : List Record → Type 0
AreSplit [] = Unit
AreSplit (r ∷ rs) = IsSplit r × AreSplit rs

pub length-lines_of : (r : Record) → 1 ≤ length (lines_of r)
length-lines_of (closed line) = omega arith
length-lines_of (opened first inner last) = omega arith

module _ (xml_header doc_header : Text) where
  one_record :
      (fuel : ℕ) (r : Record) (lines : List Text)
      → length (lines_of r) ≤ fuel
      → IsSplit r
      → (line : Text) × (behind : List Text) × (lines_of r ++ lines ≡ line ∷ behind)
        × (one_line xml_header doc_header fuel line (reading behind)
            ≡ completed (some (document_of xml_header doc_header (body_of r)), reading lines))
  one_record zero r lines enough h = absurd (omega (arith, length-lines_of r))
  one_record (suc fuel) (closed line) lines enough (is_closed _ rest c b is_slash tail no_more) = (
    line,
    lines,
    refl,
    one_line-done xml_header doc_header fuel line rest (reading lines) (reading lines)
          (((find_first greater_code line).0 ++ (c ∷ [])) ∷ []) b
          (copy_tag-closed (suc fuel) line rest c (reading lines) b.some_head is_slash tail) no_more
        ∙ ap
            (λ (l : Text). completed (
              some (
                  document_of xml_header doc_header (((find_first greater_code line).0 ++ l) ∷ [])),
              reading lines,
            ))
            (sym (ap (take 1) tail)),
  )
  one_record (suc fuel) (opened first inner last) lines enough
        (is_opened _ _ _ b no_slash have_not found no_more) =
      (
        first,
        inner ++ (last ∷ lines),
        ap (λ (l : List Text). first ∷ l) (append_assoc inner (last ∷ []) lines),
        one_line-done xml_header doc_header fuel first last (reading (inner ++ (last ∷ lines)))
            (reading lines) (first ∷ (inner ++ (last ∷ []))) b
            (copy_tag-opened (suc fuel) first (reading (inner ++ (last ∷ lines))) b.some_head
                no_slash
              ∙ copy_element-HaveNot (suc fuel) (end_tag (find_first less_code first).1) first inner
                  last lines (omega (arith, length-append inner (last ∷ []))) have_not found)
            no_more,
      )

  split_records-next :
      (fuel : ℕ) (old line : Text) (behind lines : List Text) (document : List Text)
      → one_line xml_header doc_header fuel line (reading behind)
        ≡ completed (some document, reading lines)
      → split_records xml_header doc_header (suc fuel) old (reading (line ∷ behind)) ≡ (
          split_records xml_header doc_header fuel line (reading lines) then_run λ documents.
          completed (document ∷ documents))
  unfolding split_records get_line
  split_records-next fuel old line behind lines document e = rw e refl

  -- A record in front, whatever follows.
  pub split_records-record :
      (fuel : ℕ) (old : Text) (r : Record) (lines : List Text)
      → length (lines_of r) ≤ fuel
      → IsSplit r
      → (line : Text) × (split_records xml_header doc_header
            (suc fuel)
            old
            (reading (lines_of r ++ lines))
          ≡ (split_records xml_header doc_header fuel line (reading lines) then_run λ documents.
              completed (document_of xml_header doc_header (body_of r) ∷ documents)))
  split_records-record fuel old r lines enough h =
      let (line, behind, e, one) = one_record fuel r lines enough h in
      (
        line,
        ap (λ l. split_records xml_header doc_header (suc fuel) old (reading l)) e
            ∙ split_records-next fuel old line behind lines _ one,
      )

  -- Input that is made of records, each on a line of its own as a closed tag, or from a line that begins
  -- with its tag to the first one with its end tag, with no other tag behind it on the same line, and no
  -- first line too long, is split into a document for each, in order, and the loop ends. Fuel above the
  -- number of lines is enough.
  pub split_records-AreSplit :
      (rs : List Record) (fuel : ℕ) (old : Text)
      → AreSplit rs
      → length (lines_of_all rs) < fuel
      → split_records xml_header doc_header fuel old (reading (lines_of_all rs))
        ≡ completed (map (λ r. document_of xml_header doc_header (body_of r)) rs)
  split_records-AreSplit rs zero old h enough = absurd (omega arith)
  split_records-AreSplit [] (suc fuel) old h enough = unfold split_records get_line in refl
  split_records-AreSplit (r ∷ rs) (suc fuel) old (h, hs) enough =
      let total = length-append (lines_of r) (lines_of_all rs) in
      let some_lines = length-lines_of r in
      let (line, e) = split_records-record fuel old r (lines_of_all rs) (omega (arith, total)) h in
      e ∙ rw (split_records-AreSplit rs fuel line hs (omega (arith, total, some_lines))) refl
