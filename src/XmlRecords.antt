-- ===== src/XmlRecords.antt =====
-- The loop of `main` in src/xml-hddm.cpp: the input's lines are split into records, each goes to the XML
-- parser as a document of its own in a temporary file, and its binary form to the output. The file can be
-- opened, and the last line of the input ends with an end of line.
pub mod Splitting
pub mod Truncation
use hddm.Prelude.{
  ℕ, zero, suc, Bool, true, false, not, List, [], ◌∷◌, ◌++◌, Option, none, some, length, ltb, ◌==◌,
  ◌&&◌, ◌||◌, if◌then◌else◌,
}
use hddm.Prelude.Text.{Text, Bytes, codes}
use hddm.Dom.{Node}
use hddm.HddmXml.Header.{contains}

-- How the loop ends: with a value, by `exit`, or by std::out_of_range; or it has not ended yet when the
-- fuel for its rounds ran out.
pub data Run {ℓ} (A : Type ℓ) : Type ℓ where
  completed : A → Run A
  exits : ℕ → Run A
  throws : Run A
  unfinished : Run A

infixl 5 ◌then_run◌
abbrev pub ◌then_run◌ {ℓ} : {A B : Type ℓ} → Run A → (A → Run B) → Run B
completed a then_run f = f a
exits n then_run f = exits n
throws then_run f = throws
unfinished then_run f = unfinished

-- The input behind its first two lines: the lines to come, or a stream on which a read has failed.
pub data Input : Type 0 where
  reading : List Text → Input
  failed : Input

abbrev pub has_failed : Input → Bool
has_failed (reading lines) = false
has_failed failed = true

-- std::getline into a string. At the end of the input the string is emptied and the stream fails; on a
-- stream that has failed the string is left as it is.
unfoldable pub get_line : Text → Input → Text × Input
get_line old (reading (l ∷ ls)) = (l, reading ls)
get_line old (reading []) = ([], failed)
get_line old failed = (old, failed)

abbrev pub less_code : ℕ
less_code = 60

abbrev pub greater_code : ℕ
greater_code = 62

abbrev pub slash : ℕ
slash = 47

-- find_first_of one character: what is in front of it and what is from it on, which is nothing for npos.
unfoldable pub find_first : ℕ → Text → Text × Text
find_first c [] = ([], [])
find_first c (a ∷ as') =
    let (before, from) = find_first c as' in if a == c then ([], a ∷ as') else (a ∷ before, from)

-- The tests behind `start`: there is a tag, and it is not an end tag.
unfoldable pub begins_tag : Text → Bool
begins_tag [] = false
begins_tag (a ∷ []) = true
begins_tag (a ∷ b ∷ as') = not (b == slash)

unfoldable pub is_empty : Text → Bool
is_empty [] = true
is_empty (a ∷ as') = false

unfoldable pub last_is : ℕ → Text → Bool
last_is c [] = false
last_is c (a ∷ []) = a == c
last_is c (a ∷ b ∷ as') = last_is c (b ∷ as')

-- The name behind `<`, up to a space or a tab, or all of the text.
unfoldable pub name_of : Text → Text
name_of [] = []
name_of (a ∷ as') = let rest = name_of as' in if a == 32 || a == 9 then [] else a ∷ rest

unfoldable pub end_tag : Text → Text
end_tag [] = []
end_tag (a ∷ as') = codes "</" ++ name_of as'

-- The loop that reads on to the end of a tag: the text with all lines that it took, and the last of them.
-- Whether getline read one is not looked at.
unfoldable pub complete_tag : ℕ → Text → Text → Input → Run (Text × Text × Input)
complete_tag zero line so_far input = unfinished
complete_tag (suc fuel) line so_far input =
    let (line', input') = get_line line input in
    let rest = complete_tag fuel line' (so_far ++ line') input' in
    if not (is_empty (find_first greater_code so_far).1)
    then completed (so_far, line, input)
    else if ltb 400000 (length line)
    then exits 1
    else rest

-- The loop that copies lines up to the one with the end tag: what was written, and that line. Whether
-- getline read one is not looked at.
unfoldable pub copy_element : ℕ → Text → Text → Input → Run (List Text × Text × Input)
copy_element zero closing text input = unfinished
copy_element (suc fuel) closing text input =
    let (text', input') = get_line text input in
    let rest =
      copy_element fuel closing text' input' then_run λ r. completed (text ∷ r.0, r.1, r.2) in
    if contains closing text then completed (text ∷ [], text, input) else rest

-- One tag: the lines that are written to the temporary file, the text that is left, and the input. Where
-- `>` stands first, or not at all, substr is called behind the text's end.
unfoldable pub copy_tag : ℕ → Text → Input → Run (List Text × Text × Input)
copy_tag fuel so_far input =
    let (head, tail) = find_first greater_code so_far in
    let self_closed : Run (List Text × Text × Input) = elim tail [
      | [] ↦ throws
      | c ∷ rest ↦ completed ((head ++ (c ∷ [])) ∷ [], rest, input)
    ] in
    if is_empty head
    then throws
    else if last_is slash head
    then self_closed
    else copy_element fuel (end_tag (find_first less_code so_far).1) so_far input

-- A round of `while (text.size())`; `none` where it leaves the loop by `break` or has no text.
unfoldable pub one_tag : ℕ → Text → Text → Input → Run (Option (List Text × Text × Text × Input))
one_tag fuel line so_far input =
    if begins_tag (find_first less_code so_far).1
    then (complete_tag fuel line so_far input then_run λ r.
        copy_tag fuel r.0 r.2 then_run λ d. completed (some (d.0, d.1, r.1, d.2)))
    else completed none

-- What is left of the text goes round once more: the temporary file is closed and removed by then, so
-- that a tag there is not parsed, and the program ends.
unfoldable pub after_tag : ℕ → Text → Text → Input → Run Input
after_tag fuel line so_far input = one_tag fuel line so_far input then_run λ r. elim r [
  | none ↦ completed input
  | some d ↦ exits 1
]

module _ (xml_header doc_header : Text) where
  -- What the parser is given for a record.
  abbrev pub document_of : List Text → List Text
  document_of body = xml_header ∷ doc_header ∷ (body ++ (codes "</HDDM>" ∷ []))

  -- One line of the outer loop: the document, if there is one, and the input behind it.
  unfoldable pub one_line : ℕ → Text → Input → Run (Option (List Text) × Input)
  one_line fuel line input =
      let by_tag : Run (Option (List Text) × Input) = one_tag fuel line line input then_run λ r.
      elim r [
        | none ↦ completed (none, input)
        | some d ↦
            after_tag fuel d.2 d.1 d.3 then_run λ input'. completed (some (document_of d.0), input')
      ] in
      if ltb 500000 (length line) then exits 1 else by_tag

  -- The outer loop: the documents in their order. The fuel is for its rounds, and in each round for those
  -- of the loops inside.
  unfoldable pub split_records : ℕ → Text → Input → Run (List (List Text))
  split_records zero line input = unfinished
  split_records (suc fuel) line input =
      let (line', input') = get_line line input in
      let rest = one_line fuel line' input' then_run λ r. elim r.0 [
        | none ↦ split_records fuel line' r.1
        | some document ↦
            split_records fuel line' r.1 then_run λ documents. completed (document ∷ documents)
      ] in
      if has_failed input' then completed [] else rest
