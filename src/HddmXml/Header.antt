-- ===== src/HddmXml/Header.antt =====
-- The reading of a stream's header in `main` of src/hddm-xml.cpp.
use hddm.Prelude.{Bool, not, [], ◌∷◌, ◌++◌, ◌||◌, if◌then◌else◌}
use hddm.Prelude.Text.{Text, Bytes, codes, text_eq}
use hddm.Outcome.{Outcome, ok, exit, require, ◌>>=◌, ◌>>◌}
use hddm.Hddmcat.{Step, next, done, while_lines, starts_with, end_line, is_nil}

-- line.find(part) != npos
unfoldable pub contains : Text → Text → Bool
contains part [] = starts_with part []
contains part (c ∷ cs) = starts_with part (c ∷ cs) || contains part cs

-- The preamble and the line of the root tag; the first loop.
unfoldable pub preamble_line : Text × Text → Text → Outcome (Step (Text × Text))
preamble_line (preamble, header) line =
    if contains (codes "<?xml") line
    then ok (next (line ++ (10 ∷ []), header))
    else if contains (codes "<!DOCTYPE HDDM>") line
    then ok (next (preamble ++ (line ++ (10 ∷ [])), header))
    else if is_nil line
    then ok (next (preamble ++ (10 ∷ []), header))
    else if contains (codes "<HDDM ") line
    then ok (done (preamble, line ++ (10 ∷ [])))
    else exit 1

-- The second loop, which copies the rest of the header to the temporary file.
unfoldable pub document_line : Text → Text → Outcome (Step Text)
document_line document line =
    ok (if text_eq line end_line then done (document ++ line) else next (document ++ line))

abbrev pub state_of {ℓ} : {S : Type ℓ} → Step S → S
state_of (next s) = s
state_of (done s) = s

abbrev pub xml_preamble : Text
xml_preamble = codes "<?xml version=\"1.0\" encoding=\"UTF-8\"?>" ++ (10 ∷ [])

-- What is printed first, the text that the XML parser is given, and the input behind the header.
pub record Header : Type 0 where
  pub preamble : Text
  pub line : Text
  pub document : Text
  pub content : Bytes

unfoldable pub read_header : Bytes → Outcome Header
read_header input = do
  (t, rest) ← while_lines preamble_line (xml_preamble, []) [] input
  require (not (is_nil (state_of t).1)) 1
  (u, content) ← while_lines document_line ((state_of t).0 ++ (state_of t).1) [] rest
  ok (record {
    preamble = (state_of t).0;
    line = (state_of t).1;
    document = state_of u;
    content = content;
  })
