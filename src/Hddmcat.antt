-- ===== src/Hddmcat.antt =====
-- src/hddmcat.cpp: streams with the same header are put behind one another.
pub mod Headers
pub mod Contents
use hddm.Prelude.{
  ℕ, ◌≡◌, Bool, true, false, List, [], ◌∷◌, ◌++◌, Option, none, some, length, take, ◌==◌, ◌&&◌,
  if◌then◌else◌,
}
use hddm.Prelude.Text.{Text, Bytes, codes, text_eq}
use hddm.Outcome.{Outcome, ok, exit, fault, ◌>>=◌}

-- What a round of a loop left: the loop goes on, or it was broken out of.
pub data Step {ℓ} (S : Type ℓ) : Type ℓ where
  next : S → Step S
  done : S → Step S

-- std::getline, behind the part of the line already read: the line without its end, and what follows.
-- There is none where no character is left.
unfoldable pub getline : Text → Bytes → Option (Text × Bytes)
getline [] [] = none
getline (p ∷ part) [] = some (p ∷ part, [])
getline part (c ∷ cs) =
    let more = getline (part ++ (c ∷ [])) cs in if c == 10 then some (part, cs) else more

-- while (getline(ifs, line)) body, from within a line. The result is `next` where the input ended.
unfoldable pub while_lines {ℓ} :
    {S : Type ℓ} → (S → Text → Outcome (Step S)) → S → Text → Bytes → Outcome (Step S × Bytes)
while_lines body s [] [] = ok (next s, [])
while_lines body s (p ∷ part) [] = body s (p ∷ part) >>= λ t. ok (t, [])
while_lines body s part (c ∷ cs) = elim (c == 10) [
  | true ↦ body s part >>= λ t. elim t [
    | next s' ↦ while_lines body s' [] cs
    | done s' ↦ ok (done s', cs)
  ]
  | false ↦ while_lines body s (part ++ (c ∷ [])) cs
]

-- line.substr(0, n) == prefix, for the prefix's length n
abbrev pub starts_with : Text → Text → Bool
starts_with prefix line = text_eq (take (length prefix) line) prefix

abbrev pub end_line : Text
end_line = codes "</HDDM>"

abbrev pub is_nil {ℓ} : {A : Type ℓ} → List A → Bool
is_nil [] = true
is_nil (x ∷ xs) = false

-- `stringList` and the output so far
abbrev pub Copied : Type 0
Copied = List Text × Text

unfoldable pub copy_line : Copied → Text → Outcome (Step Copied)
copy_line (lines, out) line =
    let s : Copied = (lines ++ (line ∷ []), out ++ (line ++ (10 ∷ []))) in
    ok (if text_eq line end_line then done s else next s)

-- At the end of the input the list holds one string more, which was to take the next line.
unfoldable pub copied : Step Copied × Bytes → Copied × Bytes
copied (next (lines, out), rest) = ((lines ++ ([] ∷ []), out), rest)
copied (done s, rest) = (s, rest)

-- The header of the first stream: its lines, its text as printed, and the content behind it.
unfoldable pub read_first : Bytes → Outcome (Copied × Bytes)
read_first input = elim (getline [] input) [
  | none ↦ exit 1
  | some (line, rest) ↦
      if starts_with (codes "<?xml") line
      then exit 1
      else if starts_with (codes "<HDDM") line
      then (while_lines copy_line (line ∷ [], line ++ (10 ∷ [])) [] rest >>= λ r. ok (copied r))
      else exit 1
]

-- A line of a further stream's header; the state is `h`, the lines that are still to come.
unfoldable pub check_line : List Text → Text → Outcome (Step (List Text))
check_line [] line = exit 1
check_line (expected ∷ more) line =
    if text_eq expected line
    then ok (if text_eq line end_line && is_nil more then done more else next more)
    else exit 1

-- A further stream: its content, if its header is the first one's.
unfoldable pub append_file : List Text → Bytes → Outcome Bytes
append_file lines input = elim (getline [] input) [
  | none ↦ exit 1
  | some (line, rest) ↦ if starts_with (codes "<?xml") line then exit 1 else elim lines [
    | [] ↦ fault
    | expected ∷ more ↦
        if text_eq expected line
        then (while_lines check_line more [] rest >>= λ r. ok r.1)
        else exit 1
  ]
]

-- A file that cannot be opened is `none`.
abbrev pub opened : Option Bytes → Outcome Bytes
opened none = exit 1
opened (some b) = ok b

unfoldable pub append_files : (Text → Option Bytes) → List Text → List Text → Outcome Bytes
append_files files lines [] = ok []
append_files files lines (name ∷ names) = do
  input ← opened (files name)
  content ← append_file lines input
  more ← append_files files lines names
  ok (content ++ more)

abbrev pub is_option : Text → Bool
is_option [] = false
is_option (c ∷ cs) = c == b'-'

-- `main`: the arguments name the files; without one the standard input is copied. What is printed
-- before an exit is not kept.
unfoldable pub cat : (Text → Option Bytes) → Bytes → List Text → Outcome Bytes
cat files stdin args =
    let streams : Bytes → List Text → Outcome Bytes = λ input names. do
      r ← read_first input
      more ← append_files files r.0.0 names
      ok (r.0.1 ++ (r.1 ++ more))
    in elim args [
      | [] ↦ streams stdin []
      | name ∷ names ↦
          if is_option name then exit 1 else opened (files name) >>= λ input. streams input names
    ]
