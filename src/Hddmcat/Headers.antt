-- ===== src/Hddmcat/Headers.antt =====
-- Headers in src/hddmcat.cpp: which streams are accepted, and what is printed of them.
use hddm.Prelude.{
  ℕ, ◌≡◌, refl, ap, ◌∙◌, Bool, true, false, not, List, [], ◌∷◌, ◌++◌, some, take, ◌==◌, ◌&&◌,
  if◌then◌else◌, append_assoc, append-nil, inl, inr, Bool-cases,
}
use hddm.Prelude.Text.{Text, Bytes, codes, text_eq, text_eq→eq, text_eq_refl, text_eq_flip}
use hddm.Outcome.{Outcome, ok, exit, ◌>>=◌}
use hddm.Hddmcat.{
  Step, next, done, getline, while_lines, starts_with, end_line, copy_line, copied, read_first,
  check_line, append_file,
}

-- The text has no end of line in it.
abbrev pub is_line : Text → Bool
is_line [] = true
is_line (c ∷ cs) = not (c == 10) && is_line cs

-- The lines, each with its end.
abbrev pub text_of : List Text → Text
text_of [] = []
text_of (l ∷ ls) = l ++ (10 ∷ text_of ls)

-- Lines that do not end a header.
abbrev pub AreLines : List Text → Type 0
AreLines [] = Unit
AreLines (l ∷ ls) = (is_line l ≡ true) × (text_eq l end_line ≡ false) × AreLines ls

-- The lines of a header behind its first.
abbrev pub closed : List Text → List Text
closed [] = end_line ∷ []
closed (l ∷ ls) = l ∷ closed ls

abbrev pub lines_eq : List Text → List Text → Bool
lines_eq [] [] = true
lines_eq [] (m ∷ ms) = false
lines_eq (l ∷ ls) [] = false
lines_eq (l ∷ ls) (m ∷ ms) = text_eq l m && lines_eq ls ms

is_line-parts :
    (c : ℕ) (cs : Text) → is_line (c ∷ cs) ≡ true → ((c == 10) ≡ false) × (is_line cs ≡ true)
is_line-parts c cs h = elim (Bool-cases (c == 10)) [
  | inl ends ↦ absurd (let h' = rw ends at h in cc)
  | inr apart ↦ (apart, rw apart at h)
]

getline-line :
    (part l : Text) (rest : Bytes)
    → is_line l ≡ true
    → getline part (l ++ (10 ∷ rest)) ≡ some (part ++ l, rest)
unfolding getline
getline-line [] [] rest h = refl
getline-line (p ∷ part) [] rest h = rw append-nil
getline-line part (c ∷ cs) rest h =
    let (apart, h') = is_line-parts c cs h in
    rw apart (
      getline-line (part ++ (c ∷ [])) cs rest h'
      ∙ ap (λ p. some (p, rest)) (append_assoc part (c ∷ []) cs))

pub while_lines-line {ℓ} :
    {S : Type ℓ} (body : S → Text → Outcome (Step S)) (s : S) (part l : Text) (rest : Bytes)
    → is_line l ≡ true
    → while_lines body s part (l ++ (10 ∷ rest)) ≡ (
        body s (part ++ l) >>= λ t. elim t [
          | next s' ↦ while_lines body s' [] rest
          | done s' ↦ ok (done s', rest)
        ])
unfolding while_lines
while_lines-line body s [] [] rest h = refl
while_lines-line body s (p ∷ part) [] rest h = rw append-nil
while_lines-line body s part (c ∷ cs) rest h =
    let (apart, h') = is_line-parts c cs h in
    rw (while_lines, apart)
      (while_lines-line body s (part ++ (c ∷ [])) cs rest h'
        ∙ ap
            (λ p. body s p >>= λ t. elim t [
              | next s' ↦ while_lines body s' [] rest
              | done s' ↦ ok (done s', rest)
            ])
            (append_assoc part (c ∷ []) cs))

-- The first loop over a complete header keeps and prints its lines.
copy_line-closed :
    (body lines : List Text) (out : Text) (content : Bytes)
    → AreLines body
    → while_lines copy_line (lines, out) [] (text_of (closed body) ++ content)
      ≡ ok (done (lines ++ closed body, out ++ text_of (closed body)), content)
unfolding copy_line
copy_line-closed [] lines out content h =
    while_lines-line copy_line (lines, out) [] end_line content refl ∙ rw (text_eq_refl end_line)
copy_line-closed (l ∷ ls) lines out content (plain, other, more) =
    ap (while_lines copy_line (lines, out) []) (append_assoc l (10 ∷ text_of (closed ls)) content)
    ∙ while_lines-line copy_line (lines, out) [] l (text_of (closed ls) ++ content) plain
    ∙ rw (
      other,
      copy_line-closed ls (lines ++ (l ∷ [])) (out ++ (l ++ (10 ∷ []))) content more,
      append_assoc lines (l ∷ []) (closed ls),
      append_assoc out (l ++ (10 ∷ [])) (text_of (closed ls)),
      append_assoc l (10 ∷ []) (text_of (closed ls)),
    )

-- The loop over another header compares all of its lines.
check_line-closed :
    (a b : List Text) (content : Bytes)
    → AreLines a
    → AreLines b
    → while_lines check_line (closed a) [] (text_of (closed b) ++ content)
      ≡ (if lines_eq a b then ok (done [], content) else exit 1)
unfolding check_line
check_line-closed [] [] content h k =
    while_lines-line check_line (end_line ∷ []) [] end_line content refl
    ∙ rw (text_eq_refl end_line)
check_line-closed [] (m ∷ ms) content h (plain, other, more) =
    ap (while_lines check_line (closed []) []) (append_assoc m (10 ∷ text_of (closed ms)) content)
    ∙ while_lines-line check_line (closed []) [] m (text_of (closed ms) ++ content) plain
    ∙ rw (text_eq_flip m end_line other)
check_line-closed (l ∷ ls) [] content (plain, other, more) k =
    while_lines-line check_line (closed (l ∷ ls)) [] end_line content refl ∙ rw other refl
check_line-closed (l ∷ ls) (m ∷ ms) content (_, _, k) (plain, other, more) =
    ap (while_lines check_line (closed (l ∷ ls)) [])
      (append_assoc m (10 ∷ text_of (closed ms)) content)
    ∙ while_lines-line check_line (closed (l ∷ ls)) [] m (text_of (closed ms) ++ content) plain
    ∙ elim (Bool-cases (text_eq l m)) [
      | inl same ↦ rw (same, other) (check_line-closed ls ms content k more)
      | inr apart ↦ rw apart
    ]

-- A header's first line.
pub record IsFirst (line : Text) : Type 0 where
  pub plain : is_line line ≡ true
  pub hddm : starts_with (codes "<HDDM") line ≡ true

-- A stream: its first line, the other lines of its header, and what is behind it.
abbrev pub stream_of : Text → List Text → Bytes → Bytes
stream_of first body content = text_of (first ∷ closed body) ++ content

-- A line that begins like a header does not begin like an XML declaration.
not_xml :
    (line : Text)
    → starts_with (codes "<HDDM") line ≡ true
    → starts_with (codes "<?xml") line ≡ false
not_xml line h = rw (text_eq→eq (take 5 line) (codes "<HDDM") h) (unfold text_eq in refl)

getline-stream_of :
    (first : Text) (body : List Text) (content : Bytes)
    → IsFirst first
    → getline [] (stream_of first body content) ≡ some (first, text_of (closed body) ++ content)
getline-stream_of first body content good =
    ap (getline []) (append_assoc first (10 ∷ text_of (closed body)) content)
    ∙ getline-line [] first (text_of (closed body) ++ content) good.plain

pub read_first-stream_of :
    (first : Text) (body : List Text) (content : Bytes)
    → IsFirst first
    → AreLines body
    → read_first (stream_of first body content)
      ≡ ok ((first ∷ closed body, text_of (first ∷ closed body)), content)
unfolding read_first copied
read_first-stream_of first body content good lines = rw (
  read_first,
  getline-stream_of first body content good,
  not_xml first good.hddm,
  good.hddm,
  copy_line-closed body (first ∷ []) (first ++ (10 ∷ [])) content lines,
  append_assoc first (10 ∷ []) (text_of (closed body)),
)

-- A further stream behind a first one with header `first`, `body`: if its header is the same, line by
-- line, its content is taken, and the program leaves with status 1 otherwise.
pub append_file-stream_of :
    (first other : Text) (body lines : List Text) (content : Bytes)
    → IsFirst first
    → IsFirst other
    → AreLines body
    → AreLines lines
    → append_file (first ∷ closed body) (stream_of other lines content)
      ≡ (if lines_eq (first ∷ body) (other ∷ lines) then ok content else exit 1)
unfolding append_file
append_file-stream_of first other body lines content good good' h h' =
    rw (append_file, getline-stream_of other lines content good', not_xml other good'.hddm)
      (elim (Bool-cases (text_eq first other)) [
        | inl same ↦
            rw (same, check_line-closed body lines content h h')
              (elim (Bool-cases (lines_eq body lines)) [
                | inl alike ↦ rw alike
                | inr differ ↦ rw differ
              ])
        | inr differ ↦ rw differ
      ])

check_line-truncated :
    (ls more : List Text)
    → AreLines ls
    → while_lines check_line (closed (ls ++ more)) [] (text_of ls) ≡ ok (next (closed more), [])
unfolding check_line while_lines
check_line-truncated [] more h = refl
check_line-truncated (l ∷ ls) more (plain, other, h) =
    while_lines-line check_line (closed (l ∷ (ls ++ more))) [] l (text_of ls) plain
    ∙ rw (text_eq_refl l, other) (check_line-truncated ls more h)

-- A further file that ends inside the first one's header, behind a complete line, is accepted as a
-- stream without content: the program does not ask whether `</HDDM>` was seen.
pub append_file-truncated :
    (first : Text) (lines more : List Text)
    → IsFirst first
    → AreLines lines
    → append_file (first ∷ closed (lines ++ more)) (text_of (first ∷ lines)) ≡ ok []
unfolding append_file
append_file-truncated first lines more good h = rw (
  append_file,
  getline-line [] first (text_of lines) good.plain,
  not_xml first good.hddm,
  text_eq_refl first,
  check_line-truncated lines more h,
)
