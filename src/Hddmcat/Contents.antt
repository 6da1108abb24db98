-- ===== src/Hddmcat/Contents.antt =====
-- Whole runs of src/hddmcat.cpp on streams with the same header.
use hddm.Prelude.{◌≡◌, refl, true, false, List, [], ◌∷◌, ◌++◌, Option, some}
use hddm.Prelude.Text.{Text, Bytes, text_eq_refl}
use hddm.Outcome.{ok}
use hddm.Hddmcat.{append_files, cat, is_option}
use hddm.Hddmcat.Headers.{
  lines_eq, AreLines, IsFirst, stream_of, closed, append_file-stream_of, read_first-stream_of,
}

-- Each of the named files can be opened and is a stream with the header, and these are the contents.
unfoldable pub AllStreams :
    (Text → Option Bytes) → Text → List Text → List Text → List Bytes → Type 0
AllStreams files first body [] [] = Unit
AllStreams files first body [] (c ∷ cs) = ⊥
AllStreams files first body (n ∷ ns) [] = ⊥
AllStreams files first body (n ∷ ns) (c ∷ cs) =
    (files n ≡ some (stream_of first body c)) × AllStreams files first body ns cs

abbrev pub concat : List Bytes → Bytes
concat [] = []
concat (c ∷ cs) = c ++ concat cs

lines_eq_refl : (ls : List Text) → lines_eq ls ls ≡ true
lines_eq_refl [] = refl
lines_eq_refl (l ∷ ls) = rw (text_eq_refl l) (lines_eq_refl ls)

append_files-AllStreams :
    (files : Text → Option Bytes) (first : Text) (body names : List Text) (contents : List Bytes)
    → IsFirst first
    → AreLines body
    → AllStreams files first body names contents
    → append_files files (first ∷ closed body) names ≡ ok (concat contents)
unfolding append_files AllStreams
append_files-AllStreams files first body [] [] good lines all = refl
append_files-AllStreams files first body [] (c ∷ cs) good lines all = absurd all
append_files-AllStreams files first body (n ∷ ns) [] good lines all = absurd all
append_files-AllStreams files first body (n ∷ ns) (c ∷ cs) good lines all = rw (
  all.0,
  append_file-stream_of first first body body c good good lines lines,
  lines_eq_refl (first ∷ body),
  append_files-AllStreams files first body ns cs good lines all.1,
)

-- `hddmcat` with files that are all streams with the same complete header prints one stream: that
-- header once, and behind it the contents of the files in the order of the arguments.
pub cat-AllStreams :
    (files : Text → Option Bytes) (stdin : Bytes) (first : Text) (body : List Text) (name : Text)
    (names : List Text) (contents : List Bytes)
    → IsFirst first
    → AreLines body
    → is_option name ≡ false
    → AllStreams files first body (name ∷ names) contents
    → cat files stdin (name ∷ names) ≡ ok (stream_of first body (concat contents))
unfolding cat AllStreams
cat-AllStreams files stdin first body name names [] good lines named all = absurd all
cat-AllStreams files stdin first body name names (c ∷ cs) good lines named all = rw (
  named,
  all.0,
  read_first-stream_of first body c good lines,
  append_files-AllStreams files first body names cs good lines all.1,
)
