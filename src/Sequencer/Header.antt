-- ===== src/Sequencer/Header.antt =====
-- Headers in the generated C++ library, as `getTag` finds their tags, and `getEndTag` on their text.
use hddm.Prelude.{
  ℕ, zero, suc, ◌+◌, Bool, true, false, [], ◌∷◌, ◌++◌, Option, none, some, ◌==◌, ◌||◌,
  if◌then◌else◌, length, drop, ltb,
}
use hddm.Prelude.Text.{Text, codes, text_eq}
use hddm.Hddmcat.{starts_with}

-- A tag of a header: the name of the element, the text of its tag, and the tags below it.
mutual
  pub data Tag : Type 0 where
    tag : Text → Text → Tags → Tag

  pub data Tags : Type 0 where
    no_tags : Tags
    more_tags : Tag → Tags → Tags

-- How a walk through a header ends: with a value, with an exception, or at a place from which the
-- functions read on that is not the next tag's, where the model stops.
pub data Walk {ℓ} (A : Type ℓ) : Type ℓ where
  walked : A → Walk A
  throws : Walk A
  astray : Walk A

infixl 5 ◌then_walk◌
abbrev pub ◌then_walk◌ {ℓ κ} : {A : Type ℓ} {B : Type κ} → Walk A → (A → Walk B) → Walk B
walked a then_walk f = f a
throws then_walk f = throws
astray then_walk f = astray

-- A line of a header, with two spaces for each level.
unfoldable pub header_line : ℕ → Text → Text
header_line zero text = text ++ (10 ∷ [])
header_line (suc level) text = 32 ∷ 32 ∷ header_line level text

-- The text ends with `/>`.
unfoldable pub closes : Text → Bool
closes [] = false
closes (a ∷ as') = let rest = closes as' in text_eq (a ∷ as') (codes "/>") || rest

-- The end tag of an element that was not closed by its tag, on a line of its own.
unfoldable pub closing_line : ℕ → Text → Text → Text
closing_line level name text =
    if closes text then [] else header_line level (codes "</" ++ (name ++ codes ">"))

unfoldable mutual
  pub print_tag : ℕ → Tag → Text
  print_tag level (tag name text below) =
      header_line level text ++ (print_tags (suc level) below ++ closing_line level name text)

  pub print_tags : ℕ → Tags → Text
  print_tags level no_tags = []
  print_tags level (more_tags t ts) = print_tag level t ++ print_tags level ts

-- What is in front of the first space, or all of the text.
unfoldable pub before_space : Text → Text
before_space [] = []
before_space (a ∷ as') = let rest = before_space as' in if a == 32 then [] else a ∷ rest

-- tag.substr(1,tag.find(" ")-1), which is all but the first character where there is no space.
unfoldable pub name_in_tag : Text → Text
name_in_tag [] = []
name_in_tag (a ∷ as') = before_space as'

-- std::string::find, from a position on
unfoldable pub find_text : Text → Text → Option ℕ
find_text part [] = if starts_with part [] then some 0 else none
find_text part (c ∷ cs) =
    let rest = find_text part cs in
    if starts_with part (c ∷ cs) then some 0 else elim rest [ none ↦ none | some n ↦ some (suc n) ]

unfoldable pub find_from : Text → ℕ → Text → Option ℕ
find_from part start src = elim (find_text part (drop start src)) [
  | none ↦ none
  | some n ↦ some (start + n)
]

-- In front of a position, where `none` is npos, the largest one.
unfoldable pub is_before : ℕ → Option ℕ → Bool
is_before n none = true
is_before n (some m) = ltb n m

unfoldable pub is_behind : ℕ → Option ℕ → Bool
is_behind n none = false
is_behind n (some m) = ltb m n

-- The loop over the quoted texts, which skips the end tags in them; a quote that is not closed sends it
-- back to the start of the header. Each round goes on by two quotes.
unfoldable pub skip_quoted : ℕ → Text → Text → Option ℕ → Option ℕ → Walk (Option ℕ)
skip_quoted zero etag src quote found = astray
skip_quoted (suc fuel) etag src none found = walked found
skip_quoted (suc fuel) etag src (some begin) found =
    let round : Walk (Option ℕ) = elim (find_from (34 ∷ []) (suc begin) src) [
      | none ↦ astray
      | some end ↦
          skip_quoted fuel etag src (find_from (34 ∷ []) (suc end) src)
            (if is_behind end found then find_from etag (suc end) src else found)
    ] in
    if is_before begin found then round else walked found

-- getEndTag: the text behind an element's end, for the header's text from its tag on.
unfoldable pub get_end_tag : Text → Text → Walk Text
get_end_tag text src =
    let etag = codes "</" ++ (name_in_tag text ++ codes ">") in
    let closed : Walk Text = elim (find_from text 0 src) [
      | none ↦ astray
      | some n ↦ walked (drop (suc (n + length text)) src)
    ] in
    let opened =
      skip_quoted (suc (length src)) etag src (find_from (34 ∷ []) 0 src) (find_from etag 0 src)
      then_walk λ r. elim r [
        | none ↦ throws
        | some n ↦ walked (drop (suc (n + length etag)) src)
      ] in
    if closes text then closed else opened

-- On from a tag to the one behind its element, from where the caller goes on.
unfoldable pub step_over {ℓ} : {A : Type ℓ} → Text → Text → Text → Walk A → Walk A
step_over text src behind next =
    get_end_tag text src then_walk λ p. if text_eq p behind then next else astray
