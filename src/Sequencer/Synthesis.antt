-- ===== src/Sequencer/Synthesis.antt =====
-- synthesize, of the generated C++ library: the genes by which a file with its own header is read. The
-- tags of a header are taken as `getTag` finds them by their indentation; behind an element the functions
-- go on where `getEndTag` leads in the header's text.
pub mod Same
pub mod Plain
use hddm.Prelude.{
  ℕ, zero, suc, ◌+◌, Bool, true, false, not, List, [], ◌∷◌, ◌++◌, Option, none, some, ◌==◌, ◌&&◌,
  ◌||◌, if◌then◌else◌, length, take,
}
use hddm.Prelude.Text.{Text, codes, text_eq}
use hddm.Sequencer.{Codon, codon, Codons, no_codons, next}
use hddm.Sequencer.Header.{
  Tag, tag, Tags, no_tags, more_tags, Walk, walked, throws, ◌then_walk◌, closing_line, print_tag,
  print_tags, name_in_tag, step_over,
}

-- tags_match: what is left of the two texts where they differ, and the loops over a character.
unfoldable pub differ : Text → Text → Text × Text
differ [] bs = ([], bs)
differ (a ∷ as') [] = (a ∷ as', [])
differ (a ∷ as') (b ∷ bs) = let rest = differ as' bs in if a == b then rest else (a ∷ as', b ∷ bs)

unfoldable pub skip : ℕ → Text → Text
skip c [] = []
skip c (a ∷ as') = let rest = skip c as' in if a == c then rest else a ∷ as'

abbrev pub space_code : ℕ
space_code = 32

abbrev pub slash_code : ℕ
slash_code = 47

unfoldable pub is_root_tag : Text → Bool
is_root_tag text = text_eq (take 6 text) (codes "<HDDM ")

unfoldable pub tags_match : Text → Text → Bool
tags_match a b =
    if text_eq a b
    then true
    else if is_root_tag a && is_root_tag b
    then true
    else text_eq (skip slash_code (skip space_code (differ a b).0))
        (skip slash_code (skip space_code (differ a b).1))

-- collide throws for the root, and else prints a warning: the tag is ignored.
unfoldable pub collide {ℓ} : {A : Type ℓ} → Text → A → Walk A
collide text ignored = if text_eq (name_in_tag text) (codes "HDDM") then throws else walked ignored

-- The loop over the tags of the reference, with the header's text behind them: the first one of the name,
-- with its order and the text behind it.
unfoldable pub find_tag : Text → ℕ → Text → Tags → ℕ → Walk (Option (ℕ × Tag × Text))
find_tag text level behind no_tags order = walked none
find_tag text level behind (more_tags (tag n t below) ts) order =
    let later = print_tags level ts ++ behind in
    let rest = find_tag text level behind ts (suc order) in
    if text_eq (name_in_tag text) (name_in_tag t)
    then walked (some (order, tag n t below, later))
    else step_over t (print_tag level (tag n t below) ++ later) later rest

-- What goes on below a tag: for the tags of the reference and the header's text behind them.
abbrev pub Deeper : Type 0
Deeper = Tags → Text → Walk Codons

-- synthesize's first lines, and then what is below the two tags.
unfoldable pub synthesize_with : Deeper → ℕ → Text → Tag → Text → Walk Codons
synthesize_with deeper level text (tag rname rtext rbelow) rlater =
    let matched : Walk Codons =
      if not (tags_match text rtext)
      then collide text no_codons
      else deeper rbelow (closing_line level rname rtext ++ rlater) in
    if not (text_eq (name_in_tag text) (name_in_tag rtext)) then throws else matched

-- One gene.
unfoldable pub gene_with : Deeper → ℕ → Text → Option (ℕ × Tag × Text) → Walk Codon
gene_with deeper level text none = walked (codon 0 no_codons)
gene_with deeper level text (some (order, tag rname rtext rbelow, rlater)) =
    let sequence : Walk Codon =
      synthesize_with deeper level text (tag rname rtext rbelow) rlater then_walk λ genes.
      walked (codon order genes) in
    if not (tags_match text rtext) then collide text (codon 0 no_codons) else sequence

-- The loop of synthesize over the tags of the file's header, with its text behind them.
unfoldable pub synthesize_below : ℕ → Tags → Text → Deeper
synthesize_below level no_tags behind ref rbehind = walked no_codons
synthesize_below level (more_tags (tag name text below) ts) behind ref rbehind =
    let later = print_tags level ts ++ behind in
    let deeper : Deeper =
      λ r rb. synthesize_below (suc level) below (closing_line level name text ++ later) r rb in
    let rest = synthesize_below level ts behind ref rbehind in
    find_tag text level rbehind ref 1 then_walk λ found.
    gene_with deeper level text found then_walk λ gene.
    step_over text (print_tag level (tag name text below) ++ later) later
      (rest then_walk λ genes. walked (next gene genes))

unfoldable pub synthesize : Tag → Tag → Walk Codons
synthesize (tag name text below) ref =
    synthesize_with (λ r rb. synthesize_below 1 below (closing_line 0 name text) r rb) 0 text ref []
