-- ===== src/Sequencer/Synthesis/Plain.antt =====
-- synthesize for a header with a tag that has no attributes and that is not closed by itself.
use hddm.Prelude.{ℕ, suc, Option, none, some, ◌++◌}
use hddm.Prelude.Text.{Text}
use hddm.Sequencer.{Codon, Codons, next}
use hddm.Sequencer.Header.{
  Tag, tag, Tags, Walk, walked, throws, astray, ◌then_walk◌, closing_line, print_tag, print_tags,
  step_over,
}
use hddm.Sequencer.Synthesis.{gene_with, synthesize_below}

-- The walk does not end with a value.
abbrev pub IsLost {ℓ} : {A : Type ℓ} → Walk A → Type 0
IsLost (walked a) = ⊥
IsLost throws = Unit
IsLost astray = Unit

-- An end tag that is not there is not found behind the quoted texts.
abbrev IsMissing : Walk (Option ℕ) → Type 0
IsMissing (walked none) = Unit
IsMissing (walked (some n)) = ⊥
IsMissing throws = Unit
IsMissing astray = Unit

module _ (level : ℕ) (name text : Text) (below ts : Tags) (behind : Text) (ref : Tags)
    (rbehind : Text) where
  abbrev later_text : Text
  later_text = print_tags level ts ++ behind

  abbrev gene_of : Option (ℕ × Tag × Text) → Walk Codon
  gene_of found =
      gene_with
        (λ r rb.
          synthesize_below (suc level) below (closing_line level name text ++ later_text) r rb)
        level text found

  abbrev behind_gene : Codon → Walk Codons
  behind_gene gene =
      step_over text (print_tag level (tag name text below) ++ later_text) later_text
        (synthesize_below level ts behind ref rbehind then_walk λ genes. walked (next gene genes))
