-- ===== src/Sequencer/Synthesis/Same.antt =====
-- synthesize for one header and itself.
use hddm.Prelude.{
  ℕ, suc, ◌+◌, ◌≡◌, refl, ap, ◌∙◌, subst, Bool, true, false, Option, some, arith, ◌++◌, append-nil,
}
use hddm.Prelude.Text.{Text, text_eq, text_eq_refl}
use hddm.Sequencer.{Codon, codon, Codons, next, Members, no_members, with_member, class_of}
use hddm.Sequencer.Same.{own_genes}
use hddm.Sequencer.Header.{
  Tag, tag, Tags, no_tags, more_tags, Walk, walked, closing_line, print_tag, print_tags,
  name_in_tag, get_end_tag, step_over,
}
use hddm.Sequencer.Synthesis.{
  Deeper, tags_match, find_tag, synthesize_with, gene_with, synthesize_below, synthesize,
}

-- No tag of a list has the name, as the name is compared with theirs, or theirs with it.
abbrev pub IsAbsent : Text → Tags → Type 0
IsAbsent name no_tags = Unit
IsAbsent name (more_tags (tag n text below) ts) =
    (text_eq name (name_in_tag text) ≡ false) × IsAbsent name ts

abbrev pub AreOther : Text → Tags → Type 0
AreOther name no_tags = Unit
AreOther name (more_tags (tag n text below) ts) =
    (text_eq (name_in_tag text) name ≡ false) × AreOther name ts

-- Tags below one tag have different names, at every depth.
abbrev pub AreDistinct : Tags → Type 0
AreDistinct no_tags = Unit
AreDistinct (more_tags (tag n text below) ts) =
    AreOther (name_in_tag text) ts × AreDistinct below × AreDistinct ts

-- getEndTag finds the end of each element in the header's text, at every depth.
abbrev pub HaveEnds : ℕ → Text → Tags → Type 0
HaveEnds level behind no_tags = Unit
HaveEnds level behind (more_tags (tag n text below) ts) =
    (get_end_tag text (print_tag level (tag n text below) ++ (print_tags level ts ++ behind))
      ≡ walked (print_tags level ts ++ behind))
    × HaveEnds (suc level) (closing_line level n text ++ (print_tags level ts ++ behind)) below
    × HaveEnds level behind ts

abbrev AreAbsent : Tags → Tags → Type 0
AreAbsent no_tags pre = Unit
AreAbsent (more_tags (tag n text below) ts) pre = IsAbsent (name_in_tag text) pre × AreAbsent ts pre

unfoldable pub append_tags : Tags → Tags → Tags
append_tags no_tags ts = ts
append_tags (more_tags t pre) ts = more_tags t (append_tags pre ts)

tags_count : Tags → ℕ
tags_count no_tags = 0
tags_count (more_tags t ts) = suc (tags_count ts)

tags_match_refl : (text : Text) → tags_match text text ≡ true
unfolding tags_match
tags_match_refl text = rw (text_eq_refl text) refl

step_over-found {ℓ} :
    {A : Type ℓ} (text src behind : Text) (w : Walk A)
    → get_end_tag text src ≡ walked behind
    → step_over text src behind w ≡ w
unfolding step_over
step_over-found text src behind w e = rw (e, text_eq_refl behind) refl

find_tag-own :
    (name text : Text) (level : ℕ) (behind : Text) (below ts : Tags) (order : ℕ)
    → find_tag text level behind (more_tags (tag name text below) ts) order
      ≡ walked (some (order, tag name text below, print_tags level ts ++ behind))
unfolding find_tag
find_tag-own name text level behind below ts order = rw (text_eq_refl (name_in_tag text)) refl

find_tag-other :
    (n t text : Text) (level : ℕ) (behind : Text) (below ts : Tags) (order : ℕ)
    → text_eq (name_in_tag text) (name_in_tag t) ≡ false
    → get_end_tag t (print_tag level (tag n t below) ++ (print_tags level ts ++ behind))
      ≡ walked (print_tags level ts ++ behind)
    → find_tag text level behind (more_tags (tag n t below) ts) order
      ≡ find_tag text level behind ts (suc order)
unfolding find_tag
find_tag-other n t text level behind below ts order other e = rw other (
    step_over-found t (print_tag level (tag n t below) ++ (print_tags level ts ++ behind))
      (print_tags level ts ++ behind) (find_tag text level behind ts (suc order)) e)

find_tag-append_tags :
    (name text : Text) (level : ℕ) (behind : Text) (below pre ts : Tags) (order : ℕ)
    → IsAbsent (name_in_tag text) pre
    → HaveEnds level behind (append_tags pre (more_tags (tag name text below) ts))
    → find_tag text level behind (append_tags pre (more_tags (tag name text below) ts)) order
      ≡ walked (some (order + tags_count pre, tag name text below, print_tags level ts ++ behind))
unfolding append_tags tags_count
find_tag-append_tags name text level behind below no_tags ts order h ends =
    find_tag-own name text level behind below ts order
    ∙ ap (λ k. walked (some (k, tag name text below, print_tags level ts ++ behind)))
        (let e : order ≡ order + 0 = omega arith in e)
find_tag-append_tags name text level behind below (more_tags (tag n t b) pre) ts order (other, h)
      (e, inner, ends) =
    find_tag-other n t text level behind b (append_tags pre (more_tags (tag name text below) ts))
      order other e
    ∙ find_tag-append_tags name text level behind below pre ts (suc order) h ends
    ∙ ap (λ k. walked (some (k, tag name text below, print_tags level ts ++ behind)))
        (let e' : suc order + tags_count pre ≡ order + suc (tags_count pre) = omega arith in e')

snoc_tag : Tags → Tag → Tags
snoc_tag pre t = append_tags pre (more_tags t no_tags)

append_tags-snoc_tag :
    (pre : Tags) (t : Tag) (ts : Tags)
    → append_tags pre (more_tags t ts) ≡ append_tags (snoc_tag pre t) ts
unfolding append_tags snoc_tag
append_tags-snoc_tag no_tags t ts = refl
append_tags-snoc_tag (more_tags p pre) t ts = ap (more_tags p) (append_tags-snoc_tag pre t ts)

tags_count-snoc_tag : (pre : Tags) (t : Tag) → tags_count (snoc_tag pre t) ≡ suc (tags_count pre)
unfolding append_tags snoc_tag tags_count
tags_count-snoc_tag no_tags t = refl
tags_count-snoc_tag (more_tags p pre) t = ap suc (tags_count-snoc_tag pre t)

snoc_tag-IsAbsent :
    (name n text : Text) (below pre : Tags)
    → IsAbsent name pre
    → text_eq name (name_in_tag text) ≡ false
    → IsAbsent name (snoc_tag pre (tag n text below))
unfolding append_tags snoc_tag
snoc_tag-IsAbsent name n text below no_tags h other = (other, tt)
snoc_tag-IsAbsent name n text below (more_tags (tag m t b) pre) (h, hs) other =
    (h, snoc_tag-IsAbsent name n text below pre hs other)

snoc_tag-AreAbsent :
    (ts : Tags) (n text : Text) (below pre : Tags)
    → AreAbsent ts pre
    → AreOther (name_in_tag text) ts
    → AreAbsent ts (snoc_tag pre (tag n text below))
snoc_tag-AreAbsent no_tags n text below pre h other = tt
snoc_tag-AreAbsent (more_tags (tag m t b) ts) n text below pre (h, hs) (other, others) = (
  snoc_tag-IsAbsent (name_in_tag t) n text below pre h other,
  snoc_tag-AreAbsent ts n text below pre hs others,
)

no_tags-AreAbsent : (ts : Tags) → AreAbsent ts no_tags
no_tags-AreAbsent no_tags = tt
no_tags-AreAbsent (more_tags (tag n text below) ts) = (tt, no_tags-AreAbsent ts)

module _ (number : Text → ℕ) (repeats : Text → Bool) where
  -- The members of a class for the tags below its own.
  abbrev pub members_of : Tags → Members
  members_of no_tags = no_members
  members_of (more_tags (tag name text below) ts) =
      with_member (repeats text) (class_of (number text) (members_of below)) (members_of ts)

  gene_with-own :
      (deeper : Deeper) (level : ℕ) (name text : Text) (below : Tags) (later : Text) (order : ℕ)
      (genes : Codons)
      → deeper below (closing_line level name text ++ later) ≡ walked genes
      → gene_with deeper level text (some (order, tag name text below, later))
        ≡ walked (codon order genes)
  unfolding gene_with synthesize_with
  gene_with-own deeper level name text below later order genes e =
      rw (tags_match_refl text, text_eq_refl (name_in_tag text), e) refl

  start_lem :
      (level : ℕ) (below : Tags) (behind : Text)
      → synthesize_below level below behind (append_tags no_tags below) behind
        ≡ walked (own_genes (tags_count no_tags) (members_of below))
      → synthesize_below level below behind below behind ≡ walked (own_genes 0 (members_of below))
  unfolding append_tags tags_count
  start_lem level below behind e = e

  start_ends :
      (level : ℕ) (below : Tags) (behind : Text)
      → HaveEnds level behind below
      → HaveEnds level behind (append_tags no_tags below)
  unfolding append_tags
  start_ends level below behind e = e

  synthesize_below-next :
      (level : ℕ) (name text : Text) (below ts : Tags) (behind : Text) (ref : Tags) (rbehind : Text)
      (found : Option (ℕ × Tag × Text)) (g : Codon) (gs : Codons)
      → find_tag text level rbehind ref 1 ≡ walked found
      → gene_with
          (λ r rb.
            synthesize_below
              (suc level)
              below
              (closing_line level name text ++ (print_tags level ts ++ behind))
              r
              rb)
          level
          text
          found
        ≡ walked g
      → get_end_tag text (print_tag level (tag name text below) ++ (print_tags level ts ++ behind))
        ≡ walked (print_tags level ts ++ behind)
      → synthesize_below level ts behind ref rbehind ≡ walked gs
      → synthesize_below level (more_tags (tag name text below) ts) behind ref rbehind
        ≡ walked (next g gs)
  unfolding synthesize_below
  synthesize_below-next level name text below ts behind ref rbehind found g gs e e' end rest =
      rw (synthesize_below, e, e', rest)
        (step_over-found text
          (print_tag level (tag name text below) ++ (print_tags level ts ++ behind))
          (print_tags level ts ++ behind) (walked (next g gs)) end)

  synthesize_below-append_tags :
      (level : ℕ) (ts pre : Tags) (behind : Text)
      → AreDistinct ts
      → AreAbsent ts pre
      → HaveEnds level behind ts
      → HaveEnds level behind (append_tags pre ts)
      → synthesize_below level ts behind (append_tags pre ts) behind
        ≡ walked (own_genes (tags_count pre) (members_of ts))
  unfolding own_genes
  synthesize_below-append_tags level no_tags pre behind d h ends all =
      unfold synthesize_below in refl
  synthesize_below-append_tags level (more_tags (tag name text below) ts) pre behind
        (others, inner, d) (absent, h) (end, inside, ends) all =
      let t = tag name text below in
      let pre' = snoc_tag pre t in
      let later = print_tags level ts ++ behind in
      let around = closing_line level name text ++ later in
      let genes = own_genes 0 (members_of below) in
      let deeper : synthesize_below (suc level) below around below around ≡ walked genes =
        start_lem (suc level) below around (
          synthesize_below-append_tags (suc level) below no_tags around inner
            (no_tags-AreAbsent below) inside (start_ends (suc level) below around inside)) in
      let found : find_tag text level behind (append_tags pre (more_tags t ts)) 1
          ≡ walked (some (suc (tags_count pre), t, later)) =
        find_tag-append_tags name text level behind below pre ts 1 absent all
        ∙ ap (λ k. walked (some (k, t, later)))
            (let e : 1 + tags_count pre ≡ suc (tags_count pre) = omega arith in e) in
      let rest : synthesize_below level ts behind (append_tags pre (more_tags t ts)) behind
          ≡ walked (own_genes (suc (tags_count pre)) (members_of ts)) =
        ap (λ ref. synthesize_below level ts behind ref behind) (append_tags-snoc_tag pre t ts)
        ∙ synthesize_below-append_tags level ts pre' behind d
            (snoc_tag-AreAbsent ts name text below pre h others) ends
            (subst (HaveEnds level behind) (append_tags-snoc_tag pre t ts) all)
        ∙ ap (λ k. walked (own_genes k (members_of ts))) (tags_count-snoc_tag pre t) in
      synthesize_below-next level name text below ts behind (append_tags pre (more_tags t ts))
        behind (some (suc (tags_count pre), t, later)) (codon (suc (tags_count pre)) genes)
        (own_genes (suc (tags_count pre)) (members_of ts)) found
        (gene_with-own (λ r rb. synthesize_below (suc level) below around r rb) level name text
          below later (suc (tags_count pre)) genes deeper)
        end rest

  -- For one header and itself, whose tags below one tag have different names, and where getEndTag finds the
  -- end of each element, synthesize throws no exception, and its genes are those of the class for itself.
  pub synthesize-own_genes :
      (name text : Text) (below : Tags)
      → AreDistinct below
      → HaveEnds 1 (closing_line 0 name text) below
      → synthesize (tag name text below) (tag name text below)
        ≡ walked (own_genes 0 (members_of below))
  unfolding synthesize synthesize_with
  synthesize-own_genes name text below d ends =
      let behind = closing_line 0 name text in
      let deeper = start_lem 1 below behind (
        synthesize_below-append_tags 1 below no_tags behind d (no_tags-AreAbsent below) ends
          (start_ends 1 below behind ends)) in
      rw (text_eq_refl (name_in_tag text), tags_match_refl text, append-nil behind) deeper
