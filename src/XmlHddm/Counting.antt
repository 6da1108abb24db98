-- ===== src/XmlHddm/Counting.antt =====
-- How many instances of a tag `outputStream` of src/xml-hddm.cpp takes.
use hddm.Prelude.{
  ℕ, ◌+◌, ◌≡◌, ap, ◌∙◌, Bool, true, false, not, List, [], ◌++◌, arith, inl, inr, Bool-cases, ltb,
  leb, if◌then◌else◌, ◌==◌, ◌&&◌, ◌||◌,
}
use hddm.Prelude.Text.{Text, Bytes, text_eq}
use hddm.Prelude.Int.{ℤ, pos, pos_part, neg_part, ltb_ℤ, eqb_ℤ}
use hddm.Outcome.{Outcome, ok, exit, ◌>>=◌}
use hddm.Dom.{Node, Nodes, element, text, nil, cons, Attribute}
use hddm.XmlHddm.{collect}
use hddm.Render.{count_tag, render_all}

-- No instance at all, or no more than the bound with those that were counted before.
abbrev pub within : ℤ → ℕ → ℕ → Bool
within rep count k = (k == 0) || leb (count + k + neg_part rep) (pos_part rep)

within_one :
    (rep : ℤ) (count k : ℕ)
    → not (ltb_ℤ rep (pos (count + 1))) ≡ true
    → within rep count (1 + k) ≡ within rep (count + 1) k
within_one rep count k h = ground arith

within_full :
    (rep : ℤ) (count k : ℕ) → ltb_ℤ rep (pos (count + 1)) ≡ true → within rep count (1 + k) ≡ false
within_full rep count k h = ground arith

within_single :
    (rep : ℤ) (count k : ℕ)
    → (ltb 0 count && eqb_ℤ rep (pos 1)) ≡ true
    → within rep count (1 + k) ≡ false
within_single rep count k h = ground arith

-- The result for k instances with that output.
abbrev pub bounded : ℤ → ℕ → ℕ → Bytes → Outcome (Bytes × ℕ)
bounded rep count k bs = if within rep count k then ok (bs, count + k) else exit 1

bounded_step :
    (rep : ℤ) (count k : ℕ) (b bs : Bytes)
    → not (ltb_ℤ rep (pos (count + 1))) ≡ true
    → (bounded rep (count + 1) k bs >>= λ x. ok (b ++ x.0, x.1))
      ≡ bounded rep count (1 + k) (b ++ bs)
bounded_step rep count k b bs h = elim (Bool-cases (within rep (count + 1) k)) [
  | inl fits ↦
      rw (fits, within_one rep count k h ∙ fits) (ap (λ (n : ℕ). ok (b ++ bs, n)) (omega arith))
  | inr more ↦ rw (more, within_one rep count k h ∙ more)
]

-- The loop over a document's nodes for one tag, whose instances can each be written: the output is
-- that of the instances, in the document's order, and their number is added to the count, unless there
-- are more than maxOccurs allows, where the program leaves with status 1.
pub collect-within :
    (out : Node → Outcome Bytes) (bytes : Node → Bytes) (tag : Text) (rep : ℤ) (count : ℕ)
    (ns : Nodes)
    → ((t : Text) (attrs : List Attribute) (kids : Nodes)
        → text_eq t tag ≡ true
        → out (element t attrs kids) ≡ ok (bytes (element t attrs kids)))
    → collect out tag rep count ns ≡ bounded rep count (count_tag tag ns) (render_all bytes tag ns)
unfolding collect count_tag render_all
collect-within out bytes tag rep count nil writes = ap (λ (n : ℕ). ok ([], n)) (omega arith)
collect-within out bytes tag rep count (cons (text s) ns) writes =
    collect-within out bytes tag rep count ns writes
collect-within out bytes tag rep count (cons (element t attrs kids) ns) writes =
    elim (Bool-cases (text_eq t tag)) [
      | inr other ↦ rw other (
          collect-within out bytes tag rep count ns writes
          ∙ ap (λ (k : ℕ). bounded rep count k (render_all bytes tag ns)) (omega arith))
      | inl same ↦ elim (Bool-cases (ltb 0 count && eqb_ℤ rep (pos 1))) [
        | inl twice ↦ rw (
          same,
          writes t attrs kids same,
          twice,
          within_single rep count (count_tag tag ns) twice,
        )
        | inr first ↦ elim (Bool-cases (ltb_ℤ rep (pos (count + 1)))) [
          | inl full ↦ rw (
            same,
            writes t attrs kids same,
            first,
            full,
            within_full rep count (count_tag tag ns) full,
          )
          | inr fits ↦
              let b = bytes (element t attrs kids) in
              rw (same, writes t attrs kids same, first, fits)
                (ap (λ o. o >>= λ x. ok (b ++ x.0, x.1))
                    (collect-within out bytes tag rep (count + 1) ns writes)
                  ∙ bounded_step rep count (count_tag tag ns) b (render_all bytes tag ns)
                      (ground arith))
        ]
      ]
    ]
