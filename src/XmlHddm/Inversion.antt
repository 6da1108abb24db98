-- ===== src/XmlHddm/Inversion.antt =====
-- What a successful run of the writer of src/xml-hddm.cpp went through: its parts succeeded, and the
-- output is theirs.
use hddm.Prelude.{ℕ, ◌+◌, ◌≡◌, refl, true, not, List, ◌++◌, length, ◌==◌, ltb, ◌&&◌, ap, ◌∙◌, false}
use hddm.Prelude.Text.{Text, Bytes, text_eq}
use hddm.Prelude.Int.{ℤ, pos, ltb_ℤ, eqb_ℤ}
use hddm.Outcome.{Outcome, ok, require->>=, >>=-eq-ok}
use hddm.Dom.{
  Node, Nodes, element, text, cons, Attribute, tag_name, attributes, child_nodes, is_element,
  max_occurs,
}
use hddm.Runtime.{Runtime}
use hddm.XmlHddm.{collect, output_attributes, frame, output_stream, output_children, expected_count}

pub collect-taken :
    (out : Node → Outcome Bytes) (tag : Text) (rep : ℤ) (count : ℕ) (t : Text)
    (attrs : List Attribute) (kids ns : Nodes) (bs : Bytes) (total : ℕ)
    → text_eq t tag ≡ true
    → collect out tag rep count (cons (element t attrs kids) ns) ≡ ok (bs, total)
    → (b : Bytes) × (more : Bytes) × (out (element t attrs kids) ≡ ok b)
      × (not (ltb 0 count && eqb_ℤ rep (pos 1)) ≡ true)
      × (not (ltb_ℤ rep (pos (count + 1))) ≡ true)
      × (collect out tag rep (count + 1) ns ≡ ok (more, total))
      × (bs ≡ b ++ more)
unfolding collect
collect-taken out tag rep count t attrs kids ns bs total same h =
    let (b, e₁, k₁) = >>=-eq-ok (out (element t attrs kids)) _ (rw same at h) in
    let (e₂, k₂) = require->>= (not (ltb 0 count && eqb_ℤ rep (pos 1))) 1 _ k₁ in
    let (e₃, k₃) = require->>= (not (ltb_ℤ rep (pos (count + 1)))) 1 _ k₂ in
    let (r, e₄, k₄) = >>=-eq-ok (collect out tag rep (count + 1) ns) _ k₃ in
    let same_total : r.1 ≡ total = cc in
    (b, r.0, e₁, e₂, e₃, e₄ ∙ ap (λ n. ok (r.0, n)) same_total, cc)

module _ (rt : Runtime) where
  pub output_stream-parts :
      (this : Node) (tag : Text) (attrs : List Attribute) (kids : Nodes) (b : Bytes)
      → output_stream rt this (element tag attrs kids) ≡ ok b
      → (b₁ : Bytes) × (b₂ : Bytes) × (output_attributes rt (attributes this) attrs ≡ ok b₁)
        × (output_children rt (child_nodes this) kids ≡ ok b₂)
        × (b ≡ b₁ ++ b₂)
  unfolding output_stream
  output_stream-parts this tag attrs kids b h =
      let (_, k₁) = require->>= (length (attributes this) == expected_count attrs) 1 _ h in
      let (b₁, e₁, k₂) = >>=-eq-ok (output_attributes rt (attributes this) attrs) _ k₁ in
      let (b₂, e₂, k₃) = >>=-eq-ok (output_children rt (child_nodes this) kids) _ k₂ in
      (b₁, b₂, e₁, e₂, cc)

  pub output_children-text :
      (these : Nodes) (t : Text) (models : Nodes)
      → output_children rt these (cons (text t) models) ≡ output_children rt these models
  unfolding output_stream
  output_children-text these t models = refl

  pub output_children-element :
      (these : Nodes) (model : Node) (models : Nodes) (b : Bytes)
      → is_element model ≡ true
      → output_children rt these (cons model models) ≡ ok b
      → (buf : Bytes) × (count : ℕ) × (bs : Bytes) × (collect
            (λ this. output_stream rt this model)
            (tag_name model)
            (max_occurs (attributes model))
            0
            these
          ≡ ok (buf, count))
        × (output_children rt these models ≡ ok bs)
        × (b ≡ frame rt (max_occurs (attributes model)) buf count ++ bs)
  unfolding output_stream
  output_children-element these model models b is_tag h =
      let rep = max_occurs (attributes model) in
      let taken = collect (λ this. output_stream rt this model) (tag_name model) rep 0 these in
      let (r, e₁, k₁) = >>=-eq-ok taken _ (rw is_tag at h) in
      let (bs, e₂, k₂) = >>=-eq-ok (output_children rt these models) _ k₁ in
      (r.0, r.1, bs, e₁, e₂, cc)

pub collect-skipped :
    (out : Node → Outcome Bytes) (tag : Text) (rep : ℤ) (count : ℕ) (t : Text)
    (attrs : List Attribute) (kids ns : Nodes) (r : Bytes × ℕ)
    → text_eq t tag ≡ false
    → collect out tag rep count (cons (element t attrs kids) ns) ≡ ok r
    → collect out tag rep count ns ≡ ok r
unfolding collect
collect-skipped out tag rep count t attrs kids ns r other h = rw other at h
