-- ===== src/RoundTrip/Content.antt =====
-- A tag whose template stores something takes up bytes, so the reader's loops, which run while the
-- size is positive, do not end early.
use hddm.Prelude.{
  ◌≤◌, ◌<◌, ◌≡◌, refl, ap, ◌∙◌, subst, sym, true, false, ◌++◌, List, [], ◌∷◌, length, length-append,
  arith, Option, none, some, inl, inr, Bool-cases, ◌||◌,
}
use hddm.Prelude.Text.{Text, Bytes}
use hddm.Prelude.Int.{pos}
use hddm.Outcome.{ok, ◌>>=◌}
use hddm.Scalar.{extract_int32, extract_int64}
use hddm.Dom.{
  Node, Nodes, element, text, nil, cons, Attribute, attributes, child_nodes, get_attribute,
  AttrType, int, long, float, double, boolean, particle, string, uri, constant, attr_type,
  is_occurs, max_occurs,
}
use hddm.Particle.{particle_code}
use hddm.Runtime.{Runtime}
use hddm.Template.{is_stored, stores_attributes, has_element}
use hddm.XmlHddm.{
  initialised, read_real, output_value, output_attributes, output_stream, output_children, frame,
}
use hddm.XmlHddm.Inversion.{output_stream-parts, output_children-text, output_children-element}
use hddm.RoundTrip.Attributes.{stored-eq-ok, passed-eq-ok}
use hddm.RoundTrip.Frame.{frame_size}

stored_size :
    {A : Type 0} (o : Option A) (put : A → Bytes) (b : Bytes)
    → (initialised o >>= λ v. ok (put v)) ≡ ok b
    → ((v : A) → 4 ≤ length (put v))
    → 4 ≤ length b
stored_size none put b h len = cc
stored_size (some v) put b h len = let e : put v ≡ b = cc in subst (λ c. 4 ≤ length c) e (len v)

module _ (rt : Runtime) where
  value_size :
      (t : AttrType) (s : Text) (b : Bytes)
      → output_value rt t s ≡ ok b
      → is_stored t ≡ true
      → 4 ≤ length b
  unfolding output_value
  value_size int s b h st =
      stored_size (extract_int32 s) rt.put_int b h (λ v. omega (arith, rt.length-put_int v))
  value_size boolean s b h st =
      stored_size (extract_int32 s) rt.put_int b h (λ v. omega (arith, rt.length-put_int v))
  value_size long s b h st =
      stored_size (extract_int64 s) rt.put_long b h (λ v. omega (arith, rt.length-put_long v))
  value_size float s b h st =
      stored_size (read_real rt.float s) rt.put_float b h
        (λ v. omega (arith, rt.length-put_float v))
  value_size double s b h st =
      stored_size (read_real rt.double s) rt.put_double b h
        (λ v. omega (arith, rt.length-put_double v))
  value_size particle s b h st =
      stored_size (some (pos (particle_code s))) rt.put_int b h
        (λ v. omega (arith, rt.length-put_int v))
  value_size string s b h st =
      stored_size (some s) rt.put_string b h (λ v. omega (arith, rt.length-put_string v))
  value_size uri s b h st =
      stored_size (some s) rt.put_string b h (λ v. omega (arith, rt.length-put_string v))
  value_size constant s b h st = cc

  constant_none :
      (t : AttrType) (s : Text) (b : Bytes)
      → output_value rt t s ≡ ok b
      → is_stored t ≡ false
      → [] ≡ b
  unfolding output_value
  constant_none constant s b h st = cc
  constant_none _ s b h st = cc

  attributes_size :
      (these models : List Attribute) (b : Bytes)
      → output_attributes rt these models ≡ ok b
      → stores_attributes models ≡ true
      → 4 ≤ length b
  attributes_size these [] b h st = cc
  attributes_size these ((name, type) ∷ models) b h st = elim (Bool-cases (is_occurs name)) [
    | inl occurs ↦
        attributes_size these models b (passed-eq-ok rt these models name type b occurs h)
          (ground arith)
    | inr apart ↦
        let (b₁, b₂, e₁, e₂, e) = stored-eq-ok rt these models name type b apart h in
        let whole = ap length e in
        let total = length-append b₁ b₂ in
        elim (Bool-cases (is_stored (attr_type type))) [
          | inl here ↦ omega (
            arith,
            whole,
            total,
            value_size (attr_type type) (get_attribute name these) b₁ e₁ here,
          )
          | inr later ↦
              omega (arith, whole, total, attributes_size these models b₂ e₂ (ground arith))
        ]
  ]

  pub children_size :
      (these models : Nodes) (b : Bytes)
      → output_children rt these models ≡ ok b
      → has_element models ≡ true
      → 4 ≤ length b
  children_size these nil b h st = cc
  children_size these (cons (text t) models) b h st =
      children_size these models b (sym (output_children-text rt these t models) ∙ h) st
  children_size these (cons (element tag attrs kids) models) b h st =
      let (buf, count, bs, e₁, e₂, e) =
        output_children-element rt these (element tag attrs kids) models b refl h in
      let prefix = frame rt (max_occurs attrs) buf count in
      omega
        (arith, ap length e, length-append prefix bs, frame_size rt (max_occurs attrs) buf count)

  pub instance_size :
      (this : Node) (tag : Text) (attrs : List Attribute) (kids : Nodes) (b : Bytes)
      → output_stream rt this (element tag attrs kids) ≡ ok b
      → (stores_attributes attrs || has_element kids) ≡ true
      → 0 < length b
  instance_size this tag attrs kids b h st =
      let (b₁, b₂, e₁, e₂, e) = output_stream-parts rt this tag attrs kids b h in
      let whole = ap length e in
      let total = length-append b₁ b₂ in
      elim (Bool-cases (stores_attributes attrs)) [
        | inl yes_attrs ↦
            omega (arith, whole, total, attributes_size (attributes this) attrs b₁ e₁ yes_attrs)
        | inr no_attrs ↦
            omega
              (arith, whole, total, children_size (child_nodes this) kids b₂ e₂ (rw no_attrs at st))
      ]

  -- A tag without stored attributes writes nothing for them.
  pub attributes_none :
      (these models : List Attribute) (b : Bytes)
      → output_attributes rt these models ≡ ok b
      → stores_attributes models ≡ false
      → [] ≡ b
  attributes_none these [] b h st = unfold output_attributes in cc
  attributes_none these ((name, type) ∷ models) b h st = elim (Bool-cases (is_occurs name)) [
    | inl occurs ↦
        attributes_none these models b (passed-eq-ok rt these models name type b occurs h)
          (ground arith)
    | inr apart ↦
        let (b₁, b₂, e₁, e₂, e) = stored-eq-ok rt these models name type b apart h in
        let first =
          constant_none (attr_type type) (get_attribute name these) b₁ e₁ (ground arith) in
        let rest = attributes_none these models b₂ e₂ (ground arith) in
        ap (λ x. x ++ []) first ∙ ap (λ y. b₁ ++ y) rest ∙ sym e
  ]
