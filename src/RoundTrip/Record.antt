-- ===== src/RoundTrip/Record.antt =====
-- The induction over the template: an element and its descendants.
use hddm.Prelude.{
  ℕ, ◌+◌, ◌≤◌, ◌<◌, ◌≡◌, refl, ap, ◌∙◌, subst, sym, true, List, [], ◌++◌, length, length-append,
  append-nil, arith,
}
use hddm.Prelude.Text.{Text, Bytes}
use hddm.Prelude.Int.{pos, int_max}
use hddm.Outcome.{ok}
use hddm.Dom.{
  Node, Nodes, element, text, nil, cons, Attribute, attributes, child_nodes, tag_name, is_element,
  max_occurs,
}
use hddm.Runtime.{Runtime}
use hddm.Template.{IsTemplate, AllTemplates, OccursApart}
use hddm.XmlHddm.{frame, output_attributes, output_stream, output_children}
use hddm.XmlHddm.Inversion.{output_stream-parts, output_children-element, output_children-text}
use hddm.Extent.{
  length_of, extent, extent_children, extent-element, extent_children-text, extent_children-element,
}
use hddm.HddmXml.{one_instance, construct_xml, construct_children, opening, bracket, closing}
use hddm.HddmXml.Steps.{Reads, Reads-bind, Reads-comp, Reads-ok, Advances-write, Advances-id}
use hddm.HddmXml.Loop.{collect-Collected}
use hddm.Render.{render, render_children}
use hddm.RoundTrip.Attributes.{output_attributes-Advances}
use hddm.RoundTrip.Frame.{frame_most}
use hddm.RoundTrip.Content.{instance_size}
use hddm.RoundTrip.Tag.{frame-Reads}

module _ (rt : Runtime) where
  abbrev pub ReadsInstance : ℕ → Node → Type 0
  ReadsInstance depth model =
      (this : Node) (b : Bytes)
      → is_element model ≡ true
      → output_stream rt this model ≡ ok b
      → extent rt this model ≤ int_max
      → (length b ≤ extent rt this model)
        × Reads
            (one_instance rt (tag_name model) (attributes model) (child_nodes model) depth
              (construct_children rt (child_nodes model) depth))
            b (render rt depth this model)

  abbrev pub ReadsChildren : ℕ → Nodes → Type 0
  ReadsChildren depth models =
      (these : Nodes) (b : Bytes)
      → output_children rt these models ≡ ok b
      → extent_children rt these models ≤ int_max
      → (length b ≤ extent_children rt these models)
        × Reads (construct_children rt models depth) b (render_children rt depth these models)

  instance-step :
      (tag : Text) (attrs : List Attribute) (kids : Nodes) (depth : ℕ)
      → OccursApart attrs
      → ReadsChildren depth kids
      → ReadsInstance depth (element tag attrs kids)
  unfolding one_instance render
  instance-step tag attrs kids depth apart inner this b _ h fits =
      let (b₁, b₂, e₁, e₂, e) = output_stream-parts rt this tag attrs kids b h in
      let stored_length : length_of (output_attributes rt (attributes this) attrs) ≡ length b₁ =
        ap length_of e₁ in
      let whole = ap length e ∙ length-append b₁ b₂ in
      let weight = extent-element rt this tag attrs kids in
      let (small, reads) = inner (child_nodes this) b₂ e₂ (omega (arith, weight)) in
      (
        omega (arith, weight, whole, stored_length),
        subst
            (λ c.
              Reads (one_instance rt tag attrs kids depth (construct_children rt kids depth)) c
                (render rt depth this (element tag attrs kids)))
            (ap (λ c. b₁ ++ c) (append-nil b₂) ∙ sym e)
            (Reads-comp (Advances-write (opening depth tag)) (
              Reads-comp
                (output_attributes-Advances rt (attributes this) attrs b₁ apart e₁
                  (omega (arith, weight, stored_length)))
                (Reads-comp (Advances-write (bracket kids))
                  (Reads-bind reads (Reads-ok (Advances-write (closing depth tag kids))))))),
      )

  pub instance-good :
      (tag : Text) (attrs : List Attribute) (kids : Nodes) (depth : ℕ)
      → IsTemplate (element tag attrs kids)
      → ReadsInstance depth (element tag attrs kids)
      → (t : Text) (attrs' : List Attribute) (kids' : Nodes) (b : Bytes)
      → output_stream rt (element t attrs' kids') (element tag attrs kids) ≡ ok b
      → extent rt (element t attrs' kids') (element tag attrs kids) ≤ int_max
      → (0 < length b)
        × (length b ≤ extent rt (element t attrs' kids') (element tag attrs kids))
        × Reads
            (one_instance rt tag attrs kids depth (construct_children rt kids depth))
            b
            (render rt depth (element t attrs' kids') (element tag attrs kids))
  unfolding IsTemplate
  instance-good tag attrs kids depth good inst t attrs' kids' b h fits =
      let (small, reads) = inst (element t attrs' kids') b refl h fits in
      (instance_size rt (element t attrs' kids') tag attrs kids b h good.1, small, reads)

  children-step :
      (model : Node) (models : Nodes) (depth : ℕ)
      → IsTemplate model
      → ReadsInstance (depth + 1) model
      → ReadsChildren depth models
      → ReadsChildren depth (cons model models)
  unfolding construct_xml render
  children-step (text t) models depth good inst more these b h fits =
      let weight = extent_children-text rt these t models in
      let (small, reads) =
        more these b (sym (output_children-text rt these t models) ∙ h) (omega (arith, weight)) in
      (omega (arith, weight), reads)
  children-step (element tag attrs kids) models depth good inst more these b h fits =
      let (buf, total, bs, e₁, e₂, e) =
        output_children-element rt these (element tag attrs kids) models b refl h in
      let weight = extent_children-element rt these tag attrs kids models in
      let c =
        collect-Collected (λ this. output_stream rt this (element tag attrs kids))
          (one_instance rt tag attrs kids (depth + 1) (construct_children rt kids (depth + 1)))
          (λ this. render rt (depth + 1) this (element tag attrs kids))
          (λ this. extent rt this (element tag attrs kids)) tag (max_occurs attrs)
          (instance-good tag attrs kids (depth + 1) good inst) these 0 buf total e₁
          (omega (arith, weight)) in
      let (small, reads) = more these bs e₂ (omega (arith, weight)) in
      let room : length buf + 4 ≤ int_max = omega (arith, weight, c.light) in
      let framed = frame rt (max_occurs attrs) buf total in
      (
        omega (
          arith,
          weight,
          c.light,
          ap length e,
          length-append framed bs,
          frame_most rt (max_occurs attrs) buf total room,
        ),
        subst
            (λ d.
              Reads (construct_children rt (cons (element tag attrs kids) models) depth) d
                (render_children rt depth these (cons (element tag attrs kids) models)))
            (sym e)
            (Reads-bind (frame-Reads rt tag attrs kids (depth + 1) _ _ _ these buf total c room)
              reads),
      )

  children-none : (depth : ℕ) → ReadsChildren depth nil
  unfolding construct_xml output_stream render
  children-none depth these b h fits =
      let no_bytes : [] ≡ b = cc in
      (
        subst (λ c. length c ≤ extent_children rt these nil) no_bytes (omega arith),
        subst (λ c. Reads (λ p. ok p) c []) no_bytes (Reads-ok Advances-id),
      )

  mutual
    unfolding IsTemplate

    pub instance-Reads : (model : Node) (depth : ℕ) → IsTemplate model → ReadsInstance depth model
    instance-Reads (element tag attrs kids) depth good =
        instance-step tag attrs kids depth good.0 (children-Reads kids depth good.2)
    instance-Reads (text t) depth good = λ this b is_tag h fits. cc

    pub children-Reads :
        (models : Nodes) (depth : ℕ) → AllTemplates models → ReadsChildren depth models
    children-Reads nil depth good = children-none depth
    children-Reads (cons model models) depth good =
        children-step model models depth good.0 (instance-Reads model (depth + 1) good.0)
          (children-Reads models depth good.1)

  -- What `outputStream` writes for the children of an element, the loop of `constructXML` over the
  -- template's children reads: where every tag of the template stores something, no occurrence bound
  -- is the name of a type, the writer succeeded and the unwrapped sizes fit an `int`, the reader takes exactly those bytes off the stream and off
  -- its size, fails no check, and prints the children as rendered.
  pub construct_children-output_children :
      (models these : Nodes) (depth : ℕ) (b : Bytes)
      → AllTemplates models
      → output_children rt these models ≡ ok b
      → extent_children rt these models ≤ int_max
      → (out : Text) (n : ℕ) (rest : Bytes)
      → construct_children rt models depth
          (record { out = out; size = pos (length b + n); input = b ++ rest })
        ≡ ok (record {
          out = out ++ render_children rt depth these models;
          size = pos n;
          input = rest;
        })
  construct_children-output_children models these depth b good h fits out n rest =
      (children-Reads models depth good these b h fits).1.run out n rest
