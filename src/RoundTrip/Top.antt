-- ===== src/RoundTrip/Top.antt =====
-- The top-level tags of a record, which `main` of src/hddm-xml.cpp reads itself.
use hddm.Prelude.{
  ℕ, ◌+◌, ◌≤◌, ◌<◌, ◌≡◌, refl, ap, ◌∙◌, sym, true, List, [], ◌++◌, length, append_assoc, append-nil,
  arith, ◌⊎◌, inl, inr, Bool-cases,
}
use hddm.Prelude.Text.{Text, Bytes}
use hddm.Prelude.Int.{ℤ, pos, int_max, ltb_ℤ}
use hddm.Outcome.{Outcome, ok, ◌>>=◌, >>=-eq-ok}
use hddm.Dom.{
  Node, Nodes, element, text, nil, cons, Attribute, attributes, tag_name, is_element, max_occurs,
}
use hddm.Runtime.{Runtime}
use hddm.Template.{AllTemplates, IsTemplate}
use hddm.XmlHddm.{frame, output_stream, output_children}
use hddm.XmlHddm.Inversion.{output_children-element, output_children-text}
use hddm.HddmXml.{Progress, read_child, one_instance, construct_xml, construct_children}
use hddm.HddmXml.Steps.{at}
use hddm.HddmXml.Loop.{Collected, collect-Collected}
use hddm.Extent.{extent, extent_children, extent_children-text, extent_children-element}
use hddm.Render.{count_tag, render_all, render, render_children}
use hddm.Stream.{min_occurs, read_top, read_tops}
use hddm.RoundTrip.Frame.{frame_many, frame_one}
use hddm.RoundTrip.Tag.{frame-Reads}
use hddm.RoundTrip.Record.{instance-Reads, instance-good}

-- A top-level tag that the reader does not ask about: it is optional, or may repeat, or is there.
abbrev pub IsSupplied : Node → Nodes → Type 0
IsSupplied model these =
    (min_occurs (attributes model) ≡ pos 0)
    ⊎ ((ltb_ℤ (pos 1) (max_occurs (attributes model)) ≡ true)
        ⊎ (0 < count_tag (tag_name model) these))

abbrev pub AllSupplied : Nodes → Nodes → Type 0
AllSupplied nil these = Unit
AllSupplied (cons model models) these =
    (is_element model ≡ true → IsSupplied model these) × AllSupplied models these

module _ (rt : Runtime) where
  read_top-of_child :
      (model : Node) (p q : Progress) (answers : List Text)
      → read_child rt (λ size out input. construct_xml rt model size 1 out input) p ≡ ok q
      → (ltb_ℤ (pos 0) (rt.get_int p.input).0 ≡ true) ⊎ (min_occurs (attributes model) ≡ pos 0)
      → read_top rt model (p.out, p.input, answers) ≡ ok (q.out, q.input, answers)
  unfolding read_child read_top
  read_top-of_child model p q answers h test =
      elim (Bool-cases (ltb_ℤ (pos 0) (rt.get_int p.input).0)) [
        | inl held ↦
            let (r, e, k) =
              >>=-eq-ok
                (construct_xml rt model (rt.get_int p.input).0 1 p.out (rt.get_int p.input).1) _
                (rw held at h) in
            rw (held, e) (cc)
        | inr empty ↦ elim test [
          | inl held ↦ cc
          | inr optional ↦ rw (empty, optional) (let k = rw empty at h in cc)
        ]
      ]

  first_int :
      (n : ℕ) (b : Bytes) (more : Bytes)
      → 0 < n
      → n ≤ int_max
      → ltb_ℤ (pos 0) (rt.get_int ((rt.put_int (pos n) ++ b) ++ more)).0 ≡ true
  first_int n b more content fits =
      rw
        (
          append_assoc (rt.put_int (pos n)) b more,
          rt.get-put_int (pos n) (b ++ more) (record { above = omega arith; below = fits }),
        )
        (ground arith)

  -- The size in front of a framed tag is positive if the tag may repeat or has an instance.
  framed_first :
      (rep : ℤ) (buf more : Bytes) (count k : ℕ)
      → length buf + 4 ≤ int_max
      → k ≤ length buf
      → (ltb_ℤ (pos 1) rep ≡ true) ⊎ (0 < k)
      → ltb_ℤ (pos 0) (rt.get_int (frame rt rep buf count ++ more)).0 ≡ true
  framed_first rep buf more count k fits sized test = elim (Bool-cases (ltb_ℤ (pos 1) rep)) [
    | inl many ↦
        rw (frame_many rt rep buf count many fits)
          (first_int (length buf + 4) (rt.put_int (pos count) ++ buf) more (omega arith) fits)
    | inr single ↦ elim test [
      | inl many ↦ cc
      | inr held ↦
          rw (frame_one rt rep buf count single (omega arith))
            (first_int (length buf) buf more (omega arith) (omega arith))
    ]
  ]

  read_top-frame :
      (out : Node → Outcome Bytes) (one : Node → Text) (weigh : Node → ℕ) (tag : Text)
      (attrs : List Attribute) (kids these : Nodes) (buf : Bytes) (total : ℕ)
      → Collected out
          (one_instance rt tag attrs kids 1 (construct_children rt kids 1))
          one
          weigh
          tag
          (max_occurs attrs)
          these
          0
          buf
          total
      → length buf + 4 ≤ int_max
      → IsSupplied (element tag attrs kids) these
      → (printed : Text) (rest : Bytes) (answers : List Text)
      → read_top rt
          (element tag attrs kids)
          (printed, frame rt (max_occurs attrs) buf total ++ rest, answers)
        ≡ ok (printed ++ render_all one tag these, rest, answers)
  read_top-frame out one weigh tag attrs kids these buf total c room supplied printed rest answers =
      let framed = frame rt (max_occurs attrs) buf total in
      read_top-of_child (element tag attrs kids) (at printed (length framed + 0) (framed ++ rest))
        (at (printed ++ render_all one tag these) 0 rest) answers
        ((frame-Reads rt tag attrs kids 1 out one weigh these buf total c room).run printed 0 rest)
        (elim supplied [
          | inl optional ↦ inr optional
          | inr present ↦ inl (
              framed_first (max_occurs attrs) buf rest total (count_tag tag these) room c.sized
                present)
        ])

  -- The top-level loop takes what was written for the children of the root and prints it, and asks no
  -- question: where every tag of the template stores something, no occurrence bound is the name of a
  -- type, each top-level tag is optional, may repeat or is there, and the sizes fit an `int`.
  pub read_tops-Reads :
      (models these : Nodes) (b : Bytes)
      → AllTemplates models
      → AllSupplied models these
      → output_children rt these models ≡ ok b
      → extent_children rt these models ≤ int_max
      → (out : Text) (rest : Bytes) (answers : List Text)
      → read_tops rt models (out, b ++ rest, answers)
        ≡ ok (out ++ render_children rt 0 these models, rest, answers)
  unfolding read_tops render IsTemplate
  read_tops-Reads nil these b good supplied h fits out rest answers =
      let no_bytes : [] ≡ b = unfold output_stream in cc in rw (← no_bytes, append-nil)
  read_tops-Reads (cons (text t) models) these b good supplied h fits out rest answers =
      read_tops-Reads models these b good.1 supplied.1
        (sym (output_children-text rt these t models) ∙ h)
        (omega (arith, extent_children-text rt these t models)) out rest answers
  read_tops-Reads (cons (element tag attrs kids) models) these b good supplied h fits out rest
        answers =
      let (buf, total, bs, e₁, e₂, e) =
        output_children-element rt these (element tag attrs kids) models b refl h in
      let weight = extent_children-element rt these tag attrs kids models in
      let c =
        collect-Collected (λ this. output_stream rt this (element tag attrs kids))
          (one_instance rt tag attrs kids 1 (construct_children rt kids 1))
          (λ this. render rt 1 this (element tag attrs kids))
          (λ this. extent rt this (element tag attrs kids)) tag (max_occurs attrs)
          (instance-good rt tag attrs kids 1 good.0
            (instance-Reads rt (element tag attrs kids) 1 good.0))
          these 0 buf total e₁ (omega (arith, weight)) in
      let room : length buf + 4 ≤ int_max = omega (arith, weight, c.light) in
      let framed = frame rt (max_occurs attrs) buf total in
      ap (λ s. read_tops rt (cons (element tag attrs kids) models) (out, s, answers))
        (ap (λ s. s ++ rest) e ∙ append_assoc framed bs rest)
      ∙ ap (λ o. o >>= λ s. read_tops rt models s)
          (read_top-frame _ _ _ tag attrs kids these buf total c room (supplied.0 refl) out
            (bs ++ rest) answers)
      ∙ read_tops-Reads models these bs good.1 supplied.1 e₂ (omega (arith, weight)) _ rest answers
      ∙ ap (λ o. ok (o, rest, answers)) (append_assoc out _ (render_children rt 0 these models))
