-- ===== src/Extent.antt =====
-- The size of the stored form of a document, as src/xml-hddm.cpp would write it if an `int` could hold
-- any size: the bytes of the attributes, and for each tag of the template the instances' bytes behind
-- the size and the repeat count.
use hddm.Prelude.{ℕ, ◌+◌, ◌≡◌, refl, List, length, arith, if◌then◌else◌}
use hddm.Prelude.Text.{Text, Bytes, text_eq}
use hddm.Outcome.{Outcome, ok, exit, fault}
use hddm.Dom.{
  Node, Nodes, element, text, nil, cons, Attribute, attributes, child_nodes, tag_name, is_element,
}
use hddm.Runtime.{Runtime}
use hddm.XmlHddm.{output_attributes}

abbrev pub length_of : Outcome Bytes → ℕ
length_of (ok b) = length b
length_of (exit n) = 0
length_of fault = 0

unfoldable pub extent_all : (Node → ℕ) → Text → Nodes → ℕ
extent_all weigh tag nil = 0
extent_all weigh tag (cons (text _) ns) = extent_all weigh tag ns
extent_all weigh tag (cons (element t attrs kids) ns) =
    (if text_eq t tag then weigh (element t attrs kids) else 0) + extent_all weigh tag ns

module _ (rt : Runtime) where
  unfoldable mutual
    pub extent : Node → Node → ℕ
    extent this (element tag attrs kids) =
        length_of (output_attributes rt (attributes this) attrs)
        + extent_children (child_nodes this) kids
    extent this (text _) = 0

    pub extent_children : Nodes → Nodes → ℕ
    extent_children these nil = 0
    extent_children these (cons model models) =
        (if is_element model
          then 8 + extent_all (λ this. extent this model) (tag_name model) these
          else 0)
        + extent_children these models

  pub extent-element :
      (this : Node) (tag : Text) (attrs : List Attribute) (kids : Nodes)
      → extent this (element tag attrs kids)
        ≡ length_of (output_attributes rt (attributes this) attrs)
          + extent_children (child_nodes this) kids
  unfolding extent
  extent-element this tag attrs kids = refl

  pub extent_children-text :
      (these : Nodes) (t : Text) (models : Nodes)
      → extent_children these (cons (text t) models) ≡ extent_children these models
  unfolding extent
  extent_children-text these t models = omega arith

  pub extent_children-element :
      (these : Nodes) (tag : Text) (attrs : List Attribute) (kids models : Nodes)
      → extent_children these (cons (element tag attrs kids) models)
        ≡ 8
          + extent_all (λ this. extent this (element tag attrs kids)) tag these
          + extent_children these models
  unfolding extent
  extent_children-element these tag attrs kids models = refl
