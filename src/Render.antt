-- ===== src/Render.antt =====
-- What `hddm-xml` should print of a document that `xml-hddm` has stored: the tags in the template's
-- order, with each stored value as its type prints it. No bytes or sizes come into it.
use hddm.Prelude.{ℕ, ◌+◌, List, [], ◌∷◌, ◌++◌, Option, none, some, if◌then◌else◌}
use hddm.Prelude.Text.{Text, text_eq}
use hddm.Prelude.Int.{pos}
use hddm.Scalar.{extract_int32, extract_int64, show_int}
use hddm.Dom.{
  Node, Nodes, element, text, nil, cons, Attribute, tag_name, attributes, child_nodes, is_element,
  get_attribute, AttrType, int, long, float, double, boolean, particle, string, uri, constant,
  attr_type, is_occurs,
}
use hddm.Particle.{particle_code}
use hddm.Runtime.{Runtime}
use hddm.XmlHddm.{read_real}
use hddm.HddmXml.{quoted, show_particle, opening, bracket, closing}

abbrev pub shown {ℓ} : {A : Type ℓ} → (A → Text) → Option A → Text
shown show none = []
shown show (some a) = show a

-- The number of instances of a tag among the nodes.
unfoldable pub count_tag : Text → Nodes → ℕ
count_tag tag nil = 0
count_tag tag (cons (text _) ns) = count_tag tag ns
count_tag tag (cons (element t attrs kids) ns) = (if text_eq t tag then 1 else 0) + count_tag tag ns

-- The instances of a tag, each rendered, in the document's order.
unfoldable pub render_all : (Node → Text) → Text → Nodes → Text
render_all one tag nil = []
render_all one tag (cons (text _) ns) = render_all one tag ns
render_all one tag (cons (element t attrs kids) ns) =
    (if text_eq t tag then one (element t attrs kids) else []) ++ render_all one tag ns

module _ (rt : Runtime) where
  -- A value's text after it has been stored and read.
  unfoldable pub value_text : AttrType → Text → Text
  value_text int s = shown show_int (extract_int32 s)
  value_text long s = shown show_int (extract_int64 s)
  value_text float s = shown rt.float.insert (read_real rt.float s)
  value_text double s = shown rt.double.insert (read_real rt.double s)
  value_text boolean s = shown show_int (extract_int32 s)
  value_text particle s = show_particle (pos (particle_code s))
  value_text string s = s
  value_text uri s = s
  value_text constant s = s

  -- A constant comes from the template, and occurrence bounds are not printed.
  unfoldable pub render_value : AttrType → Text → Text → Text → Text
  unfolding value_text
  render_value constant name type s = if is_occurs name then [] else quoted name type
  render_value t name type s = quoted name (value_text t s)

  unfoldable pub render_attributes : List Attribute → List Attribute → Text
  render_attributes these [] = []
  render_attributes these ((name, type) ∷ models) =
      render_value (attr_type type) name type (get_attribute name these)
      ++ render_attributes these models

  unfoldable mutual
    pub render : ℕ → Node → Node → Text
    render depth this (element tag attrs kids) =
        opening depth tag
        ++ (render_attributes (attributes this) attrs
            ++ (bracket kids
                ++ (render_children depth (child_nodes this) kids ++ closing depth tag kids)))
    render depth this (text _) = []

    pub render_children : ℕ → Nodes → Nodes → Text
    render_children depth these nil = []
    render_children depth these (cons model models) =
        (if is_element model
          then render_all (λ this. render (depth + 1) this model) (tag_name model) these
          else [])
        ++ render_children depth these models
