-- ===== src/Dom.antt =====
-- The document tree that the tools read through Xerces-C: `DOMElement`, `DOMNamedNodeMap`,
-- `DOMNodeList` as src/xml-hddm.cpp, src/hddm-xml.cpp and src/hddm-c.cpp use them, and the reading of
-- the attributes by which an HDDM template describes a tag.
use hddm.Prelude.{ℕ, suc, Bool, true, false, List, [], ◌∷◌, if◌then◌else◌, ◌||◌}
use hddm.Prelude.Text.{Text, codes, text_eq}
use hddm.Prelude.Int.{ℤ, pos, int_max}
use hddm.Scalar.{atoi}

abbrev pub Attribute : Type 0
Attribute = Text × Text

-- An element has a tag, its attributes in the order of the `DOMNamedNodeMap`, and its child nodes.
-- `text` stands for every node that is no element.
mutual
  pub data Node : Type 0 where
    element : Text → List Attribute → Nodes → Node
    text : Text → Node

  pub data Nodes : Type 0 where
    nil : Nodes
    cons : Node → Nodes → Nodes

-- getLength() of a DOMNodeList
abbrev pub count_nodes : Nodes → ℕ
count_nodes nil = 0
count_nodes (cons _ ns) = suc (count_nodes ns)

abbrev pub tag_name : Node → Text
tag_name (element tag _ _) = tag
tag_name (text _) = []

abbrev pub attributes : Node → List Attribute
attributes (element _ attrs _) = attrs
attributes (text _) = []

abbrev pub child_nodes : Node → Nodes
child_nodes (element _ _ kids) = kids
child_nodes (text _) = nil

-- getAttribute(name): the empty text if there is no such attribute
unfoldable pub get_attribute : Text → List Attribute → Text
get_attribute name [] = []
get_attribute name ((n, v) ∷ attrs) = if text_eq n name then v else get_attribute name attrs

-- What the value of a template's attribute says of the attribute's type: the chain of comparisons
-- that each tool makes.
pub data AttrType : Type 0 where
  int long float double boolean particle string uri constant : AttrType

unfoldable pub attr_type : Text → AttrType
attr_type t =
    if text_eq t (codes "int")
    then int
    else if text_eq t (codes "long")
    then long
    else if text_eq t (codes "float")
    then float
    else if text_eq t (codes "double")
    then double
    else if text_eq t (codes "boolean")
    then boolean
    else if text_eq t (codes "Particle_t")
    then particle
    else if text_eq t (codes "string")
    then string
    else if text_eq t (codes "anyURI")
    then uri
    else constant

unfoldable pub is_occurs : Text → Bool
is_occurs name = text_eq name (codes "minOccurs") || text_eq name (codes "maxOccurs")

-- `rep`, from the maxOccurs attribute
unfoldable pub max_occurs : List Attribute → ℤ
max_occurs attrs =
    let max_s = get_attribute (codes "maxOccurs") attrs in
    if text_eq max_s (codes "unbounded")
    then pos int_max
    else if text_eq max_s []
    then pos 1
    else atoi max_s

abbrev pub is_element : Node → Bool
is_element (element _ _ _) = true
is_element (text _) = false
