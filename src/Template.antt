-- ===== src/Template.antt =====
-- Which templates can carry data through the binary form and back: what src/xml-hddm.cpp writes for a
-- tag of the template must not be empty, and an occurrence bound must not read as a type.
use hddm.Prelude.{◌≡◌, Bool, true, false, List, [], ◌∷◌, ◌||◌, ◌&&◌, not}
use hddm.Dom.{
  Node, Nodes, element, text, nil, cons, Attribute, is_element, AttrType, constant, attr_type,
  is_occurs,
}

-- The type is one whose values are stored.
abbrev pub is_stored : AttrType → Bool
is_stored constant = false
is_stored _ = true

abbrev pub stores_attributes : List Attribute → Bool
stores_attributes [] = false
stores_attributes ((name, type) ∷ attrs) =
    (not (is_occurs name) && is_stored (attr_type type)) || stores_attributes attrs

abbrev pub has_element : Nodes → Bool
has_element nil = false
has_element (cons n ns) = is_element n || has_element ns

-- minOccurs and maxOccurs hold no type's name.
abbrev pub OccursApart : List Attribute → Type 0
OccursApart [] = Unit
OccursApart ((name, type) ∷ attrs) =
    (is_occurs name ≡ true → attr_type type ≡ constant) × OccursApart attrs

-- Every tag below stores something.
unfoldable mutual
  pub IsTemplate : Node → Type 0
  IsTemplate (element tag attrs kids) =
      OccursApart attrs × ((stores_attributes attrs || has_element kids) ≡ true) × AllTemplates kids
  IsTemplate (text t) = Unit

  pub AllTemplates : Nodes → Type 0
  AllTemplates nil = Unit
  AllTemplates (cons n ns) = IsTemplate n × AllTemplates ns
