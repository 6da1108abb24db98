-- ===== src/HddmC.antt =====
-- src/hddm-c.cpp: the C structures that are declared for the tags of a template.
mod Names
pub mod Consistency
pub mod Groups
pub mod Plural
pub mod Declaration
unfoldable pub use Names.*
use hddm.Prelude.{
  ℕ, ◌+◌, ◌-◌, ◌≡◌, Bool, true, false, not, List, [], ◌∷◌, ◌++◌, length, ltb, zero, suc, ◌==◌, ◌&&◌,
  ◌||◌, if◌then◌else◌,
}
use hddm.Prelude.Text.{Text, codes, text_eq}
use hddm.Prelude.Int.{ℤ, pos, ltb_ℤ, int_max}
use hddm.Outcome.{Outcome, ok, exit, fault, require, ◌>>=◌, ◌>>◌}
use hddm.Scalar.{atoi}
use hddm.Dom.{
  Node, Nodes, element, text, nil, cons, Attribute, AttrType, int, long, float, double, boolean,
  particle, string, uri, constant, attr_type, tag_name, attributes, child_nodes, count_nodes,
  get_attribute, is_element,
}

-- An element of the template, with its parent: 0 for the document, or one more than the parent's
-- place in the list of tags.
pub record Entry : Type 0 where
  pub parent : ℕ
  pub node : Node

-- The number of descendants with that name, as getElementsByTagName lists them.
unfoldable mutual
  pub count_named : Text → Node → ℕ
  count_named name (element tag attrs kids) =
      (if text_eq tag name then 1 else 0) + count_all_named name kids
  count_named name (text _) = 0

  pub count_all_named : Text → Nodes → ℕ
  count_all_named name nil = 0
  count_all_named name (cons n ns) = count_named name n + count_all_named name ns

-- maxOccurs, which is 0 if it is not given
unfoldable pub occurs_bound : Text → ℤ
occurs_bound s = if text_eq s (codes "unbounded") then pos int_max else atoi s

abbrev pub repeats : Text → Bool
repeats s = ltb_ℤ (pos 1) (occurs_bound s)

-- One attribute name of either element: the two must agree on it.
unfoldable pub attribute_agrees : Text → Text → Text → Bool
attribute_agrees name old new =
    let max_old = occurs_bound old in
    let max_new = occurs_bound new in
    if text_eq name (codes "minOccurs")
    then true
    else if text_eq name (codes "maxOccurs")
    then not (
        (ltb_ℤ max_old (pos 2) && ltb_ℤ (pos 1) max_new)
        || (ltb_ℤ (pos 1) max_old && ltb_ℤ max_new (pos 2)))
    else text_eq new old

-- The loop over the names of one of the attribute lists.
unfoldable pub attributes_agree : List Attribute → List Attribute → List Attribute → Bool
attributes_agree [] olds news = true
attributes_agree ((name, _) ∷ names) olds news =
    attribute_agrees name (get_attribute name olds) (get_attribute name news)
    && attributes_agree names olds news

-- The loop over the tags in the first element: each must occur once in the second.
unfoldable pub children_agree : Nodes → Node → Bool
children_agree nil new = true
children_agree (cons (text _) ns) new = children_agree ns new
children_agree (cons (element tag attrs kids) ns) new =
    (count_all_named tag (child_nodes new) == 1) && children_agree ns new

-- checkConsistency
unfoldable pub check_consistency : Entry → Entry → Outcome (Unit {0})
check_consistency el old = do
  require (not (el.parent == old.parent)) 1
  require (attributes_agree (attributes old.node) (attributes old.node) (attributes el.node)) 1
  require (attributes_agree (attributes el.node) (attributes old.node) (attributes el.node)) 1
  require (count_nodes (child_nodes el.node) == count_nodes (child_nodes old.node)) 1
  require (children_agree (child_nodes old.node) el.node) 1

-- CodeBuilder: the list of tags and the text of the header file.
pub record Builder : Type 0 where
  pub tags : List Entry
  pub header : Text

-- The first entry of the list with the element's name is checked against it; `otherwise` is what is
-- done where there is none.
unfoldable pub consult : Entry → List Entry → Outcome Builder → Outcome Builder → Outcome Builder
consult el [] found otherwise = otherwise
consult el (e ∷ es) found otherwise =
    let later = consult el es found otherwise in
    if text_eq (tag_name el.node) (tag_name e.node) then check_consistency el e >> found else later

-- constructGroup, with the printer of a declaration
module _ (declare : Node → Outcome Text) where
  unfoldable mutual
    pub construct_group : ℕ → Node → Builder → Outcome Builder
    construct_group parent (element tag attrs kids) s =
        let el : Entry = record { parent = parent; node = element tag attrs kids } in
        let entered : Builder = record s { tags = s.tags ++ (el ∷ []) } in
        let descended = construct_groups (suc (length s.tags)) kids entered in
        let declared : Outcome Builder = do
          s' ← descended
          declaration ← declare (element tag attrs kids)
          ok (record s' { header = s'.header ++ declaration })
        in consult el s.tags (ok s) declared
    construct_group parent (text _) s = fault

    -- The loop over the children of an element.
    pub construct_groups : ℕ → Nodes → Builder → Outcome Builder
    construct_groups here nil s = ok s
    construct_groups here (cons n ns) s =
        (if is_element n then construct_group here n s else ok s) >>= λ s'.
        construct_groups here ns s'
