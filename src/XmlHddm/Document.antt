-- ===== src/XmlHddm/Document.antt =====
-- `constructDocument` of src/xml-hddm.cpp: the template in normal form, which is the header of a stream.
use hddm.Prelude.{ℕ, ◌+◌, List, [], ◌∷◌, ◌++◌, ltb, if◌then◌else◌}
use hddm.Prelude.Text.{Text, codes}
use hddm.Dom.{Node, Nodes, element, text, nil, cons, Attribute, count_nodes}
use hddm.HddmXml.{quoted, indent}

unfoldable pub print_attributes : List Attribute → Text
print_attributes [] = []
print_attributes ((name, value) ∷ attrs) = quoted name value ++ print_attributes attrs

-- The tag's start up to its attributes; the static `indent` is the depth.
abbrev pub start_of : ℕ → Text → List Attribute → Text
start_of depth tag attrs = indent depth ++ (b'<' ∷ (tag ++ print_attributes attrs))

abbrev pub end_of : ℕ → Text → Text
end_of depth tag = indent depth ++ (codes "</" ++ (tag ++ codes ">"))

unfoldable mutual
  pub construct_document : ℕ → Node → Text
  construct_document depth (element tag attrs kids) =
      if ltb 0 (count_nodes kids)
      then start_of depth tag attrs
        ++ (b'>' ∷ 10 ∷ (construct_documents (depth + 1) kids ++ (end_of depth tag ++ (10 ∷ []))))
      else start_of depth tag attrs ++ (codes " />" ++ (10 ∷ []))
  construct_document depth (text _) = []

  -- The loop over the child nodes, of which the elements are printed.
  pub construct_documents : ℕ → Nodes → Text
  construct_documents depth nil = []
  construct_documents depth (cons n ns) = construct_document depth n ++ construct_documents depth ns
