-- ===== src/RoundTrip/Header.antt =====
-- The header that src/xml-hddm.cpp writes, read by src/hddm-xml.cpp.
pub mod Lines
use hddm.Prelude.{
  ℕ, zero, suc, ◌+◌, ◌<◌, arith, ◌≡◌, refl, ap, sym, ◌∙◌, true, false, List, [], ◌∷◌, ◌++◌,
  append_assoc, ◌==◌, inl, inr, Bool-cases, ltb, if◌then◌else◌,
}
use hddm.Prelude.Text.{Text, Bytes, codes, text_eq, text_eq_refl}
use hddm.Outcome.{ok}
use hddm.Dom.{Node, Nodes, element, text, nil, cons, Attribute, count_nodes}
use hddm.HddmXml.{quoted, indent}
use hddm.HddmXml.Header.{contains, preamble_line, document_line, read_header, xml_preamble}
use hddm.Hddmcat.{done, while_lines, end_line}
use hddm.Hddmcat.Headers.{is_line, text_of, AreLines, closed, stream_of, while_lines-line}
use hddm.XmlHddm.Document.{
  print_attributes, start_of, end_of, construct_document, construct_documents,
}
use hddm.Hddmcat.Contents.{concat}
use hddm.RoundTrip.Header.Lines.{
  document_lines, documents_lines, text_of-document_lines, ArePlain, IsPlain, AllPlain,
  is_line-append, start_of-is_line, all_lines-AreLines,
}

document_line-closed :
    (body : List Text) (document : Text) (content : Bytes)
    → AreLines body
    → while_lines document_line document [] (text_of (closed body) ++ content)
      ≡ ok (done (document ++ concat (closed body)), content)
unfolding document_line
document_line-closed [] document content h =
    while_lines-line document_line document [] end_line content refl ∙ rw (text_eq_refl end_line)
document_line-closed (l ∷ ls) document content (plain, other, more) =
    ap (while_lines document_line document []) (append_assoc l (10 ∷ text_of (closed ls)) content)
    ∙ while_lines-line document_line document [] l (text_of (closed ls) ++ content) plain
    ∙ rw (
      other,
      document_line-closed ls (document ++ l) content more,
      append_assoc document l (concat (closed ls)),
    )

closed_lem : (ls : List Text) → closed ls ≡ ls ++ (end_line ∷ [])
closed_lem [] = refl
closed_lem (l ∷ ls) = rw (closed_lem ls)

-- The line of the root tag in a header.
abbrev pub root_line : List Attribute → Text
root_line attrs = start_of 0 (codes "HDDM") attrs ++ codes ">"

pub construct_document-stream_of :
    (attrs : List Attribute) (kids : Nodes) (content : Bytes)
    → ltb 0 (count_nodes kids) ≡ true
    → construct_document 0 (element (codes "HDDM") attrs kids) ++ content
      ≡ stream_of (root_line attrs) (documents_lines 1 kids) content
unfolding document_lines
construct_document-stream_of attrs kids content some_kids =
    let root = element (codes "HDDM") attrs kids in
    let lines : document_lines 0 root ≡ root_line attrs ∷ closed (documents_lines 1 kids) =
      rw (document_lines, some_kids)
        (ap (λ ls. root_line attrs ∷ ls) (sym (closed_lem (documents_lines 1 kids)))) in
    ap (λ t. t ++ content) (sym (text_of-document_lines 0 root) ∙ ap text_of lines)

-- The header that `xml-hddm` writes for a template whose root has an attribute and a child, with no end
-- of line in a tag or an attribute and nothing in the root's line that looks like an XML or document
-- type declaration, is read by `hddm-xml` whatever is behind it: the root's line is its header, its
-- lines go to the XML parser behind the usual preamble, and the input is left at the first record.
pub read_header-construct_document :
    (name value : Text) (attrs : List Attribute) (kids : Nodes) (content : Bytes)
    → ArePlain ((name, value) ∷ attrs)
    → AllPlain kids
    → ltb 0 (count_nodes kids) ≡ true
    → contains (codes "<?xml") (root_line ((name, value) ∷ attrs)) ≡ false
    → contains (codes "<!DOCTYPE HDDM>") (root_line ((name, value) ∷ attrs)) ≡ false
    → read_header
        (construct_document 0 (element (codes "HDDM") ((name, value) ∷ attrs) kids) ++ content)
      ≡ ok (record {
        preamble = xml_preamble;
        line = root_line ((name, value) ∷ attrs) ++ (10 ∷ []);
        document =
            (xml_preamble ++ (root_line ((name, value) ∷ attrs) ++ (10 ∷ [])))
            ++ concat (closed (documents_lines 1 kids));
        content = content;
      })
unfolding read_header preamble_line
read_header-construct_document name value attrs kids content plain below some_kids no_xml no_type =
    let all = (name, value) ∷ attrs in
    let first = root_line all in
    let rest = text_of (closed (documents_lines 1 kids)) ++ content in
    let first_plain : is_line first ≡ true =
      is_line-append (start_of 0 (codes "HDDM") all) (codes ">")
        (start_of-is_line 0 (codes "HDDM") all refl plain) refl in
    let root : contains (codes "<HDDM ") first ≡ true =
      unfold contains text_eq print_attributes quoted in refl in
    let found : while_lines preamble_line (xml_preamble, []) [] (first ++ (10 ∷ rest))
        ≡ ok (done (xml_preamble, first ++ (10 ∷ [])), rest) =
      while_lines-line preamble_line (xml_preamble, []) [] first rest first_plain
      ∙ rw (no_xml, no_type, root) in
    ap read_header (
      construct_document-stream_of all kids content some_kids
      ∙ append_assoc first (10 ∷ text_of (closed (documents_lines 1 kids))) content)
    ∙ rw (
      read_header,
      found,
      document_line-closed (documents_lines 1 kids) (xml_preamble ++ (first ++ (10 ∷ []))) content
          (all_lines-AreLines 1 kids (omega arith) below),
    )
