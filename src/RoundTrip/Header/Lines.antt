-- ===== src/RoundTrip/Header/Lines.antt =====
-- The lines of the header that `constructDocument` of src/xml-hddm.cpp prints.
use hddm.Prelude.{
  ℕ, zero, suc, ◌+◌, ◌<◌, arith, ◌≡◌, refl, ap, ◌∙◌, true, false, List, [], ◌∷◌, ◌++◌, append_assoc,
  ◌==◌, inl, inr, Bool-cases, ltb, if◌then◌else◌,
}
use hddm.Prelude.Text.{Text, codes, text_eq}
use hddm.Dom.{Node, Nodes, element, text, nil, cons, Attribute, count_nodes}
use hddm.HddmXml.{quoted, indent}
use hddm.Hddmcat.{end_line}
use hddm.Hddmcat.Headers.{is_line, text_of, AreLines}
use hddm.XmlHddm.Document.{
  print_attributes, start_of, end_of, construct_document, construct_documents,
}

-- The lines of the elements that `constructDocument` prints.
unfoldable mutual
  pub document_lines : ℕ → Node → List Text
  document_lines depth (element tag attrs kids) =
      if ltb 0 (count_nodes kids)
      then (start_of depth tag attrs ++ codes ">")
        ∷ (documents_lines (depth + 1) kids ++ (end_of depth tag ∷ []))
      else (start_of depth tag attrs ++ codes " />") ∷ []
  document_lines depth (text _) = []

  pub documents_lines : ℕ → Nodes → List Text
  documents_lines depth nil = []
  documents_lines depth (cons n ns) = document_lines depth n ++ documents_lines depth ns

text_of-append : (a b : List Text) → text_of (a ++ b) ≡ text_of a ++ text_of b
text_of-append [] b = refl
text_of-append (l ∷ a) b = rw (text_of-append a b, append_assoc l (10 ∷ text_of a) (text_of b))

mutual
  unfolding document_lines construct_document

  pub text_of-document_lines :
      (depth : ℕ) (n : Node) → text_of (document_lines depth n) ≡ construct_document depth n
  text_of-document_lines depth (text t) = refl
  text_of-document_lines depth (element tag attrs kids) =
      elim (Bool-cases (ltb 0 (count_nodes kids))) [
        | inl some_kids ↦
            rw
              (
                some_kids,
                text_of-append (documents_lines (depth + 1) kids) (end_of depth tag ∷ []),
                text_of-documents_lines (depth + 1) kids,
              )
              (append_assoc (start_of depth tag attrs) (codes ">")
                (10 ∷ (construct_documents (depth + 1) kids ++ (end_of depth tag ++ (10 ∷ [])))))
        | inr none ↦ rw none (append_assoc (start_of depth tag attrs) (codes " />") (10 ∷ []))
      ]

  text_of-documents_lines :
      (depth : ℕ) (ns : Nodes) → text_of (documents_lines depth ns) ≡ construct_documents depth ns
  text_of-documents_lines depth nil = refl
  text_of-documents_lines depth (cons n ns) =
      text_of-append (document_lines depth n) (documents_lines depth ns)
      ∙ rw (text_of-document_lines depth n, text_of-documents_lines depth ns)

-- Nothing in the tags and attributes ends a line.
abbrev pub ArePlain : List Attribute → Type 0
ArePlain [] = Unit
ArePlain ((n, v) ∷ attrs) = (is_line n ≡ true) × (is_line v ≡ true) × ArePlain attrs

unfoldable mutual
  pub IsPlain : Node → Type 0
  IsPlain (element tag attrs kids) = (is_line tag ≡ true) × ArePlain attrs × AllPlain kids
  IsPlain (text _) = Unit

  pub AllPlain : Nodes → Type 0
  AllPlain nil = Unit
  AllPlain (cons n ns) = IsPlain n × AllPlain ns

pub is_line-append : (a b : Text) → is_line a ≡ true → is_line b ≡ true → is_line (a ++ b) ≡ true
is_line-append [] b h k = k
is_line-append (c ∷ a) b h k = elim (Bool-cases (c == 10)) [
  | inl ends ↦ absurd (let h' = rw ends at h in cc)
  | inr other ↦ rw other (is_line-append a b (rw other at h) k)
]

is_line-indent : (depth : ℕ) → is_line (indent depth) ≡ true
is_line-indent zero = refl
is_line-indent (suc d) = is_line-indent d

is_line-print_attributes :
    (attrs : List Attribute) → ArePlain attrs → is_line (print_attributes attrs) ≡ true
unfolding print_attributes quoted
is_line-print_attributes [] h = refl
is_line-print_attributes ((n, v) ∷ attrs) (name, value, more) =
    is_line-append (quoted n v) (print_attributes attrs)
      (is_line-append n (b'=' ∷ 34 ∷ (v ++ (34 ∷ []))) name (is_line-append v (34 ∷ []) value refl))
      (is_line-print_attributes attrs more)

-- An indented line is not the last of a header.
AreLines-append : (a b : List Text) → AreLines a → AreLines b → AreLines (a ++ b)
AreLines-append [] b h k = k
AreLines-append (l ∷ a) b (plain, other, more) k = (plain, other, AreLines-append a b more k)

pub start_of-is_line :
    (depth : ℕ) (tag : Text) (attrs : List Attribute)
    → is_line tag ≡ true
    → ArePlain attrs
    → is_line (start_of depth tag attrs) ≡ true
start_of-is_line depth tag attrs h k =
    is_line-append (indent depth) (b'<' ∷ (tag ++ print_attributes attrs)) (is_line-indent depth)
      (is_line-append tag (print_attributes attrs) h (is_line-print_attributes attrs k))

indented : (depth : ℕ) (t : Text) → 0 < depth → text_eq (indent depth ++ t) end_line ≡ false
unfolding text_eq
indented zero t h = absurd (omega arith)
indented (suc d) t h = refl

document_line-AreLines :
    (depth : ℕ) (t rest : Text)
    → 0 < depth
    → is_line t ≡ true
    → is_line rest ≡ true
    → AreLines (((indent depth ++ t) ++ rest) ∷ [])
document_line-AreLines depth t rest h plain more = (
  is_line-append (indent depth ++ t) rest
      (is_line-append (indent depth) t (is_line-indent depth) plain) more,
  ap (λ s. text_eq s end_line) (append_assoc (indent depth) t rest) ∙ indented depth (t ++ rest) h,
  tt,
)

mutual
  unfolding document_lines IsPlain

  lines-AreLines :
      (depth : ℕ) (n : Node) → 0 < depth → IsPlain n → AreLines (document_lines depth n)
  lines-AreLines depth (text t) h plain = tt
  lines-AreLines depth (element tag attrs kids) h (name, values, below) =
      let start = b'<' ∷ (tag ++ print_attributes attrs) in
      let start_plain : is_line start ≡ true =
        is_line-append tag (print_attributes attrs) name (is_line-print_attributes attrs values) in
      elim (Bool-cases (ltb 0 (count_nodes kids))) [
        | inl some_kids ↦ rw some_kids (
            AreLines-append ((start_of depth tag attrs ++ codes ">") ∷ [])
              (documents_lines (depth + 1) kids ++ (end_of depth tag ∷ []))
              (document_line-AreLines depth start (codes ">") h start_plain refl)
              (AreLines-append (documents_lines (depth + 1) kids) (end_of depth tag ∷ [])
                (all_lines-AreLines (depth + 1) kids (omega arith) below)
                (
                  is_line-append (indent depth) (codes "</" ++ (tag ++ codes ">"))
                      (is_line-indent depth) (is_line-append tag (codes ">") name refl),
                  indented depth (codes "</" ++ (tag ++ codes ">")) h,
                  tt,
                )))
        | inr none ↦ rw none (document_line-AreLines depth start (codes " />") h start_plain refl)
      ]

  pub all_lines-AreLines :
      (depth : ℕ) (ns : Nodes) → 0 < depth → AllPlain ns → AreLines (documents_lines depth ns)
  all_lines-AreLines depth nil h plain = tt
  all_lines-AreLines depth (cons n ns) h (first, more) =
      AreLines-append (document_lines depth n) (documents_lines depth ns)
        (lines-AreLines depth n h first) (all_lines-AreLines depth ns h more)
