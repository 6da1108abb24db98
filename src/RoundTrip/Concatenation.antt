-- ===== src/RoundTrip/Concatenation.antt =====
-- Streams that src/xml-hddm.cpp wrote after one template, concatenated by src/hddmcat.cpp.
use hddm.Prelude.{
  ◌≡◌, refl, ap, sym, ◌∙◌, true, false, List, [], ◌∷◌, ◌++◌, append_assoc, append-nil, Option, some,
  ltb, arith,
}
use hddm.Prelude.Text.{Text, Bytes, codes, text_eq}
use hddm.Outcome.{ok, >>=-eq-ok}
use hddm.Dom.{Node, Nodes, element, Attribute, count_nodes}
use hddm.Runtime.{Runtime}
use hddm.XmlHddm.{output_record, output_records}
use hddm.XmlHddm.Document.{construct_document, start_of}
use hddm.Hddmcat.{cat, is_option}
use hddm.Hddmcat.Headers.{IsFirst, stream_of}
use hddm.Hddmcat.Contents.{AllStreams, cat-AllStreams}
use hddm.RoundTrip.Header.{root_line, construct_document-stream_of}
use hddm.RoundTrip.Header.Lines.{
  ArePlain, AllPlain, documents_lines, all_lines-AreLines, is_line-append, start_of-is_line,
}

module _ (rt : Runtime) where
  output_records-append :
      (root : Node) (a b : List Node) (c₁ c₂ : Bytes)
      → output_records rt root a ≡ ok c₁
      → output_records rt root b ≡ ok c₂
      → output_records rt root (a ++ b) ≡ ok (c₁ ++ c₂)
  unfolding output_records
  output_records-append root [] b c₁ c₂ h k =
      let no_bytes : [] ≡ c₁ = cc in k ∙ ap (λ x. ok (x ++ c₂)) no_bytes
  output_records-append root (n ∷ a) b c₁ c₂ h k =
      let (x, e₁, k₁) = >>=-eq-ok (output_record rt root n) _ h in
      let (xs, e₂, k₂) = >>=-eq-ok (output_records rt root a) _ k₁ in
      let same : x ++ xs ≡ c₁ = cc in
      rw (e₁, output_records-append root a b xs c₂ e₂ k)
        (ap ok (sym (append_assoc x xs c₂)) ∙ ap (λ y. ok (y ++ c₂)) same)

  -- Two files that `xml-hddm` wrote after the same template, in the order given to `hddmcat`: its output
  -- is the file that `xml-hddm` writes for the documents of both. The template's root has a child, and
  -- no tag or attribute of it holds an end of line.
  pub cat-output_records :
      (files : Text → Option Bytes) (stdin : Bytes) (attrs : List Attribute) (kids : Nodes)
      (docs more : List Node) (b₁ b₂ : Bytes) (name next_name : Text)
      → ArePlain attrs
      → AllPlain kids
      → ltb 0 (count_nodes kids) ≡ true
      → is_option name ≡ false
      → output_records rt (element (codes "HDDM") attrs kids) docs ≡ ok b₁
      → output_records rt (element (codes "HDDM") attrs kids) more ≡ ok b₂
      → files name ≡ some (construct_document 0 (element (codes "HDDM") attrs kids) ++ b₁)
      → files next_name ≡ some (construct_document 0 (element (codes "HDDM") attrs kids) ++ b₂)
      → (b : Bytes) × (output_records rt (element (codes "HDDM") attrs kids) (docs ++ more) ≡ ok b)
        × (cat files stdin (name ∷ next_name ∷ [])
            ≡ ok (construct_document 0 (element (codes "HDDM") attrs kids) ++ b))
  unfolding AllStreams
  cat-output_records files stdin attrs kids docs more b₁ b₂ name next_name plain below some_kids
        named h₁ h₂ f₁ f₂ =
      let root = element (codes "HDDM") attrs kids in
      let stream = construct_document-stream_of attrs kids in
      let first : IsFirst (root_line attrs) = record {
        plain =
            is_line-append (start_of 0 (codes "HDDM") attrs) (codes ">")
              (start_of-is_line 0 (codes "HDDM") attrs refl plain) refl;
        hddm = unfold text_eq in refl;
      } in
      (
        b₁ ++ b₂,
        output_records-append root docs more b₁ b₂ h₁ h₂,
        cat-AllStreams files stdin (root_line attrs) (documents_lines 1 kids) name (next_name ∷ [])
              (b₁ ∷ b₂ ∷ []) first (all_lines-AreLines 1 kids (omega arith) below) named
              (f₁ ∙ ap some (stream b₁ some_kids), (f₂ ∙ ap some (stream b₂ some_kids), tt))
            ∙ ap (λ c. ok (stream_of (root_line attrs) (documents_lines 1 kids) (b₁ ++ c)))
                (append-nil b₂)
            ∙ ap ok (sym (stream (b₁ ++ b₂) some_kids)),
      )
