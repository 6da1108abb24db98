-- ===== src/Tests/Sequences.antt =====
-- The theorems about the generated streams, at a small template: a list of tags that hold a byte, and a
-- link with another one below it.
use hddm.Prelude.{ℕ, ◌≡◌, refl, Bool, true, false, [], ◌∷◌, ◌++◌, take, drop, arith}
use hddm.Prelude.Text.{Text, Bytes, codes, text_eq}
use hddm.Sequencer.{
  Class, class_of, Members, no_members, with_member, element, no_elements, one_more, Fields,
  no_fields, field, codon, Codons, no_codons, next, empty_fields, count, write_fields, write_member,
  write_element, write_all, read_genes, pick_fields, pick_target, pick_elements, put_member,
  set_field, target,
}
use hddm.Sequencer.Projection.{IsWritten, AreReadable, read_genes-write_fields}
use hddm.Sequencer.Same.{IsRecord}
use hddm.Sequencer.Header.{
  Tags, tag, no_tags, more_tags, walked, header_line, closing_line, closes, print_tag, print_tags,
  before_space, name_in_tag, find_text, find_from, is_before, is_behind, skip_quoted, get_end_tag,
  step_over, astray,
}
use hddm.Sequencer.Synthesis.{
  synthesize, synthesize_with, synthesize_below, gene_with, find_tag, tags_match,
}
use hddm.Sequencer.Synthesis.Same.{AreDistinct, HaveEnds, members_of}
use hddm.Sequencer.RoundTrip.{read_genes-synthesize}
use hddm.Tests.Codec.{codec}

abbrev take_bytes : ℕ → Bytes → Bytes × Bytes
take_bytes n bytes = (take n bytes, drop n bytes)

abbrev tags_below : Tags
tags_below = more_tags (tag (codes "hit") (codes "<hit e=\"int\" />") no_tags) (
    more_tags
      (tag (codes "beam") (codes "<beam x=\"int\">")
        (more_tags (tag (codes "vertex") (codes "<vertex z=\"int\" />") no_tags) no_tags))
      no_tags)

abbrev one_byte : Text → ℕ
one_byte text = 1

abbrev hits_repeat : Text → Bool
hits_repeat text = text_eq text (codes "<hit e=\"int\" />")

abbrev kept : Fields
kept =
    field
      (one_more (element (7 ∷ []) no_fields) (one_more (element (8 ∷ []) no_fields) no_elements))
      (field
        (one_more
          (element (9 ∷ []) (field (one_more (element (5 ∷ []) no_fields) no_elements) no_fields))
          no_elements)
        no_fields)

-- The template of the library, and a file that has the tags in the other order and one more below.
abbrev hit_class : Class
hit_class = class_of 1 no_members

abbrev vertex_class : Class
vertex_class = class_of 1 no_members

abbrev beam_class : Class
beam_class = class_of 1 (with_member false vertex_class no_members)

abbrev file_members : Members
file_members = with_member false vertex_class (with_member true hit_class no_members)

abbrev library_members : Members
library_members = with_member true hit_class no_members

abbrev file_genes : Codons
file_genes = next (codon 0 no_codons) (next (codon 1 no_codons) no_codons)

abbrev file_fields : Fields
file_fields = field (one_more (element (5 ∷ []) no_fields) no_elements) (
    field
      (one_more (element (7 ∷ []) no_fields) (one_more (element (8 ∷ []) no_fields) no_elements))
      no_fields)

vertex-IsWritten :
    IsWritten codec.put_int codec.get_int take_bytes
      (one_more (element (5 ∷ []) no_fields) no_elements)
      false
      vertex_class
unfolding write_member write_element write_fields write_all count
vertex-IsWritten = record {
  small = omega arith;
  stored = λ some. omega arith;
  few = omega arith;
  single = λ link. omega arith;
}

hits-IsWritten :
    IsWritten codec.put_int codec.get_int take_bytes
      (one_more (element (7 ∷ []) no_fields) (one_more (element (8 ∷ []) no_fields) no_elements))
      true
      hit_class
unfolding write_member write_element write_fields write_all count
hits-IsWritten = record {
  small = omega arith;
  stored = λ some. omega arith;
  few = omega arith;
  single = λ link. cc;
}

file_fields-AreReadable :
    AreReadable codec.put_int codec.get_int take_bytes file_genes file_members library_members
      file_fields
unfolding target
file_fields-AreReadable = (
  vertex-IsWritten,
  tt,
  (hits-IsWritten, (refl, ((λ rest. refl), tt, ((λ rest. refl), tt, tt))), tt),
)

-- The file's hits are read, and its vertices are passed over.
read_genes-write_fields_example :
    read_genes codec.get_int take_bytes file_genes library_members
      (field no_elements no_fields)
      (write_fields codec.put_int file_fields file_members ++ (1 ∷ []))
    ≡ (
      field
          (one_more
            (element (7 ∷ []) no_fields)
            (one_more (element (8 ∷ []) no_fields) no_elements))
          no_fields,
      1 ∷ [],
    )
unfolding pick_fields put_member pick_target pick_elements set_field target empty_fields
read_genes-write_fields_example =
    read_genes-write_fields codec.put_int codec.get_int take_bytes codec.get-put_int file_genes
      file_members library_members file_fields (field no_elements no_fields) (1 ∷ [])
      file_fields-AreReadable

beam-IsWritten :
    IsWritten codec.put_int codec.get_int take_bytes
      (one_more
        (element (9 ∷ []) (field (one_more (element (5 ∷ []) no_fields) no_elements) no_fields))
        no_elements)
      false
      beam_class
unfolding write_member write_element write_fields write_all count
beam-IsWritten = record {
  small = omega arith;
  stored = λ some. omega arith;
  few = omega arith;
  single = λ link. omega arith;
}

kept-IsRecord :
    IsRecord codec.put_int codec.get_int take_bytes
      (members_of one_byte hits_repeat tags_below)
      kept
unfolding text_eq
kept-IsRecord = (
  hits-IsWritten,
  ((λ rest. refl), tt, ((λ rest. refl), tt, tt)),
  (beam-IsWritten, ((λ rest. refl), (vertex-IsWritten, ((λ rest. refl), tt, tt), tt), tt), tt),
)

below-AreDistinct : AreDistinct tags_below
unfolding text_eq name_in_tag before_space
below-AreDistinct = ((refl, tt), tt, (tt, (tt, tt, tt), tt))

below-HaveEnds : HaveEnds 1 (closing_line 0 (codes "HDDM") (codes "<HDDM class=\"x\">")) tags_below
unfolding text_eq name_in_tag before_space closing_line closes header_line print_tag print_tags
    get_end_tag skip_quoted find_from find_text is_before is_behind
below-HaveEnds = (refl, tt, (refl, (refl, tt, tt), tt))

read_genes-synthesize_example :
    (genes : Codons) × (synthesize
        (tag (codes "HDDM") (codes "<HDDM class=\"x\">") tags_below)
        (tag (codes "HDDM") (codes "<HDDM class=\"x\">") tags_below)
      ≡ walked genes)
    × (read_genes codec.get_int take_bytes genes
          (members_of one_byte hits_repeat tags_below)
          (empty_fields (members_of one_byte hits_repeat tags_below))
          (write_fields codec.put_int kept (members_of one_byte hits_repeat tags_below) ++ (1 ∷ []))
        ≡ (kept, 1 ∷ []))
read_genes-synthesize_example =
    read_genes-synthesize one_byte hits_repeat codec.put_int codec.get_int take_bytes (codes "HDDM")
      (codes "<HDDM class=\"x\">") tags_below kept (1 ∷ []) codec.get-put_int below-AreDistinct
      below-HaveEnds kept-IsRecord

-- An element that holds another of its name: getEndTag leads to the end of the inner one.
abbrev nested : Tags
nested =
    more_tags
      (tag (codes "a") (codes "<a x=\"int\">") (
        more_tags
          (tag (codes "a") (codes "<a y=\"int\">")
            (more_tags (tag (codes "b") (codes "<b z=\"int\" />") no_tags) no_tags))
          no_tags))
      no_tags

synthesize-nested :
    synthesize
      (tag (codes "HDDM") (codes "<HDDM class=\"x\">") nested)
      (tag (codes "HDDM") (codes "<HDDM class=\"x\">") nested)
    ≡ astray
unfolding synthesize synthesize_with synthesize_below gene_with find_tag tags_match step_over
    text_eq name_in_tag before_space closing_line closes header_line print_tag print_tags
    get_end_tag skip_quoted find_from find_text is_before is_behind
synthesize-nested = refl
