-- ===== src/XmlHddm.antt =====
-- src/xml-hddm.cpp: an XML document is written as an HDDM stream after its template. `this` is the
-- element of the document, `model` the one of the template.
pub mod Inversion
pub mod Counting
pub mod Document
use hddm.Prelude.{
  ℕ, ◌+◌, ◌-◌, not, List, [], ◌∷◌, ◌++◌, Option, none, some, length, ltb, if◌then◌else◌, ◌&&◌, ◌==◌,
}
use hddm.Prelude.Text.{Text, Bytes, codes, text_eq}
use hddm.Prelude.Int.{ℤ, pos, pos_part, ltb_ℤ, eqb_ℤ, to_int32}
use hddm.Outcome.{Outcome, ok, exit, fault, require, ◌>>=◌, ◌>>◌}
use hddm.Scalar.{extract_int32, extract_int64}
use hddm.Dom.{
  Node, Nodes, element, text, nil, cons, Attribute, tag_name, attributes, child_nodes, is_element,
  get_attribute, AttrType, int, long, float, double, boolean, particle, string, uri, constant,
  attr_type, is_occurs, max_occurs,
}
use hddm.Particle.{particle_code}
use hddm.Runtime.{Runtime, Real}

-- A variable that the stream left uninitialised is read.
abbrev pub initialised {ℓ} : {A : Type ℓ} → Option A → Outcome A
initialised none = fault
initialised (some a) = ok a

-- "nan", "-nan", "inf", "-inf", or what the stream reads
unfoldable pub read_real : (r : Real) → Text → Option (Real.Value r)
read_real r s =
    if text_eq s (codes "nan")
    then some r.nan
    else if text_eq s (codes "-nan")
    then some r.neg_nan
    else if text_eq s (codes "inf")
    then some r.inf
    else if text_eq s (codes "-inf")
    then some r.neg_inf
    else r.extract s

-- The number of attributes that an instance of the template's tag must have.
unfoldable pub expected_count : List Attribute → ℕ
expected_count attrs =
    length attrs
    - (if text_eq (get_attribute (codes "minOccurs") attrs) [] then 0 else 1)
    - (if text_eq (get_attribute (codes "maxOccurs") attrs) [] then 0 else 1)

-- The loop over the document's nodes for one tag of the template: the instances of the tag are
-- written by `out`, and counted.
unfoldable pub collect : (Node → Outcome Bytes) → Text → ℤ → ℕ → Nodes → Outcome (Bytes × ℕ)
collect out tag rep count nil = ok ([], count)
collect out tag rep count (cons (text _) ns) = collect out tag rep count ns
collect out tag rep count (cons (element t attrs kids) ns) =
    let skipped = collect out tag rep count ns in
    let taken : Outcome (Bytes × ℕ) = do
      b ← out (element t attrs kids)
      require (not (ltb 0 count && eqb_ℤ rep (pos 1))) 1
      require (not (ltb_ℤ rep (pos (count + 1)))) 1
      (bs, total) ← collect out tag rep (count + 1) ns
      ok (b ++ bs, total)
    in if text_eq t tag then taken else skipped

module _ (rt : Runtime) where
  unfoldable pub output_value : AttrType → Text → Outcome Bytes
  output_value int s = do v ← initialised (extract_int32 s); ok (rt.put_int v)
  output_value long s = do v ← initialised (extract_int64 s); ok (rt.put_long v)
  output_value float s = do v ← initialised (read_real rt.float s); ok (rt.put_float v)
  output_value double s = do v ← initialised (read_real rt.double s); ok (rt.put_double v)
  output_value boolean s = do v ← initialised (extract_int32 s); ok (rt.put_int v)
  output_value particle s = ok (rt.put_int (pos (particle_code s)))
  output_value string s = ok (rt.put_string s)
  output_value uri s = ok (rt.put_string s)
  output_value constant s = ok []

  -- The loop over the template's attributes.
  unfoldable pub output_attributes : List Attribute → List Attribute → Outcome Bytes
  output_attributes these [] = ok []
  output_attributes these ((name, type) ∷ models) =
      let value = get_attribute name these in
      let rest = output_attributes these models in
      let stored : Outcome Bytes = do
        b ← output_value (attr_type type) value
        bs ← rest
        ok (b ++ bs)
      in if is_occurs name
        then rest
        else if text_eq value [] && not (text_eq type (codes "string"))
        then exit 1
        else stored

  -- The instances of one tag behind their size and, where the tag may repeat, their number.
  unfoldable pub frame : ℤ → Bytes → ℕ → Bytes
  frame rep buf count =
      let size = to_int32 (length buf) in
      let held = ltb_ℤ (pos 0) size in
      (if ltb_ℤ (pos 1) rep
        then rt.put_int (to_int32 (if held then pos_part size + 4 else 4)) ++ rt.put_int (pos count)
        else rt.put_int (if held then size else pos 0))
      ++ (if held then buf else [])

  unfoldable mutual
    pub output_stream : Node → Node → Outcome Bytes
    output_stream this (element tag attrs kids) = do
      require (length (attributes this) == expected_count attrs) 1
      stored ← output_attributes (attributes this) attrs
      inner ← output_children (child_nodes this) kids
      ok (stored ++ inner)
    output_stream this (text _) = fault

    pub output_children : Nodes → Nodes → Outcome Bytes
    output_children these nil = ok []
    output_children these (cons model models) =
        let rest = output_children these models in
        let instances : Outcome Bytes = do
          (buf, count) ←
              collect (λ this. output_stream this model) (tag_name model)
                (max_occurs (attributes model)) 0 these
          bs ← rest
          ok (frame (max_occurs (attributes model)) buf count ++ bs)
        in if is_element model then instances else rest

  -- One round of the loop in `main`: a record is a parsed document, written behind its size.
  unfoldable pub output_record : Node → Node → Outcome Bytes
  output_record root this = do
    buf ← output_stream this root
    let size = to_int32 (length buf)
    let held = ltb_ℤ (pos 0) size
    ok (rt.put_int (if held then size else pos 0) ++ (if held then buf else []))

  unfoldable pub output_records : Node → List Node → Outcome Bytes
  output_records root [] = ok []
  output_records root (this ∷ more) = do
    b ← output_record root this
    bs ← output_records root more
    ok (b ++ bs)
