-- ===== src/HddmC/Declaration.antt =====
-- `writeHeader` of src/hddm-c.cpp: the C structure of a tag.
use hddm.Prelude.{ℕ, zero, suc, ◌-◌, List, [], ◌∷◌, ◌++◌, Option, none, some, length, if◌then◌else◌}
use hddm.Prelude.Text.{Text, codes}
use hddm.Outcome.{Outcome, ok, fault, ◌>>=◌}
use hddm.Dom.{
  Node, Nodes, element, text, nil, cons, Attribute, AttrType, int, long, float, double, boolean,
  particle, string, uri, constant, attr_type, get_attribute,
}
use hddm.HddmC.{plural, simple_type, list_type, repeats}

-- An exception that nothing catches.
abbrev thrown : Option Text → Outcome Text
thrown none = fault
thrown (some t) = ok t

abbrev pub line : Text → Text
line t = t ++ (10 ∷ [])

-- The member for an attribute; attributes with unrecognised values have none.
unfoldable pub member : AttrType → Text → Text
member int name = line (codes "   int32_t              " ++ (name ++ codes ";"))
member long name = line (codes "   int64_t              " ++ (name ++ codes ";"))
member float name = line (codes "   float                " ++ (name ++ codes ";"))
member double name = line (codes "   double               " ++ (name ++ codes ";"))
member boolean name = line (codes "   bool_t               " ++ (name ++ codes ";"))
member string name = line (codes "   string_t             " ++ (name ++ codes ";"))
member uri name = line (codes "   string_t             " ++ (name ++ codes ";"))
member particle name = line (codes "   Particle_t           " ++ (name ++ codes ";"))
member constant name = []

unfoldable pub members : List Attribute → Text
members [] = []
members ((name, type) ∷ attrs) = member (attr_type type) name ++ members attrs

abbrev pub spaces : ℕ → Text
spaces zero = []
spaces (suc n) = b' ' ∷ spaces n

-- The member for a tag below: a pointer to its structure, or to the list where the tag may repeat.
unfoldable pub child_member : Text → Text → List Attribute → Outcome Text
child_member prefix name attrs =
    let many = repeats (get_attribute (codes "maxOccurs") attrs) in
    do
      type ← (if many then thrown (list_type prefix name) else ok (simple_type prefix name))
      shown ← (if many then thrown (plural name) else ok name)
      ok (
          line (
            codes "   "
            ++ (type ++ (codes "* " ++ (spaces (19 - length type) ++ (shown ++ codes ";"))))))

unfoldable pub child_members : Text → Nodes → Outcome Text
child_members prefix nil = ok []
child_members prefix (cons (text _) ns) = child_members prefix ns
child_members prefix (cons (element tag attrs kids) ns) = do
  first ← child_member prefix tag attrs
  more ← child_members prefix ns
  ok (first ++ more)

-- The structure for the instances of a tag that may repeat.
unfoldable pub list_structure : Text → Text → List Attribute → Outcome Text
list_structure prefix tag attrs =
    let structure : Outcome Text = do
      type ← thrown (list_type prefix tag)
      ok (
          line []
          ++ line (codes "typedef struct {")
          ++ line (codes "   unsigned int mult;")
          ++ line (codes "   " ++ simple_type prefix tag ++ codes " in[1];")
          ++ line (codes "} " ++ type ++ codes ";"))
    in if repeats (get_attribute (codes "maxOccurs") attrs) then structure else ok []

unfoldable pub write_header : Text → Node → Outcome Text
write_header prefix (text _) = fault
write_header prefix (element tag attrs kids) =
    let type = simple_type prefix tag in
    do
      below ← child_members prefix kids
      listed ← list_structure prefix tag attrs
      ok (
          line []
          ++ line (codes "#ifndef SAW_" ++ type)
          ++ line (codes "#define SAW_" ++ type)
          ++ line []
          ++ line (codes "typedef struct {")
          ++ members attrs
          ++ below
          ++ line (codes "} " ++ type ++ codes ";")
          ++ listed
          ++ line (codes "#endif /* " ++ type ++ codes " */"))
