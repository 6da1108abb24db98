-- ===== src/HddmXml.antt =====
-- `constructXML` of src/hddm-xml.cpp: the binary form of a tag is read after its template and printed
-- as XML.
pub mod Steps
pub mod Header
pub mod Loop
use hddm.Prelude.{
  ℕ, zero, suc, ◌+◌, ◌%◌, ◌-◌, true, false, List, [], ◌∷◌, ◌++◌, length, ltb, if◌then◌else◌, ◌==◌,
}
use hddm.Prelude.Text.{Text, Bytes, codes}
use hddm.Prelude.Int.{ℤ, pos, negsuc, ◌+ℤ◌, ◌-ℤ◌, pos_part, ltb_ℤ, eqb_ℤ, to_int32}
use hddm.Outcome.{Outcome, ok, fault, require, ◌>>=◌, ◌>>◌}
use hddm.Scalar.{show_int}
use hddm.Dom.{
  Node, Nodes, element, text, nil, cons, count_nodes, Attribute, is_element, AttrType, int, long,
  float, double, boolean, particle, string, uri, constant, attr_type, is_occurs, max_occurs,
}
use hddm.Particle.{particle_type}
use hddm.Runtime.{Runtime}

-- The output so far, the local `size` that counts down, and the input stream.
pub record Progress : Type 0 where
  pub out : Text
  pub size : ℤ
  pub input : Bytes

-- writeXML
unfoldable pub write : Text → Progress → Progress
write t p = record p { out = p.out ++ t }

-- ` name="value"`
unfoldable pub quoted : Text → Text → Text
quoted name value = b' ' ∷ (name ++ (b'=' ∷ 34 ∷ (value ++ 34 ∷ [])))

-- The name of a particle with its code in parentheses.
unfoldable pub show_particle : ℤ → Text
show_particle v = particle_type v ++ (b'(' ∷ (show_int v ++ b')' ∷ []))

-- The `%` of C++, whose sign is the dividend's, in `4 - (strsize % 4)`.
unfoldable pub string_padding : ℤ → ℤ
string_padding (pos n) = if n % 4 == 0 then pos 0 else pos (4 - n % 4)
string_padding (negsuc n) = if suc n % 4 == 0 then pos 0 else pos (4 + suc n % 4)

-- `size -= strsize + 4 + ...`
unfoldable pub string_size : Text → ℤ
unfolding string_padding
string_size value =
    let strsize = to_int32 (length value) in strsize +ℤ pos 4 +ℤ string_padding strsize

abbrev pub indent : ℕ → Text
indent zero = []
indent (suc d) = b' ' ∷ b' ' ∷ indent d

unfoldable pub opening : ℕ → Text → Text
opening depth tag = indent depth ++ (b'<' ∷ tag)

-- A tag with one child node at most is closed at once.
unfoldable pub bracket : Nodes → Text
bracket kids = if ltb 1 (count_nodes kids) then b'>' ∷ 10 ∷ [] else codes " />" ++ (10 ∷ [])

unfoldable pub closing : ℕ → Text → Nodes → Text
closing depth tag kids =
    if ltb 1 (count_nodes kids)
    then indent depth ++ (codes "</" ++ (tag ++ (b'>' ∷ 10 ∷ [])))
    else []

-- for (r = 0; r < rep && size > 0; r++)
unfoldable pub repeat : (Progress → Outcome Progress) → ℕ → ℕ → Progress → Outcome (ℕ × Progress)
repeat body zero r p = ok (r, p)
repeat body (suc rounds) r p = elim (ltb_ℤ (pos 0) p.size) [
  | true ↦ body p >>= λ q. repeat body rounds (r + 1) q
  | false ↦ ok (r, p)
]

-- The tests behind the loop.
unfoldable pub finish : ℤ → ℕ × Progress → Outcome (Text × Bytes)
finish rep (r, p) = do
  require (eqb_ℤ p.size (pos 0)) 5
  require (eqb_ℤ (pos r) rep) 5
  ok (p.out, p.input)

module _ (rt : Runtime) where
  -- A value is read, counted and printed.
  unfoldable pub scalar :
      {A : Type 0} → (Bytes → A × Bytes) → ℕ → (A → Text) → Text → Progress → Progress
  scalar get n show name p =
      let (value, rest) = get p.input in
      record { out = p.out ++ quoted name (show value); size = p.size -ℤ pos n; input = rest }

  unfoldable pub read_string : Text → Progress → Progress
  read_string name p =
      let (value, rest) = rt.get_string p.input in
      record { out = p.out ++ quoted name value; size = p.size -ℤ string_size value; input = rest }

  -- One attribute of the template, whose value `type` names its type.
  unfoldable pub read_value : AttrType → Text → Text → Progress → Progress
  unfolding scalar read_string write
  read_value int name type p = scalar rt.get_int 4 show_int name p
  read_value long name type p = scalar rt.get_long 8 show_int name p
  read_value float name type p = scalar rt.get_float 4 rt.float.insert name p
  read_value double name type p = scalar rt.get_double 8 rt.double.insert name p
  read_value boolean name type p = scalar rt.get_int 4 show_int name p
  read_value particle name type p = scalar rt.get_int 4 show_particle name p
  read_value string name type p = read_string name p
  read_value uri name type p = read_string name p
  read_value constant name type p = if is_occurs name then p else write (quoted name type) p

  unfoldable pub read_attributes : List Attribute → Progress → Progress
  read_attributes [] p = p
  read_attributes ((name, type) ∷ attrs) p =
      read_attributes attrs (read_value (attr_type type) name type p)

  -- A child's size is read, and its content where the size is positive.
  unfoldable pub read_child :
      (ℤ → Text → Bytes → Outcome (Text × Bytes)) → Progress → Outcome Progress
  read_child construct p =
      let (csize, rest) = rt.get_int p.input in
      let size = p.size -ℤ pos 4 in
      if ltb_ℤ (pos 0) csize
      then (do
        (out, input) ← construct csize p.out rest
        ok (record { out = out; size = size -ℤ csize; input = input }))
      else ok (record { out = p.out; size = size; input = rest })

  -- The repeat count, which the stream holds if the tag may repeat.
  unfoldable pub read_repeat : ℤ → Progress → ℤ × Progress
  read_repeat rep p =
      let (count, rest) = rt.get_int p.input in
      if ltb_ℤ (pos 1) rep
      then (count, record { out = p.out; size = p.size -ℤ pos 4; input = rest })
      else (rep, p)

  -- One round of the loop, with the reader of the children.
  unfoldable pub one_instance :
      Text
      → List Attribute
      → Nodes
      → ℕ
      → (Progress → Outcome Progress)
      → Progress
      → Outcome Progress
  unfolding write
  one_instance tag attrs kids depth children p = do
    q ← children (write (bracket kids) (read_attributes attrs (write (opening depth tag) p)))
    ok (write (closing depth tag kids) q)

  unfoldable mutual
    pub construct_xml : Node → ℤ → ℕ → Text → Bytes → Outcome (Text × Bytes)
    construct_xml (element tag attrs kids) size depth out input =
        let (rep, p) =
          read_repeat (max_occurs attrs) (record { out = out; size = size; input = input }) in
        repeat (one_instance tag attrs kids depth (construct_children kids depth)) (pos_part rep) 0
          p
        >>= finish rep
    construct_xml (text _) size depth out input = fault

    pub construct_children : Nodes → ℕ → Progress → Outcome Progress
    construct_children nil depth p = ok p
    construct_children (cons model models) depth p =
        (if is_element model
          then read_child (λ size out input. construct_xml model size (depth + 1) out input) p
          else ok p)
        >>= λ q. construct_children models depth q
