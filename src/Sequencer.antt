-- ===== src/Sequencer.antt =====
-- The streaming of records in the generated C++ library, from the text that src/hddm-cpp.cpp writes:
-- `streamer` of the elements and lists, and `operator<<`, `operator>>` and `sequencer` of its streams.
-- A class is known by a number and by its members for child tags; the XDR operators of its attributes are
-- the parameter `take_attrs`, which splits them off, and an element holds their bytes.
pub mod Projection
pub mod Same
pub mod Header
pub mod Synthesis
pub mod RoundTrip
use hddm.Prelude.{
  ℕ, zero, suc, Bool, true, false, List, [], ◌∷◌, ◌++◌, Option, none, some, length, drop,
  if◌then◌else◌,
}
use hddm.Prelude.Text.{Bytes}
use hddm.Prelude.Int.{ℤ, pos, negsuc, pos_part, ltb_ℤ}

-- A class with the member of each child tag, in order: whether it is a list, and the class of its elements.
mutual
  pub data Class : Type 0 where
    class_of : ℕ → Members → Class

  pub data Members : Type 0 where
    no_members : Members
    with_member : Bool → Class → Members → Members

-- An element, its attributes as they are stored, with the elements of each member.
mutual
  pub data Element : Type 0 where
    element : Bytes → Fields → Element

  pub data Elements : Type 0 where
    no_elements : Elements
    one_more : Element → Elements → Elements

  pub data Fields : Type 0 where
    no_fields : Fields
    field : Elements → Fields → Fields

-- codon: m_order and m_sequence
mutual
  pub data Codon : Type 0 where
    codon : ℕ → Codons → Codon

  pub data Codons : Type 0 where
    no_codons : Codons
    next : Codon → Codons → Codons

unfoldable pub count : Elements → ℕ
count no_elements = 0
count (one_more e es) = suc (count es)

-- A new element's members are empty.
unfoldable pub empty_fields : Members → Fields
empty_fields no_members = no_fields
empty_fields (with_member is_list c ms) = field no_elements (empty_fields ms)

-- gene.m_target[order]: the null streamable for 0, else the member pushed in that place.
unfoldable pub target : ℕ → Members → Option (Bool × Class)
target zero ms = none
target (suc n) no_members = none
target (suc zero) (with_member is_list c ms) = some (is_list, c)
target (suc (suc n)) (with_member is_list c ms) = target (suc n) ms

unfoldable pub set_field : ℕ → Elements → Fields → Fields
set_field zero es fs = fs
set_field (suc n) es no_fields = no_fields
set_field (suc zero) es (field old fs) = field es fs
set_field (suc (suc n)) es (field old fs) = field old (set_field (suc n) es fs)

module _ (put_int : ℤ → Bytes) where
  unfoldable mutual
    -- streamer(ostream&) of an element: its attributes and then each member.
    pub write_element : Element → Class → Bytes
    write_element (element attrs fs) (class_of n ms) = attrs ++ write_fields fs ms

    -- `ostr << member` for each member, with the size in front
    pub write_fields : Fields → Members → Bytes
    write_fields no_fields ms = []
    write_fields (field es fs) no_members = []
    write_fields (field es fs) (with_member is_list c ms) =
        put_int (pos (length (write_member es is_list c)))
        ++ (write_member es is_list c ++ write_fields fs ms)

    -- streamer(ostream&) of a list, and of a link: nothing where it is empty.
    pub write_member : Elements → Bool → Class → Bytes
    write_member no_elements is_list c = []
    write_member (one_more e es) true c =
        put_int (pos (suc (count es))) ++ (write_element e c ++ write_all es c)
    write_member (one_more e es) false c = write_element e c

    pub write_all : Elements → Class → Bytes
    write_all no_elements c = []
    write_all (one_more e es) c = write_element e c ++ write_all es c

module _ (get_int : Bytes → ℤ × Bytes) (take_attrs : ℕ → Bytes → Bytes × Bytes) where
  -- The loop over the genes of a codon: for the members of the target and their elements so far.
  abbrev pub Reader : Type 0
  Reader = Members → Fields → Bytes → Fields × Bytes

  -- sequencer(object) for an element, or a link to a new one: streamer(istream&), and then the genes.
  unfoldable pub read_element : Reader → Class → Bytes → Element × Bytes
  read_element genes (class_of n ms) bytes =
      let (attrs, rest) = take_attrs n bytes in
      let (fs, rest') = genes ms (empty_fields ms) rest in (element attrs fs, rest')

  -- The loop in streamer(istream&) of a list.
  unfoldable pub read_elements : Reader → Class → ℕ → Bytes → Elements × Bytes
  read_elements genes c zero bytes = (no_elements, bytes)
  read_elements genes c (suc n) bytes =
      let (e, rest) = read_element genes c bytes in
      let (es, rest') = read_elements genes c n rest in (one_more e es, rest')

  -- sequencer(object) for what a gene is for: the null streamable, a list, or a link. A list's number below
  -- 0, for which add has no meaning, is taken as none.
  unfoldable pub read_target : Reader → Option (Bool × Class) → Bytes → Elements
  read_target genes none bytes = no_elements
  read_target genes (some (true, c)) bytes =
      (read_elements genes c (pos_part (get_int bytes).0) (get_int bytes).1).0
  read_target genes (some (false, c)) bytes = one_more (read_element genes c bytes).0 no_elements

  -- The loop of sequencer over the genes; operator>> reads a size, and goes on behind so many bytes.
  unfoldable pub read_genes : Codons → Reader
  read_genes no_codons ms fs bytes = (fs, bytes)
  read_genes (next (codon order sequence) genes) ms fs bytes =
      let (size, body) = get_int bytes in
      let es =
        read_target (λ ms' fs' bytes'. read_genes sequence ms' fs' bytes') (target order ms) body in
      let fs' = if ltb_ℤ (pos 0) size then set_field order es fs else fs in
      read_genes genes ms fs' (drop (pos_part size) body)

-- What is to come of the elements that were written, by the genes: each member's elements go to the
-- member that its gene is for, and those of a gene without a target are left out.
abbrev pub Picker : Type 0
Picker = Members → Fields → Fields → Fields

unfoldable pub pick_elements : Picker → Members → Elements → Elements
pick_elements pick ms no_elements = no_elements
pick_elements pick ms (one_more (element attrs fs) es) =
    one_more (element attrs (pick ms fs (empty_fields ms))) (pick_elements pick ms es)

unfoldable pub pick_target : Picker → Option (Bool × Class) → Elements → Elements
pick_target pick none es = no_elements
pick_target pick (some (is_list, class_of n ms)) es = pick_elements pick ms es

-- A member without elements leaves its place as it is.
unfoldable pub put_member : ℕ → Elements → Elements → Fields → Fields
put_member order no_elements picked slots = slots
put_member order (one_more e es) picked slots = set_field order picked slots

unfoldable pub pick_fields : Codons → Picker
pick_fields no_codons ms fs slots = slots
pick_fields (next g gs) ms no_fields slots = slots
pick_fields (next (codon order sequence) gs) ms (field es fs) slots =
    let picked =
      pick_target (λ ms' fs' slots'. pick_fields sequence ms' fs' slots') (target order ms) es in
    pick_fields gs ms fs (put_member order es picked slots)
