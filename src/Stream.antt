-- ===== src/Stream.antt =====
-- `main` of src/hddm-xml.cpp behind the header: the loop over the records of a stream, with the
-- records that switch compression and integrity checks.
pub mod Reading
pub mod Modes
pub mod Freed
use hddm.Prelude.{
  ℕ, zero, suc, ◌+◌, ◌-◌, ◌*◌, ◌%◌, ◌/◌, ◌≡◌, Bool, true, false, not, List, [], ◌∷◌, ◌++◌, Option,
  none, some, length, take, drop, ltb, leb, if◌then◌else◌, ◌==◌, ◌&&◌, ◌||◌,
}
use hddm.Prelude.Text.{Text, Bytes, codes, text_eq}
use hddm.Prelude.Int.{ℤ, pos, negsuc, ◌-ℤ◌, pos_part, ltb_ℤ, eqb_ℤ, int_max}
use hddm.Outcome.{Outcome, ok, exit, fault, require, ◌>>=◌, ◌>>◌}
use hddm.Scalar.{atoi}
use hddm.Dom.{
  Node, Nodes, element, text, nil, cons, Attribute, is_element, attributes, child_nodes,
  get_attribute,
}
use hddm.Runtime.{Runtime}
use hddm.HddmXml.{construct_xml}

-- The streambufs stacked on the input file: a decompressor reads from the one below it. `freed` is one
-- that was deleted, `null` the null pointer.
pub data Chain : Type 0 where
  file freed null : Chain
  unzip bunzip : Chain → Chain

-- No deleted streambuf is read through.
abbrev pub is_live : Chain → Bool
is_live file = true
is_live freed = false
is_live null = false
is_live (unzip c) = is_live c
is_live (bunzip c) = is_live c

-- get_streambuf
abbrev pub below : Chain → Chain
below (unzip c) = c
below (bunzip c) = c
below c = null

-- What lies under the loop and is not in the sources: the file with its position and the decompressors'
-- buffers, `sgetn` through a chain, the crc32 digest (the `int` of its 32 bits), and the content of fresh memory. Reading through
-- no decompressor takes the next bytes of the file.
pub record Device : Type 1 where
  pub Raw : Type 0
  pub content : Raw → Bytes
  pub sgetn : Chain → ℕ → Raw → Bytes × Raw
  pub crc32 : Bytes → ℤ
  pub fresh : ℕ → Bytes
  pub sgetn-file : (n : ℕ) (r : Raw) → (sgetn file n r).0 ≡ take n (content r)
  pub content-sgetn : (n : ℕ) (r : Raw) → content (sgetn file n r).1 ≡ drop n (content r)

-- The variables of the loop. `good` is the state of `ifs`; `answers` are the words that the user will
-- type.
pub record Machine (d : Device) : Type 0 where
  pub out : Text
  pub raw : Device.Raw d
  pub chain : Chain
  pub good : Bool
  pub buffer : Bytes
  pub event_buffer_size : ℕ
  pub integrity_check_mode : ℕ
  pub compression_mode : ℕ
  pub bad_crc : Bool
  pub reqcount : ℤ
  pub answers : List Text

pub data Turn {ℓ} (A : Type ℓ) : Type ℓ where
  again : A → Turn A
  stop : A → Turn A

-- Bytes stored from an offset on.
unfoldable pub store_at : ℕ → Bytes → Bytes → Bytes
store_at offset bytes buffer = take offset buffer ++ (bytes ++ drop (offset + length bytes) buffer)

-- `std::cin >> ans`: the answer is taken, and it begins with y or Y. With no answer left `ans[0]` is 0.
unfoldable pub says_yes : List Text → Bool
says_yes [] = false
says_yes ([] ∷ more) = false
says_yes ((c ∷ cs) ∷ more) = (c == b'y') || (c == b'Y')

abbrev pub later : List Text → List Text
later [] = []
later (a ∷ more) = more

-- `rep`, from the minOccurs attribute
unfoldable pub min_occurs : List Attribute → ℤ
min_occurs attrs =
    let min_s = get_attribute (codes "minOccurs") attrs in
    if text_eq min_s [] then pos 1 else atoi min_s

-- The switch of the compression mode. A decompressor that is replaced by another is deleted after the
-- other was put on top of it.
unfoldable pub switch_chain : ℕ → ℕ → Bool → Chain → Chain
switch_chain mode flags plain chain =
    if flags == mode
    then chain
    else if plain && (flags == 0x10)
    then unzip (if mode == 0x20 then freed else chain)
    else if plain && (flags == 0x20)
    then bunzip (if mode == 0x10 then freed else chain)
    else if (mode == 0x20) || (mode == 0x10)
    then below chain
    else null

-- The low eight bits, in two's complement.
abbrev pub low_byte : ℤ → ℕ
low_byte (pos n) = n % 256
low_byte (negsuc n) = 255 - n % 256

abbrev pub is_null : Chain → Bool
is_null null = true
is_null _ = false

module _ (rt : Runtime) where
  -- A top-level tag of the template: its size, and its content or the question whether to go on.
  unfoldable pub read_top : Node → Text × Bytes × List Text → Outcome (Text × Bytes × List Text)
  read_top model (out, input, answers) =
      let (size, rest) = rt.get_int input in
      if ltb_ℤ (pos 0) size
      then (do (out', input') ← construct_xml rt model size 1 out rest; ok (out', input', answers))
      else if eqb_ℤ (min_occurs (attributes model)) (pos 0)
      then ok (out, rest, answers)
      else if says_yes answers
      then ok (out, rest, later answers)
      else exit 5

  unfoldable pub read_tops : Nodes → Text × Bytes × List Text → Outcome (Text × Bytes × List Text)
  read_tops nil s = ok s
  read_tops (cons model models) s =
      (if is_element model then read_top model s else ok s) >>= λ s'. read_tops models s'

module _ (rt : Runtime) (d : Device) where
  -- ifs->read(event_buffer + offset, n): a stream that is not good reads nothing, and one that runs
  -- short is good no more. Reading through a deleted streambuf is undefined.
  unfoldable pub read_into : ℕ → ℕ → Machine d → Outcome (Machine d)
  read_into offset n m =
      let got = d.sgetn m.chain n m.raw in
      if not m.good
      then ok m
      else if not (is_live m.chain)
      then fault
      else ok (record m {
        raw = got.1;
        good = length got.0 == n;
        buffer = store_at offset got.0 m.buffer;
      })

  -- The int at an offset of the buffer.
  abbrev pub int_at : ℕ → Bytes → ℤ
  int_at offset buffer = (rt.get_int (drop offset buffer)).0

  -- What a record that sets the stream's modes does, by its length, its format and its flags.
  unfoldable pub switch_modes : ℤ → ℤ → ℕ → Machine d → Turn (Machine d)
  switch_modes size format flags m =
      let plain = eqb_ℤ size (pos 8) && eqb_ℤ format (pos 0) in
      let compression = flags / 16 * 16 in
      let integrity = flags % 16 in
      let chain = switch_chain m.compression_mode compression plain m.chain in
      let good = if compression == m.compression_mode then m.good else not (is_null chain) in
      let m' : Machine d = record m {
        chain = chain;
        good = good;
        compression_mode = compression;
      } in
      if plain && leb integrity 1
      then again (record m' { integrity_check_mode = integrity })
      else stop m'

  -- Such a record: its own size is 1. A negative length and one beyond the buffer are undefined.
  unfoldable pub change_modes : Machine d → Outcome (Turn (Machine d))
  change_modes m₀ = do
    m₁ ← read_into 4 4 m₀
    let size = int_at 4 m₁.buffer
    m₂ ←
        (if ltb_ℤ size (pos 0) || ltb_ℤ (pos m₁.event_buffer_size) (pos (8 + pos_part size))
          then fault
          else read_into 8 (pos_part size) m₁)
    ok (switch_modes size (int_at 8 m₂.buffer) (low_byte (int_at 12 m₂.buffer)) m₂)

  -- The event buffer is made larger where the record does not fit.
  unfoldable pub grow : ℕ → Machine d → Outcome (Machine d)
  grow tsize m =
      if leb (tsize + 4) m.event_buffer_size
      then ok m
      else if ltb int_max (tsize + 1000)
      then fault
      else ok (record m {
        buffer = take 4 m.buffer ++ d.fresh (tsize + 996);
        event_buffer_size = tsize + 1000;
      })

  -- The checksum behind a record; a mismatch is only warned of. On a stream that is no longer good the
  -- program compares with what the stack held, and the model does not.
  unfoldable pub check_crc : ℕ → Machine d → Outcome (Machine d)
  check_crc tsize m =
      let got = d.sgetn m.chain 4 m.raw in
      let same = eqb_ℤ (d.crc32 (take (tsize + 4) m.buffer)) (rt.get_int got.0).0 in
      if not (m.integrity_check_mode == 1)
      then ok m
      else if not m.good
      then ok m
      else if not (is_live m.chain)
      then fault
      else ok (record m { raw = got.1; good = length got.0 == 4; bad_crc = m.bad_crc || not same })

  -- A record of data.
  unfoldable pub read_record : Node → ℕ → Machine d → Outcome (Turn (Machine d))
  read_record root tsize m₀ = do
    m₁ ← grow tsize m₀
    m₂ ← read_into 4 tsize m₁
    m₃ ← check_crc tsize (record m₂ { reqcount = m₂.reqcount -ℤ pos 1 })
    s ← read_tops rt (child_nodes root) (m₃.out, drop 4 m₃.buffer, m₃.answers)
    ok (again (record m₃ { out = s.0; answers = s.2 }))

  -- One round of `while (reqcount && ifs->good())`.
  unfoldable pub turn : Node → Machine d → Outcome (Turn (Machine d))
  turn root m =
      let round : Outcome (Turn (Machine d)) = do
        m₁ ← read_into 0 4 m
        let tsize = int_at 0 m₁.buffer
        (if not m₁.good
            then ok (stop m₁)
            else if not (ltb_ℤ (pos 0) tsize)
            then ok (stop m₁)
            else if eqb_ℤ tsize (pos 1)
            then change_modes m₁
            else read_record root (pos_part tsize) m₁)
      in if not (eqb_ℤ m.reqcount (pos 0)) && m.good then round else ok (stop m)

  -- The loop with fuel (`none` when it ran out), and the closing tag.
  unfoldable pub run : ℕ → Node → Machine d → Outcome (Option Text)
  run zero root m = ok none
  run (suc fuel) root m = turn root m >>= λ t. elim t [
    | again m' ↦ run fuel root m'
    | stop m' ↦ ok (some (m'.out ++ (codes "</HDDM>" ++ (10 ∷ []))))
  ]
