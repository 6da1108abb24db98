-- ===== src/Stream/Modes.antt =====
-- Records in src/hddm-xml.cpp that switch compression and checksums, and the streambufs they leave.
use hddm.Prelude.{
  ℕ, ◌+◌, ◌≤◌, ◌≡◌, refl, ap, ◌∙◌, subst, sym, Bool, true, false, ◌++◌, length, drop, drop-append,
  length-append, append_assoc, arith, if◌then◌else◌, ltb, ge→ltb,
}
use hddm.Prelude.Text.{Bytes}
use hddm.Prelude.Int.{pos, eqb_ℤ, int_max}
use hddm.Outcome.{ok}
use hddm.Dom.{Node}
use hddm.Runtime.{Runtime}
use hddm.Stream.{
  Chain, file, unzip, bunzip, Device, Machine, again, store_at, switch_chain, low_byte, read_into,
  int_at, change_modes, switch_modes, turn,
}
use hddm.Stream.Reading.{on_file, read_into-file, store_at-end}

-- The compression modes that the program knows, with their flags and the streambufs that serve them.
pub data Mode : Type 0 where
  bare zlib bzip2 : Mode

abbrev pub flags_of : Mode → ℕ
flags_of bare = 0
flags_of zlib = 0x10
flags_of bzip2 = 0x20

abbrev pub chain_of : Mode → Chain
chain_of bare = file
chain_of zlib = unzip file
chain_of bzip2 = bunzip file

-- Not from one decompressor straight to the other.
abbrev pub is_direct : Mode → Mode → Bool
is_direct zlib bzip2 = false
is_direct bzip2 zlib = false
is_direct _ _ = true

-- A known mode that follows a known mode gets its own streambufs over the file, except where one
-- decompressor follows the other.
pub switch_chain-chain_of :
    (a b : Mode)
    → is_direct a b ≡ true
    → switch_chain (flags_of a) (flags_of b) true (chain_of a) ≡ chain_of b
unfolding switch_chain
switch_chain-chain_of bare bare h = refl
switch_chain-chain_of bare zlib h = refl
switch_chain-chain_of bare bzip2 h = refl
switch_chain-chain_of zlib bare h = refl
switch_chain-chain_of zlib zlib h = refl
switch_chain-chain_of zlib bzip2 h = cc
switch_chain-chain_of bzip2 bare h = refl
switch_chain-chain_of bzip2 zlib h = cc
switch_chain-chain_of bzip2 bzip2 h = refl

-- The flags of a modifier record.
abbrev pub flags_word : Mode → Bool → ℕ
flags_word bare checked = if checked then 1 else 0
flags_word zlib checked = if checked then 0x11 else 0x10
flags_word bzip2 checked = if checked then 0x21 else 0x20

abbrev pub integrity_of : Bool → ℕ
integrity_of checked = if checked then 1 else 0

drop_at : (n : ℕ) (b rest : Bytes) → length b ≡ n → drop n (b ++ rest) ≡ rest
drop_at n b rest h = subst (λ k. drop k (b ++ rest) ≡ rest) h (drop-append b rest)

store_behind :
    (n : ℕ) (a b stale : Bytes)
    → length a ≡ n
    → (stale' : Bytes) × (store_at n b (a ++ stale) ≡ a ++ (b ++ stale'))
store_behind n a b stale h =
    let (stale', e) = store_at-end a b stale in
    (stale', subst (λ k. store_at k b (a ++ stale) ≡ a ++ (b ++ stale')) h e)

module _ (rt : Runtime) (d : Device) where
  read_int :
      (n : ℕ) (b rest stored : Bytes) (v : ℕ)
      → v ≤ int_max
      → length b ≡ n
      → stored ≡ b ++ (rt.put_int (pos v) ++ rest)
      → int_at rt d n stored ≡ pos v
  read_int n b rest stored v small len e =
      ap (λ s. (rt.get_int (drop n s)).0) e
      ∙ ap (λ s. (rt.get_int s).0) (drop_at n b (rt.put_int (pos v) ++ rest) len)
      ∙ ap (λ p. p.0) (rt.get-put_int (pos v) rest (record { above = omega arith; below = small }))

  -- Behind the record's own size, which is 1, the bytes of a modifier record: its length, its format,
  -- its flags.
  abbrev pub modifier : ℕ → Bytes
  modifier flags = rt.put_int (pos 8) ++ (rt.put_int (pos 0) ++ rt.put_int (pos flags))

  -- What stands in the buffer when such a record has been read behind four bytes.
  modifier_buffer :
      (head stale buffer : Bytes) (flags : ℕ)
      → length head ≡ 4
      → buffer ≡ head ++ stale
      → flags ≤ int_max
      → (int_at rt d 4 (store_at 4 (rt.put_int (pos 8)) buffer) ≡ pos 8)
        × (int_at rt d 8 (
              store_at 8
                (rt.put_int (pos 0) ++ rt.put_int (pos flags))
                (store_at 4 (rt.put_int (pos 8)) buffer))
            ≡ pos 0)
        × (int_at rt d 12 (
              store_at 8
                (rt.put_int (pos 0) ++ rt.put_int (pos flags))
                (store_at 4 (rt.put_int (pos 8)) buffer))
            ≡ pos flags)
  modifier_buffer head stale buffer flags four held small =
      let size = rt.put_int (pos 8) in
      let format = rt.put_int (pos 0) in
      let word = rt.put_int (pos flags) in
      let (stale₁, s₁) = store_behind 4 head size stale four in
      let b₁ = store_at 4 size buffer in
      let eight : length (head ++ size) ≡ 8 =
        omega (arith, length-append head size, rt.length-put_int (pos 8)) in
      let twelve : length ((head ++ size) ++ format) ≡ 12 =
        omega (arith, length-append (head ++ size) format, rt.length-put_int (pos 0)) in
      let (stale₂, s₂) = store_behind 8 (head ++ size) (format ++ word) stale₁ eight in
      let b₂ = store_at 8 (format ++ word) b₁ in
      let shape : b₂ ≡ (head ++ size) ++ (format ++ (word ++ stale₂)) =
        ap (store_at 8 (format ++ word))
          (ap (store_at 4 size) held ∙ s₁ ∙ sym (append_assoc head size stale₁))
        ∙ s₂
        ∙ ap (λ x. (head ++ size) ++ x) (append_assoc format word stale₂) in
      (
        read_int 4 head stale₁ b₁ 8 (omega arith) four (ap (store_at 4 size) held ∙ s₁),
        read_int 8 (head ++ size) (word ++ stale₂) b₂ 0 (omega arith) eight shape,
        read_int 12 ((head ++ size) ++ format) stale₂ b₂ flags small twelve
            (shape ∙ sym (append_assoc (head ++ size) format (word ++ stale₂))),
      )

  pub length-words : (flags : ℕ) → length (rt.put_int (pos 0) ++ rt.put_int (pos flags)) ≡ 8
  length-words flags = omega (
    arith,
    length-append (rt.put_int (pos 0)) (rt.put_int (pos flags)),
    rt.length-put_int (pos 0),
    rt.length-put_int (pos flags),
  )

  -- The two reads of such a record, through whatever streambufs, and what it does.
  pub change_modes-read :
      (m m₁ m₂ : Machine d) (head stale : Bytes) (flags : ℕ)
      → length head ≡ 4
      → m.buffer ≡ head ++ stale
      → 16 ≤ m₁.event_buffer_size
      → flags ≤ int_max
      → m₁.buffer ≡ store_at 4 (rt.put_int (pos 8)) m.buffer
      → m₂.buffer ≡ store_at 8 (rt.put_int (pos 0) ++ rt.put_int (pos flags)) m₁.buffer
      → read_into rt d 4 4 m ≡ ok m₁
      → read_into rt d 8 8 m₁ ≡ ok m₂
      → change_modes rt d m ≡ ok (switch_modes rt d (pos 8) (pos 0) (low_byte (pos flags)) m₂)
  unfolding change_modes
  change_modes-read m m₁ m₂ head stale flags four held roomy small kept₁ kept₂ e₁ e₂ =
      let (i₁, i₂, i₃) = modifier_buffer head stale m.buffer flags four held small in
      let last = kept₂ ∙ ap (store_at 8 (rt.put_int (pos 0) ++ rt.put_int (pos flags))) kept₁ in
      let first : int_at rt d 4 m₁.buffer ≡ pos 8 = ap (int_at rt d 4) kept₁ ∙ i₁ in
      let second : int_at rt d 8 m₂.buffer ≡ pos 0 = ap (int_at rt d 8) last ∙ i₂ in
      let third : int_at rt d 12 m₂.buffer ≡ pos flags = ap (int_at rt d 12) last ∙ i₃ in
      let inside : ltb (m₁.event_buffer_size + 0) (16 + 0) ≡ false = ge→ltb _ _ (omega arith) in
      rw (e₁, first, inside, e₂, second, third)

  change_modes-file :
      (m : Machine d) (head stale more : Bytes) (flags : ℕ)
      → d.content m.raw ≡ modifier flags ++ more
      → length head ≡ 4
      → m.buffer ≡ head ++ stale
      → 16 ≤ m.event_buffer_size
      → flags ≤ int_max
      → (r : Device.Raw d) × (buffer : Bytes) × (d.content r ≡ more)
        × (change_modes rt d (on_file m)
            ≡ ok (
                switch_modes rt d
                  (pos 8)
                  (pos 0)
                  (low_byte (pos flags))
                  (on_file (record m { raw = r; buffer = buffer }))))
  change_modes-file m head stale more flags h four held roomy small =
      let size = rt.put_int (pos 8) in
      let words = rt.put_int (pos 0) ++ rt.put_int (pos flags) in
      let (r₁, c₁, e₁) =
        read_into-file rt d 4 m size (words ++ more) (h ∙ append_assoc size words more) in
      let m₁ = record m { raw = r₁; buffer = store_at 4 size m.buffer } in
      let (r₂, c₂, e₂) = read_into-file rt d 8 m₁ words more c₁ in
      let m₂ = record m₁ { raw = r₂; buffer = store_at 8 words m₁.buffer } in
      (
        r₂,
        m₂.buffer,
        c₂,
        change_modes-read (on_file m) (on_file m₁) (on_file m₂) head stale flags four held roomy
            small refl refl
            (subst (λ k. read_into rt d 4 k (on_file m) ≡ ok (on_file m₁))
              (rt.length-put_int (pos 8)) e₁)
            (subst (λ k. read_into rt d 8 k (on_file m₁) ≡ ok (on_file m₂)) (length-words flags)
              e₂),
      )

  switch_modes-file :
      (m : Machine d) (b : Mode) (checked : Bool)
      → m.compression_mode ≡ 0
      → switch_modes rt d (pos 8) (pos 0) (low_byte (pos (flags_word b checked))) (on_file m)
        ≡ again (record m {
          chain = chain_of b;
          good = true;
          compression_mode = flags_of b;
          integrity_check_mode = integrity_of checked;
        })
  unfolding switch_modes switch_chain
  switch_modes-file m bare true off = rw off
  switch_modes-file m bare false off = rw off
  switch_modes-file m zlib true off = rw off
  switch_modes-file m zlib false off = rw off
  switch_modes-file m bzip2 true off = rw off
  switch_modes-file m bzip2 false off = rw off

  pub flags_word-small : (b : Mode) (checked : Bool) → flags_word b checked ≤ int_max
  flags_word-small bare true = omega arith
  flags_word-small bare false = omega arith
  flags_word-small zlib true = omega arith
  flags_word-small zlib false = omega arith
  flags_word-small bzip2 true = omega arith
  flags_word-small bzip2 false = omega arith

  -- A modifier record in the uncompressed part of a file, for a compression mode that the program knows
  -- and checksums on or off: the round takes the record off the file, prints nothing, counts no record,
  -- and the machine reads on through that mode's streambufs, with checksums as the record says.
  pub turn-modifier :
      (root : Node) (m : Machine d) (b : Mode) (checked : Bool) (more : Bytes)
      → d.content m.raw ≡ rt.put_int (pos 1) ++ (modifier (flags_word b checked) ++ more)
      → 16 ≤ m.event_buffer_size
      → eqb_ℤ m.reqcount (pos 0) ≡ false
      → m.compression_mode ≡ 0
      → (r : Device.Raw d) × (buffer : Bytes) × (d.content r ≡ more)
        × (turn rt d root (on_file m)
            ≡ ok (
                again (record m {
                  raw = r;
                  buffer = buffer;
                  chain = chain_of b;
                  good = true;
                  compression_mode = flags_of b;
                  integrity_check_mode = integrity_of checked;
                })))
  unfolding turn store_at
  turn-modifier root m b checked more h roomy wanted off =
      let one = rt.put_int (pos 1) in
      let (r₁, c₁, e₁) = read_into-file rt d 0 m one (modifier (flags_word b checked) ++ more) h in
      let stale = drop (0 + length one) m.buffer in
      let m₁ = record m { raw = r₁; buffer = one ++ stale } in
      let (r, buffer, c, e) =
        change_modes-file m₁ one stale more (flags_word b checked) c₁ (rt.length-put_int (pos 1))
          refl roomy (flags_word-small b checked) in
      let m₂ = record m₁ { raw = r; buffer = buffer } in
      let first : read_into rt d 0 4 (on_file m) ≡ ok (on_file m₁) =
        subst (λ k. read_into rt d 0 k (on_file m) ≡ ok (on_file m₁)) (rt.length-put_int (pos 1))
          e₁ in
      let tsize : (rt.get_int (one ++ stale)).0 ≡ pos 1 =
        ap (λ p. p.0)
          (rt.get-put_int (pos 1) stale (record { above = omega arith; below = omega arith })) in
      (r, buffer, c, rw (wanted, first, tsize, e, switch_modes-file m₂ b checked off))
