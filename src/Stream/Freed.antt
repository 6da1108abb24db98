-- ===== src/Stream/Freed.antt =====
-- A switch from one decompressor straight to the other in src/hddm-xml.cpp.
use hddm.Prelude.{
  ℕ, ◌+◌, ◌≤◌, ◌≡◌, refl, ap, ◌∙◌, Bool, true, false, ◌++◌, length, drop, arith, ◌==◌,
}
use hddm.Prelude.Text.{Bytes}
use hddm.Prelude.Int.{pos, eqb_ℤ}
use hddm.Outcome.{ok, fault}
use hddm.Dom.{Node}
use hddm.Runtime.{Runtime}
use hddm.Stream.{
  is_live, Device, Machine, again, store_at, switch_chain, low_byte, read_into, switch_modes, turn,
}
use hddm.Stream.Modes.{
  Mode, bare, zlib, bzip2, flags_of, chain_of, is_direct, flags_word, integrity_of,
  change_modes-read, length-words, flags_word-small,
}

-- There the new decompressor stands on the deleted one.
switch_chain-freed :
    (a b : Mode)
    → is_direct a b ≡ false
    → is_live (switch_chain (flags_of a) (flags_of b) true (chain_of a)) ≡ false
unfolding switch_chain
switch_chain-freed bare b h = cc
switch_chain-freed zlib bare h = cc
switch_chain-freed zlib zlib h = cc
switch_chain-freed zlib bzip2 h = refl
switch_chain-freed bzip2 bare h = cc
switch_chain-freed bzip2 zlib h = refl
switch_chain-freed bzip2 bzip2 h = cc

module _ (rt : Runtime) (d : Device) where
  -- A read through streambufs that are alive and give what is asked for.
  read_into-live :
      (offset n : ℕ) (m : Machine d) (bytes : Bytes) (r : Device.Raw d)
      → m.good ≡ true
      → is_live m.chain ≡ true
      → length bytes ≡ n
      → d.sgetn m.chain n m.raw ≡ (bytes, r)
      → read_into rt d offset n m
        ≡ ok (record m { raw = r; good = true; buffer = store_at offset bytes m.buffer })
  unfolding read_into
  read_into-live offset n m bytes r good live len e =
      let full : (length bytes == n) ≡ true = ground (arith, len) in rw (good, live, e, full)

  switch_modes-direct :
      (m : Machine d) (a b : Mode) (checked : Bool)
      → is_direct a b ≡ false
      → m.chain ≡ chain_of a
      → m.compression_mode ≡ flags_of a
      → switch_modes rt d (pos 8) (pos 0) (low_byte (pos (flags_word b checked))) m
        ≡ again (record m {
          chain = switch_chain (flags_of a) (flags_of b) true (chain_of a);
          good = true;
          compression_mode = flags_of b;
          integrity_check_mode = integrity_of checked;
        })
  unfolding switch_modes switch_chain
  switch_modes-direct m bare b checked h on mode = cc
  switch_modes-direct m zlib bare checked h on mode = cc
  switch_modes-direct m zlib zlib checked h on mode = cc
  switch_modes-direct m zlib bzip2 true h on mode = rw (on, mode)
  switch_modes-direct m zlib bzip2 false h on mode = rw (on, mode)
  switch_modes-direct m bzip2 bare checked h on mode = cc
  switch_modes-direct m bzip2 zlib true h on mode = rw (on, mode)
  switch_modes-direct m bzip2 zlib false h on mode = rw (on, mode)
  switch_modes-direct m bzip2 bzip2 checked h on mode = cc

  chain_of-live : (a : Mode) → is_live (chain_of a) ≡ true
  chain_of-live bare = refl
  chain_of-live zlib = refl
  chain_of-live bzip2 = refl

  turn-fault :
      (root : Node) (m : Machine d)
      → is_live m.chain ≡ false
      → m.good ≡ true
      → eqb_ℤ m.reqcount (pos 0) ≡ false
      → turn rt d root m ≡ fault
  unfolding turn read_into
  turn-fault root m dead good wanted = rw (wanted, good, dead)

  -- A machine that reads through one decompressor, which gives it a modifier record for the other one,
  -- does a round that succeeds, and in the round behind it reads through a streambuf that was deleted.
  pub turn-freed :
      (root : Node) (m : Machine d) (a b : Mode) (checked : Bool) (r₁ r₂ r₃ : Device.Raw d)
      → is_direct a b ≡ false
      → m.chain ≡ chain_of a
      → m.compression_mode ≡ flags_of a
      → m.good ≡ true
      → 16 ≤ m.event_buffer_size
      → eqb_ℤ m.reqcount (pos 0) ≡ false
      → d.sgetn m.chain 4 m.raw ≡ (rt.put_int (pos 1), r₁)
      → d.sgetn m.chain 4 r₁ ≡ (rt.put_int (pos 8), r₂)
      → d.sgetn m.chain 8 r₂ ≡ (rt.put_int (pos 0) ++ rt.put_int (pos (flags_word b checked)), r₃)
      → (m' : Machine d) × (turn rt d root m ≡ ok (again m')) × (turn rt d root m' ≡ fault)
  unfolding turn store_at
  turn-freed root m a b checked r₁ r₂ r₃ h on mode good roomy wanted g₁ g₂ g₃ =
      let one = rt.put_int (pos 1) in
      let size = rt.put_int (pos 8) in
      let words = rt.put_int (pos 0) ++ rt.put_int (pos (flags_word b checked)) in
      let live = ap is_live on ∙ chain_of-live a in
      let stale = drop (0 + length one) m.buffer in
      let m₁ = record m { raw = r₁; good = true; buffer = one ++ stale } in
      let m₂ = record m₁ { raw = r₂; buffer = store_at 4 size m₁.buffer } in
      let m₃ = record m₂ { raw = r₃; buffer = store_at 8 words m₂.buffer } in
      let m' : Machine d = record m₃ {
        chain = switch_chain (flags_of a) (flags_of b) true (chain_of a);
        compression_mode = flags_of b;
        integrity_check_mode = integrity_of checked;
      } in
      let first : read_into rt d 0 4 m ≡ ok m₁ =
        read_into-live 0 4 m one r₁ good live (rt.length-put_int (pos 1)) g₁ in
      let tsize : (rt.get_int (one ++ stale)).0 ≡ pos 1 =
        ap (λ p. p.0)
          (rt.get-put_int (pos 1) stale (record { above = omega arith; below = omega arith })) in
      let changed =
        change_modes-read rt d m₁ m₂ m₃ one stale (flags_word b checked) (rt.length-put_int (pos 1))
          refl roomy (flags_word-small rt d b checked) refl refl
          (read_into-live 4 4 m₁ size r₂ refl live (rt.length-put_int (pos 8)) g₂)
          (read_into-live 8 8 m₂ words r₃ refl live (length-words rt d (flags_word b checked)) g₃)
        ∙ ap ok (switch_modes-direct m₃ a b checked h on mode) in
      (
        m',
        rw (wanted, first, good, tsize, changed),
        turn-fault root m' (switch_chain-freed a b h) refl wanted,
      )
