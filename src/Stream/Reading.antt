-- ===== src/Stream/Reading.antt =====
-- Reading from the bare file in src/hddm-xml.cpp: what `ifs->read` puts into the event buffer, and one
-- round of the record loop on a record of data.
use hddm.Prelude.{
  ℕ, ◌+◌, ◌≤◌, ◌<◌, ◌≡◌, refl, ap, ◌∙◌, subst, true, false, [], ◌++◌, length, take, drop,
  take-append, drop-append, append_assoc, arith, ◌⊎◌, inl, inr, lt→ltb, Bool-cases, ◌==◌, ==_refl,
  leb, ge→ltb,
}
use hddm.Prelude.Text.{Text, Bytes}
use hddm.Prelude.Int.{pos, ◌-ℤ◌, int_max, ltb_ℤ, eqb_ℤ}
use hddm.Outcome.{ok, ◌>>=◌}
use hddm.Dom.{Node, child_nodes}
use hddm.Runtime.{Runtime}
use hddm.Stream.{
  Device, Machine, again, stop, file, store_at, read_into, read_tops, grow, check_crc, read_record,
  turn,
}

-- The machine reads the bare file, with nothing wrong.
abbrev pub on_file : {d : Device} → Machine d → Machine d
on_file m = record m { chain = file; good = true }

pub store_at-end :
    (a b buffer : Bytes)
    → (stale : Bytes) × (store_at (length a) b (a ++ buffer) ≡ a ++ (b ++ stale))
unfolding store_at
store_at-end a b buffer = (drop (length a + length b) (a ++ buffer), rw (take-append a buffer))

module _ (rt : Runtime) (d : Device) where
  pub read_into-file :
      (offset : ℕ) (m : Machine d) (bytes more : Bytes)
      → d.content m.raw ≡ bytes ++ more
      → (r : Device.Raw d) × (d.content r ≡ more)
        × (read_into rt d offset (length bytes) (on_file m)
            ≡ ok (on_file (record m { raw = r; buffer = store_at offset bytes m.buffer })))
  unfolding read_into
  read_into-file offset m bytes more h =
      let n = length bytes in
      let got : (d.sgetn file n m.raw).0 ≡ bytes =
        d.sgetn-file n m.raw ∙ ap (take n) h ∙ take-append bytes more in
      let left : d.content (d.sgetn file n m.raw).1 ≡ more =
        d.content-sgetn n m.raw ∙ ap (drop n) h ∙ drop-append bytes more in
      ((d.sgetn file n m.raw).1, left, rw (got, ==_refl))

  grow-ok :
      (n : ℕ) (m : Machine d) (head stale : Bytes)
      → length head ≡ 4
      → n + 1000 ≤ int_max
      → m.buffer ≡ head ++ stale
      → (size : ℕ) × (stale' : Bytes) × (grow rt d n (on_file m)
          ≡ ok (on_file (record m { buffer = head ++ stale'; event_buffer_size = size })))
  unfolding grow
  grow-ok n m head stale four fits h = elim (Bool-cases (leb (n + 4) m.event_buffer_size)) [
    | inl roomy ↦ (m.event_buffer_size, stale, rw (roomy, ← h))
    | inr small ↦ (
      n + 1000,
      d.fresh (n + 996),
      (let kept : take 4 m.buffer ≡ head =
            ap (take 4) h
            ∙ subst (λ k. take k (head ++ stale) ≡ head) four (take-append head stale) in
          rw (small, ge→ltb int_max (n + 1000) fits, kept)),
    )
  ]

  check_off :
      (n : ℕ) (m : Machine d) → (m.integrity_check_mode == 1) ≡ false → check_crc rt d n m ≡ ok m
  unfolding check_crc
  check_off n m off = rw off

  store_record :
      (head b stale : Bytes)
      → length head ≡ 4
      → (stale' : Bytes) × (drop 4 (store_at 4 b (head ++ stale)) ≡ b ++ stale')
  store_record head b stale four =
      let (stale', e) = store_at-end head b stale in
      (
        stale',
        subst (λ k. drop k (store_at k b (head ++ stale)) ≡ b ++ stale') four
            (ap (drop (length head)) e ∙ drop-append head (b ++ stale')),
      )

  record-ok :
      (root : Node) (m : Machine d) (head b stale more : Bytes) (t : Text)
      → d.content m.raw ≡ b ++ more
      → length head ≡ 4
      → m.buffer ≡ head ++ stale
      → length b + 1000 ≤ int_max
      → (m.integrity_check_mode == 1) ≡ false
      → ((rest : Bytes)
          → read_tops rt (child_nodes root) (m.out, b ++ rest, m.answers)
            ≡ ok (m.out ++ t, rest, m.answers))
      → (r : Device.Raw d) × (buffer : Bytes) × (size : ℕ) × (d.content r ≡ more)
        × (read_record rt d root (length b) (on_file m)
            ≡ ok (
                again (
                  on_file (record m {
                    out = m.out ++ t;
                    raw = r;
                    buffer = buffer;
                    event_buffer_size = size;
                    reqcount = m.reqcount -ℤ pos 1;
                  }))))
  unfolding read_record
  record-ok root m head b stale more t h four held fits off reads =
      let (size, stale', g) = grow-ok (length b) m head stale four fits held in
      let m₁ = record m { buffer = head ++ stale'; event_buffer_size = size } in
      let (r, c, e) = read_into-file 4 m₁ b more h in
      let (stale'', s) = store_record head b stale' four in
      let stored = store_at 4 b (head ++ stale') in
      let m₂ = on_file (record m₁ { raw = r; buffer = stored; reqcount = m.reqcount -ℤ pos 1 }) in
      (
        r,
        stored,
        size,
        c,
        ap
              (λ o. o >>= λ m'.
                (read_into rt d 4 (length b) m' >>= λ m''.
                (check_crc rt d (length b) (record m'' { reqcount = m''.reqcount -ℤ pos 1 })
                  >>= λ m'''.
                      (read_tops rt (child_nodes root) (m'''.out, drop 4 m'''.buffer, m'''.answers)
                        >>= λ s'. ok (again (record m''' { out = s'.0; answers = s'.2 }))))))
              g
            ∙ rw (e, check_off (length b) m₂ off, s, reads stale''),
      )

  -- A record of data from the bare file, without integrity checks: the round prints what its tags are
  -- read as, takes the record off the file, and counts it.
  pub turn-record :
      (root : Node) (m : Machine d) (b more : Bytes) (t : Text)
      → d.content m.raw ≡ (rt.put_int (pos (length b)) ++ b) ++ more
      → 1 < length b
      → length b + 1000 ≤ int_max
      → eqb_ℤ m.reqcount (pos 0) ≡ false
      → (m.integrity_check_mode == 1) ≡ false
      → ((rest : Bytes)
          → read_tops rt (child_nodes root) (m.out, b ++ rest, m.answers)
            ≡ ok (m.out ++ t, rest, m.answers))
      → (r : Device.Raw d) × (buffer : Bytes) × (size : ℕ) × (d.content r ≡ more)
        × (turn rt d root (on_file m)
            ≡ ok (
                again (
                  on_file (record m {
                    out = m.out ++ t;
                    raw = r;
                    buffer = buffer;
                    event_buffer_size = size;
                    reqcount = m.reqcount -ℤ pos 1;
                  }))))
  unfolding turn store_at
  turn-record root m b more t h two fits wanted unchecked reads =
      let n = length b in
      let head = rt.put_int (pos n) in
      let (r₁, c₁, e₁) = read_into-file 0 m head (b ++ more) (h ∙ append_assoc head b more) in
      let stale = drop (0 + length head) m.buffer in
      let m₁ = record m { raw = r₁; buffer = head ++ stale } in
      let (r, buffer, size, c, e) =
        record-ok root m₁ head b stale more t c₁ (rt.length-put_int (pos n)) refl fits unchecked
          reads in
      let first : read_into rt d 0 4 (on_file m) ≡ ok (on_file m₁) =
        subst (λ k. read_into rt d 0 k (on_file m) ≡ ok (on_file m₁)) (rt.length-put_int (pos n))
          e₁ in
      let tsize : (rt.get_int (head ++ stale)).0 ≡ pos n =
        ap (λ p. p.0)
          (rt.get-put_int (pos n) stale (record { above = omega arith; below = omega arith })) in
      let positive : ltb_ℤ (pos 0) (pos n) ≡ true = lt→ltb (0 + 0) (n + 0) (omega arith) in
      let large : eqb_ℤ (pos n) (pos 1) ≡ false = ground arith in
      (r, buffer, size, c, rw (wanted, first, tsize, positive, large, e))

  -- At the end of the file, or when no more records are wanted, the loop stops.
  pub turn-end :
      (root : Node) (m : Machine d)
      → (d.content m.raw ≡ []) ⊎ (eqb_ℤ m.reqcount (pos 0) ≡ true)
      → (m' : Machine d) × (turn rt d root (on_file m) ≡ ok (stop m')) × (m'.out ≡ m.out)
  unfolding turn read_into
  turn-end root m h = elim (Bool-cases (eqb_ℤ m.reqcount (pos 0))) [
    | inl enough ↦ (on_file m, rw (enough), refl)
    | inr wanted ↦
        let got : (d.sgetn file 4 m.raw).0 ≡ [] =
          d.sgetn-file 4 m.raw ∙ (elim h [ inl ended ↦ ap (take 4) ended | inr enough ↦ cc ]) in
        (
          record m {
            chain = file;
            raw = (d.sgetn file 4 m.raw).1;
            good = false;
            buffer = store_at 0 [] m.buffer;
          },
          rw (wanted, got),
          refl,
        )
  ]
