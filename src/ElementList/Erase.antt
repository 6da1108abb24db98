-- ===== src/ElementList/Erase.antt =====
-- erase and del: which elements go.
use hddm.Prelude.{
  ℕ, suc, ◌+◌, ◌-◌, ◌≤◌, ◌<◌, ◌≡◌, refl, ap, sym, ◌∙◌, true, false, List, ◌++◌, length, take, drop,
  length-append, append_assoc, length-drop, arith, ltb, ◌==◌, ◌&&◌, Bool-cases, inl, inr,
}
use hddm.Prelude.Int.{ℤ, pos, negsuc, ◌+ℤ◌, ◌-ℤ◌}
use hddm.Outcome.{ok}
use hddm.ElementList.{ElementList, shrunk, erase_range, erase_start, erase_count}
use hddm.ElementList.Cursor.{IsView, moved-pos, take-view, drop-view, length-view, length-take}

module _ {A : Type 0} where
  -- Some elements without n many from number a on.
  abbrev pub removed : ℕ → ℕ → List A → List A
  removed a n elems = take a elems ++ drop (a + n) elems

  length-removed :
      (a n : ℕ) (elems : List A)
      → a + n ≤ length elems
      → length (removed a n elems) ≡ length elems - n
  length-removed a n elems h = omega (
    arith,
    length-append (take a elems) (drop (a + n) elems),
    length-take elems a (omega arith),
    length-drop (a + n) elems,
  )

  module _ (pre elems post : List A) (a n : ℕ) where
    shrunk-host :
        (s : ElementList A) (p q : ℕ)
        → s.host ≡ pre ++ (elems ++ post)
        → a + n ≤ length elems
        → length pre + a ≡ p
        → length pre + (a + n) ≡ q
        → (shrunk s p q).host ≡ pre ++ (removed a n elems ++ post)
    unfolding shrunk
    shrunk-host s p q e h at_p at_q =
        rw
          (
            e,
            ← at_p,
            ← at_q,
            take-view pre elems post a (omega arith),
            drop-view pre elems post (a + n) h,
          )
          (append_assoc pre (take a elems) (drop (a + n) elems ++ post)
            ∙ ap (λ l. pre ++ l) (sym (append_assoc (take a elems) (drop (a + n) elems) post)))

    shrunk-before : (s : ElementList A) (p q : ℕ) → s.first < q → (shrunk s p q).first ≡ s.first
    unfolding shrunk
    shrunk-before s p q h = ground arith

    shrunk-behind :
        (s : ElementList A) (p q : ℕ) → q ≤ s.last → (shrunk s p q).last ≡ s.last - (q - p)
    unfolding shrunk
    shrunk-behind s p q h = ground arith

    erase_range-all :
        (s : ElementList A)
        → IsView pre elems post s
        → n ≡ length elems
        → 0 < n
        → a ≡ 0
        → (s' : ElementList A) × (erase_range s a n ≡ ok s')
          × IsView pre (removed a n elems) post s'
    unfolding erase_range
    erase_range-all s w all some_gone start =
        let every : (n == s.size) ≡ true = ground (arith, all, w.size) in
        let q : ℕ = length pre + length elems in
        let whole = ap length w.host ∙ length-view pre elems post in
        let end =
          moved-pos (length s.host) s.last 1 q (omega (arith, w.last, all, some_gone))
            (omega (arith, whole)) in
        let long = length-removed a n elems (omega (arith, all, start)) in
        (
          record (shrunk s s.first q) { first = s.first; last = s.first; size = 0 },
          rw (every, end) refl,
          record {
            host =
                shrunk-host s s.first q w.host (omega (arith, all, start))
                  (omega (arith, w.first, start)) (omega (arith, all, start));
            first = w.first;
            size = omega (arith, long, all);
            last = omega (arith, w.first, long, all);
          },
        )

    erase_range-some :
        (s : ElementList A)
        → IsView pre elems post s
        → n < length elems
        → 0 < n
        → a + n ≤ length elems
        → (s' : ElementList A) × (erase_range s a n ≡ ok s')
          × IsView pre (removed a n elems) post s'
    unfolding erase_range
    erase_range-some s w less some_gone within =
        let not_every : (n == s.size) ≡ false = ground (arith, less, w.size) in
        let p : ℕ = length pre + a in
        let q : ℕ = length pre + (a + n) in
        let whole = ap length w.host ∙ length-view pre elems post in
        let here =
          moved-pos (length s.host) s.first a p (omega (arith, w.first))
            (omega (arith, whole, within)) in
        let end = moved-pos (length s.host) p n q (omega arith) (omega (arith, whole, within)) in
        let long = length-removed a n elems within in
        let g : ElementList A = record (shrunk s p q) { size = s.size - n } in
        let host = shrunk-host s p q w.host within refl refl in
        let first = shrunk-before s p q (omega (arith, w.first, some_gone)) in
        elim (Bool-cases (a == 0)) [
          | inl at_start ↦
              let zero_a : a ≡ 0 = ground arith in
              let no_end : (ltb 0 a && (n + a == s.size)) ≡ false = ground arith in
              let last = shrunk-behind s p q (omega (arith, w.last, less, zero_a)) in
              (
                record g { first = p },
                rw (not_every, here, end, no_end, at_start) refl,
                record {
                  host = host;
                  first = omega (arith, zero_a);
                  size = omega (arith, w.size, long);
                  last = omega (arith, last, w.last, long, zero_a, less);
                },
              )
          | inr behind ↦ elim (Bool-cases (n + a == s.size)) [
            | inl at_end ↦
                let to_end : (ltb 0 a && (n + a == s.size)) ≡ true = ground arith in
                let not_first : (p == (shrunk s p q).first) ≡ false =
                  ground (arith, first, w.first) in
                (
                  record g { last = p - 1 },
                  rw (not_every, here, end, to_end, not_first) refl,
                  record {
                    host = host;
                    first = first ∙ w.first;
                    size = omega (arith, w.size, long);
                    last = ground (arith, long, w.size);
                  },
                )
            | inr between ↦
                let no_end : (ltb 0 a && (n + a == s.size)) ≡ false = ground arith in
                let last = shrunk-behind s p q (ground (arith, w.last, w.size)) in
                (
                  g,
                  rw (not_every, here, end, no_end, behind) refl,
                  record {
                    host = host;
                    first = first ∙ w.first;
                    size = omega (arith, w.size, long);
                    last = ground (arith, last, w.last, w.size, long);
                  },
                )
          ]
        ]

    pub erase_range-IsView :
        (s : ElementList A)
        → IsView pre elems post s
        → 0 < n
        → a + n ≤ length elems
        → (s' : ElementList A) × (erase_range s a n ≡ ok s')
          × IsView pre (removed a n elems) post s'
    erase_range-IsView s w some_gone within = elim (Bool-cases (n == length elems)) [
      | inl every ↦ erase_range-all s w (ground arith) some_gone (ground arith)
      | inr not_every ↦ erase_range-some s w (ground arith) some_gone within
    ]

-- The index of the first element to go, and how many go, as the two numbers are read: from the front or
-- from behind, and -1 for all that follow.
abbrev pub index_from : ℕ → ℤ → ℕ
index_from size (pos n) = n
index_from size (negsuc n) = size - suc n

abbrev pub IsIndex : ℕ → ℤ → Type 0
IsIndex size (pos n) = n < size
IsIndex size (negsuc n) = n < size

abbrev pub count_from : ℕ → ℕ → ℤ → ℕ
count_from size a (pos n) = n
count_from size a (negsuc n) = size - a

-- A count above 0 that stays inside, or -1.
abbrev pub IsCount : ℕ → ℕ → ℤ → Type 0
IsCount size a (pos n) = (0 < n) × (a + n ≤ size)
IsCount size a (negsuc n) = n ≡ 0

module _ (size a : ℕ) where
  pub erase_start_lem :
      (start : ℤ) → IsIndex size start → index_from size start ≡ a → erase_start size start ≡ pos a
  unfolding erase_start ◌+ℤ◌
  erase_start_lem (pos n) h e = ground arith
  erase_start_lem (negsuc n) h e = ground arith

  pub erase_count_lem :
      (count : ℤ)
      → a < size
      → IsCount size a count
      → erase_count size (pos a) count ≡ pos (count_from size a count)
  unfolding erase_count ◌-ℤ◌
  erase_count_lem (pos n) inside h = ground arith
  erase_count_lem (negsuc n) inside h = ground arith

  pub count_from-range :
      (count : ℤ)
      → a < size
      → IsCount size a count
      → (0 < count_from size a count) × (a + count_from size a count ≤ size)
  count_from-range (pos n) inside h = h
  count_from-range (negsuc n) inside h = (omega arith, omega arith)
