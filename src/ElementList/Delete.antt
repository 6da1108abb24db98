-- ===== src/ElementList/Delete.antt =====
-- erase and del as they are called: by indices from either side.
use hddm.Prelude.{
  ℕ, suc, ◌+◌, ◌-◌, ◌≤◌, ◌<◌, ◌≡◌, refl, ap, sym, ◌∙◌, subst, true, false, not, List, [], ◌++◌,
  Option, none, some, length, take, drop, length-drop, arith, leb, ◌==◌, ◌&&◌, ◌||◌, if◌then◌else◌,
}
use hddm.Prelude.Int.{ℤ, pos, negsuc, ◌+ℤ◌, ltb_ℤ, eqb_ℤ}
use hddm.Outcome.{Outcome, ok, ◌>>=◌}
use hddm.ElementList.{
  ElementList, moved, erase_start, erase_count, erase, end_position, del, del_some, del_begin,
  del_stop,
}
use hddm.ElementList.Cursor.{
  IsView, moved-pos, moved-negsuc, drop-view, length-view, take-append_le,
}
use hddm.ElementList.Erase.{
  removed, erase_range-IsView, index_from, IsIndex, count_from, IsCount, erase_start_lem,
  erase_count_lem, count_from-range,
}

pub index_from-below : (size : ℕ) (start : ℤ) → IsIndex size start → index_from size start < size
index_from-below size (pos n) h = h
index_from-below size (negsuc n) h = omega arith

module _ {A : Type 0} (pre elems post : List A) (s : ElementList A) (start count : ℤ) where
  abbrev a : ℕ
  a = index_from (length elems) start

  abbrev n : ℕ
  n = count_from (length elems) a count

  -- Where `s` is the run `elems` of a shared list, `start` is the index of one of them, from the front or
  -- from behind, and `count` is -1 or above 0 and stays inside, erase keeps its assertion, and `s` is the
  -- run without those elements; nothing else in the shared list changes.
  pub erase-IsView :
      IsView pre elems post s
      → IsIndex (length elems) start
      → IsCount (length elems) a count
      → (s' : ElementList A) × (erase s start count ≡ ok s')
        × IsView pre (removed a n elems) post s'
  unfolding erase ◌+ℤ◌
  erase-IsView w at_start at_count =
      let below = index_from-below (length elems) start at_start in
      let (some_gone, within) = count_from-range (length elems) a count below at_count in
      let (s', e, w') = erase_range-IsView pre elems post a n s w some_gone within in
      let first : erase_start s.size start ≡ pos a =
        ap (λ k. erase_start k start) w.size
        ∙ erase_start_lem (length elems) a start at_start refl in
      let many : erase_count s.size (pos a) count ≡ pos n =
        ap (λ k. erase_count k (pos a) count) w.size
        ∙ erase_count_lem (length elems) a count below at_count in
      let asserted : (not (ltb_ℤ (pos a) (pos 0))
            && ltb_ℤ (pos 0) (pos n)
            && not (ltb_ℤ (pos s.size) (pos a +ℤ pos n)))
          ≡ true =
        ground (arith, w.size, some_gone, within) in
      (s', rw (first, many, asserted) e, w')

  pub end_position-ok :
      IsView pre elems post s → 0 < length elems → end_position s ≡ ok (length pre + length elems)
  unfolding end_position
  end_position-ok w full =
      let some_size : (s.size == 0) ≡ false = ground (arith, w.size) in
      let whole = ap length w.host ∙ length-view pre elems post in
      rw some_size (
        moved-pos (length s.host) s.last 1 (length pre + length elems) (omega (arith, w.last, full))
          (omega (arith, whole)))

  pub del_begin-ok :
      IsView pre elems post s
      → IsIndex (length elems) start
      → del_begin s (length pre + length elems) start ≡ ok (length pre + a)
  unfolding del_begin
  del_begin-ok w at_start = begins start at_start
    where
      begins :
          (k : ℤ)
          → IsIndex (length elems) k
          → moved (length s.host) (if ltb_ℤ k (pos 0) then length pre + length elems else s.first) k
            ≡ ok (length pre + index_from (length elems) k)
      begins (pos k) h =
          let front : ltb_ℤ (pos k) (pos 0) ≡ false = ground arith in
          let whole = ap length w.host ∙ length-view pre elems post in
          rw front (
            moved-pos (length s.host) s.first k (length pre + k) (omega (arith, w.first))
              (omega (arith, whole, h)))
      begins (negsuc k) h =
          let behind : ltb_ℤ (negsuc k) (pos 0) ≡ true = ground arith in
          rw behind (
            moved-negsuc (length s.host) (length pre + length elems) k
              (length pre + (length elems - suc k)) (omega (arith, h)))

  del_stop-ok :
      IsView pre elems post s
      → a < length elems
      → IsCount (length elems) a count
      → del_stop s (length pre + length elems) (length pre + a) count ≡ ok (length pre + (a + n))
  unfolding del_stop
  del_stop-ok w below at_count = stops count at_count
    where
      stops :
          (k : ℤ)
          → IsCount (length elems) a k
          → (if ltb_ℤ k (pos 0)
              then ok (length pre + length elems)
              else moved (length s.host) (length pre + a) k)
            ≡ ok (length pre + (a + count_from (length elems) a k))
      stops (pos k) h =
          let front : ltb_ℤ (pos k) (pos 0) ≡ false = ground arith in
          let whole = ap length w.host ∙ length-view pre elems post in
          rw front (
            moved-pos (length s.host) (length pre + a) k (length pre + (a + k)) (omega arith)
              (omega (arith, whole, h)))
      stops (negsuc k) h =
          let behind : ltb_ℤ (negsuc k) (pos 0) ≡ true = ground arith in
          rw behind (ap ok (omega (arith, below)))

  -- The elements that go.
  gone-ok :
      IsView pre elems post s
      → a + n ≤ length elems
      → take (length pre + (a + n) - (length pre + a)) (drop (length pre + a) s.host)
        ≡ take n (drop a elems)
  gone-ok w within =
      let many : length pre + (a + n) - (length pre + a) ≡ n = omega arith in
      let rest : drop (length pre + a) s.host ≡ drop a elems ++ post =
        ap (drop (length pre + a)) w.host ∙ drop-view pre elems post a (omega (arith, within)) in
      rw (many, rest)
        (take-append_le (drop a elems) post n (omega (arith, length-drop a elems, within)))

  del_some-IsView :
      IsView pre elems post s
      → IsIndex (length elems) start
      → IsCount (length elems) a count
      → (s' : ElementList A) × (del_some s count start ≡ ok (s', take n (drop a elems)))
        × IsView pre (removed a n elems) post s'
  unfolding del_some
  del_some-IsView w at_start at_count =
      let below = index_from-below (length elems) start at_start in
      let (some_gone, within) = count_from-range (length elems) a count below at_count in
      let (s', e, w') = erase-IsView w at_start at_count in
      let in_order : leb (length pre + a) (length pre + (a + n)) ≡ true = ground arith in
      (
        s',
        rw
            (
              end_position-ok w (omega (arith, below)),
              del_begin-ok w at_start,
              del_stop-ok w below at_count,
              in_order,
              gone-ok w within,
              e,
            )
            refl,
        w',
      )

  -- Where `s` is the run `elems` of a shared list, `start` is the index of one of them, from the front or
  -- from behind, `count` is -1 or above 0 and stays inside, and a parent is set, del gives up just those
  -- elements, and `s` is the run without them; nothing else in the shared list changes.
  pub del-IsView :
      IsView pre elems post s
      → IsIndex (length elems) start
      → IsCount (length elems) a count
      → s.is_mutable ≡ true
      → (s' : ElementList A) × (del s count start ≡ ok (some (s', take n (drop a elems))))
        × IsView pre (removed a n elems) post s'
  unfolding del
  del-IsView w at_start at_count mutable =
      let below = index_from-below (length elems) start at_start in
      let (s', e, w') = del_some-IsView w at_start at_count in
      let some_size : (s.size == 0) ≡ false = ground (arith, w.size, below) in
      let some_count : eqb_ℤ count (pos 0) ≡ false = not_none count at_count in
      let run : Outcome (Option (ElementList A × List A)) =
        del_some s count start >>= λ r. ok (some r) in
      let deleted : run ≡ ok (some (s', take n (drop a elems))) = rw e refl in
      let allowed : (if s.is_mutable then run else ok none)
          ≡ ok (some (s', take n (drop a elems))) =
        subst (λ b. (if b then run else ok none) ≡ ok (some (s', take n (drop a elems))))
          (sym mutable) deleted in
      (
        s',
        subst
            (λ b.
              (if b then ok (some (s, [])) else if s.is_mutable then run else ok none)
              ≡ ok (some (s', take n (drop a elems))))
            (sym (nothing_to_do some_size some_count)) allowed,
        w',
      )
    where
      not_none : (k : ℤ) → IsCount (length elems) a k → eqb_ℤ k (pos 0) ≡ false
      not_none (pos k) h = ground arith
      not_none (negsuc k) h = ground arith

      nothing_to_do :
          (s.size == 0) ≡ false
          → eqb_ℤ count (pos 0) ≡ false
          → ((s.size == 0) || eqb_ℤ count (pos 0)) ≡ false
      nothing_to_do e₁ e₂ = rw (e₁, e₂) refl
