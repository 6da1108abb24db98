-- ===== src/ElementList/Add.antt =====
-- insert by any start, and add: the run of elements as a list, whatever is around it.
use hddm.Prelude.{
  ℕ, zero, suc, ◌+◌, ◌≤◌, ◌<◌, ◌≡◌, refl, ap, sym, subst, ◌∙◌, true, false, List, ◌∷◌, ◌++◌, Option,
  none, some, length, take, drop, length-append, take-append, drop-append, arith, ◌==◌, Bool-cases,
  inl, inr, if◌then◌else◌,
}
use hddm.Prelude.Int.{ℤ, pos, negsuc}
use hddm.Outcome.{Outcome, ok, ◌>>=◌}
use hddm.ElementList.{ElementList, insert_some, insert, copies, set_from, add, add_new}
use hddm.ElementList.Cursor.{
  IsView, from_range-IsView, moved-pos, length-view, length-take, drop-append_more,
}
use hddm.ElementList.Insert.{
  index_of, IsStart, inserted, append_middle, insert_front-IsView, insert_empty-IsView,
  insert_back-IsView, insert_inside-IsView, insert_before-IsView, length-inserted,
}

index_of-empty : (size : ℕ) (start : ℤ) → size ≡ 0 → index_of size start ≡ 0
index_of-empty size (pos n) h = ground arith
index_of-empty size (negsuc n) h = omega arith

module _ {A : Type 0} (pre elems post : List A) where
  -- Into an empty list, at any start.
  insert_some-empty :
      (s : ElementList A) (start : ℤ) (xs : List A)
      → IsView pre elems post s
      → 0 < length xs
      → length elems ≡ 0
      → (s' : ElementList A) × (insert_some s start xs
          ≡ ok (s', length pre + index_of (length elems) start))
        × IsView pre (inserted (index_of (length elems) start) xs elems) post s'
  unfolding insert_some
  insert_some-empty s start xs w some_new empty =
      let no_size : (s.size == 0) ≡ true = ground (arith, w.size) in
      rw (no_size, index_of-empty (length elems) start empty)
        (insert_empty-IsView pre elems post xs s w empty some_new)

  insert_some-full :
      (s : ElementList A) (start : ℤ) (xs : List A)
      → IsView pre elems post s
      → IsStart (length elems) start
      → 0 < length elems
      → (s' : ElementList A) × (insert_some s start xs
          ≡ ok (s', length pre + index_of (length elems) start))
        × IsView pre (inserted (index_of (length elems) start) xs elems) post s'
  unfolding insert_some
  insert_some-full s (pos zero) xs w at_start full =
      let some_size : (s.size == 0) ≡ false = ground (arith, w.size) in
      let i : index_of (length elems) (pos zero) ≡ 0 = ground arith in
      rw (some_size, i) (insert_front-IsView pre elems post xs s w full)
  insert_some-full s (pos (suc k)) xs w at_start full =
      let some_size : (s.size == 0) ≡ false = ground (arith, w.size) in
      let i : index_of (length elems) (pos (suc k)) ≡ suc k = ground arith in
      rw (some_size, i) (insert_inside-IsView pre elems post xs s k w (ground arith))
  insert_some-full s (negsuc zero) xs w at_start full =
      let some_size : (s.size == 0) ≡ false = ground (arith, w.size) in
      let i : index_of (length elems) (negsuc zero) ≡ length elems = omega arith in
      rw (some_size, i) (insert_back-IsView pre elems post xs s w full)
  insert_some-full s (negsuc (suc k)) xs w at_start full =
      let some_size : (s.size == 0) ≡ false = ground (arith, w.size) in
      rw some_size (insert_before-IsView pre elems post xs s k w (ground arith))

  length-copies : (n : ℕ) (x : A) → length (copies n x) ≡ n
  length-copies zero x = refl
  length-copies (suc n) x = omega (arith, length-copies n x)

  index_of-le : (size : ℕ) (start : ℤ) → IsStart size start → index_of size start ≤ size
  index_of-le size (pos n) h = h
  index_of-le size (negsuc n) h = omega arith

  -- Where `s` is the run `elems` of a shared list and `start` is in its range, insert puts in the null
  -- pointers at the index that `start` stands for, returns the position of the first, and `s` is the run
  -- with them; nothing else in the shared list changes.
  pub insert-IsView :
      (null : A) (s : ElementList A) (start : ℤ) (n : ℕ)
      → IsView pre elems post s
      → IsStart (length elems) start
      → (s' : ElementList A) × (insert null s start (pos (suc n))
          ≡ ok (s', length pre + index_of (length elems) start))
        × IsView pre (inserted (index_of (length elems) start) (copies (suc n) null) elems) post s'
  unfolding insert
  insert-IsView null s start n w at_start = elim (Bool-cases (length elems == 0)) [
    | inl empty ↦ insert_some-empty s start (copies (suc n) null) w (omega arith) (ground arith)
    | inr full ↦ insert_some-full s start (copies (suc n) null) w at_start (ground arith)
  ]

  -- The new objects take the places of the null pointers.
  set_from-inserted :
      (i p : ℕ) (old fresh : List A)
      → i ≤ length elems
      → length pre + i ≡ p
      → length old ≡ length fresh
      → set_from p fresh (pre ++ (inserted i old elems ++ post))
        ≡ pre ++ (inserted i fresh elems ++ post)
  unfolding set_from
  set_from-inserted i p old fresh h at_p same =
      let front : List A = pre ++ take i elems in
      let behind : List A = drop i elems ++ post in
      let long : length front ≡ p =
        omega (arith, length-append pre (take i elems), length-take elems i h, at_p) in
      rw
        (
          ← append_middle pre (take i elems) old (drop i elems) post,
          ← long,
          ← same,
          take-append front (old ++ behind),
          drop-append_more front (old ++ behind) (length old),
          drop-append old behind,
        )
        (append_middle pre (take i elems) fresh (drop i elems) post)

  add_new-IsView :
      (null : A) (s : ElementList A) (start : ℤ) (x : A) (fresh : List A)
      → IsView pre elems post s
      → IsStart (length elems) start
      → (s' part : ElementList A) × (add_new null s start (x ∷ fresh) ≡ ok (s', part))
        × IsView pre (inserted (index_of (length elems) start) (x ∷ fresh) elems) post s'
        × IsView
            (pre ++ take (index_of (length elems) start) elems)
            (x ∷ fresh)
            (drop (index_of (length elems) start) elems ++ post)
            part
  unfolding add_new
  add_new-IsView null s start x fresh w at_start =
      let (g, e, w') = insert-IsView null s start (length fresh) w at_start in
      let i = index_of (length elems) start in
      let new = x ∷ fresh in
      let within = index_of-le (length elems) start at_start in
      let long = length-inserted i new elems within in
      let shared : set_from (length pre + i) new g.host ≡ pre ++ (inserted i new elems ++ post) =
        ap (set_from (length pre + i) new) w'.host
        ∙ set_from-inserted i (length pre + i) (copies (suc (length fresh)) null) new within refl
            (length-copies (suc (length fresh)) null) in
      let host : List A = set_from (length pre + i) new g.host in
      let front : length (pre ++ take i elems) ≡ length pre + i =
        omega (arith, length-append pre (take i elems), length-take elems i within) in
      let total : length host ≡ length pre + (length elems + length new + length post) =
        omega (arith, ap length shared, length-view pre (inserted i new elems) post, long) in
      let stop =
        moved-pos (length host) (length pre + i) (length new) (length pre + i + length new) refl
          (omega (arith, total, within)) in
      let (part, made, w'') =
        from_range-IsView (pre ++ take i elems) new (drop i elems ++ post) host (length pre + i)
          (length pre + i + length new) true
          (shared ∙ sym (append_middle pre (take i elems) new (drop i elems) post)) (sym front)
          (omega (arith, front)) in
      (
        record g { host = host },
        part,
        rw (e, stop, made) refl,
        record {
          host = shared;
          first = w'.first;
          size = omega (
            arith,
            w'.size,
            length-inserted i (copies (suc (length fresh)) null) elems within,
            length-copies (suc (length fresh)) null,
            long,
          );
          last = omega (
            arith,
            w'.last,
            length-inserted i (copies (suc (length fresh)) null) elems within,
            length-copies (suc (length fresh)) null,
            long,
          );
        },
        w'',
      )

  -- Where `s` is the run `elems` of a shared list, `start` is in its range and a parent is set, add puts in
  -- the new objects in their order at the index that `start` stands for, and the list that it returns is
  -- the run of them alone; nothing else in the shared list changes.
  pub add-IsView :
      (null : A) (s : ElementList A) (start : ℤ) (x : A) (fresh : List A)
      → IsView pre elems post s
      → IsStart (length elems) start
      → s.is_mutable ≡ true
      → (s' part : ElementList A) × (add null s start (x ∷ fresh) ≡ ok (some (s', part)))
        × IsView pre (inserted (index_of (length elems) start) (x ∷ fresh) elems) post s'
        × IsView
            (pre ++ take (index_of (length elems) start) elems)
            (x ∷ fresh)
            (drop (index_of (length elems) start) elems ++ post)
            part
  unfolding add
  add-IsView null s start x fresh w at_start mutable =
      let (s', part, e, w₁, w₂) = add_new-IsView null s start x fresh w at_start in
      let run : Outcome (Option (ElementList A × ElementList A)) =
        add_new null s start (x ∷ fresh) >>= λ r. ok (some r) in
      let made : run ≡ ok (some (s', part)) = rw e refl in
      (
        s',
        part,
        subst (λ b. (if b then run else ok none) ≡ ok (some (s', part))) (sym mutable) made,
        w₁,
        w₂,
      )
