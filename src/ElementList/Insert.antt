-- ===== src/ElementList/Insert.antt =====
-- insert and add: where new elements come to stand.
use hddm.Prelude.{
  ℕ, suc, ◌+◌, ◌-◌, ◌≤◌, ◌<◌, ◌≡◌, refl, ap, sym, ◌∙◌, List, ◌++◌, length, take, drop,
  length-append, append_assoc, length-drop, arith, ◌==◌, Bool-cases, inl, inr, if◌then◌else◌,
}
use hddm.Prelude.Int.{ℤ, pos, negsuc}
use hddm.Outcome.{ok}
use hddm.ElementList.{
  ElementList, grown, place_first, insert_empty, insert_front, insert_back, insert_inside,
  insert_before,
}
use hddm.ElementList.Cursor.{
  IsView, moved-pos, moved-negsuc, take-view, drop-view, length-view, length-take,
}

-- Where the code takes `start` for an index: from the front, or from behind with -1 for the end. Into an
-- empty list any start will do.
abbrev pub index_of : ℕ → ℤ → ℕ
index_of size (pos n) = if size == 0 then 0 else n
index_of size (negsuc n) = size - n

abbrev pub IsStart : ℕ → ℤ → Type 0
IsStart size (pos n) = (if size == 0 then 0 else n) ≤ size
IsStart size (negsuc n) = (if size == 0 then 0 else n) ≤ size - 1

module _ {A : Type 0} where
  -- Some elements, with others in between at an index.
  abbrev pub inserted : ℕ → List A → List A → List A
  inserted i xs elems = take i elems ++ (xs ++ drop i elems)

  pub length-inserted :
      (i : ℕ) (xs elems : List A)
      → i ≤ length elems
      → length (inserted i xs elems) ≡ length elems + length xs
  length-inserted i xs elems h = omega (
    arith,
    length-append (take i elems) (xs ++ drop i elems),
    length-append xs (drop i elems),
    length-take elems i h,
    length-drop i elems,
  )

  pub append_middle :
      (pre t xs d post : List A)
      → (pre ++ t) ++ (xs ++ (d ++ post)) ≡ pre ++ ((t ++ (xs ++ d)) ++ post)
  append_middle pre t xs d post =
      append_assoc pre t (xs ++ (d ++ post))
      ∙ ap (λ l. pre ++ l)
          (ap (λ l. t ++ l) (sym (append_assoc xs d post)) ∙ sym (append_assoc t (xs ++ d) post))

  module _ (pre elems post xs : List A) where
    grown-host :
        (s : ElementList A) (i p : ℕ)
        → s.host ≡ pre ++ (elems ++ post)
        → i ≤ length elems
        → length pre + i ≡ p
        → (grown s p xs).host ≡ pre ++ (inserted i xs elems ++ post)
    unfolding grown
    grown-host s i p e h at_p =
        rw (e, ← at_p, take-view pre elems post i h, drop-view pre elems post i h)
          (append_middle pre (take i elems) xs (drop i elems) post)

    grown-before : (s : ElementList A) (p : ℕ) → s.first < p → (grown s p xs).first ≡ s.first
    unfolding grown
    grown-before s p h = ground arith

    grown-behind :
        (s : ElementList A) (p : ℕ) → p ≤ s.last → (grown s p xs).last ≡ s.last + length xs
    unfolding grown
    grown-behind s p h = ground arith

    grown-apart : (s : ElementList A) (p : ℕ) → s.last < p → (grown s p xs).last ≡ s.last
    unfolding grown
    grown-apart s p h = ground arith

    long_host :
        (s : ElementList A)
        → IsView pre elems post s
        → length s.host ≡ length pre + (length elems + length post)
    long_host s w = ap length w.host ∙ length-view pre elems post

    -- Before the first element.
    place_first-host :
        (s : ElementList A)
        → IsView pre elems post s
        → ((place_first s xs).host ≡ pre ++ (inserted 0 xs elems ++ post))
          × ((place_first s xs).first ≡ length pre)
          × ((place_first s xs).last ≡ s.last + length xs)
    unfolding place_first grown
    place_first-host s w = elim (Bool-cases (s.first == 0)) [
      | inl at_begin ↦ (
        rw at_begin (grown-host s 0 0 w.host (omega arith) (ground (arith, w.first))),
        rw at_begin (ground (arith, w.first)),
        rw at_begin (ground arith),
      )
      | inr inside ↦ (
        rw inside (
            grown-host (record s { first = s.first - 1 }) 0 s.first w.host (omega arith)
              (omega (arith, w.first))),
        rw inside (ground (arith, w.first)),
        rw inside (ground (arith, w.first, w.last)),
      )
    ]

    pub insert_front-IsView :
        (s : ElementList A)
        → IsView pre elems post s
        → 0 < length elems
        → (s' : ElementList A) × (insert_front s xs ≡ ok (s', length pre + 0))
          × IsView pre (inserted 0 xs elems) post s'
    unfolding insert_front
    insert_front-IsView s w h =
        let (host, first, last) = place_first-host s w in
        let long = length-inserted 0 xs elems (omega arith) in
        let s' : ElementList A = record (place_first s xs) { size = s.size + length xs } in
        (
          s',
          ap (λ p. ok (s', p)) (first ∙ omega arith),
          record {
            host = host;
            first = first;
            size = ap (λ k. k + length xs) w.size ∙ sym long;
            last = omega (arith, last, w.last, long);
          },
        )

    pub insert_empty-IsView :
        (s : ElementList A)
        → IsView pre elems post s
        → length elems ≡ 0
        → 0 < length xs
        → (s' : ElementList A) × (insert_empty s xs ≡ ok (s', length pre + 0))
          × IsView pre (inserted 0 xs elems) post s'
    unfolding insert_empty
    insert_empty-IsView s w h some_new =
        let (host, first, last) = place_first-host s w in
        let long = length-inserted 0 xs elems (omega arith) in
        let s' : ElementList A = record (place_first s xs) {
          last = length pre + (length xs - 1);
          size = length xs;
        } in
        let back =
          moved-negsuc (length (place_first s xs).host) (place_first s xs).last 0
            (length pre + (length xs - 1)) (omega (arith, last, w.last, h)) in
        (
          s',
          rw back (ap (λ p. ok (s', p)) (first ∙ omega arith)),
          record {
            host = host;
            first = first;
            size = omega (arith, long, h);
            last = omega (arith, long, h);
          },
        )

    pub insert_back-IsView :
        (s : ElementList A)
        → IsView pre elems post s
        → 0 < length elems
        → (s' : ElementList A) × (insert_back s xs ≡ ok (s', length pre + length elems))
          × IsView pre (inserted (length elems) xs elems) post s'
    unfolding insert_back
    insert_back-IsView s w h =
        let q : ℕ = length pre + length elems in
        let g : ElementList A = grown (record s { last = q }) q xs in
        let long = length-inserted (length elems) xs elems (omega arith) in
        let step =
          moved-pos (length s.host) s.last 1 q (omega (arith, w.last, h))
            (omega (arith, long_host s w)) in
        let g_last : g.last ≡ q + length xs =
          grown-behind (record s { last = q }) q (omega arith) in
        let back =
          moved-negsuc (length g.host) g.last 0 (q + length xs - 1) (omega (arith, g_last, h)) in
        let s' : ElementList A = record g { last = q + length xs - 1; size = s.size + length xs } in
        (
          s',
          rw (step, back) (ap (λ p. ok (s', p)) (omega (arith, w.last, h))),
          record {
            host = grown-host (record s { last = q }) (length elems) q w.host (omega arith) refl;
            first = grown-before (record s { last = q }) q (omega (arith, w.first, h)) ∙ w.first;
            size = ap (λ k. k + length xs) w.size ∙ sym long;
            last = omega (arith, long, h);
          },
        )

    -- The last element is the last new one where they are put behind all.
    last_inside :
        (s : ElementList A) (k : ℕ)
        → IsView pre elems post s
        → suc k ≤ length elems
        → length (inserted (suc k) xs elems) ≡ length elems + length xs
        → (if (grown s (length pre + suc k) xs).last == (length pre + k)
            then length pre + suc k + length xs - 1
            else (grown s (length pre + suc k) xs).last)
          ≡ length pre + (length (inserted (suc k) xs elems) - 1)
    last_inside s k w h long = elim (Bool-cases (suc k == length elems)) [
      | inl at_end ↦
          let same = grown-apart s (length pre + suc k) (ground (arith, w.last)) in
          ground (arith, same, w.last, long)
      | inr between ↦
          let shifted = grown-behind s (length pre + suc k) (ground (arith, w.last)) in
          ground (arith, shifted, w.last, long)
    ]

    pub insert_inside-IsView :
        (s : ElementList A) (k : ℕ)
        → IsView pre elems post s
        → suc k ≤ length elems
        → (s' : ElementList A) × (insert_inside s k xs ≡ ok (s', length pre + suc k))
          × IsView pre (inserted (suc k) xs elems) post s'
    unfolding insert_inside
    insert_inside-IsView s k w h =
        let q : ℕ = length pre + suc k in
        let g : ElementList A = grown s q xs in
        let long = length-inserted (suc k) xs elems h in
        let first_step =
          moved-pos (length s.host) s.first k (length pre + k) (omega (arith, w.first))
            (omega (arith, long_host s w, h)) in
        let next =
          moved-pos (length s.host) (length pre + k) 1 q (omega arith)
            (omega (arith, long_host s w, h)) in
        let s' : ElementList A = record g {
          last = if g.last == (length pre + k) then q + length xs - 1 else g.last;
          size = s.size + length xs;
        } in
        (
          s',
          rw (first_step, next) (ap (λ p. ok (s', p)) (omega arith)),
          record {
            host = grown-host s (suc k) q w.host h refl;
            first = grown-before s q (omega (arith, w.first)) ∙ w.first;
            size = ap (λ k. k + length xs) w.size ∙ sym long;
            last = last_inside s k w h long;
          },
        )

    pub insert_before-IsView :
        (s : ElementList A) (k : ℕ)
        → IsView pre elems post s
        → suc k ≤ length elems - 1
        → (s' : ElementList A) × (insert_before s k xs
            ≡ ok (s', length pre + (length elems - suc k)))
          × IsView pre (inserted (length elems - suc k) xs elems) post s'
    unfolding insert_before
    insert_before-IsView s k w h =
        let i : ℕ = length elems - suc k in
        let q : ℕ = length pre + i in
        let g : ElementList A = grown s q xs in
        let long = length-inserted i xs elems (omega arith) in
        let first_step = moved-negsuc (length s.host) s.last k (q - 1) (omega (arith, w.last, h)) in
        let next =
          moved-pos (length s.host) (q - 1) 1 q (omega (arith, h))
            (omega (arith, long_host s w, h)) in
        let s' : ElementList A = record g { size = s.size + length xs } in
        (
          s',
          rw (first_step, next) (ap (λ p. ok (s', p)) (omega (arith, h))),
          record {
            host = grown-host s i q w.host (omega arith) refl;
            first = grown-before s q (omega (arith, w.first, h)) ∙ w.first;
            size = ap (λ k. k + length xs) w.size ∙ sym long;
            last = grown-behind s q (omega (arith, w.last, h)) ∙ omega (arith, w.last, long, h);
          },
        )
