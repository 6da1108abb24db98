-- ===== src/ElementList/Access.antt =====
-- Elements by index, parts of a list, and the change between iterators and numbers.
use hddm.Prelude.{
  ℕ, zero, suc, ◌+◌, ◌-◌, ◌<◌, ◌≡◌, refl, ap, sym, ◌∙◌, true, false, List, [], ◌∷◌, ◌++◌, length,
  take, drop, take-drop, drop-drop, length-append, take-append, drop-append, length-drop, arith,
  ◌==◌, Bool-cases, inl, inr,
}
use hddm.Prelude.Int.{ℤ, pos, negsuc, ◌+ℤ◌, ◌-ℤ◌}
use hddm.Outcome.{ok}
use hddm.ElementList.{
  ElementList, slice, slice_first, slice_behind, get, at_index, deflate, inflate, insert_some,
  insert_before, grown,
}
use hddm.ElementList.Cursor.{
  IsView, from_range-IsView, moved-pos, moved-negsuc, length-view, length-take,
}
use hddm.ElementList.Insert.{append_middle}
use hddm.ElementList.Erase.{index_from, IsIndex}
use hddm.ElementList.Delete.{index_from-below, end_position-ok, del_begin-ok}

module _ (size : ℕ) where
  slice_first_lem : (k : ℤ) → IsIndex size k → slice_first size k ≡ pos (index_from size k)
  unfolding slice_first ◌+ℤ◌
  slice_first_lem (pos n) h = ground arith
  slice_first_lem (negsuc n) h = ground arith

  slice_behind_lem : (k : ℤ) → IsIndex size k → slice_behind size k ≡ pos (suc (index_from size k))
  unfolding slice_behind ◌+ℤ◌
  slice_behind_lem (pos n) h = ground arith
  slice_behind_lem (negsuc n) h = ground arith

pos_difference : (a b n : ℕ) → a + n ≡ b → pos b -ℤ pos a ≡ pos n
unfolding ◌-ℤ◌
pos_difference a b n h = ground arith

module _ {A : Type 0} where
  get-view :
      (pre xs post : List A) (i : ℕ)
      → i < length xs
      → get (pre ++ (xs ++ post)) (length pre + i) ≡ get xs i
  unfolding get
  get-view (y ∷ pre) xs post i h =
      let e : length (y ∷ pre) + i ≡ suc (length pre + i) = omega arith in
      rw e (get-view pre xs post i h)
  get-view [] [] post i h = absurd (omega arith)
  get-view [] (x ∷ xs) post zero h = refl
  get-view [] (x ∷ xs) post (suc i) h =
      let e : 0 + suc i ≡ suc (0 + i) = omega arith in rw e (get-view [] xs post i (omega arith))

  get-split :
      (xs : List A) (i : ℕ)
      → i < length xs
      → (x : A) × (get xs i ≡ ok x) × (xs ≡ take i xs ++ (x ∷ drop (suc i) xs))
  unfolding get
  get-split [] i h = absurd (omega arith)
  get-split (x ∷ xs) zero h = (x, refl, refl)
  get-split (x ∷ xs) (suc i) h =
      let (y, e, split) = get-split xs i (omega arith) in (y, e, ap (λ l. x ∷ l) split)

  module _ (pre elems post : List A) (s : ElementList A) where
    -- Where `s` is the run `elems`, operator() takes the element at an index in its range, from the front
    -- or, below 0, from behind.
    pub at_index-IsView :
        (index : ℤ)
        → IsView pre elems post s
        → IsIndex (length elems) index
        → (x : A) × (at_index s index ≡ ok x)
          × (elems
              ≡ take (index_from (length elems) index) elems
                ++ (x ∷ drop (suc (index_from (length elems) index)) elems))
    unfolding at_index
    at_index-IsView index w h =
        let i = index_from (length elems) index in
        let (x, e, split) = get-split elems i (index_from-below (length elems) index h) in
        let at_i : get s.host (length pre + i) ≡ ok x =
          ap (λ l. get l (length pre + i)) w.host
          ∙ get-view pre elems post i (index_from-below (length elems) index h)
          ∙ e in
        (x, read index h ∙ at_i, split)
      where
        whole : length s.host ≡ length pre + (length elems + length post)
        whole = ap length w.host ∙ length-view pre elems post

        read :
            (k : ℤ)
            → IsIndex (length elems) k
            → at_index s k ≡ get s.host (length pre + index_from (length elems) k)
        read (pos zero) h = ap (get s.host) (omega (arith, w.first))
        read (pos (suc k)) h =
            rw
              (moved-pos (length s.host) s.first (suc k) (length pre + suc k)
                (omega (arith, w.first)) (omega (arith, whole, h)))
              refl
        read (negsuc zero) h = ap (get s.host) (omega (arith, w.last))
        read (negsuc (suc k)) h =
            rw
              (moved-negsuc (length s.host) s.last k (length pre + (length elems - suc (suc k)))
                (omega (arith, w.last, h)))
              refl

    -- Where `s` is the run `elems`, deflate keeps what inflate needs to make it the run of as many
    -- elements, behind as many others, in any other list.
    pub inflate-deflate :
        (pre' elems' post' : List A)
        → IsView pre elems post s
        → length pre' ≡ length pre
        → length elems' ≡ length elems
        → (s' : ElementList A) × (inflate (deflate s) (pre' ++ (elems' ++ post')) ≡ ok s')
          × IsView pre' elems' post' s'
          × (s'.is_mutable ≡ true)
    unfolding inflate deflate
    inflate-deflate pre' elems' post' w same_front same_size =
        let host : List A = pre' ++ (elems' ++ post') in
        let q : ℕ = length pre' + length elems' in
        let whole = length-view pre' elems' post' in
        let first =
          moved-pos (length host) 0 s.first (length pre') (omega (arith, w.first, same_front))
            (omega (arith, whole)) in
        let last =
          moved-pos (length host) (length pre') s.size q (omega (arith, w.size, same_size))
            (omega (arith, whole)) in
        elim (Bool-cases (s.size == 0)) [
          | inl empty ↦ (
            record s {
              host = host;
              first = length pre';
              last = q;
              ref = s.first;
              is_mutable = true;
            },
            rw (first, last, empty) refl,
            record {
              host = refl;
              first = refl;
              size = w.size ∙ sym same_size;
              last = ground (arith, w.size, same_size);
            },
            refl,
          )
          | inr full ↦
              let back =
                moved-negsuc (length host) q 0 (q - 1) (ground (arith, w.size, same_size)) in
              (
                record s {
                  host = host;
                  first = length pre';
                  last = q - 1;
                  ref = s.first;
                  is_mutable = true;
                },
                rw (first, last, full, back) refl,
                record {
                  host = refl;
                  first = refl;
                  size = w.size ∙ sym same_size;
                  last = ground (arith, w.size, same_size);
                },
                refl,
              )
        ]

    -- Where `s` is the run `elems`, slice from one index to another, that one included, both from the front
    -- or from behind, is the list of the elements between them, if the first is not behind both.
    pub slice-IsView :
        (first last : ℤ) (count : ℕ)
        → IsView pre elems post s
        → IsIndex (length elems) first
        → IsIndex (length elems) last
        → index_from (length elems) first + count ≡ suc (index_from (length elems) last)
        → (part : ElementList A) × (slice s first last ≡ ok part)
          × IsView
              (pre ++ take (index_from (length elems) first) elems)
              (take count (drop (index_from (length elems) first) elems))
              (drop (suc (index_from (length elems) last)) elems ++ post)
              part
    unfolding slice
    slice-IsView first last count w at_first at_last ordered =
        let i = index_from (length elems) first in
        let j = index_from (length elems) last in
        let below = index_from-below (length elems) last at_last in
        let between = take count (drop i elems) in
        let rest = drop (suc j) elems in
        let whole = ap length w.host ∙ length-view pre elems post in
        let n₁ : slice_first s.size first ≡ pos i =
          ap (λ k. slice_first k first) w.size ∙ slice_first_lem (length elems) first at_first in
        let n₂ : slice_behind s.size last ≡ pos (suc j) =
          ap (λ k. slice_behind k last) w.size ∙ slice_behind_lem (length elems) last at_last in
        let stop =
          moved-pos (length s.host) (length pre + i) count (length pre + suc j)
            (omega (arith, ordered)) (omega (arith, whole, below)) in
        let split : take i elems ++ (between ++ rest) ≡ elems =
          ap (λ l. take i elems ++ (between ++ l))
            (ap (λ k. drop k elems) (sym ordered) ∙ sym (drop-drop count i elems))
          ∙ ap (λ l. take i elems ++ l) (take-drop count (drop i elems))
          ∙ take-drop i elems in
        let shared : s.host ≡ (pre ++ take i elems) ++ (between ++ (rest ++ post)) =
          w.host
          ∙ ap (λ l. pre ++ (l ++ post)) (sym split)
          ∙ sym (append_middle pre (take i elems) between rest post) in
        let front = length-append pre (take i elems) in
        let short = length-take elems i (omega (arith, ordered, below)) in
        let long =
          length-take (drop i elems) count (omega (arith, length-drop i elems, ordered, below)) in
        let (part, e, w') =
          from_range-IsView (pre ++ take i elems) between (rest ++ post) s.host (length pre + i)
            (length pre + suc j) false shared (omega (arith, front, short))
            (omega (arith, front, short, long, ordered)) in
        (
          part,
          rw
              (
                end_position-ok pre elems post s first (pos 0) w (omega (arith, below)),
                del_begin-ok pre elems post s first (pos 0) w at_first,
                n₁,
                n₂,
                pos_difference i (suc j) count ordered,
                stop,
              )
              e,
          w',
        )

    -- With `start` one below the least index from behind, and others in front of the run `elems` of at least
    -- one element, insert puts the new ones before the run and leaves the iterator to its first element as it is: with
    -- the new size the run reaches as many elements beyond its end.
    pub insert_some-below :
        (xs : List A) (k : ℕ)
        → IsView pre elems post s
        → 0 < length pre
        → length elems ≡ suc k
        → (s' : ElementList A) × (insert_some s (negsuc (suc k)) xs ≡ ok (s', length pre))
          × (s'.host ≡ pre ++ (xs ++ (elems ++ post)))
          × (s'.first ≡ length pre + length xs)
          × (s'.first + s'.size ≡ suc s'.last + length xs)
    unfolding insert_some insert_before grown
    insert_some-below xs k w some_pre long =
        let whole = ap length w.host ∙ length-view pre elems post in
        let some_size : (s.size == 0) ≡ false = ground (arith, w.size, long) in
        let step =
          moved-negsuc (length s.host) s.last k (length pre - 1)
            (omega (arith, w.last, long, some_pre)) in
        let next =
          moved-pos (length s.host) (length pre - 1) 1 (length pre) (omega (arith, some_pre))
            (omega (arith, whole)) in
        let g : ElementList A = record (grown s (length pre) xs) { size = s.size + length xs } in
        let host : g.host ≡ pre ++ (xs ++ (elems ++ post)) =
          rw (w.host, take-append pre (elems ++ post), drop-append pre (elems ++ post)) refl in
        let position : suc (length pre - 1) ≡ length pre = omega (arith, some_pre) in
        (
          g,
          rw (some_size, step, next) (ap (λ p. ok (g, p)) position),
          host,
          ground (arith, w.first),
          ground (arith, w.first, w.last, w.size, long),
        )
