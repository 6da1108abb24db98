-- ===== src/ElementList/Cursor.antt =====
-- Where iterators get to, and a list of the record as a part of the list that it shares.
use hddm.Prelude.{
  ℕ, zero, suc, ◌+◌, ◌-◌, ◌≤◌, ◌≡◌, refl, ap, ◌∙◌, Bool, true, List, [], ◌∷◌, ◌++◌, length, take,
  drop, length-append, arith, ltb, leb, Bool-cases, inl, inr, ◌==◌, if◌then◌else◌,
}
use hddm.Prelude.Int.{ℤ, pos, negsuc}
use hddm.Outcome.{ok}
use hddm.ElementList.{ElementList, forward, backward, moved, moved_back, from_range}

pub forward-ok : (len n p : ℕ) → p + n ≤ len → forward len n p ≡ ok (p + n)
unfolding forward
forward-ok len zero p h = ap ok (omega arith)
forward-ok len (suc n) p h =
    let more : ltb p len ≡ true = ground arith in
    rw (more, forward-ok len n (suc p) (omega (arith, h))) (ap ok (omega arith))

pub backward-ok : (n p q : ℕ) → q + n ≡ p → backward n p ≡ ok q
unfolding backward
backward-ok zero p q h = ap ok (omega (arith, h))
backward-ok (suc n) zero q h = absurd (omega (arith, h))
backward-ok (suc n) (suc p) q h = backward-ok n p q (omega (arith, h))

-- An iterator's move that stays inside of the list.
pub moved-pos : (len p n q : ℕ) → p + n ≡ q → q ≤ len → moved len p (pos n) ≡ ok q
unfolding moved
moved-pos len p n q e h = forward-ok len n p (omega (arith, e, h)) ∙ ap ok e

pub moved-negsuc : (len p n q : ℕ) → q + suc n ≡ p → moved len p (negsuc n) ≡ ok q
unfolding moved
moved-negsuc len p n q e = backward-ok (suc n) p q e

module _ {A : Type 0} where
  -- The elements of `s` are those between `pre` and `post` in the list that it shares.
  pub record IsView (pre elems post : List A) (s : ElementList A) : Type 0 where
    pub host : s.host ≡ pre ++ (elems ++ post)
    pub first : s.first ≡ length pre
    pub size : s.size ≡ length elems
    pub last : s.last ≡ length pre + (length elems - 1)

  pub take-append_more :
      (pre xs : List A) (i : ℕ) → take (length pre + i) (pre ++ xs) ≡ pre ++ take i xs
  take-append_more [] xs i = ap (λ k. take k xs) (omega arith)
  take-append_more (x ∷ pre) xs i =
      let e : length (x ∷ pre) + i ≡ suc (length pre + i) = omega arith in
      rw e (ap (λ l. x ∷ l) (take-append_more pre xs i))

  pub drop-append_more : (pre xs : List A) (i : ℕ) → drop (length pre + i) (pre ++ xs) ≡ drop i xs
  drop-append_more [] xs i = ap (λ k. drop k xs) (omega arith)
  drop-append_more (x ∷ pre) xs i =
      let e : length (x ∷ pre) + i ≡ suc (length pre + i) = omega arith in
      rw e (drop-append_more pre xs i)

  pub take-append_le : (xs ys : List A) (i : ℕ) → i ≤ length xs → take i (xs ++ ys) ≡ take i xs
  take-append_le xs ys zero h = refl
  take-append_le [] ys (suc i) h = absurd (omega arith)
  take-append_le (x ∷ xs) ys (suc i) h = ap (λ l. x ∷ l) (take-append_le xs ys i (omega arith))

  pub drop-append_le :
      (xs ys : List A) (i : ℕ) → i ≤ length xs → drop i (xs ++ ys) ≡ drop i xs ++ ys
  drop-append_le xs ys zero h = refl
  drop-append_le [] ys (suc i) h = absurd (omega arith)
  drop-append_le (x ∷ xs) ys (suc i) h = drop-append_le xs ys i (omega arith)

  pub length-take : (xs : List A) (i : ℕ) → i ≤ length xs → length (take i xs) ≡ i
  length-take xs zero h = refl
  length-take [] (suc i) h = absurd (omega arith)
  length-take (x ∷ xs) (suc i) h = omega (arith, length-take xs i (omega arith))

  -- Up to the i-th of the elements, and from there on.
  pub take-view :
      (pre elems post : List A) (i : ℕ)
      → i ≤ length elems
      → take (length pre + i) (pre ++ (elems ++ post)) ≡ pre ++ take i elems
  take-view pre elems post i h =
      take-append_more pre (elems ++ post) i ∙ ap (λ l. pre ++ l) (take-append_le elems post i h)

  pub drop-view :
      (pre elems post : List A) (i : ℕ)
      → i ≤ length elems
      → drop (length pre + i) (pre ++ (elems ++ post)) ≡ drop i elems ++ post
  drop-view pre elems post i h =
      drop-append_more pre (elems ++ post) i ∙ drop-append_le elems post i h

  pub length-view :
      (pre elems post : List A)
      → length (pre ++ (elems ++ post)) ≡ length pre + (length elems + length post)
  length-view pre elems post =
      omega (arith, length-append pre (elems ++ post), length-append elems post)

  -- The list of the elements from one position to another.
  pub from_range-IsView :
      (pre elems post : List A) (shared : List A) (begin end : ℕ) (is_mutable : Bool)
      → shared ≡ pre ++ (elems ++ post)
      → begin ≡ length pre
      → end ≡ length pre + length elems
      → (s : ElementList A) × (from_range shared begin end is_mutable ≡ ok s)
        × IsView pre elems post s
  unfolding from_range
  from_range-IsView pre elems post shared begin end is_mutable e at_begin at_end =
      let in_order : leb begin end ≡ true = ground (arith, at_begin, at_end) in
      let s : ElementList A = record {
        host = shared;
        first = begin;
        last = if end - begin == 0 then end else end - 1;
        size = end - begin;
        ref = 0;
        is_mutable = is_mutable;
      } in
      (
        s,
        rw in_order refl,
        record {
          host = e;
          first = at_begin;
          size = omega (arith, at_begin, at_end);
          last = ground (arith, at_begin, at_end);
        },
      )

forward-inv : (len n p q : ℕ) → forward len n p ≡ ok q → p ≤ len → (p + n ≡ q) × (q ≤ len)
unfolding forward
forward-inv len zero p q e inside = ground arith
forward-inv len (suc n) p q e inside = elim (Bool-cases (ltb p len)) [
  | inl more ↦
      let e' : forward len n (suc p) ≡ ok q = rw more at e in
      let (at_q, within) = forward-inv len n (suc p) q e' (ground arith) in
      (omega (arith, at_q), within)
  | inr at_end ↦ absurd (let e' = rw at_end at e in cc)
]

backward-inv : (n p q : ℕ) → backward n p ≡ ok q → q + n ≡ p
unfolding backward
backward-inv zero p q e = ground arith
backward-inv (suc n) zero q e = absurd cc
backward-inv (suc n) (suc p) q e = omega (arith, backward-inv n p q e)

-- Where operator+= of an iterator gets to a position of the list, operator-= by the same offset, of
-- either sign, gets back.
pub moved_back-moved :
    (len p q : ℕ) (offset : ℤ)
    → p ≤ len
    → moved len p offset ≡ ok q
    → moved_back len q offset ≡ ok p
unfolding moved moved_back
moved_back-moved len p q (pos n) inside e =
    let (at_q, within) = forward-inv len n p q e inside in backward-ok n q p at_q
moved_back-moved len p q (negsuc n) inside e =
    let at_q = backward-inv (suc n) p q e in
    forward-ok len (suc n) q (omega (arith, at_q, inside)) ∙ ap ok at_q
