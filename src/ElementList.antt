-- ===== src/ElementList.antt =====
-- HDDM_ElementList, the list type of the generated C++ library, from the text that src/hddm-cpp.cpp
-- writes into every header: a run of elements inside a std::list that other lists of the record share.
-- An iterator is its position in that list, end() being the length; std::list keeps iterators on their
-- nodes, so an insertion moves the positions from there on. A step off the list is undefined.
pub mod Cursor
pub mod Insert
pub mod Add
pub mod Erase
pub mod Delete
pub mod Access
use hddm.Prelude.{
  ℕ, zero, suc, ◌+◌, ◌-◌, Bool, true, false, not, List, [], ◌∷◌, ◌++◌, Option, none, some, length,
  take, drop, ltb, leb, ◌==◌, ◌&&◌, ◌||◌, if◌then◌else◌,
}
use hddm.Prelude.Int.{ℤ, pos, negsuc, ◌+ℤ◌, ◌-ℤ◌, ltb_ℤ, eqb_ℤ, pos_part}
use hddm.Outcome.{Outcome, ok, fault, ◌>>=◌}

-- ++ of an iterator, some times, in a list of a length; and --.
unfoldable pub forward : ℕ → ℕ → ℕ → Outcome ℕ
forward len zero p = ok p
forward len (suc n) p = let rest = forward len n (suc p) in if ltb p len then rest else fault

unfoldable pub backward : ℕ → ℕ → Outcome ℕ
backward zero p = ok p
backward (suc n) zero = fault
backward (suc n) (suc p) = backward n p

-- iterator::operator+=
unfoldable pub moved : ℕ → ℕ → ℤ → Outcome ℕ
moved len p (pos n) = forward len n p
moved len p (negsuc n) = backward (suc n) p

-- iterator::operator-=, and const_iterator::operator-=, whose two tests are the same.
unfoldable pub moved_back : ℕ → ℕ → ℤ → Outcome ℕ
moved_back len p (pos n) = backward n p
moved_back len p (negsuc n) = forward len (suc n) p

unfoldable pub const_moved_back : ℕ → ℕ → ℤ → Outcome ℕ
const_moved_back len p (pos n) = backward n p
const_moved_back len p (negsuc n) = ok p

-- The elements at m_host_plist, the two iterators, m_size and m_ref; `is_mutable` if m_parent is set.
pub record ElementList (A : Type 0) : Type 0 where
  pub host : List A
  pub first : ℕ
  pub last : ℕ
  pub size : ℕ
  pub ref : ℕ
  pub is_mutable : Bool

-- The first lines of erase.
unfoldable pub erase_start : ℕ → ℤ → ℤ
erase_start size start =
    if ltb_ℤ start (pos 0)
    then start +ℤ pos size
    else if ltb_ℤ start (pos size)
    then start
    else pos size

unfoldable pub erase_count : ℕ → ℤ → ℤ → ℤ
erase_count size start count = if eqb_ℤ count (negsuc 0) then pos size -ℤ start else count

-- n1 and n2 of slice.
unfoldable pub slice_first : ℕ → ℤ → ℤ
slice_first size first = if ltb_ℤ first (pos 0) then first +ℤ pos size else first

unfoldable pub slice_behind : ℕ → ℤ → ℤ
slice_behind size last = if ltb_ℤ last (pos 0) then last +ℤ pos size +ℤ pos 1 else last +ℤ pos 1

module _ {A : Type 0} where
  -- std::list::insert of some elements before position p, and the iterators of the list at hand.
  unfoldable pub grown : ElementList A → ℕ → List A → ElementList A
  grown s p xs = record s {
    host = take p s.host ++ (xs ++ drop p s.host);
    first = if leb p s.first then s.first + length xs else s.first;
    last = if leb p s.last then s.last + length xs else s.last;
  }

  -- std::list::erase from position a to b. The code sets anew an iterator that was between them.
  unfoldable pub shrunk : ElementList A → ℕ → ℕ → ElementList A
  shrunk s a b = record s {
    host = take a s.host ++ drop b s.host;
    first = if leb b s.first then s.first - (b - a) else s.first;
    last = if leb b s.last then s.last - (b - a) else s.last;
  }

  -- insert: the part that the first two branches share.
  unfoldable pub place_first : ElementList A → List A → ElementList A
  place_first s xs =
      let at_begin : ElementList A = record (grown s 0 xs) { first = 0 } in
      let moved_on : ElementList A =
        let g : ElementList A = grown (record s { first = s.first - 1 }) s.first xs in
        record g { first = suc g.first } in
      if s.first == 0 then at_begin else moved_on

  -- insert: its branches where the count is above 0, `xs` being the null pointers. The list, and the
  -- position that is returned.
  unfoldable pub insert_empty : ElementList A → List A → Outcome (ElementList A × ℕ)
  insert_empty s xs = do
    last ← moved (length (place_first s xs).host) (place_first s xs).last (negsuc 0)
    ok (record (place_first s xs) { last = last; size = length xs }, (place_first s xs).first)

  unfoldable pub insert_front : ElementList A → List A → Outcome (ElementList A × ℕ)
  insert_front s xs =
      ok (record (place_first s xs) { size = s.size + length xs }, (place_first s xs).first)

  unfoldable pub insert_back : ElementList A → List A → Outcome (ElementList A × ℕ)
  insert_back s xs = do
    behind ← moved (length s.host) s.last (pos 1)
    let g : ElementList A = grown (record s { last = behind }) behind xs
    last ← moved (length g.host) g.last (negsuc 0)
    ok (record g { last = last; size = s.size + length xs }, suc s.last)

  unfoldable pub insert_inside : ElementList A → ℕ → List A → Outcome (ElementList A × ℕ)
  insert_inside s k xs = do
    before ← moved (length s.host) s.first (pos k)
    here ← moved (length s.host) before (pos 1)
    let g : ElementList A = grown s here xs
    ok (
      record g {
        last = if g.last == before then here + length xs - 1 else g.last;
        size = s.size + length xs;
      },
      suc before,
    )

  unfoldable pub insert_before : ElementList A → ℕ → List A → Outcome (ElementList A × ℕ)
  insert_before s k xs = do
    before ← moved (length s.host) s.last (negsuc k)
    here ← moved (length s.host) before (pos 1)
    ok (record (grown s here xs) { size = s.size + length xs }, suc before)

  -- insert, which chooses by the number of elements and by `start`.
  unfoldable pub insert_some : ElementList A → ℤ → List A → Outcome (ElementList A × ℕ)
  insert_some s start xs =
      let by_start : Outcome (ElementList A × ℕ) = elim start [
        | pos zero ↦ insert_front s xs
        | pos (suc k) ↦ insert_inside s k xs
        | negsuc zero ↦ insert_back s xs
        | negsuc (suc k) ↦ insert_before s k xs
      ] in
      if s.size == 0 then insert_empty s xs else by_start

  -- insert where the count is not above 0: nothing changes.
  unfoldable pub insert_none : ElementList A → ℤ → Outcome (ElementList A × ℕ)
  insert_none s start =
      let by_start : Outcome (ElementList A × ℕ) = elim start [
        | pos zero ↦ ok (s, s.first)
        | pos (suc k) ↦ moved (length s.host) s.first (pos (suc k)) >>= λ p. ok (s, p)
        | negsuc zero ↦ ok (s, s.last)
        | negsuc (suc k) ↦ moved (length s.host) s.last (negsuc k) >>= λ p. ok (s, p)
      ] in
      if s.size == 0 then ok (s, s.first) else by_start

  abbrev pub copies : ℕ → A → List A
  copies zero x = []
  copies (suc n) x = x ∷ copies n x

  unfoldable pub insert : A → ElementList A → ℤ → ℤ → Outcome (ElementList A × ℕ)
  insert null s start (pos zero) = insert_none s start
  insert null s start (pos (suc n)) = insert_some s start (copies (suc n) null)
  insert null s start (negsuc n) = insert_none s start

  -- The constructor from two iterators: its loop does not meet an end that lies before the beginning.
  unfoldable pub from_range : List A → ℕ → ℕ → Bool → Outcome (ElementList A)
  from_range host begin end is_mutable =
      let size = end - begin in
      let s : ElementList A = record {
        host = host;
        first = begin;
        last = if size == 0 then end else end - 1;
        size = size;
        ref = 0;
        is_mutable = is_mutable;
      } in
      if leb begin end then ok s else fault

  -- The loop of add: the pointers from position p on are set to the new objects.
  unfoldable pub set_from : ℕ → List A → List A → List A
  set_from p xs host = take p host ++ (xs ++ drop (p + length xs) host)

  -- add, where m_parent is set, of so many new objects: the list, and the list of the new elements.
  unfoldable pub add_new : A → ElementList A → ℤ → List A → Outcome (ElementList A × ElementList A)
  add_new null s start fresh = do
    (g, p) ← insert null s start (pos (length fresh))
    let host : List A = set_from p fresh g.host
    end ← moved (length host) p (pos (length fresh))
    part ← from_range host p end true
    ok (record g { host = host }, part)

  -- `none` where it throws
  unfoldable pub add :
      A → ElementList A → ℤ → List A → Outcome (Option (ElementList A × ElementList A))
  add null s start fresh =
      if s.is_mutable then (add_new null s start fresh >>= λ r. ok (some r)) else ok none

  -- The positions of begin() and end().
  unfoldable pub end_position : ElementList A → Outcome ℕ
  end_position s = if s.size == 0 then ok s.last else moved (length s.host) s.last (pos 1)

  -- erase, behind its assertion, for the elements from number a on, n many
  unfoldable pub erase_range : ElementList A → ℕ → ℕ → Outcome (ElementList A)
  erase_range s a n =
      let all : Outcome (ElementList A) = do
        end ← moved (length s.host) s.last (pos 1)
        ok (record (shrunk s s.first end) { first = s.first; last = s.first; size = 0 })
      in let some_of : Outcome (ElementList A) = do
        here ← moved (length s.host) s.first (pos a)
        end ← moved (length s.host) here (pos n)
        let g : ElementList A = record (shrunk s here end) { size = s.size - n }
        let at_end : ElementList A = record g { last = if here == g.first then here else here - 1 }
        let at_start : ElementList A = record g { first = here }
        ok (if ltb 0 a && (n + a == s.size) then at_end else if a == 0 then at_start else g)
        in if n == s.size then all else some_of

  -- erase: the two numbers, and its assertion.
  unfoldable pub erase : ElementList A → ℤ → ℤ → Outcome (ElementList A)
  erase s start count =
      let a : ℤ = erase_start s.size start in
      let n : ℤ = erase_count s.size a count in
      if not (ltb_ℤ a (pos 0)) && ltb_ℤ (pos 0) n && not (ltb_ℤ (pos s.size) (a +ℤ n))
      then erase_range s (pos_part a) (pos_part n)
      else fault

  -- del and slice: where they begin, with end() given, and where del stops
  unfoldable pub del_begin : ElementList A → ℕ → ℤ → Outcome ℕ
  del_begin s end start = moved (length s.host) (if ltb_ℤ start (pos 0) then end else s.first) start

  unfoldable pub del_stop : ElementList A → ℕ → ℕ → ℤ → Outcome ℕ
  del_stop s end begin count =
      if ltb_ℤ count (pos 0) then ok end else moved (length s.host) begin count

  -- del, where there is something to delete and m_parent is set: the list, and the objects that were
  -- deleted or, without an owner, cleared.
  unfoldable pub del_some : ElementList A → ℤ → ℤ → Outcome (ElementList A × List A)
  del_some s count start = do
    end ← end_position s
    begin ← del_begin s end start
    stop ← del_stop s end begin count
    gone ← if leb begin stop then ok (take (stop - begin) (drop begin s.host)) else fault
    s' ← erase s start count
    ok (s', gone)

  -- `none` where it throws
  unfoldable pub del : ElementList A → ℤ → ℤ → Outcome (Option (ElementList A × List A))
  del s count start =
      let deleted : Outcome (Option (ElementList A × List A)) =
        if s.is_mutable then (del_some s count start >>= λ r. ok (some r)) else ok none in
      if s.size == 0 || eqb_ℤ count (pos 0) then ok (some (s, [])) else deleted

  -- slice, which is an immutable list.
  unfoldable pub slice : ElementList A → ℤ → ℤ → Outcome (ElementList A)
  slice s first last = do
    end ← end_position s
    begin ← del_begin s end first
    stop ← moved (length s.host) begin (slice_behind s.size last -ℤ slice_first s.size first)
    from_range s.host begin stop false

  -- What an iterator is on, which end() is not.
  unfoldable pub get : List A → ℕ → Outcome A
  get [] p = fault
  get (x ∷ xs) zero = ok x
  get (x ∷ xs) (suc p) = get xs p

  -- operator()(int)
  unfoldable pub at_index : ElementList A → ℤ → Outcome A
  at_index s (pos zero) = get s.host s.first
  at_index s (pos (suc k)) = moved (length s.host) s.first (pos (suc k)) >>= λ p. get s.host p
  at_index s (negsuc zero) = get s.host s.last
  at_index s (negsuc (suc k)) = moved (length s.host) s.last (negsuc k) >>= λ p. get s.host p

  -- deflate, and inflate without its setting of each element's parent and host
  unfoldable pub deflate : ElementList A → ElementList A
  deflate s = record s { ref = s.first }

  unfoldable pub inflate : ElementList A → List A → Outcome (ElementList A)
  inflate s host = do
    first ← moved (length host) 0 (pos s.ref)
    last ← moved (length host) first (pos s.size)
    before ← if s.size == 0 then ok last else moved (length host) last (negsuc 0)
    ok (record s { host = host; first = first; last = before; is_mutable = true })
