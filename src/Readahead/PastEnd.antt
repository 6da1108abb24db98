-- ===== src/Readahead/PastEnd.antt =====
-- Calls of underflow after the end of the file.
use hddm.Prelude.{
  ℕ, zero, suc, ◌+◌, ◌*◌, ◌≡◌, refl, ap, sym, ◌∙◌, true, false, List, [], ◌∷◌, ◌++◌, none, length,
  append-nil, arith, ◌==◌,
}
use hddm.Prelude.Text.{Bytes}
use hddm.Outcome.{Outcome, ok, fault}
use hddm.Readahead.{Block, Streambuf, drain, join_at, underflow}
use hddm.Readahead.Window.{
  IsWindow, underflow-next, joined, join_at-pending, joined-snoc, length-joined, pending_block,
}

module _ (buffersize : ℕ) (chunk : ℕ → Bytes) (fetch : ℕ → ℕ → Outcome Bytes) where
  abbrev at_block : ℕ → ℕ → List Block → Bytes → Streambuf
  at_block a i behind area = record {
    blocks = joined buffersize chunk a (suc i) ++ behind;
    index = i;
    area = area;
  }

  -- A block without text is joined, and the index moves on to it.
  underflow-empty :
      (a i n : ℕ) (behind : List Block) (area : Bytes)
      → a + i ≡ n
      → fetch (suc n * buffersize) buffersize ≡ ok []
      → chunk (suc n) ≡ []
      → underflow buffersize fetch
          (at_block a i (pending_block buffersize chunk (suc n) ∷ behind) area)
        ≡ ok (none, at_block a (suc i) behind area)
  unfolding underflow
  underflow-empty a i n behind area h answer empty =
      let next = pending_block buffersize chunk (suc n) ∷ behind in
      let long = length-joined buffersize chunk a (suc i) next in
      let more : (suc i == length (joined buffersize chunk a (suc i) ++ next)) ≡ false =
        ground (arith, long) in
      let read =
        join_at-pending buffersize chunk fetch a (suc i) (suc n) behind (answer ∙ ap ok (sym empty))
        ∙ ap (λ (r : Bytes × List Block). ok r)
            (ap (λ (l : List Block). (chunk (suc n), l))
                (joined-snoc buffersize chunk a (suc i) (suc n) behind (omega (arith, h)))
              ∙ ap (λ (t : Bytes). (t, joined buffersize chunk a (suc (suc i)) ++ behind)) empty) in
      rw (more, read)

  join_at-beyond :
      (a k m : ℕ) → join_at buffersize fetch (k + m) (joined buffersize chunk a k) ≡ fault
  unfolding join_at
  join_at-beyond a zero m = refl
  join_at-beyond a (suc k) m =
      let next : suc k + m ≡ suc (k + m) = omega arith in rw (next, join_at-beyond (suc a) k m)

  underflow-last :
      (a i : ℕ) (area : Bytes)
      → underflow buffersize fetch (at_block a i [] area)
        ≡ ok (none, record (at_block a i [] area) { index = suc i })
  unfolding underflow
  underflow-last a i area =
      let long = length-joined buffersize chunk a (suc i) [] in
      let last : (suc i == length (joined buffersize chunk a (suc i) ++ [])) ≡ true =
        ground (arith, long) in
      rw last

  underflow-beyond :
      (a i : ℕ) (area : Bytes)
      → underflow buffersize fetch (record (at_block a i [] area) { index = suc i }) ≡ fault
  unfolding underflow
  underflow-beyond a i area =
      let all = joined buffersize chunk a (suc i) in
      let long = length-joined buffersize chunk a (suc i) [] in
      let past : (suc (suc i) == length (all ++ [])) ≡ false = ground (arith, long) in
      let one : suc (suc i) ≡ suc i + 1 = omega arith in
      let out : join_at buffersize fetch (suc (suc i)) (all ++ []) ≡ fault =
        ap (join_at buffersize fetch (suc (suc i))) (append-nil all)
        ∙ ap (λ m. join_at buffersize fetch m all) one
        ∙ join_at-beyond a (suc i) 1 in
      rw (past, out)

  -- From the window of a block that has two blocks without text behind it, three calls of `underflow` give
  -- eof; the fourth looks at an element that the deque does not have.
  pub underflow-four_times :
      (n : ℕ) (s : Streambuf)
      → IsWindow buffersize chunk n s
      → chunk (suc n) ≡ []
      → chunk (suc (suc n)) ≡ []
      → fetch (suc n * buffersize) buffersize ≡ ok []
      → fetch (suc (suc n) * buffersize) buffersize ≡ ok []
      → (s₁ s₂ s₃ : Streambuf) × (underflow buffersize fetch s ≡ ok (none, s₁))
        × (underflow buffersize fetch s₁ ≡ ok (none, s₂))
        × (underflow buffersize fetch s₂ ≡ ok (none, s₃))
        × (underflow buffersize fetch s₃ ≡ fault)
  underflow-four_times n s w c₁ c₂ f₁ f₂ =
      let start : s
          ≡ at_block w.first s.index
              (pending_block buffersize chunk (suc n)
                ∷ pending_block buffersize chunk (suc (suc n))
                ∷ [])
              s.area =
        ap (λ (l : List Block). record s { blocks = l }) w.shape in
      (
        at_block w.first (suc s.index) (pending_block buffersize chunk (suc (suc n)) ∷ []) s.area,
        at_block w.first (suc (suc s.index)) [] s.area,
        record (at_block w.first (suc (suc s.index)) [] s.area) { index = suc (suc (suc s.index)) },
        ap (underflow buffersize fetch) start
            ∙ underflow-empty w.first s.index n (pending_block buffersize chunk (suc (suc n)) ∷ [])
                s.area w.at f₁ c₁,
        underflow-empty w.first (suc s.index) (suc n) [] s.area (omega (arith, w.at)) f₂ c₂,
        underflow-last w.first (suc (suc s.index)) s.area,
        underflow-beyond w.first (suc (suc s.index)) s.area,
      )

  -- While every block has text, no count of calls finds an end.
  pub drain-endless :
      (fuel n : ℕ) (s : Streambuf)
      → ((m : ℕ) → (c : ℕ) × (cs : Bytes) × (chunk (suc m) ≡ c ∷ cs))
      → ((m : ℕ) → fetch (suc m * buffersize) buffersize ≡ ok (chunk (suc m)))
      → IsWindow buffersize chunk n s
      → drain buffersize fetch fuel s ≡ ok none
  unfolding drain
  drain-endless zero n s texts answers w = refl
  drain-endless (suc fuel) n s texts answers w =
      let (c, cs, text) = texts n in
      let (s', e, w') = underflow-next buffersize chunk fetch n s c cs w (answers n) text in
      rw (e, drain-endless fuel (suc n) s' texts answers w')
