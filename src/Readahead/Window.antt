-- ===== src/Readahead/Window.antt =====
-- The window of blocks: which blocks there are between two calls, and how many.
use hddm.Prelude.{
  ℕ, zero, suc, ◌+◌, ◌*◌, ◌≤◌, ◌≡◌, refl, ap, sym, ◌∙◌, subst, true, false, List, [], ◌∷◌, ◌++◌,
  Option, none, some, length, append_assoc, append-nil, length-append, arith, ◌⊎◌, inl, inr,
  Bool-cases, ltb, ◌==◌,
}
use hddm.Prelude.Text.{Bytes}
use hddm.Outcome.{Outcome, ok}
use hddm.Readahead.{
  Block, Streambuf, lookback, new_block, back_end, wants_more, forget, advance, join_at, underflow,
}

-- A list is empty, or has a head.
pub Bytes-cases : (xs : Bytes) → (xs ≡ []) ⊎ ((c : ℕ) × (cs : Bytes) × (xs ≡ c ∷ cs))
Bytes-cases [] = inl refl
Bytes-cases (c ∷ cs) = inr (c, cs, refl)

module _ (buffersize : ℕ) (chunk : ℕ → Bytes) where
  abbrev pub joined_block : ℕ → Block
  joined_block n = record {
    offset = n * buffersize;
    size = buffersize;
    text = chunk n;
    pending = false;
  }

  abbrev pub pending_block : ℕ → Block
  pending_block n = new_block (n * buffersize) buffersize

  -- The blocks from number `a` on, `k` many, whose threads were joined.
  abbrev pub joined : ℕ → ℕ → List Block
  joined a zero = []
  joined a (suc k) = joined_block a ∷ joined (suc a) k

  -- A window: the joined blocks up to number `a + i`, and those behind them.
  abbrev pub window : ℕ → ℕ → List Block → List Block
  window a i behind = joined a (suc i) ++ behind

  -- Between two calls: the current block, up to three before it, and two that are read ahead.
  pub record IsWindow (number : ℕ) (s : Streambuf) : Type 0 where
    pub first : ℕ
    pub at : first + s.index ≡ number
    pub near : s.index ≤ lookback
    pub shape :
        s.blocks
        ≡ window first s.index (pending_block (suc number) ∷ pending_block (suc (suc number)) ∷ [])
    pub text : s.area ≡ chunk number

  pub length-joined : (a k : ℕ) (bs : List Block) → length (joined a k ++ bs) ≡ k + length bs
  length-joined a zero bs = omega arith
  length-joined a (suc k) bs = omega (arith, length-joined (suc a) k bs)

  pub joined-snoc :
      (a k n : ℕ) (bs : List Block)
      → a + k ≡ n
      → joined a k ++ (joined_block n ∷ bs) ≡ joined a (suc k) ++ bs
  joined-snoc a zero n bs h = ap (λ m. joined_block m ∷ bs) (omega (arith, h))
  joined-snoc a (suc k) n bs h =
      ap (λ l. joined_block a ∷ l) (joined-snoc (suc a) k n bs (omega (arith, h)))

  back_end-append :
      (bs : List Block) (b : Block) → back_end (bs ++ (b ∷ [])) ≡ ok (b.offset + b.size)
  unfolding back_end
  back_end-append [] b = refl
  back_end-append (x ∷ []) b = refl
  back_end-append (x ∷ y ∷ bs) b = back_end-append (y ∷ bs) b

  -- One block more is asked for while there are fewer than three from the current one on.
  advance-one :
      (fuel i n : ℕ) (bs : List Block) (b : Block)
      → i ≤ length bs
      → length bs ≤ i + 1
      → b.offset + b.size ≡ n * buffersize
      → advance buffersize (suc fuel) (bs ++ (b ∷ [])) i
        ≡ advance buffersize fuel (bs ++ (b ∷ pending_block n ∷ [])) i
  unfolding advance
  advance-one fuel i n bs b h k e =
      let long = length-append bs (b ∷ []) in
      let more : wants_more (bs ++ (b ∷ [])) i ≡ true = unfold wants_more in ground (arith, long) in
      rw (advance, more, back_end-append bs b, e)
        (ap (λ l. advance buffersize fuel l i) (append_assoc bs (b ∷ []) (pending_block n ∷ [])))

  advance-none :
      (fuel i : ℕ) (bs : List Block)
      → 3 + i ≤ length bs
      → advance buffersize (suc fuel) bs i ≡ ok bs
  unfolding advance
  advance-none fuel i bs h =
      let enough : wants_more bs i ≡ false = unfold wants_more in ground arith in
      rw (advance, enough)

  end_of_block : (n : ℕ) → n * buffersize + buffersize ≡ suc n * buffersize
  end_of_block n = omega arith

  advance-second :
      (a i n fuel : ℕ)
      → a + i ≡ n
      → advance buffersize
          (suc fuel)
          (joined a i ++ (joined_block n ∷ pending_block (suc n) ∷ []))
          i
        ≡ advance buffersize fuel
            (joined a i
              ++ (joined_block n ∷ pending_block (suc n) ∷ pending_block (suc (suc n)) ∷ []))
            i
  advance-second a i n fuel h =
      let first = joined a i ++ (joined_block n ∷ []) in
      let long = length-joined a i (joined_block n ∷ []) in
      ap (λ l. advance buffersize (suc fuel) l i)
        (sym (append_assoc (joined a i) (joined_block n ∷ []) (pending_block (suc n) ∷ [])))
      ∙ advance-one fuel i (suc (suc n)) first (pending_block (suc n)) (omega (arith, long))
          (omega (arith, long)) (end_of_block (suc n) ∙ ap (λ k. k * buffersize) (omega arith))
      ∙ ap (λ l. advance buffersize fuel l i)
          (append_assoc (joined a i) (joined_block n ∷ [])
            (pending_block (suc n) ∷ pending_block (suc (suc n)) ∷ []))

  -- From the current block, number n, on: two more are asked for behind it alone, one behind one.
  pub advance-two :
      (a i n : ℕ)
      → a + i ≡ n
      → advance buffersize 3 (joined a i ++ (joined_block n ∷ [])) i
        ≡ ok (window a i (pending_block (suc n) ∷ pending_block (suc (suc n)) ∷ []))
  advance-two a i n h =
      let long : length (joined a i) ≡ i =
        ap length (sym (append-nil (joined a i))) ∙ length-joined a i [] ∙ omega arith in
      let both = joined a i ++ (joined_block n ∷ pending_block (suc n) ∷ []) in
      let all =
        joined a i ++ (joined_block n ∷ pending_block (suc n) ∷ pending_block (suc (suc n)) ∷ []) in
      advance-one 2 i (suc n) (joined a i) (joined_block n) (omega (arith, long))
        (omega (arith, long)) (end_of_block n)
      ∙ advance-second a i n 1 h
      ∙ advance-none 0 i all (
          omega (
            arith,
            length-joined a i
                (joined_block n ∷ pending_block (suc n) ∷ pending_block (suc (suc n)) ∷ []),
          ))
      ∙ ap ok (joined-snoc a i n (pending_block (suc n) ∷ pending_block (suc (suc n)) ∷ []) h)

  pub join_at-pending :
      (fetch : ℕ → ℕ → Outcome Bytes) (a k n : ℕ) (bs : List Block)
      → fetch (n * buffersize) buffersize ≡ ok (chunk n)
      → join_at buffersize fetch k (joined a k ++ (pending_block n ∷ bs))
        ≡ ok (chunk n, joined a k ++ (joined_block n ∷ bs))
  unfolding join_at
  join_at-pending fetch a zero n bs h = rw h
  join_at-pending fetch a (suc k) n bs h = rw (join_at-pending fetch (suc a) k n bs h)

  forget-near : (b : Block) (bs : List Block) (i : ℕ) → i ≤ 3 → forget (b ∷ bs) i ≡ (b ∷ bs, i)
  unfolding forget
  forget-near b bs i h = let near : ltb 3 i ≡ false = ground arith in rw near

  advance-window :
      (a i n : ℕ)
      → a + i ≡ n
      → advance buffersize 3 (joined a i ++ (joined_block n ∷ pending_block (suc n) ∷ [])) i
        ≡ ok (window a i (pending_block (suc n) ∷ pending_block (suc (suc n)) ∷ []))
  advance-window a i n h =
      let behind = joined_block n ∷ pending_block (suc n) ∷ pending_block (suc (suc n)) ∷ [] in
      advance-second a i n 2 h
      ∙ advance-none 1 i (joined a i ++ behind) (omega (arith, length-joined a i behind))
      ∙ ap ok (joined-snoc a i n (pending_block (suc n) ∷ pending_block (suc (suc n)) ∷ []) h)

  -- After the current block has moved on, the oldest block is given up if there are four before it.
  forget-joined :
      (a i n : ℕ) (behind : List Block)
      → a + i ≡ n
      → i ≤ lookback
      → (b : ℕ) × (j : ℕ) × (b + j ≡ suc n)
        × (j ≤ lookback)
        × (forget (joined a (suc i) ++ behind) (suc i) ≡ (joined b j ++ behind, j))
  forget-joined a i n behind h near = elim (Bool-cases (i == 3)) [
    | inr less ↦ (
      a,
      suc i,
      omega (arith, h),
      ground arith,
      forget-near (joined_block a) (joined (suc a) i ++ behind) (suc i) (ground arith),
    )
    | inl full ↦
        let three : i ≡ 3 = ground arith in
        (
          suc a,
          3,
          omega (arith, three),
          omega arith,
          subst (λ k. forget (joined a (suc k) ++ behind) (suc k) ≡ (joined (suc a) 3 ++ behind, 3))
              (sym three) (unfold forget in refl),
        )
  ]

  module _ (fetch : ℕ → ℕ → Outcome Bytes) where
    underflow-joined :
        (n : ℕ) (s : Streambuf) (w : IsWindow n s)
        → fetch (suc n * buffersize) buffersize ≡ ok (chunk (suc n))
        → join_at buffersize fetch (suc s.index) s.blocks
          ≡ ok (
            chunk (suc n),
            joined w.first (suc s.index)
                ++ (joined_block (suc n) ∷ pending_block (suc (suc n)) ∷ []),
          )
    underflow-joined n s w h =
        ap (join_at buffersize fetch (suc s.index)) w.shape
        ∙ join_at-pending fetch w.first (suc s.index) (suc n) (pending_block (suc (suc n)) ∷ []) h

    -- There are three blocks more than the index says.
    blocks_between : (n : ℕ) (s : Streambuf) → IsWindow n s → length s.blocks ≡ suc s.index + 2
    blocks_between n s w =
        ap length w.shape
        ∙ length-joined w.first (suc s.index)
            (pending_block (suc n) ∷ pending_block (suc (suc n)) ∷ [])

    not_last : (n : ℕ) (s : Streambuf) → IsWindow n s → (suc s.index == length s.blocks) ≡ false
    not_last n s w = let long = blocks_between n s w in ground (arith, long)

    -- At the end of the file the window stays as it is, but for the index.
    pub underflow-end :
        (n : ℕ) (s : Streambuf)
        → IsWindow n s
        → fetch (suc n * buffersize) buffersize ≡ ok (chunk (suc n))
        → chunk (suc n) ≡ []
        → (blocks : List Block) × (underflow buffersize fetch s
            ≡ ok (none, record s { blocks = blocks; index = suc s.index }))
          × (length blocks ≡ length s.blocks)
    unfolding underflow
    underflow-end n s w h empty =
        let blocks =
          joined w.first (suc s.index)
          ++ (joined_block (suc n) ∷ pending_block (suc (suc n)) ∷ []) in
        let e = underflow-joined n s w h ∙ ap (λ (t : Bytes). ok (t, blocks)) empty in
        let same : length blocks ≡ length s.blocks =
          length-joined w.first (suc s.index)
            (joined_block (suc n) ∷ pending_block (suc (suc n)) ∷ [])
          ∙ sym (blocks_between n s w) in
        (blocks, rw (not_last n s w, e), same)

    -- Elsewhere the next block becomes the current one, and the window moves on.
    pub underflow-next :
        (n : ℕ) (s : Streambuf) (c : ℕ) (cs : Bytes)
        → IsWindow n s
        → fetch (suc n * buffersize) buffersize ≡ ok (chunk (suc n))
        → chunk (suc n) ≡ c ∷ cs
        → (s' : Streambuf) × (underflow buffersize fetch s ≡ ok (some c, s')) × IsWindow (suc n) s'
    unfolding underflow
    underflow-next n s c cs w h text =
        let behind = joined_block (suc n) ∷ pending_block (suc (suc n)) ∷ [] in
        let (b, j, at, near, e) = forget-joined w.first s.index n behind w.at w.near in
        let s' : Streambuf = record {
          blocks =
              window b j (pending_block (suc (suc n)) ∷ pending_block (suc (suc (suc n))) ∷ []);
          index = j;
          area = c ∷ cs;
        } in
        let blocks = joined w.first (suc s.index) ++ behind in
        let read = underflow-joined n s w h ∙ ap (λ (t : Bytes). ok (t, blocks)) text in
        (
          s',
          rw (not_last n s w, read, e, advance-window b j (suc n) at),
          record { first = b; at = at; near = near; shape = refl; text = sym text },
        )

    -- From a window, a call whose request is answered returns, keeps six blocks at most, and leaves the
    -- window of the next block if it gives a byte.
    pub underflow-IsWindow :
        (n : ℕ) (s : Streambuf)
        → IsWindow n s
        → fetch (suc n * buffersize) buffersize ≡ ok (chunk (suc n))
        → (byte : Option ℕ) × (s' : Streambuf) × (underflow buffersize fetch s ≡ ok (byte, s'))
          × (length s'.blocks ≤ 6)
          × ((byte ≡ none) ⊎ IsWindow (suc n) s')
    underflow-IsWindow n s w h = elim (Bytes-cases (chunk (suc n))) [
      | inl empty ↦
          let (blocks, e, same) = underflow-end n s w h empty in
          (
            none,
            record s { blocks = blocks; index = suc s.index },
            e,
            omega (arith, same, blocks_between n s w, w.near),
            inl refl,
          )
      | inr (c, cs, text) ↦
          let (s', e, w') = underflow-next n s c cs w h text in
          (some c, s', e, omega (arith, blocks_between (suc n) s' w', w'.near), inr w')
    ]
