-- ===== src/Readahead/Drain.antt =====
-- Reading a remote file to its end through the window of blocks.
use hddm.Prelude.{
  ℕ, zero, suc, ◌*◌, ◌<◌, ◌≡◌, refl, ap, sym, ◌∙◌, false, List, [], ◌∷◌, ◌++◌, some, length, take,
  drop, take-drop, drop-drop, length-drop, length-append, append-nil, arith, inl, inr,
}
use hddm.Prelude.Text.{Bytes}
use hddm.Outcome.{Outcome, ok, ◌>>=◌}
use hddm.Readahead.{Block, Streambuf, advance, opened_with, drain}
use hddm.Readahead.Window.{
  IsWindow, Bytes-cases, advance-two, underflow-end, underflow-next, pending_block,
}

take-empty : (n : ℕ) (xs : Bytes) → 0 < n → take n xs ≡ [] → xs ≡ []
take-empty zero xs h e = absurd (omega arith)
take-empty (suc n) [] h e = refl
take-empty (suc n) (x ∷ xs) h e = cc

module _ (buffersize : ℕ) (fetch : ℕ → ℕ → Outcome Bytes) (file : Bytes) where
  -- What is left from block n on, and the block itself.
  abbrev rest_of : ℕ → Bytes
  rest_of n = drop (n * buffersize) file

  abbrev chunk_of : ℕ → Bytes
  chunk_of n = take buffersize (rest_of n)

  rest_of-next : (n : ℕ) → drop buffersize (rest_of n) ≡ rest_of (suc n)
  rest_of-next n = drop-drop buffersize (n * buffersize) file ∙ ap (λ k. drop k file) (omega arith)

  rest_of-chunk_of : (n : ℕ) → chunk_of n ++ rest_of (suc n) ≡ rest_of n
  rest_of-chunk_of n =
      ap (λ t. chunk_of n ++ t) (sym (rest_of-next n)) ∙ take-drop buffersize (rest_of n)

  rest_of-shorter :
      (n c : ℕ) (cs : Bytes) → chunk_of n ≡ c ∷ cs → length (rest_of (suc n)) < length (rest_of n)
  rest_of-shorter n c cs e =
      let whole =
        ap length (sym (rest_of-chunk_of n)) ∙ length-append (chunk_of n) (rest_of (suc n)) in
      omega (arith, whole, ap length e)

  rest_of-end : (n : ℕ) → 0 < buffersize → chunk_of n ≡ [] → rest_of n ≡ []
  rest_of-end n some_size e = take-empty buffersize (rest_of n) some_size e

  -- Whatever the first block's text is, the blocks behind it are read to the end of the file.
  module _ (chunk : ℕ → Bytes) where
    drain-IsWindow :
        (fuel n : ℕ) (s : Streambuf)
        → 0 < buffersize
        → ((m : ℕ) → chunk (suc m) ≡ chunk_of (suc m))
        → ((m : ℕ) → fetch (suc m * buffersize) buffersize ≡ ok (chunk_of (suc m)))
        → IsWindow buffersize chunk n s
        → length (rest_of (suc n)) < fuel
        → drain buffersize fetch fuel s ≡ ok (some (chunk n ++ rest_of (suc n)))
    unfolding drain
    drain-IsWindow zero n s some_size later answers w enough = absurd (omega arith)
    drain-IsWindow (suc fuel) n s some_size later answers w enough =
        let answer : fetch (suc n * buffersize) buffersize ≡ ok (chunk (suc n)) =
          answers n ∙ ap ok (sym (later n)) in
        elim (Bytes-cases (chunk_of (suc n))) [
          | inl empty ↦
              let (blocks, e, same) =
                underflow-end buffersize chunk fetch n s w answer (later n ∙ empty) in
              let all : s.area ≡ chunk n ++ rest_of (suc n) =
                w.text
                ∙ sym (append-nil (chunk n))
                ∙ ap (λ t. chunk n ++ t) (sym (rest_of-end (suc n) some_size empty)) in
              rw (e, all)
          | inr (c, cs, text) ↦
              let (s', e, w') =
                underflow-next buffersize chunk fetch n s c cs w answer (later n ∙ text) in
              let ih =
                drain-IsWindow fuel (suc n) s' some_size later answers w'
                  (omega (arith, rest_of-shorter (suc n) c cs text)) in
              let whole : chunk (suc n) ++ rest_of (suc (suc n)) ≡ rest_of (suc n) =
                ap (λ t. t ++ rest_of (suc (suc n))) (later n) ∙ rest_of-chunk_of (suc n) in
              rw (e, ih, w.text) (ap (λ t. ok (some (chunk n ++ t))) whole)
        ]

  -- The text of block 0 is the one that was there when the stream was opened.
  abbrev opened_chunk : Bytes → ℕ → Bytes
  opened_chunk text zero = text
  opened_chunk text (suc n) = chunk_of (suc n)

  -- Opening with some text for the first block: the window of block 0.
  pub opened_with-IsWindow :
      (chunk : ℕ → Bytes)
      → (s : Streambuf) × (opened_with buffersize (chunk 0) ≡ ok s) × IsWindow buffersize chunk 0 s
  unfolding opened_with
  opened_with-IsWindow chunk =
      let zero_times : 0 ≡ 0 * buffersize = omega arith in
      let text = chunk 0 in
      let block_at : ℕ → Block =
        λ k. record { offset = k; size = buffersize; text = text; pending = false } in
      let s : Streambuf = record {
        blocks =
            block_at (0 * buffersize)
            ∷ pending_block buffersize chunk 1
            ∷ pending_block buffersize chunk 2
            ∷ [];
        index = 0;
        area = text;
      } in
      let start : advance buffersize 3 (block_at 0 ∷ []) 0 ≡ ok s.blocks =
        ap (λ k. advance buffersize 3 (block_at k ∷ []) 0) zero_times
        ∙ advance-two buffersize chunk 0 0 0 refl in
      (
        s,
        ap
            (λ (o : Outcome (List Block)).
              o >>= λ blocks. ok (record { blocks = blocks; index = 0; area = text }))
            start,
        record { first = 0; at = refl; near = omega arith; shape = refl; text = refl },
      )

  -- Reading on from there gives that text, and the file from the second block on.
  pub opened_with-drain :
      (text : Bytes)
      → 0 < buffersize
      → ((m : ℕ)
          → fetch (suc m * buffersize) buffersize
            ≡ ok (take buffersize (drop (suc m * buffersize) file)))
      → (s : Streambuf) × (opened_with buffersize text ≡ ok s)
        × (drain buffersize fetch (suc (length file)) s ≡ ok (some (text ++ drop buffersize file)))
  opened_with-drain text some_size answers =
      let once : rest_of 1 ≡ drop buffersize file = ap (λ k. drop k file) (omega arith) in
      let (s, e, w) = opened_with-IsWindow (opened_chunk text) in
      (
        s,
        e,
        drain-IsWindow (opened_chunk text) (suc (length file)) 0 s some_size (λ m. refl) answers w
              (omega (arith, ap length once, length-drop buffersize file))
            ∙ ap (λ t. ok (some (text ++ t))) once,
      )
