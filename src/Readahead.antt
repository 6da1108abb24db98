-- ===== src/Readahead.antt =====
-- The streambufs of httpstream/httpstream.cpp and xrootdstream/xrootdstream.cpp, which have the same
-- code but for the request: a window of blocks of the remote file, the next ones read ahead by threads.
-- `fetch` is what a thread's request does to a block: the bytes at an offset, at most as many as asked
-- for, or the exception that ends the program.
pub mod Window
pub mod Drain
pub mod PastEnd
use hddm.Prelude.{
  ℕ, zero, suc, ◌+◌, ◌-◌, Bool, true, false, List, [], ◌∷◌, ◌++◌, Option, none, some, length, ltb,
  leb, ◌==◌, ◌&&◌, if◌then◌else◌,
}
use hddm.Prelude.Text.{Bytes}
use hddm.Outcome.{Outcome, ok, fault, ◌>>=◌}

-- stream_block: `pending` where the thread was not joined, and then `text` is not looked at.
pub record Block : Type 0 where
  pub offset : ℕ
  pub size : ℕ
  pub text : Bytes
  pub pending : Bool

-- buffer_, buffer_index_ and the get area, from gptr() on.
pub record Streambuf : Type 0 where
  pub blocks : List Block
  pub index : ℕ
  pub area : Bytes

abbrev pub lookback : ℕ
lookback = 3

abbrev pub readahead : ℕ
readahead = 3

abbrev pub new_block : ℕ → ℕ → Block
new_block offset size = record { offset = offset; size = size; text = []; pending = true }

-- offset_ + size_ of buffer_.back(), which a deque without elements does not have
unfoldable pub back_end : List Block → Outcome ℕ
back_end [] = fault
back_end (b ∷ []) = ok (b.offset + b.size)
back_end (b ∷ c ∷ bs) = back_end (c ∷ bs)

-- buffer_.size() - buffer_index_ < readahead_; the difference is unsigned, and wraps around above.
unfoldable pub wants_more : List Block → ℕ → Bool
wants_more blocks index = leb index (length blocks) && ltb (length blocks - index) readahead

-- while (index > lookback_) { pop_front; --index }
unfoldable pub forget : List Block → ℕ → List Block × ℕ
forget [] index = ([], index)
forget (b ∷ bs) index =
    let rest = forget bs (index - 1) in if ltb lookback index then rest else (b ∷ bs, index)

module _ (buffersize : ℕ) where
  -- advance, with fuel
  unfoldable pub advance : ℕ → List Block → ℕ → Outcome (List Block)
  advance zero blocks index = ok blocks
  advance (suc fuel) blocks index = elim (wants_more blocks index) [
    | false ↦ ok blocks
    | true ↦ back_end blocks >>= λ offset.
        advance fuel (blocks ++ (new_block offset buffersize ∷ [])) index
  ]

  -- The constructor, once the first block's text is there.
  unfoldable pub opened_with : Bytes → Outcome Streambuf
  opened_with text = do
    blocks ←
        advance readahead
          (record { offset = 0; size = buffersize; text = text; pending = false } ∷ []) 0
    ok (record { blocks = blocks; index = 0; area = text })

  module _ (fetch : ℕ → ℕ → Outcome Bytes) where
    -- buffer_[index]->reader_->join(), and the text of that block. A block without a thread and an
    -- index beyond the deque are undefined.
    unfoldable pub join_at : ℕ → List Block → Outcome (Bytes × List Block)
    join_at n [] = fault
    join_at zero (b ∷ bs) =
        let joined : Outcome (Bytes × List Block) = do
          text ← fetch b.offset b.size
          ok (text, record b { text = text; pending = false } ∷ bs)
        in if b.pending then joined else fault
    join_at (suc n) (b ∷ bs) = do (text, bs') ← join_at n bs; ok (text, b ∷ bs')

    -- underflow: the first byte of the next block's text, or eof, and what became of the streambuf.
    unfoldable pub underflow : Streambuf → Outcome (Option ℕ × Streambuf)
    underflow s =
        let index = suc s.index in
        let moved : Outcome (Option ℕ × Streambuf) = do
          (text, blocks) ← join_at index s.blocks
          elim text [
            | [] ↦ ok (none, record s { blocks = blocks; index = index })
            | c ∷ cs ↦ advance readahead (forget blocks index).0 (forget blocks index).1 >>= λ more.
                ok
                  (some c, record { blocks = more; index = (forget blocks index).1; area = c ∷ cs })
          ]
        in if index == length s.blocks then ok (none, record s { index = index }) else moved

    -- A reader that takes all characters of the get area, and calls `underflow` until eof. With fuel
    -- for the calls; `none` where it ran out.
    unfoldable pub drain : ℕ → Streambuf → Outcome (Option Bytes)
    drain zero s = ok none
    drain (suc fuel) s = underflow s >>= λ r. elim r.0 [
      | none ↦ ok (some s.area)
      | some c ↦ drain fuel r.1 >>= λ rest. elim rest [
        | none ↦ ok none
        | some bytes ↦ ok (some (s.area ++ bytes))
      ]
    ]
