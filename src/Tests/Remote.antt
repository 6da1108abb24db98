-- ===== src/Tests/Remote.antt =====
-- The theorems about remote files at a file of five bytes, in blocks of two.
use hddm.Prelude.{
  ℕ, zero, suc, ◌+◌, ◌-◌, ◌*◌, ◌≡◌, refl, ap, ◌≤◌, ◌⊎◌, true, false, inr, ◌∷◌, [], Option, none,
  some, length, arith,
}
use hddm.Prelude.Text.{Bytes}
use hddm.Outcome.{Outcome, ok, fault}
use hddm.Readahead.{Streambuf, underflow, drain}
use hddm.Readahead.Window.{IsWindow, joined_block, pending_block, underflow-IsWindow}
use hddm.Readahead.PastEnd.{underflow-four_times}
use hddm.HttpStream.{Response, background_fill, http_streambuf}
use hddm.HttpStream.Reading.{serve, http_streambuf-drain, http_streambuf-endless}
use hddm.XrootdStream.{Reply, background_read, xrootd_streambuf}
use hddm.XrootdStream.Reading.{read_file, xrootd_streambuf-drain, xrootd_streambuf-drain_lost}

abbrev five : Bytes
five = 1 ∷ 2 ∷ 3 ∷ 4 ∷ 5 ∷ []

-- A server that explains its status 416 in a word.
http_streambuf-drain_example :
    (s : Streambuf) × (http_streambuf (serve five (33 ∷ [])) 2 ≡ ok (inr s))
    × (drain 2 (background_fill (serve five (33 ∷ []))) 6 s ≡ ok none)
http_streambuf-drain_example =
    http_streambuf-drain (serve five (33 ∷ [])) five (33 ∷ []) 2 (λ first last. refl) (omega arith)
      (omega arith)

drain_silent :
    (s : Streambuf) × (http_streambuf (serve five []) 2 ≡ ok (inr s))
    × (drain 2 (background_fill (serve five [])) 6 s ≡ ok (some five))
drain_silent =
    http_streambuf-drain (serve five []) five [] 2 (λ first last. refl) (omega arith) (omega arith)

-- A server that answers each later request with status 416 and one byte.
abbrev explain : ℕ → ℕ → Response
explain zero last = record { status_code = 206; text = 1 ∷ 2 ∷ [] }
explain (suc first) last = record { status_code = 416; text = 33 ∷ [] }

explained :
    (m : ℕ)
    → (explain (suc m * 2) (suc m * 2 + 2 - 1)) ≡ record { status_code = 416; text = 33 ∷ [] }
explained m =
    let e : suc m * 2 ≡ suc (suc (m * 2)) = omega arith in ap (λ k. explain k (k + 2 - 1)) e

http_streambuf-endless_example :
    (s : Streambuf) × (http_streambuf explain 2 ≡ ok (inr s))
    × ((calls : ℕ) → drain 2 (background_fill explain) calls s ≡ ok none)
http_streambuf-endless_example =
    http_streambuf-endless explain 2 refl
      (λ m. inr (ap (λ (r : Response). r.status_code) (explained m)))
      (λ m. rw (explained m) (omega arith))

xrootd_streambuf-drain_example :
    (s : Streambuf) × (xrootd_streambuf true (read_file five) 2 ≡ ok (some s))
    × (drain 2 (background_read true (read_file five)) 6 s ≡ ok (some five))
xrootd_streambuf-drain_example =
    xrootd_streambuf-drain (read_file five) five 2 (λ offset size. refl) (omega arith)

abbrev flaky : ℕ → ℕ → Reply
flaky zero size = record { is_ok = false; text = [] }
flaky (suc offset) size = read_file five (suc offset) size

xrootd_streambuf-drain_lost_example :
    (s : Streambuf) × (xrootd_streambuf true flaky 2 ≡ ok (some s))
    × (drain 2 (background_read true flaky) 6 s ≡ ok (some (3 ∷ 4 ∷ 5 ∷ [])))
xrootd_streambuf-drain_lost_example =
    xrootd_streambuf-drain_lost flaky five 2 refl (λ m. answered m) (omega arith)
  where
    answered : (m : ℕ) → flaky (suc m * 2) 2 ≡ read_file five (suc m * 2) 2
    answered m = let e : suc m * 2 ≡ suc (suc (m * 2)) = omega arith in rw e

-- The window of block 0 over a file of one block.
abbrev only : ℕ → Bytes
only zero = 1 ∷ 2 ∷ []
only (suc n) = []

abbrev fetch_only : ℕ → ℕ → Outcome Bytes
fetch_only zero size = ok (1 ∷ 2 ∷ [])
fetch_only (suc offset) size = ok []

abbrev at_start : Streambuf
at_start = record {
  blocks = joined_block 2 only 0 ∷ pending_block 2 only 1 ∷ pending_block 2 only 2 ∷ [];
  index = 0;
  area = 1 ∷ 2 ∷ [];
}

at_start-IsWindow : IsWindow 2 only 0 at_start
at_start-IsWindow = record { first = 0; at = refl; near = omega arith; shape = refl; text = refl }

underflow-four_times_example :
    (s₁ s₂ s₃ : Streambuf) × (underflow 2 fetch_only at_start ≡ ok (none, s₁))
    × (underflow 2 fetch_only s₁ ≡ ok (none, s₂))
    × (underflow 2 fetch_only s₂ ≡ ok (none, s₃))
    × (underflow 2 fetch_only s₃ ≡ fault)
underflow-four_times_example =
    underflow-four_times 2 only fetch_only 0 at_start at_start-IsWindow refl refl refl refl

underflow-IsWindow_example :
    (byte : Option ℕ) × (s' : Streambuf) × (underflow 2 fetch_only at_start ≡ ok (byte, s'))
    × (length s'.blocks ≤ 6)
    × ((byte ≡ none) ⊎ IsWindow 2 only 1 s')
underflow-IsWindow_example = underflow-IsWindow 2 only fetch_only 0 at_start at_start-IsWindow refl
