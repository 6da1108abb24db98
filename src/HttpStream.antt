-- ===== src/HttpStream.antt =====
-- httpstream/httpstream.cpp: a file on a web server, read block by block with ranged requests.
pub mod Reading
use hddm.Prelude.{
  ℕ, ◌+◌, ◌-◌, Bool, true, false, ◌⊎◌, inl, inr, ◌==◌, ◌&&◌, ◌||◌, not, if◌then◌else◌, Option,
}
use hddm.Prelude.Text.{Bytes}
use hddm.Outcome.{Outcome, ok, fault, ◌>>=◌}
use hddm.Readahead.{Streambuf, opened_with}

-- cpr::Response, as far as it is looked at
pub record Response : Type 0 where
  pub status_code : ℕ
  pub text : Bytes

-- `get` stands for cpr::Get with the Range from its first number to its second, both included.
module _ (get : ℕ → ℕ → Response) where
  -- The request of a block's thread; an exception there ends the program. A block has at least a byte.
  unfoldable pub background_fill : ℕ → ℕ → Outcome Bytes
  background_fill offset size =
      let resp = get offset (offset + size - 1) in
      if not (resp.status_code == 206) && not (resp.status_code == 416) then fault else ok resp.text

  -- The constructor: the stream, or the status of the answer for which it throws.
  unfoldable pub http_streambuf : ℕ → Outcome (ℕ ⊎ Streambuf)
  http_streambuf buffersize =
      let resp = get 0 (buffersize - 1) in
      let opened : Outcome (ℕ ⊎ Streambuf) = opened_with buffersize resp.text >>= λ s. ok (inr s) in
      if not (resp.status_code == 206) then ok (inl resp.status_code) else opened
