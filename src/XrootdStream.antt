-- ===== src/XrootdStream.antt =====
-- xrootdstream/xrootdstream.cpp: a file on an xrootd server, read block by block.
pub mod Reading
use hddm.Prelude.{ℕ, Bool, true, false, Option, none, some, if◌then◌else◌}
use hddm.Prelude.Text.{Bytes}
use hddm.Outcome.{Outcome, ok, fault, ◌>>=◌}
use hddm.Readahead.{Streambuf, opened_with}

-- What XrdCl::File::Read leaves: whether its status is OK, and the bytes that it read.
pub record Reply : Type 0 where
  pub is_ok : Bool
  pub text : Bytes

-- `opens` is whether File::Open succeeds, `read` is File::Read at an offset, for so many bytes.
module _ (opens : Bool) (read : ℕ → ℕ → Reply) where
  -- The request of a block's thread; an exception there ends the program.
  unfoldable pub background_read : ℕ → ℕ → Outcome Bytes
  background_read offset size =
      let resp = read offset size in if resp.is_ok then ok resp.text else fault

  -- The constructor; `none` where it throws. The status of the first read is not looked at.
  unfoldable pub xrootd_streambuf : ℕ → Outcome (Option Streambuf)
  xrootd_streambuf buffersize =
      let opened : Outcome (Option Streambuf) =
        opened_with buffersize (read 0 buffersize).text >>= λ s. ok (some s) in
      if opens then opened else ok none
