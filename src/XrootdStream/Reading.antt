-- ===== src/XrootdStream/Reading.antt =====
-- What a reader of an xrootd server's file gets.
use hddm.Prelude.{
  ℕ, suc, ◌*◌, ◌<◌, ◌≡◌, ap, ◌∙◌, true, false, [], ◌++◌, some, length, take, drop, take-drop,
}
use hddm.Prelude.Text.{Bytes}
use hddm.Outcome.{ok}
use hddm.Readahead.{Streambuf, drain}
use hddm.Readahead.Drain.{opened_with-drain}
use hddm.XrootdStream.{Reply, background_read, xrootd_streambuf}

-- A server that reads the file: the bytes at an offset, at most as many as asked for.
abbrev pub read_file : Bytes → ℕ → ℕ → Reply
read_file file offset size = record { is_ok = true; text = take size (drop offset file) }

module _ (read : ℕ → ℕ → Reply) (file : Bytes) (buffersize : ℕ) where
  -- After any first reply, the blocks behind it are read in full.
  xrootd_streambuf-drain_first :
      ((m : ℕ)
        → read (suc m * buffersize) buffersize ≡ read_file file (suc m * buffersize) buffersize)
      → 0 < buffersize
      → (s : Streambuf) × (xrootd_streambuf true read buffersize ≡ ok (some s))
        × (drain buffersize (background_read true read) (suc (length file)) s
            ≡ ok (some ((read 0 buffersize).text ++ drop buffersize file)))
  unfolding xrootd_streambuf background_read
  xrootd_streambuf-drain_first later some_size =
      let (s, e, all) =
        opened_with-drain buffersize (background_read true read) file (read 0 buffersize).text
          some_size (λ m. rw (later m)) in
      (s, rw e, all)

  -- On a server that answers each read from the file, the constructor opens the file, an empty one too,
  -- and one more call of `underflow` than the file has bytes is enough to read all of it and the end, in
  -- blocks of any size but 0.
  pub xrootd_streambuf-drain :
      ((offset size : ℕ) → read offset size ≡ read_file file offset size)
      → 0 < buffersize
      → (s : Streambuf) × (xrootd_streambuf true read buffersize ≡ ok (some s))
        × (drain buffersize (background_read true read) (suc (length file)) s ≡ ok (some file))
  xrootd_streambuf-drain answers some_size =
      let (s, e, all) =
        xrootd_streambuf-drain_first (λ m. answers (suc m * buffersize) buffersize) some_size in
      (s, e, all ∙ (rw (answers 0 buffersize) (ap (λ t. ok (some t)) (take-drop buffersize file))))

  -- If the first read fails without a byte, and each later one is answered from the file, the constructor
  -- opens the file all the same and the stream gives it without its first block, in blocks of any size
  -- but 0.
  pub xrootd_streambuf-drain_lost :
      read 0 buffersize ≡ record { is_ok = false; text = [] }
      → ((m : ℕ)
          → read (suc m * buffersize) buffersize ≡ read_file file (suc m * buffersize) buffersize)
      → 0 < buffersize
      → (s : Streambuf) × (xrootd_streambuf true read buffersize ≡ ok (some s))
        × (drain buffersize (background_read true read) (suc (length file)) s
            ≡ ok (some (drop buffersize file)))
  xrootd_streambuf-drain_lost failed later some_size =
      let (s, e, all) = xrootd_streambuf-drain_first later some_size in (s, e, all ∙ rw failed)
