-- ===== src/HttpStream/Reading.antt =====
-- What a reader of a web server's file gets.
use hddm.Prelude.{
  ℕ, zero, suc, ◌+◌, ◌-◌, ◌*◌, ◌≤◌, ◌<◌, ◌≡◌, refl, ap, sym, ◌∙◌, true, false, [], ◌∷◌, none, some,
  length, take, drop, take-drop, length-drop, arith, Option, ◌⊎◌, inl, inr, ltb, Bool-cases,
}
use hddm.Prelude.Text.{Bytes}
use hddm.Outcome.{ok}
use hddm.Readahead.{Streambuf, drain}
use hddm.Readahead.Drain.{opened_with-IsWindow, opened_with-drain}
use hddm.Readahead.PastEnd.{drain-endless}
use hddm.HttpStream.{Response, background_fill, http_streambuf}

-- A server with ranged requests: the bytes from `first` to `last` that the file has, or status 416 where
-- it has none of them, with a text `why` that explains it, or that is empty.
abbrev pub serve : Bytes → Bytes → ℕ → ℕ → Response
serve file why first last = elim (ltb first (length file)) [
  | true ↦ record { status_code = 206; text = take (last + 1 - first) (drop first file) }
  | false ↦ record { status_code = 416; text = why }
]

drop-all : (n : ℕ) (xs : Bytes) → length xs ≤ n → drop n xs ≡ []
drop-all zero [] h = refl
drop-all zero (x ∷ xs) h = absurd (omega arith)
drop-all (suc n) [] h = refl
drop-all (suc n) (x ∷ xs) h = drop-all n xs (omega arith)

take-nil : (n : ℕ) (xs : Bytes) → xs ≡ [] → take n xs ≡ []
take-nil zero xs e = refl
take-nil (suc n) [] e = refl
take-nil (suc n) (x ∷ xs) e = cc

-- The text of an answer with its status.
serve-status :
    (file why : Bytes) (first last : ℕ)
    → ((first < length file)
        × (serve file why first last
            ≡ record { status_code = 206; text = take (last + 1 - first) (drop first file) }))
      ⊎ ((length file ≤ first)
          × (serve file why first last ≡ record { status_code = 416; text = why }))
serve-status file why first last = elim (Bool-cases (ltb first (length file))) [
  | inl inside ↦ inl (ground arith, rw (serve, inside))
  | inr outside ↦ inr (ground arith, rw (serve, outside))
]

-- What a reader that reads on to the end should have of the file, where the server explains its status
-- 416 by that text: all of it, or nothing, since the explanation is read as what follows it, for ever.
abbrev pub all_unless : Bytes → Bytes → Option Bytes
all_unless [] file = some file
all_unless (c ∷ why) file = none

nonempty : (xs : Bytes) → 0 < length xs → (c : ℕ) × (cs : Bytes) × (xs ≡ c ∷ cs)
nonempty [] h = absurd (omega arith)
nonempty (x ∷ xs) h = (x, xs, refl)

module _ (get : ℕ → ℕ → Response) where
  background_fill-serve :
      (file : Bytes)
      → ((first last : ℕ) → get first last ≡ serve file [] first last)
      → (offset size : ℕ) → 0 < size
      → background_fill get offset size ≡ ok (take size (drop offset file))
  unfolding background_fill
  background_fill-serve file served offset size some_size =
      let answer = served offset (offset + size - 1) in
      let count : offset + size - 1 + 1 - offset ≡ size = omega arith in
      elim (serve-status file [] offset (offset + size - 1)) [
        | inl (inside, e) ↦ rw (answer, e) (ap (λ k. ok (take k (drop offset file))) count)
        | inr (outside, e) ↦
            rw (answer, e)
              (ap (λ t. ok t)
                (sym (take-nil size (drop offset file) (drop-all offset file outside))))
      ]

  silent-drain :
      (file : Bytes) (buffersize : ℕ)
      → ((first last : ℕ) → get first last ≡ serve file [] first last)
      → 0 < buffersize
      → 0 < length file
      → (s : Streambuf) × (http_streambuf get buffersize ≡ ok (inr s))
        × (drain buffersize (background_fill get) (suc (length file)) s ≡ ok (some file))
  unfolding http_streambuf
  silent-drain file buffersize served some_size some_file =
      let (s, e, all) =
        opened_with-drain buffersize (background_fill get) file (take buffersize file) some_size
          (λ m. background_fill-serve file served (suc m * buffersize) buffersize some_size) in
      let inside : ltb 0 (length file) ≡ true = ground arith in
      let count : buffersize - 1 + 1 - 0 ≡ buffersize = omega arith in
      (
        s,
        rw (served 0 (buffersize - 1), serve, inside, count, e),
        all ∙ ap (λ t. ok (some t)) (take-drop buffersize file),
      )

  -- An empty file is refused: the first request is answered with 416, which only the later ones allow.
  pub http_streambuf-empty :
      (why : Bytes) (buffersize : ℕ)
      → ((first last : ℕ) → get first last ≡ serve [] why first last)
      → http_streambuf get buffersize ≡ ok (inl 416)
  unfolding http_streambuf
  http_streambuf-empty why buffersize served = rw (served 0 (buffersize - 1))

  -- The answer to the request of block m.
  abbrev answer_of : ℕ → ℕ → Response
  answer_of buffersize m = get (m * buffersize) (m * buffersize + buffersize - 1)

  -- Where the first request is answered with status 206, and each later one with a text that is not empty,
  -- with status 206 or 416, no count of calls of `underflow` comes to an end.
  pub http_streambuf-endless :
      (buffersize : ℕ)
      → (get 0 (buffersize - 1)).status_code ≡ 206
      → ((m : ℕ)
          → ((answer_of buffersize (suc m)).status_code ≡ 206)
            ⊎ ((answer_of buffersize (suc m)).status_code ≡ 416))
      → ((m : ℕ) → 0 < length (answer_of buffersize (suc m)).text)
      → (s : Streambuf) × (http_streambuf get buffersize ≡ ok (inr s))
        × ((calls : ℕ) → drain buffersize (background_fill get) calls s ≡ ok none)
  unfolding http_streambuf background_fill
  http_streambuf-endless buffersize first_status statuses texts =
      let chunk : ℕ → Bytes = λ m. elim m [
        | zero ↦ (get 0 (buffersize - 1)).text
        | suc k ↦ (answer_of buffersize (suc k)).text
      ] in
      let (s, e, w) = opened_with-IsWindow buffersize (background_fill get) [] chunk in
      (
        s,
        rw (first_status, e),
        λ calls.
            drain-endless buffersize chunk (background_fill get) calls 0 s
              (λ m. nonempty (answer_of buffersize (suc m)).text (texts m))
              (λ m. elim (statuses m) [ inl is_part ↦ rw is_part | inr is_outside ↦ rw is_outside ])
              w,
      )

  some_text : (n : ℕ) (xs : Bytes) → 0 < n → 0 < length xs → 0 < length (take n xs)
  some_text zero xs h h' = absurd (omega arith)
  some_text (suc n) [] h h' = absurd (omega arith)
  some_text (suc n) (x ∷ xs) h h' = omega arith

  serve-some_text :
      (file why : Bytes) (first size : ℕ)
      → 0 < size
      → 0 < length why
      → (((serve file why first (first + size - 1)).status_code ≡ 206)
          ⊎ ((serve file why first (first + size - 1)).status_code ≡ 416))
        × (0 < length (serve file why first (first + size - 1)).text)
  serve-some_text file why first size some_size explained =
      elim (serve-status file why first (first + size - 1)) [
        | inl (inside, e) ↦ (
          inl (ap (λ (r : Response). r.status_code) e),
          rw (ap (λ (r : Response). r.text) e) (
              some_text (first + size - 1 + 1 - first) (drop first file) (omega arith)
                (omega (arith, length-drop first file))),
        )
        | inr (outside, e) ↦ (
          inr (ap (λ (r : Response). r.status_code) e),
          rw (ap (λ (r : Response). r.text) e) explained,
        )
      ]

  -- On a server that answers each ranged request from the file, as `serve` does, the constructor opens a
  -- file of at least one byte, in blocks of any size but 0. One more call of `underflow` than the file has
  -- bytes reads all of it and the end, where the server's status 416 has no text. Where it has a text,
  -- that many calls do not come to the end.
  pub http_streambuf-drain :
      (file why : Bytes) (buffersize : ℕ)
      → ((first last : ℕ) → get first last ≡ serve file why first last)
      → 0 < buffersize
      → 0 < length file
      → (s : Streambuf) × (http_streambuf get buffersize ≡ ok (inr s))
        × (drain buffersize (background_fill get) (suc (length file)) s ≡ ok (all_unless why file))
  http_streambuf-drain file [] buffersize served some_size some_file =
      silent-drain file buffersize served some_size some_file
  http_streambuf-drain file (c ∷ why) buffersize served some_size some_file =
      let texts = λ (m : ℕ).
        serve-some_text file (c ∷ why) (suc m * buffersize) buffersize some_size (omega arith) in
      let inside : ltb 0 (length file) ≡ true = ground arith in
      let first_status : (get 0 (buffersize - 1)).status_code ≡ 206 =
        rw (served 0 (buffersize - 1), serve, inside) refl in
      let (s, e, never) =
        http_streambuf-endless buffersize first_status
          (λ m. rw (served (suc m * buffersize) (suc m * buffersize + buffersize - 1)) (texts m).0)
          (λ m.
            rw (served (suc m * buffersize) (suc m * buffersize + buffersize - 1)) (texts m).1) in
      (s, e, never (suc (length file)))
