-- ===== src/HddmXml/Steps.antt =====
-- Steps of the reader of src/hddm-xml.cpp that consume exactly given bytes and print given text, and
-- how such steps compose.
use native.Mathlib.Nat.{add_assoc}
use hddm.Prelude.{
  ℕ, ◌+◌, ◌≡◌, ap, ◌∙◌, [], ◌++◌, append_assoc, append-nil, length, length-append, arith,
}
use hddm.Prelude.Text.{Text, Bytes}
use hddm.Prelude.Int.{pos}
use hddm.Outcome.{Outcome, ok, ◌>>=◌}
use hddm.HddmXml.{Progress, write}

abbrev pub at : Text → ℕ → Bytes → Progress
at out n input = record { out = out; size = pos n; input = input }

-- The step takes `bytes` off the input, counts them, and prints `t`.
pub record Advances (f : Progress → Progress) (bytes : Bytes) (t : Text) : Type 0 where
  pub run :
      (out : Text) (n : ℕ) (rest : Bytes)
      → f (at out (length bytes + n) (bytes ++ rest)) ≡ at (out ++ t) n rest

-- So does a step that may fail, and it does not.
pub record Reads (f : Progress → Outcome Progress) (bytes : Bytes) (t : Text) : Type 0 where
  pub run :
      (out : Text) (n : ℕ) (rest : Bytes)
      → f (at out (length bytes + n) (bytes ++ rest)) ≡ ok (at (out ++ t) n rest)

split_input :
    (b c : Bytes) (out : Text) (n : ℕ) (rest : Bytes)
    → at out (length (b ++ c) + n) ((b ++ c) ++ rest)
      ≡ at out (length b + (length c + n)) (b ++ (c ++ rest))
split_input b c out n rest =
    rw (append_assoc b c rest, length-append b c, add_assoc (length b) (length c) n)

pub Advances-write : (t : Text) → Advances (write t) [] t
unfolding write
Advances-write t = record { run = λ out n rest. ap (λ k. at (out ++ t) k rest) (omega arith) }

pub Advances-id : Advances (λ p. p) [] []
Advances-id = record { run = λ out n rest. rw append-nil (ap (λ k. at out k rest) (omega arith)) }

module _ {b c : Bytes} {t u : Text} where
  pub Advances-comp :
      {f g : Progress → Progress}
      → Advances f b t
      → Advances g c u
      → Advances (λ p. g (f p)) (b ++ c) (t ++ u)
  Advances-comp {f} {g} hf hg = record {
    run = λ out n rest.
        ap (λ p. g (f p)) (split_input b c out n rest)
        ∙ ap g (hf.run out (length c + n) (c ++ rest))
        ∙ hg.run (out ++ t) n rest
        ∙ ap (λ o. at o n rest) (append_assoc out t u);
  }

  pub Reads-comp :
      {f : Progress → Progress} {g : Progress → Outcome Progress}
      → Advances f b t
      → Reads g c u
      → Reads (λ p. g (f p)) (b ++ c) (t ++ u)
  Reads-comp {f} {g} hf hg = record {
    run = λ out n rest.
        ap (λ p. g (f p)) (split_input b c out n rest)
        ∙ ap g (hf.run out (length c + n) (c ++ rest))
        ∙ hg.run (out ++ t) n rest
        ∙ ap (λ o. ok (at o n rest)) (append_assoc out t u);
  }

  pub Reads-bind :
      {f g : Progress → Outcome Progress}
      → Reads f b t
      → Reads g c u
      → Reads (λ p. f p >>= g) (b ++ c) (t ++ u)
  Reads-bind {f} {g} hf hg = record {
    run = λ out n rest.
        ap (λ p. f p >>= g) (split_input b c out n rest)
        ∙ ap (λ o. o >>= g) (hf.run out (length c + n) (c ++ rest))
        ∙ hg.run (out ++ t) n rest
        ∙ ap (λ o. ok (at o n rest)) (append_assoc out t u);
  }

pub Reads-ok :
    {f : Progress → Progress} {b : Bytes} {t : Text} → Advances f b t → Reads (λ p. ok (f p)) b t
Reads-ok hf = record { run = λ out n rest. ap ok (hf.run out n rest) }
