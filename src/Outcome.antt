-- ===== src/Outcome.antt =====
-- How a tool's run ends: a value, a call of `exit`, or undefined behaviour.
use hddm.Prelude.{ℕ, Bool, true, false, ◌≡◌, refl}

-- `exit n` is a call of `exit(n)` (or `return n` from `main`) after an error message; `fault` is a
-- step whose behaviour C++ leaves undefined, or an exception that nothing catches.
pub data Outcome {ℓ} (A : Type ℓ) : Type ℓ where
  ok : A → Outcome A
  exit : ℕ → Outcome A
  fault : Outcome A

-- Leave by `exit(n)` unless the test holds.
abbrev pub require : Bool → ℕ → Outcome (Unit {0})
require true status = ok tt
require false status = exit status

-- The rest of a run, which is not reached behind an `exit`.
infixl 5 ◌>>=◌ ◌>>◌
abbrev pub ◌>>=◌ {ℓ κ} : {A : Type ℓ} {B : Type κ} → Outcome A → (A → Outcome B) → Outcome B
fault >>= rest = fault
exit status >>= rest = exit status
ok value >>= rest = rest value

abbrev pub ◌>>◌ {ℓ} : {B : Type ℓ} → Outcome (Unit {0}) → Outcome B → Outcome B
first >> rest = first >>= λ _. rest

-- A run that ended with a value went through its first part.
pub >>=-eq-ok {ℓ κ} :
    {A : Type ℓ} {B : Type κ} (first : Outcome A) (rest : A → Outcome B) {final : B}
    → (first >>= rest) ≡ ok final
    → (value : A) × (first ≡ ok value) × (rest value ≡ ok final)
>>=-eq-ok fault rest ended = cc
>>=-eq-ok (exit status) rest ended = cc
>>=-eq-ok (ok value) rest ended = (value, refl, ended)

pub require->>= {ℓ} :
    {B : Type ℓ} (b : Bool) (n : ℕ) (f : Unit {0} → Outcome B) {a : B}
    → (require b n >>= f) ≡ ok a
    → (b ≡ true) × (f tt ≡ ok a)
require->>= true n f h = (refl, h)
require->>= false n f h = cc
