-- ===== src/Scalar/Digits.antt =====
-- Decimal digits of a natural number, written and read.
use hddm.Prelude.{
  ℕ, zero, suc, ◌+◌, ◌-◌, ◌*◌, ◌/◌, ◌%◌, ◌<◌, ◌≡◌, refl, ◌∙◌, ap, Bool, true, false, [], ◌∷◌, ◌++◌,
  append_assoc, if◌then◌else◌, ltb, leb, ◌&&◌, arith, inl, inr, Bool-cases,
}
use hddm.Prelude.Text.{Text}

-- One digit for each unit of fuel; a number has no more digits than its value and one.
unfoldable pub show_digits : ℕ → ℕ → Text
show_digits zero n = []
show_digits (suc f) n =
    let front = show_digits f (n / 10) in
    if ltb n 10 then (48 + n) ∷ [] else front ++ (48 + n % 10) ∷ []

unfoldable pub show_nat : ℕ → Text
unfolding show_digits
show_nat n = show_digits (suc n) n

unfoldable pub is_digit : ℕ → Bool
is_digit c = leb 48 c && leb c 57

-- The value of the leading digits, on top of those read.
unfoldable pub scan_digits : ℕ → Text → ℕ
unfolding is_digit
scan_digits acc [] = acc
scan_digits acc (c ∷ cs) =
    let more = scan_digits (acc * 10 + (c - 48)) cs in if is_digit c then more else acc

-- What follows is no digit.
abbrev pub EndsDigits : Text → Type 0
EndsDigits [] = Unit
EndsDigits (c ∷ cs) = is_digit c ≡ false

scan_digits-end : (acc : ℕ) (rest : Text) → EndsDigits rest → scan_digits acc rest ≡ acc
unfolding scan_digits
scan_digits-end acc [] h = refl
scan_digits-end acc (c ∷ cs) h = rw h

is_digit-low : (n : ℕ) → n < 10 → is_digit (48 + n) ≡ true
unfolding is_digit
is_digit-low n h = ground arith

scan_digit :
    (acc n : ℕ) (rest : Text)
    → n < 10
    → scan_digits acc ((48 + n) ∷ rest) ≡ scan_digits (acc * 10 + n) rest
unfolding scan_digits
scan_digit acc n rest h = let e : 48 + n - 48 ≡ n = omega arith in rw (is_digit-low n h, e)

-- 10 ^ (number of digits), by the same recursion.
shift : ℕ → ℕ → ℕ
shift zero n = 1
shift (suc f) n = let up = shift f (n / 10) * 10 in if ltb n 10 then 10 else up

scan-show_digits :
    (f n acc : ℕ) (rest : Text)
    → n < f
    → scan_digits acc (show_digits f n ++ rest) ≡ scan_digits (acc * shift f n + n) rest
unfolding show_digits shift
scan-show_digits zero n acc rest h = absurd (omega arith)
scan-show_digits (suc f) n acc rest h = elim (Bool-cases (ltb n 10)) [
  | inl low ↦ rw low (scan_digit acc n rest (ground arith))
  | inr high ↦
      rw (high, append_assoc (show_digits f (n / 10)) ((48 + n % 10) ∷ []) rest)
        (scan-show_digits f (n / 10) acc ((48 + n % 10) ∷ rest) (ground arith)
          ∙ scan_digit (acc * shift f (n / 10) + n / 10) (n % 10) rest (omega arith)
          ∙ ap (λ k. scan_digits k rest) (omega arith))
]

-- Reading a printed number gives it back.
pub scan-show_nat : (n : ℕ) (rest : Text) → EndsDigits rest → scan_digits 0 (show_nat n ++ rest) ≡ n
unfolding show_nat
scan-show_nat n rest h =
    scan-show_digits (suc n) n 0 rest (omega arith)
    ∙ scan_digits-end (0 * shift (suc n) n + n) rest h
    ∙ omega arith
