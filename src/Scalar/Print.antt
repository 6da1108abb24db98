-- ===== src/Scalar/Print.antt =====
-- Printed integers are read back.
use hddm.Prelude.{
  ℕ, zero, suc, ◌+◌, ◌/◌, ◌%◌, ◌^◌, ◌<◌, ◌≡◌, refl, ap, sym, ◌∙◌, true, false, [], ◌∷◌, ◌++◌, none,
  some, append-nil, arith, inl, inr, Bool-cases, ltb, ◌==◌,
}
use hddm.Prelude.Text.{Text}
use hddm.Prelude.Int.{ℤ, pos, negsuc, IsInt32, IsInt64}
use hddm.Scalar.{
  is_space, skip_space, scan_signed, clamp, extract, extract_skipped, extract_int32, extract_int64,
  show_int,
}
use hddm.Scalar.Digits.{show_digits, show_nat, is_digit, scan_digits, scan-show_nat}

digits_head :
    (f n : ℕ) → n < f → (c : ℕ) × (cs : Text) × (is_digit c ≡ true) × (show_digits f n ≡ c ∷ cs)
unfolding show_digits is_digit
digits_head zero n h = absurd (omega arith)
digits_head (suc f) n h = elim (Bool-cases (ltb n 10)) [
  | inl low ↦ (48 + n, [], ground arith, rw low)
  | inr high ↦
      let (c, cs, d, e) = digits_head f (n / 10) (ground arith) in
      (c, cs ++ (48 + n % 10) ∷ [], d, rw (high, e))
]

-- The text of a natural number is not skipped, and scans as that number.
scan_digits_head :
    (n : ℕ) (c : ℕ) (cs : Text)
    → is_digit c ≡ true
    → show_nat n ≡ c ∷ cs
    → (skip_space (c ∷ cs) ≡ c ∷ cs) × (scan_signed (c ∷ cs) ≡ pos n)
unfolding skip_space scan_signed is_space is_digit
scan_digits_head n c cs d e =
    let value : scan_digits 0 (c ∷ cs) ≡ n =
      ap (scan_digits 0) (sym e ∙ sym (append-nil (show_nat n))) ∙ scan-show_nat n [] tt in
    let minus : (c == b'-') ≡ false = ground arith in
    let plus : (c == b'+') ≡ false = ground arith in
    let blank : is_space c ≡ false = ground arith in (rw blank, rw (minus, plus, value))

extract-show_int : (m : ℕ) (v : ℤ) → clamp m v ≡ v → extract m (show_int v) ≡ some v
unfolding extract extract_skipped show_int show_nat skip_space is_space scan_signed
extract-show_int m (pos n) h =
    let (c, cs, d, e) = digits_head (suc n) n (omega arith) in
    let (kept, value) = scan_digits_head n c cs d (unfold show_nat in e) in
    rw (e, kept, extract_skipped, value, h)
extract-show_int m (negsuc n) h =
    let value : scan_digits 0 (show_nat (suc n)) ≡ suc n =
      ap (scan_digits 0) (sym (append-nil (show_nat (suc n)))) ∙ scan-show_nat (suc n) [] tt in
    rw (extract, show_int, skip_space, extract_skipped, value, h)

-- An integer that fits its type, printed by `ostream <<` and extracted by `stringstream >>`, is itself.
pub extract_int32-show_int : (v : ℤ) → IsInt32 v → extract_int32 (show_int v) ≡ some v
unfolding clamp
extract_int32-show_int (pos n) h = extract-show_int (2 ^ 31) (pos n) (ground (arith, h.below))
extract_int32-show_int (negsuc n) h = extract-show_int (2 ^ 31) (negsuc n) (ground (arith, h.above))

pub extract_int64-show_int : (v : ℤ) → IsInt64 v → extract_int64 (show_int v) ≡ some v
unfolding clamp
extract_int64-show_int (pos n) h = extract-show_int (2 ^ 63) (pos n) (ground (arith, h.below))
extract_int64-show_int (negsuc n) h = extract-show_int (2 ^ 63) (negsuc n) (ground (arith, h.above))

pub extract-nil : (m : ℕ) → extract m [] ≡ none
unfolding extract skip_space extract_skipped
extract-nil m = refl
