-- ===== src/Scalar.antt =====
-- Numbers as text: `atoi`, `std::stringstream >> int32_t` and `>> int64_t`, and `std::ostream <<` of
-- integers, as src/xml-hddm.cpp and src/hddm-xml.cpp call them.
pub mod Digits
pub mod Print
use hddm.Prelude.{
  ℕ, zero, suc, ◌+◌, ◌-◌, ◌*◌, ◌/◌, ◌%◌, ◌^◌, ◌≤◌, ◌<◌, ◌≡◌, refl, Bool, true, false, List, [], ◌∷◌,
  ◌++◌, Option, none, some, if◌then◌else◌, ltb, leb, ◌==◌, ◌||◌, ◌&&◌, arith,
}
use hddm.Prelude.Text.{Text, codes}
use hddm.Prelude.Int.{ℤ, pos, negsuc, IsInt32, IsInt64}
use Digits.{show_nat, scan_digits, is_digit}

unfoldable pub is_space : ℕ → Bool
is_space c = (c == 32) || (leb 9 c && leb c 13)

unfoldable pub skip_space : Text → Text
unfolding is_space
skip_space [] = []
skip_space (c ∷ cs) = if is_space c then skip_space cs else c ∷ cs

abbrev pub negate : ℕ → ℤ
negate zero = pos 0
negate (suc n) = negsuc n

-- A sign and the digits after it, as a magnitude.
unfoldable pub scan_signed : Text → ℤ
unfolding scan_digits
scan_signed [] = pos 0
scan_signed (c ∷ cs) =
    if c == b'-'
    then negate (scan_digits 0 cs)
    else if c == b'+'
    then pos (scan_digits 0 cs)
    else pos (scan_digits 0 (c ∷ cs))

-- `atoi`; a value beyond `int`, whose result C leaves undefined, is kept exact.
unfoldable pub atoi : Text → ℤ
unfolding scan_signed skip_space
atoi s = scan_signed (skip_space s)

-- Extraction clamps to the type's range (and sets failbit, which the tools do not read).
unfoldable pub clamp : ℕ → ℤ → ℤ
clamp m (pos n) = if ltb n m then pos n else pos (m - 1)
clamp m (negsuc n) = if ltb n m then negsuc n else negsuc (m - 1)

extract_skipped : ℕ → Text → Option ℤ
extract_skipped m [] = none
extract_skipped m (c ∷ cs) = some (clamp m (scan_signed (c ∷ cs)))

-- `stream >> val`: `none` where the text has nothing but white space, which leaves `val` as it was,
-- uninitialised; 0 where there is no number.
unfoldable pub extract : ℕ → Text → Option ℤ
unfolding skip_space clamp scan_signed extract_skipped
extract m s = extract_skipped m (skip_space s)

abbrev pub extract_int32 : Text → Option ℤ
extract_int32 = extract (2 ^ 31)

abbrev pub extract_int64 : Text → Option ℤ
extract_int64 = extract (2 ^ 63)

-- `stream << val` of an integer
unfoldable pub show_int : ℤ → Text
unfolding show_nat
show_int (pos n) = show_nat n
show_int (negsuc n) = b'-' ∷ show_nat (suc n)

clamp-IsInt32 : (v : ℤ) → IsInt32 (clamp (2 ^ 31) v)
unfolding clamp
clamp-IsInt32 (pos n) = ground arith
clamp-IsInt32 (negsuc n) = ground arith

clamp-IsInt64 : (v : ℤ) → IsInt64 (clamp (2 ^ 63) v)
unfolding clamp
clamp-IsInt64 (pos n) = ground arith
clamp-IsInt64 (negsuc n) = ground arith

extract_skipped-clamped :
    (m : ℕ) (t : Text) (v : ℤ) → extract_skipped m t ≡ some v → v ≡ clamp m (scan_signed t)
unfolding extract_skipped
extract_skipped-clamped m [] v h = cc
extract_skipped-clamped m (c ∷ cs) v h = cc

pub extract-IsInt32 : (s : Text) (v : ℤ) → extract_int32 s ≡ some v → IsInt32 v
unfolding extract
extract-IsInt32 s v h =
    rw (extract_skipped-clamped _ _ v h) (clamp-IsInt32 (scan_signed (skip_space s)))

pub extract-IsInt64 : (s : Text) (v : ℤ) → extract_int64 s ≡ some v → IsInt64 v
unfolding extract
extract-IsInt64 s v h =
    rw (extract_skipped-clamped _ _ v h) (clamp-IsInt64 (scan_signed (skip_space s)))
