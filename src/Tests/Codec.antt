-- ===== src/Tests/Codec.antt =====
-- A codec after RFC 1832 that meets the laws of `Runtime`: big-endian words, padded strings. The
-- floating-point types are stood for by two values.
use hddm.Prelude.{
  ℕ, zero, suc, ◌+◌, ◌-◌, ◌*◌, ◌/◌, ◌%◌, ◌^◌, ◌<◌, ◌≡◌, refl, ap, ◌∙◌, Bool, true, false, [], ◌∷◌,
  ◌++◌, none, some, length, length-append, take, drop, take-append, drop-append, append_assoc,
  arith, ltb, ◌==◌, if◌then◌else◌,
}
use hddm.Prelude.Text.{Text, Bytes, codes}
use hddm.Prelude.Int.{ℤ, pos, negsuc, IsInt32, IsInt64}
use hddm.Runtime.{Real, Runtime, padding}

abbrev put_word : ℕ → Bytes
put_word n = (n / 2 ^ 24 % 256) ∷ (n / 2 ^ 16 % 256) ∷ (n / 2 ^ 8 % 256) ∷ (n % 256) ∷ []

abbrev get_word : Bytes → ℕ × Bytes
get_word (a ∷ b ∷ c ∷ d ∷ rest) = (a * 2 ^ 24 + b * 2 ^ 16 + c * 2 ^ 8 + d, rest)
get_word (a ∷ b ∷ c ∷ []) = (0, [])
get_word (a ∷ b ∷ []) = (0, [])
get_word (a ∷ []) = (0, [])
get_word [] = (0, [])

get-put_word : (n : ℕ) (rest : Bytes) → n < 2 ^ 32 → get_word (put_word n ++ rest) ≡ (n, rest)
get-put_word n rest h = ap (λ (m : ℕ). (m, rest)) (omega arith)

-- Two's complement of w bits, and back.
abbrev pattern_of : ℕ → ℤ → ℕ
pattern_of m (pos n) = n
pattern_of m (negsuc n) = m - 1 - n

abbrev signed : ℕ → ℕ → ℤ
signed m n = if ltb n (m / 2) then pos n else negsuc (m - 1 - n)

signed32 : (v : ℤ) → IsInt32 v → signed (2 ^ 32) (pattern_of (2 ^ 32) v) ≡ v
signed32 (pos n) h = ground arith
signed32 (negsuc n) h = ground arith

signed64 : (v : ℤ) → IsInt64 v → signed (2 ^ 64) (pattern_of (2 ^ 64) v) ≡ v
signed64 (pos n) h = ground arith
signed64 (negsuc n) h = ground arith

abbrev put_int : ℤ → Bytes
put_int v = put_word (pattern_of (2 ^ 32) v)

abbrev get_int : Bytes → ℤ × Bytes
get_int bytes = (signed (2 ^ 32) (get_word bytes).0, (get_word bytes).1)

abbrev put_long : ℤ → Bytes
put_long v = let n = pattern_of (2 ^ 64) v in put_word (n / 2 ^ 32) ++ put_word (n % 2 ^ 32)

abbrev get_long : Bytes → ℤ × Bytes
get_long bytes =
    let (hi, rest) = get_word bytes in
    let (lo, rest') = get_word rest in (signed (2 ^ 64) (hi * 2 ^ 32 + lo), rest')

abbrev zeros : ℕ → Bytes
zeros zero = []
zeros (suc n) = 0 ∷ zeros n

length-zeros : (n : ℕ) → length (zeros n) ≡ n
length-zeros zero = refl
length-zeros (suc n) = ap suc (length-zeros n)

abbrev put_string : Text → Bytes
put_string s = put_word (length s) ++ (s ++ zeros (padding (length s)))

abbrev get_string : Bytes → Text × Bytes
get_string bytes = let (n, rest) = get_word bytes in (take n rest, drop (padding n) (drop n rest))

pattern32 : (v : ℤ) → IsInt32 v → pattern_of (2 ^ 32) v < 2 ^ 32
pattern32 (pos n) h = omega arith
pattern32 (negsuc n) h = omega arith

pattern64 : (v : ℤ) → IsInt64 v → pattern_of (2 ^ 64) v < 2 ^ 64
pattern64 (pos n) h = omega arith
pattern64 (negsuc n) h = omega arith

pub get-put_int : (v : ℤ) (rest : Bytes) → IsInt32 v → get_int (put_int v ++ rest) ≡ (v, rest)
get-put_int v rest h =
    ap (λ (p : ℕ × Bytes). (signed (2 ^ 32) p.0, p.1))
      (get-put_word (pattern_of (2 ^ 32) v) rest (pattern32 v h))
    ∙ ap (λ (u : ℤ). (u, rest)) (signed32 v h)

pub get-put_long : (v : ℤ) (rest : Bytes) → IsInt64 v → get_long (put_long v ++ rest) ≡ (v, rest)
get-put_long v rest h =
    let n = pattern_of (2 ^ 64) v in
    ap (λ (m : ℕ). (signed (2 ^ 64) m, rest)) (joined n (pattern64 v h))
    ∙ ap (λ (u : ℤ). (u, rest)) (signed64 v h)
  where
    joined :
        (n : ℕ)
        → n < 2 ^ 64
        → (get_word (put_word (n / 2 ^ 32))).0 * 2 ^ 32 + (get_word (put_word (n % 2 ^ 32))).0 ≡ n
    joined n below = omega arith

drop-zeros : (n : ℕ) (rest : Bytes) → drop n (zeros n ++ rest) ≡ rest
drop-zeros zero rest = refl
drop-zeros (suc n) rest = drop-zeros n rest

pub get-put_string :
    (s : Text) (rest : Bytes) → length s < 2 ^ 32 → get_string (put_string s ++ rest) ≡ (s, rest)
get-put_string s rest h =
    let n = length s in
    let pad = zeros (padding n) in
    rw (append_assoc s pad rest) (
      ap (λ (p : ℕ × Bytes). (take p.0 p.1, drop (padding p.0) (drop p.0 p.1)))
        (get-put_word n (s ++ (pad ++ rest)) h)
      ∙ rw (take-append s (pad ++ rest), drop-append s (pad ++ rest), drop-zeros (padding n) rest))

pub length-put_string : (s : Text) → length (put_string s) ≡ 4 + length s + padding (length s)
length-put_string s =
    let n = length s in omega (arith, length-append s (zeros (padding n)), length-zeros (padding n))

abbrev put_flag : Bool → Bytes
put_flag true = 0 ∷ 0 ∷ 0 ∷ 1 ∷ []
put_flag false = 0 ∷ 0 ∷ 0 ∷ 0 ∷ []

abbrev get_flag : Bytes → Bool × Bytes
get_flag bytes = ((get_word bytes).0 == 1, (get_word bytes).1)

pub get-put_flag : (v : Bool) (rest : Bytes) → get_flag (put_flag v ++ rest) ≡ (v, rest)
get-put_flag true rest = refl
get-put_flag false rest = refl

pub length-put_flag : (v : Bool) → length (put_flag v) ≡ 4
length-put_flag true = refl
length-put_flag false = refl

abbrev put_wide : Bool → Bytes
put_wide v = put_flag false ++ put_flag v

abbrev get_wide : Bytes → Bool × Bytes
get_wide bytes = get_flag (get_word bytes).1

pub get-put_wide : (v : Bool) (rest : Bytes) → get_wide (put_wide v ++ rest) ≡ (v, rest)
get-put_wide true rest = refl
get-put_wide false rest = refl

pub length-put_wide : (v : Bool) → length (put_wide v) ≡ 8
length-put_wide true = refl
length-put_wide false = refl

-- Two values: 0, and everything else.
abbrev two_valued : Real
two_valued = record {
  Value = Bool;
  nan = true;
  neg_nan = true;
  inf = true;
  neg_inf = true;
  extract = λ s. elim s [ [] ↦ none | c ∷ cs ↦ some (c == b'1') ];
  insert = λ v. if v then codes "1" else codes "0";
}

abbrev pub codec : Runtime
codec = record {
  float = two_valued;
  double = two_valued;
  xdr = record {
    put_int = put_int;
    get_int = get_int;
    put_long = put_long;
    get_long = get_long;
    put_float = put_flag;
    get_float = get_flag;
    put_double = put_wide;
    get_double = get_wide;
    put_string = put_string;
    get_string = get_string;
    get-put_int = get-put_int;
    get-put_long = get-put_long;
    get-put_float = get-put_flag;
    get-put_double = get-put_wide;
    get-put_string = get-put_string;
    length-put_int = λ v. refl;
    length-put_long = λ v. refl;
    length-put_float = length-put_flag;
    length-put_double = length-put_wide;
    length-put_string = length-put_string;
  };
}
