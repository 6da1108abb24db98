-- ===== src/Runtime.antt =====
-- What the tools call and do not implement: floating-point numbers with the conversions of the C++
-- streams, and the XDR streams of the xstream library (RFC 1832).
use hddm.Prelude.{ℕ, ◌+◌, ◌-◌, ◌%◌, ◌^◌, ◌<◌, ◌≡◌, Option, ◌++◌, length, ◌==◌, if◌then◌else◌}
use hddm.Prelude.Text.{Text, Bytes}
use hddm.Prelude.Int.{ℤ, IsInt32, IsInt64}

-- `float` or `double`. `extract` is `stringstream >> val` (`none` where nothing but white space is
-- left, and `val` stays uninitialised), `insert` is `ostream << val`.
pub record Real : Type 1 where
  pub Value : Type 0
  pub nan : Value
  pub neg_nan : Value
  pub inf : Value
  pub neg_inf : Value
  pub extract : Text → Option Value
  pub insert : Value → Text

-- The bytes that fill a string of that length up to a multiple of four.
abbrev pub padding : ℕ → ℕ
padding n = if n % 4 == 0 then 0 else 4 - n % 4

-- `ostream::operator<<` and `istream::operator>>` of xstream::xdr. A read returns the value and the
-- stream behind it. The laws: what is written is read back, and takes the standard's number of bytes.
pub record Xdr (F D : Type 0) : Type 0 where
  pub put_int : ℤ → Bytes
  pub get_int : Bytes → ℤ × Bytes
  pub put_long : ℤ → Bytes
  pub get_long : Bytes → ℤ × Bytes
  pub put_float : F → Bytes
  pub get_float : Bytes → F × Bytes
  pub put_double : D → Bytes
  pub get_double : Bytes → D × Bytes
  pub put_string : Text → Bytes
  pub get_string : Bytes → Text × Bytes
  pub get-put_int : (v : ℤ) (rest : Bytes) → IsInt32 v → get_int (put_int v ++ rest) ≡ (v, rest)
  pub get-put_long : (v : ℤ) (rest : Bytes) → IsInt64 v → get_long (put_long v ++ rest) ≡ (v, rest)
  pub get-put_float : (v : F) (rest : Bytes) → get_float (put_float v ++ rest) ≡ (v, rest)
  pub get-put_double : (v : D) (rest : Bytes) → get_double (put_double v ++ rest) ≡ (v, rest)
  pub get-put_string :
      (s : Text) (rest : Bytes) → length s < 2 ^ 32 → get_string (put_string s ++ rest) ≡ (s, rest)
  pub length-put_int : (v : ℤ) → length (put_int v) ≡ 4
  pub length-put_long : (v : ℤ) → length (put_long v) ≡ 8
  pub length-put_float : (v : F) → length (put_float v) ≡ 4
  pub length-put_double : (v : D) → length (put_double v) ≡ 8
  pub length-put_string : (s : Text) → length (put_string s) ≡ 4 + length s + padding (length s)

pub record Runtime : Type 1 where
  pub float : Real
  pub double : Real
  pub xdr : Xdr float.Value double.Value
  pub open xdr use *
