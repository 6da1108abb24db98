-- ===== src/RoundTrip/Frame.antt =====
-- The size and the repeat count that `outputStream` puts before the instances of a tag, when the sizes
-- fit an `int`.
use hddm.Prelude.{
  ℕ, suc, ◌+◌, ◌≤◌, ◌≡◌, Bool, true, false, [], ◌∷◌, ◌++◌, length, length-append, append_assoc,
  arith, if◌then◌else◌, inl, inr, Bool-cases,
}
use hddm.Prelude.Text.{Bytes}
use hddm.Prelude.Int.{ℤ, pos, ltb_ℤ, to_int32_small, int_max}
use hddm.Runtime.{Runtime}
use hddm.XmlHddm.{frame}

held_pos : (n : ℕ) → ltb_ℤ (pos 0) (pos (suc n)) ≡ true
held_pos n = ground arith

module _ (rt : Runtime) where
  pub frame_many :
      (rep : ℤ) (buf : Bytes) (count : ℕ)
      → ltb_ℤ (pos 1) rep ≡ true
      → length buf + 4 ≤ int_max
      → frame rt rep buf count
        ≡ rt.put_int (pos (length buf + 4)) ++ (rt.put_int (pos count) ++ buf)
  unfolding frame
  frame_many rep [] count many fits =
      rw (many, to_int32_small 0 (omega arith), to_int32_small 4 (omega arith))
        (append_assoc (rt.put_int (pos 4)) (rt.put_int (pos count)) [])
  frame_many rep (x ∷ xs) count many fits =
      let n = length xs in
      rw
        (
          many,
          to_int32_small (suc n) (omega arith),
          held_pos n,
          to_int32_small (suc n + 4) (omega arith),
        )
        (append_assoc (rt.put_int (pos (suc n + 4))) (rt.put_int (pos count)) (x ∷ xs))

  pub frame_one :
      (rep : ℤ) (buf : Bytes) (count : ℕ)
      → ltb_ℤ (pos 1) rep ≡ false
      → length buf ≤ int_max
      → frame rt rep buf count ≡ rt.put_int (pos (length buf)) ++ buf
  unfolding frame
  frame_one rep [] count one fits = rw (one, to_int32_small 0 (omega arith))
  frame_one rep (x ∷ xs) count one fits =
      rw (one, to_int32_small (suc (length xs)) fits, held_pos (length xs))

  prefix_size :
      (many : Bool) (a b c : ℤ) (rest : Bytes)
      → 4 ≤ length ((if many then rt.put_int a ++ rt.put_int b else rt.put_int c) ++ rest)
  prefix_size true a b c rest = omega (
    arith,
    length-append (rt.put_int a ++ rt.put_int b) rest,
    length-append (rt.put_int a) (rt.put_int b),
    rt.length-put_int a,
  )
  prefix_size false a b c rest =
      omega (arith, length-append (rt.put_int c) rest, rt.length-put_int c)

  pub frame_size : (rep : ℤ) (buf : Bytes) (count : ℕ) → 4 ≤ length (frame rt rep buf count)
  unfolding frame
  frame_size rep buf count = prefix_size (ltb_ℤ (pos 1) rep) _ _ _ _

  pub frame_most :
      (rep : ℤ) (buf : Bytes) (count : ℕ)
      → length buf + 4 ≤ int_max
      → length (frame rt rep buf count) ≤ 8 + length buf
  frame_most rep buf count fits = elim (Bool-cases (ltb_ℤ (pos 1) rep)) [
    | inl many ↦ rw (frame_many rep buf count many fits) (
        omega (
          arith,
          length-append (rt.put_int (pos (length buf + 4))) (rt.put_int (pos count) ++ buf),
          length-append (rt.put_int (pos count)) buf,
          rt.length-put_int (pos (length buf + 4)),
          rt.length-put_int (pos count),
        ))
    | inr single ↦ rw (frame_one rep buf count single (omega arith)) (
        omega (
          arith,
          length-append (rt.put_int (pos (length buf))) buf,
          rt.length-put_int (pos (length buf)),
        ))
  ]
