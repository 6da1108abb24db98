-- ===== src/RoundTrip/Value.antt =====
-- One attribute: `outputStream` writes it and `constructXML` reads it, whatever its type.
use hddm.Prelude.{
  ℕ, ◌+◌, ◌≤◌, ◌≡◌, refl, subst, Bool, true, false, [], ◌++◌, Option, none, some, length, arith,
  if◌then◌else◌,
}
use hddm.Prelude.Text.{Text, Bytes}
use hddm.Prelude.Int.{ℤ, pos, ◌+ℤ◌, sub_pos, to_int32_small, int_max, IsInt32}
use hddm.Outcome.{ok, ◌>>=◌}
use hddm.Scalar.{extract_int32, extract_int64, extract-IsInt32, extract-IsInt64, show_int}
use hddm.Dom.{
  AttrType, int, long, float, double, boolean, particle, string, uri, constant, is_occurs,
}
use hddm.Particle.{particle_code, particle_code_bound}
use hddm.Runtime.{Runtime, padding}
use hddm.XmlHddm.{initialised, read_real, output_value}
use hddm.HddmXml.{write, quoted, show_particle, string_size, scalar, read_string, read_value}
use hddm.HddmXml.Steps.{Advances, Advances-write, Advances-id}
use hddm.Render.{shown, render_value}

particle-IsInt32 : (s : Text) (v : ℤ) → some (pos (particle_code s)) ≡ some v → IsInt32 v
particle-IsInt32 s v h =
    let e : pos (particle_code s) ≡ v = cc in
    subst IsInt32 e (record { above = omega arith; below = omega (arith, particle_code_bound s) })

string_size_small :
    (s : Text) → length s ≤ int_max → string_size s ≡ pos (4 + length s + padding (length s))
unfolding string_size ◌+ℤ◌
string_size_small s h = rw (to_int32_small (length s) h) (ground arith)

module _ (rt : Runtime) where
  -- A value of fixed size.
  scalar-Advances :
      {A : Type 0} (get : Bytes → A × Bytes) (k : ℕ) (show : A → Text) (name : Text) (v : A)
      (bytes : Bytes)
      → ((rest : Bytes) → get (bytes ++ rest) ≡ (v, rest))
      → length bytes ≡ k
      → Advances (scalar rt get k show name) bytes (quoted name (show v))
  unfolding scalar
  scalar-Advances get k show name v bytes law len = record {
    run = λ out n rest. rw (law rest, len, sub_pos k n);
  }

  string-Advances :
      (name s : Text)
      → length (rt.put_string s) ≤ int_max
      → Advances (read_string rt name) (rt.put_string s) (quoted name s)
  unfolding read_string
  string-Advances name s fits = record {
    run = λ out n rest.
        let len = rt.length-put_string s in
        rw (
          rt.get-put_string s rest (omega (arith, len)),
          string_size_small s (omega (arith, len)),
          len,
          sub_pos (4 + length s + padding (length s)) n,
        );
  }

  stored-Advances :
      {A : Type 0} (o : Option A) (put : A → Bytes) (get : Bytes → A × Bytes) (k : ℕ)
      (show : A → Text) (name : Text) (b : Bytes)
      → (initialised o >>= λ v. ok (put v)) ≡ ok b
      → ((v : A) (rest : Bytes) → o ≡ some v → get (put v ++ rest) ≡ (v, rest))
      → ((v : A) → length (put v) ≡ k)
      → Advances (scalar rt get k show name) b (quoted name (shown show o))
  stored-Advances none put get k show name b h law len = cc
  stored-Advances (some v) put get k show name b h law len =
      let e : put v ≡ b = cc in
      subst (λ c. Advances (scalar rt get k show name) c (quoted name (show v))) e
        (scalar-Advances get k show name v (put v) (λ rest. law v rest refl) (len v))

  int-Advances :
      (s : Text) (name : Text) (b : Bytes)
      → (initialised (extract_int32 s) >>= λ v. ok (rt.put_int v)) ≡ ok b
      → Advances
          (scalar rt rt.get_int 4 show_int name)
          b
          (quoted name (shown show_int (extract_int32 s)))
  int-Advances s name b h =
      stored-Advances (extract_int32 s) rt.put_int rt.get_int 4 show_int name b h
        (λ v rest e. rt.get-put_int v rest (extract-IsInt32 s v e)) rt.length-put_int

  constant-Advances :
      (name type : Text) (skip : Bool)
      → Advances
          (λ p. if skip then p else write (quoted name type) p)
          []
          (if skip then [] else quoted name type)
  constant-Advances name type true = Advances-id
  constant-Advances name type false = Advances-write (quoted name type)

  -- What is written for a value is read back as it is rendered.
  pub output_value-Advances :
      (t : AttrType) (name type s : Text) (b : Bytes)
      → output_value rt t s ≡ ok b
      → length b ≤ int_max
      → Advances (read_value rt t name type) b (render_value rt t name type s)
  unfolding output_value read_value render_value
  output_value-Advances int name type s b h fits = int-Advances s name b h
  output_value-Advances boolean name type s b h fits = int-Advances s name b h
  output_value-Advances long name type s b h fits =
      stored-Advances (extract_int64 s) rt.put_long rt.get_long 8 show_int name b h
        (λ v rest e. rt.get-put_long v rest (extract-IsInt64 s v e)) rt.length-put_long
  output_value-Advances float name type s b h fits =
      stored-Advances (read_real rt.float s) rt.put_float rt.get_float 4 rt.float.insert name b h
        (λ v rest e. rt.get-put_float v rest) rt.length-put_float
  output_value-Advances double name type s b h fits =
      stored-Advances (read_real rt.double s) rt.put_double rt.get_double 8 rt.double.insert name b
        h (λ v rest e. rt.get-put_double v rest) rt.length-put_double
  output_value-Advances particle name type s b h fits =
      stored-Advances (some (pos (particle_code s))) rt.put_int rt.get_int 4 show_particle name b h
        (λ v rest e. rt.get-put_int v rest (particle-IsInt32 s v e)) rt.length-put_int
  output_value-Advances string name type s b h fits =
      let e : rt.put_string s ≡ b = cc in
      subst (λ c. Advances (read_string rt name) c (quoted name s)) e
        (string-Advances name s (rw e fits))
  output_value-Advances uri name type s b h fits =
      let e : rt.put_string s ≡ b = cc in
      subst (λ c. Advances (read_string rt name) c (quoted name s)) e
        (string-Advances name s (rw e fits))
  output_value-Advances constant name type s b h fits =
      let e : [] ≡ b = cc in
      subst
        (λ c. Advances (read_value rt constant name type) c (render_value rt constant name type s))
        e (constant-Advances name type (is_occurs name))
