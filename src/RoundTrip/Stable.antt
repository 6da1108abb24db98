-- ===== src/RoundTrip/Stable.antt =====
-- A value that went through the binary form and back, src/xml-hddm.cpp and src/hddm-xml.cpp, once more.
use hddm.Prelude.{
  ℕ, ◌+◌, ◌≤◌, ◌≡◌, refl, ap, ◌∙◌, Bool, true, false, ◌++◌, Option, none, some, length,
}
use hddm.Prelude.Text.{Text, Bytes}
use hddm.Prelude.Int.{ℤ, int_max}
use hddm.Outcome.{ok, ◌>>=◌}
use hddm.Scalar.{extract_int32, extract_int64, show_int, extract-IsInt32, extract-IsInt64}
use hddm.Scalar.Print.{extract_int32-show_int, extract_int64-show_int}
use hddm.Dom.{AttrType, int, long, float, double, boolean, particle, string, uri, constant}
use hddm.Runtime.{Runtime}
use hddm.XmlHddm.{initialised, output_value}
use hddm.HddmXml.{quoted, read_value}
use hddm.HddmXml.Steps.{at}
use hddm.Render.{shown, value_text, render_value}
use hddm.RoundTrip.Value.{output_value-Advances}

-- The types whose values print exactly: the integers and the texts.
abbrev pub is_exact : AttrType → Bool
is_exact float = false
is_exact double = false
is_exact particle = false
is_exact constant = false
is_exact _ = true

-- Storing what was printed is storing it once more.
printed_again :
    (read : Text → Option ℤ) (put : ℤ → Bytes)
    → ((s : Text) (v : ℤ) → read s ≡ some v → read (show_int v) ≡ some v)
    → (o : Option ℤ) (s : Text) (b : Bytes) → read s ≡ o
    → (initialised o >>= λ v. ok (put v)) ≡ ok b
    → (initialised (read (shown show_int o)) >>= λ v. ok (put v)) ≡ ok b
printed_again read put back none s b e h = cc
printed_again read put back (some v) s b e h = rw (back s v e) h

module _ (rt : Runtime) where
  output_value-value_text :
      (t : AttrType) (s : Text) (b : Bytes)
      → is_exact t ≡ true
      → output_value rt t s ≡ ok b
      → output_value rt t (value_text rt t s) ≡ ok b
  unfolding output_value value_text
  output_value-value_text int s b x h =
      printed_again extract_int32 rt.put_int
        (λ t v e. extract_int32-show_int v (extract-IsInt32 t v e)) (extract_int32 s) s b refl h
  output_value-value_text long s b x h =
      printed_again extract_int64 rt.put_long
        (λ t v e. extract_int64-show_int v (extract-IsInt64 t v e)) (extract_int64 s) s b refl h
  output_value-value_text boolean s b x h =
      printed_again extract_int32 rt.put_int
        (λ t v e. extract_int32-show_int v (extract-IsInt32 t v e)) (extract_int32 s) s b refl h
  output_value-value_text float s b x h = cc
  output_value-value_text double s b x h = cc
  output_value-value_text particle s b x h = cc
  output_value-value_text string s b x h = h
  output_value-value_text uri s b x h = h
  output_value-value_text constant s b x h = cc

  render_value-exact :
      (t : AttrType) (name type s : Text)
      → is_exact t ≡ true
      → render_value rt t name type s ≡ quoted name (value_text rt t s)
  unfolding render_value
  render_value-exact int name type s x = refl
  render_value-exact long name type s x = refl
  render_value-exact float name type s x = refl
  render_value-exact double name type s x = refl
  render_value-exact boolean name type s x = refl
  render_value-exact particle name type s x = refl
  render_value-exact string name type s x = refl
  render_value-exact uri name type s x = refl
  render_value-exact constant name type s x = cc

  -- What `output_value` stores of an integer, a boolean, a string or a URI, `read_value` takes off the
  -- input to the last byte, whatever stands behind it, and prints as a text for which `output_value`
  -- stores the same bytes again.
  pub read_value-output_value :
      (t : AttrType) (name type s : Text) (b : Bytes) (out : Text) (n : ℕ) (rest : Bytes)
      → is_exact t ≡ true
      → output_value rt t s ≡ ok b
      → length b ≤ int_max
      → (printed : Text) × (read_value rt t name type (at out (length b + n) (b ++ rest))
          ≡ at (out ++ quoted name printed) n rest)
        × (output_value rt t printed ≡ ok b)
  read_value-output_value t name type s b out n rest exact stored fits =
      let step = output_value-Advances rt t name type s b stored fits in
      (
        value_text rt t s,
        step.run out n rest
            ∙ ap (λ printed. at (out ++ printed) n rest) (render_value-exact t name type s exact),
        output_value-value_text t s b exact stored,
      )
