-- ===== src/Tests/Values.antt =====
-- The theorems about values at concrete texts and numbers.
use hddm.Prelude.{ℕ, ◌≡◌, ◌<◌, ◌^◌, ◌-◌, ◌⊎◌, refl, true, false, leb→le, ◌∷◌, [], ◌++◌, ◌+◌}
use hddm.Prelude.Text.{Text, codes, text_eq}
use hddm.Prelude.Int.{int_max, pos, IsInt32}
use hddm.Dom.{int}
use hddm.Scalar.{extract, skip_space, scan_signed, clamp, extract-IsInt32}
use hddm.Scalar.Digits.{scan_digits}
use hddm.Particle.{particle_code, particle_type}
use hddm.Particle.Print.{particle_code-show_particle, particle_code-first}
use hddm.HddmXml.{show_particle}
use hddm.XmlHddm.{output_value}
use hddm.HddmXml.{quoted, read_value}
use hddm.HddmXml.Steps.{at}
use hddm.Outcome.{ok}
use hddm.RoundTrip.Stable.{read_value-output_value}
use hddm.Tests.Codec.{codec}

read_value-output_value_example :
    (printed : Text) × (read_value codec int
        (codes "n")
        (codes "int")
        (at (codes "<a") (4 + 9) ((0 ∷ 0 ∷ 0 ∷ 70 ∷ []) ++ (5 ∷ [])))
      ≡ at (codes "<a" ++ quoted (codes "n") printed) 9 (5 ∷ []))
    × (output_value codec int printed ≡ ok (0 ∷ 0 ∷ 0 ∷ 70 ∷ []))
unfolding output_value extract skip_space scan_signed scan_digits clamp
read_value-output_value_example =
    read_value-output_value codec int (codes "n") (codes "int") (codes " 70 m")
      (0 ∷ 0 ∷ 0 ∷ 70 ∷ []) (codes "<a") 9 (5 ∷ []) refl refl (leb→le 4 int_max refl)

particle_code-first_example :
    ((n : ℕ)
      → n < particle_code (codes "Pi+")
      → text_eq (codes "Pi+") (particle_type (pos n)) ≡ false)
    × ((particle_code (codes "Pi+") ≡ 99)
        ⊎ (text_eq (codes "Pi+") (particle_type (pos (particle_code (codes "Pi+")))) ≡ true))
particle_code-first_example = particle_code-first (codes "Pi+")

particle_code-show_particle_example : particle_code (show_particle (pos 8)) ≡ 99
particle_code-show_particle_example = particle_code-show_particle (pos 8)

extract-IsInt32_example : IsInt32 (pos (2 ^ 31 - 1))
unfolding extract skip_space scan_signed scan_digits clamp
extract-IsInt32_example = extract-IsInt32 (codes "9999999999") (pos (2 ^ 31 - 1)) refl
