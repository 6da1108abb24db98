-- ===== src/Particle/Multiplex/Inverse.antt =====
-- The multiplexing power of a particle and the particle of a bit.
use hddm.Prelude.{
  ℕ, ◌≡◌, ◌≢◌, refl, Bool, true, List, ◌==◌, ◌||◌, ◌⊎◌, inl, inr, Bool-cases, ==_iff,
}
use hddm.Prelude.Int.{pos, negsuc, eqb_ℤ, eqb_ℤ→eq}
use hddm.Particle.Codes
use hddm.Particle.Tables.{IsParticle, all, all-one_of, particles, keys, switch-key}
use hddm.Particle.Multiplex.{
  particle_multiplex_power, demultiplex_pid, final_state_bits, decaying_bits, find_bit,
}

recovered : ℕ → Bool
recovered p =
    let bit = particle_multiplex_power p in
    eqb_ℤ bit (negsuc 0) || demultiplex_pid bit 0 == p || demultiplex_pid bit 1 == p

all-recovered : all recovered particles ≡ true
unfolding recovered particle_multiplex_power demultiplex_pid find_bit
all-recovered = refl

fits : List (ℕ × ℕ) → ℕ → Bool
fits bits n = eqb_ℤ (particle_multiplex_power (find_bit bits (pos n))) (pos n)

all-fits_final : all (fits final_state_bits) (keys final_state_bits) ≡ true
unfolding fits particle_multiplex_power find_bit
all-fits_final = refl

all-fits_decaying : all (fits decaying_bits) (keys decaying_bits) ≡ true
unfolding fits particle_multiplex_power find_bit
all-fits_decaying = refl

find_bit-fits :
    (bits : List (ℕ × ℕ)) (n : ℕ)
    → all (fits bits) (keys bits) ≡ true
    → find_bit bits (pos n) ≢ Codes.unknown_particle
    → particle_multiplex_power (find_bit bits (pos n)) ≡ pos n
unfolding fits find_bit
find_bit-fits bits n h known = elim (switch-key bits Codes.unknown_particle n) [
  | inl is_key ↦
      eqb_ℤ→eq (particle_multiplex_power (find_bit bits (pos n))) (pos n)
        (all-one_of (fits bits) (keys bits) n h is_key)
  | inr unknown ↦ absurd (known unknown)
]

recovered-cases :
    (p : ℕ)
    → recovered p ≡ true
    → particle_multiplex_power p ≢ negsuc 0
    → (demultiplex_pid (particle_multiplex_power p) 0 ≡ p)
      ⊎ (demultiplex_pid (particle_multiplex_power p) 1 ≡ p)
unfolding recovered
recovered-cases p h some_power =
    let bit = particle_multiplex_power p in
    elim (Bool-cases (eqb_ℤ bit (negsuc 0))) [
      | inl no_power ↦ absurd (some_power (eqb_ℤ→eq bit (negsuc 0) no_power))
      | inr power ↦ elim (Bool-cases (demultiplex_pid bit 0 == p)) [
        | inl final ↦ inl ((==_iff (demultiplex_pid bit 0) p).0 final)
        | inr decaying ↦
            let e : (demultiplex_pid bit 1 == p) ≡ true = rw (power, decaying) at h in
            inr ((==_iff (demultiplex_pid bit 1) p).0 e)
      ]
    ]

demultiplex_pid-fits :
    (bit flag : ℕ)
    → demultiplex_pid (pos bit) flag ≢ Codes.unknown_particle
    → particle_multiplex_power (demultiplex_pid (pos bit) flag) ≡ pos bit
unfolding demultiplex_pid
demultiplex_pid-fits bit flag known = elim (Bool-cases (flag == 0)) [
  | inl final ↦
      rw final
        (find_bit-fits final_state_bits bit all-fits_final (let k' = rw final at known in k'))
  | inr decaying ↦
      rw decaying
        (find_bit-fits decaying_bits bit all-fits_decaying (let k' = rw decaying at known in k'))
]

-- A particle with a multiplexing power other than -1 comes back from it as a final-state or as a
-- decaying particle; and the power of what DemultiplexPID gives for a bit, other than the unknown
-- particle, is that bit.
pub demultiplex_pid-particle_multiplex_power :
    (p bit flag : ℕ)
    → IsParticle p
    → (particle_multiplex_power p ≢ negsuc 0
        → (demultiplex_pid (particle_multiplex_power p) 0 ≡ p)
          ⊎ (demultiplex_pid (particle_multiplex_power p) 1 ≡ p))
      × (demultiplex_pid (pos bit) flag ≢ Codes.unknown_particle
          → particle_multiplex_power (demultiplex_pid (pos bit) flag) ≡ pos bit)
demultiplex_pid-particle_multiplex_power p bit flag in_p = (
  recovered-cases p (all-one_of recovered particles p all-recovered in_p),
  demultiplex_pid-fits bit flag,
)
