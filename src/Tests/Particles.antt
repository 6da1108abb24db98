-- ===== src/Tests/Particles.antt =====
-- The theorems about the tables of particles, at some particles.
use hddm.Prelude.{arith, ℕ, ◌≡◌, ◌≢◌, ◌==◌, refl, false, ◌⊎◌}
use hddm.Prelude.Int.{pos, negsuc, ◌-ℤ◌}
use hddm.Prelude.Text.{codes}
use hddm.Particle.{particle_type}
use hddm.Particle.Codes
use hddm.Particle.Pdg.{pdg_type, pdg_to_ptype}
use hddm.Particle.Pdg.Inverse.{pdg_to_ptype-pdg_type}
use hddm.Particle.Charge.{particle_charge}
use hddm.Particle.Charge.Conjugate.{particle_charge-opposite}
use hddm.Particle.Multiplex.{particle_multiplex_power, demultiplex_pid}
use hddm.Particle.Multiplex.Inverse.{demultiplex_pid-particle_multiplex_power}
use hddm.Particle.EnumNames.{particle_enum}
use hddm.Particle.EnumString.{enum_string}
use hddm.Particle.EvtGen.{evt_gen_string}
use hddm.Particle.ShortName.{short_name}
use hddm.Particle.RootName.{particle_name_root}
use hddm.Particle.Abbreviation.{get_short_name}
use hddm.Particle.EnumNames.Inverse.{particle_enum-particle_type, names-distinct}

apart : (a b : ℕ) → (a == b) ≡ false → a ≢ b
apart a b h same = ground arith

pdg_to_ptype-pdg_type_example : pdg_to_ptype (pdg_type Codes.proton) ≡ Codes.proton
pdg_to_ptype-pdg_type_example =
    pdg_to_ptype-pdg_type Codes.proton refl (apart Codes.proton Codes.geantino refl)

particle_charge-opposite_example :
    particle_charge Codes.anti_proton ≡ pos 0 -ℤ particle_charge Codes.proton
particle_charge-opposite_example =
    particle_charge-opposite Codes.proton Codes.anti_proton refl refl
      (apart Codes.anti_proton Codes.unknown_particle refl)
      (apart Codes.anti_proton Codes.geantino refl) (unfold pdg_type ◌-ℤ◌ in refl)

particle_enum-particle_type_example :
    particle_enum (particle_type (pos Codes.k_long)) ≡ Codes.k_long
particle_enum-particle_type_example = particle_enum-particle_type Codes.k_long refl

names-distinct_example :
    (enum_string Codes.pi_plus ≡ enum_string Codes.rho0 → Codes.pi_plus ≡ Codes.rho0)
    × (evt_gen_string Codes.pi_plus ≡ evt_gen_string Codes.rho0 → Codes.pi_plus ≡ Codes.rho0)
    × (short_name Codes.pi_plus ≡ short_name Codes.rho0 → Codes.pi_plus ≡ Codes.rho0)
    × (particle_name_root Codes.pi_plus ≡ particle_name_root Codes.rho0
        → Codes.pi_plus ≡ Codes.rho0)
    × (get_short_name Codes.pi_plus ≢ codes "UnknownParticle"
        → get_short_name Codes.pi_plus ≡ get_short_name Codes.rho0
        → Codes.pi_plus ≡ Codes.rho0)
names-distinct_example = names-distinct Codes.pi_plus Codes.rho0 refl refl

demultiplex_pid-particle_multiplex_power_example :
    (particle_multiplex_power Codes.deuteron ≢ negsuc 0
      → (demultiplex_pid (particle_multiplex_power Codes.deuteron) 0 ≡ Codes.deuteron)
        ⊎ (demultiplex_pid (particle_multiplex_power Codes.deuteron) 1 ≡ Codes.deuteron))
    × (demultiplex_pid (pos 13) 0 ≢ Codes.unknown_particle
        → particle_multiplex_power (demultiplex_pid (pos 13) 0) ≡ pos 13)
demultiplex_pid-particle_multiplex_power_example =
    demultiplex_pid-particle_multiplex_power Codes.deuteron 13 0 refl
