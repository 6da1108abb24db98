-- ===== src/Particle/Lookup.antt =====
-- The two searches for a particle by its name: in src/xml-hddm.cpp and in src/hddm-cpp.cpp.
use hddm.Prelude.{ℕ, zero, suc, ◌+◌, ◌<◌, ◌≡◌, sym, subst, true, arith, inl, inr, Bool-cases}
use hddm.Prelude.Text.{Text, text_eq, text_eq→eq, text_eq_refl, text_eq_flip}
use hddm.Prelude.Int.{pos}
use hddm.Particle.{particle_type, search_particle, particle_code, lookup_from, lookup_particle}

lookup_from-search_particle :
    (rounds val : ℕ) (name : Text)
    → search_particle rounds val name < rounds + val
    → lookup_from (suc rounds) val name ≡ search_particle rounds val name
unfolding search_particle lookup_from
lookup_from-search_particle zero val name h = absurd (omega (arith, h))
lookup_from-search_particle (suc rounds) val name h =
    elim (Bool-cases (text_eq name (particle_type (pos val)))) [
      | inl same ↦
          let e = text_eq→eq name (particle_type (pos val)) same in
          let back : text_eq (particle_type (pos val)) name ≡ true =
            subst (λ t. text_eq (particle_type (pos val)) t ≡ true) (sym e)
              (text_eq_refl (particle_type (pos val))) in
          rw (same, back)
      | inr other ↦
          let h' = rw other at h in
          rw (other, text_eq_flip name (particle_type (pos val)) other)
            (lookup_from-search_particle rounds (val + 1) name (omega (arith, h')))
    ]

-- Where `xml-hddm` finds a name among the codes below 99, `lookupParticle` of the C++ generator returns
-- the same code.
pub lookup_particle-particle_code :
    (name : Text) → particle_code name < 99 → lookup_particle name ≡ particle_code name
unfolding lookup_particle particle_code
lookup_particle-particle_code name h = lookup_from-search_particle 99 0 name h
