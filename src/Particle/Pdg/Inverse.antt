-- ===== src/Particle/Pdg/Inverse.antt =====
-- The two tables of PDG codes: one undoes the other.
use hddm.Prelude.{ℕ, ◌≡◌, ◌≢◌, refl, Bool, true, ◌==◌, ◌||◌, Bool-cases, ==_iff, inl, inr}
use hddm.Particle.Codes
use hddm.Particle.Tables.{IsParticle, all, all-one_of, particles}
use hddm.Particle.Pdg.{pdg_type, pdg_to_ptype}

-- Only the geantino, a code without a particle, does not come back.
comes_back : ℕ → Bool
comes_back p = p == Codes.geantino || pdg_to_ptype (pdg_type p) == p

all-comes_back : all comes_back particles ≡ true
unfolding comes_back pdg_type pdg_to_ptype hddm.Particle.Pdg.find_pdg
all-comes_back = refl

-- PDGtoPType gives every particle but the geantino back from the code that PDGtype gives it.
pub pdg_to_ptype-pdg_type :
    (p : ℕ) → IsParticle p → p ≢ Codes.geantino → pdg_to_ptype (pdg_type p) ≡ p
unfolding comes_back
pdg_to_ptype-pdg_type p h other =
    let passed : (p == Codes.geantino || pdg_to_ptype (pdg_type p) == p) ≡ true =
      all-one_of comes_back particles p all-comes_back h in
    elim (Bool-cases (p == Codes.geantino)) [
      | inl same ↦ absurd (other ((==_iff p Codes.geantino).0 same))
      | inr different ↦ let e = rw different at passed in (==_iff (pdg_to_ptype (pdg_type p)) p).0 e
    ]
