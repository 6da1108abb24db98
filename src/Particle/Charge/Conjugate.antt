-- ===== src/Particle/Charge/Conjugate.antt =====
-- Charges: of antiparticles, and the classes that Is_CorrectCharge asks for.
use hddm.Prelude.{
  ℕ, ◌≡◌, ◌≢◌, refl, ap, sym, ◌∙◌, Bool, true, false, not, ◌==◌, ◌||◌, ◌&&◌, Bool-cases, ==_iff,
  inl, inr, arith,
}
use hddm.Prelude.Int.{ℤ, pos, negsuc, eqb_ℤ, eqb_ℤ→eq, ◌-ℤ◌}
use hddm.Particle.Codes
use hddm.Particle.Tables.{IsParticle, all, all-one_of, particles}
use hddm.Particle.Pdg.{pdg_type, pdg_to_ptype}
use hddm.Particle.Pdg.Inverse.{pdg_to_ptype-pdg_type}
use hddm.Particle.Charge.{
  particle_charge, charge_matches, is_correct_charge, d_charged, d_positive, d_negative, d_neutral,
  d_all_charges,
}

opposite : ℤ → ℤ
opposite v = pos 0 -ℤ v

-- The particle with the opposite PDG code, if there is one, has the opposite charge.
balanced : ℕ → Bool
balanced p =
    let q = pdg_to_ptype (opposite (pdg_type p)) in
    q == Codes.unknown_particle || eqb_ℤ (particle_charge q) (opposite (particle_charge p))

all-balanced : all balanced particles ≡ true
unfolding balanced opposite pdg_type pdg_to_ptype particle_charge hddm.Particle.Pdg.find_pdg ◌-ℤ◌
all-balanced = refl

-- Two particles that PDGtype gives opposite codes have opposite charges, neither being the unknown
-- particle or the geantino, which have the code 0.
pub particle_charge-opposite :
    (p q : ℕ)
    → IsParticle p
    → IsParticle q
    → q ≢ Codes.unknown_particle
    → q ≢ Codes.geantino
    → pdg_type q ≡ pos 0 -ℤ pdg_type p
    → particle_charge q ≡ pos 0 -ℤ particle_charge p
unfolding opposite
particle_charge-opposite p q in_p in_q known not_geantino anti =
    let r : ℕ = pdg_to_ptype (opposite (pdg_type p)) in
    let is_q : r ≡ q = ap pdg_to_ptype (sym anti) ∙ pdg_to_ptype-pdg_type q in_q not_geantino in
    let passed : (r == Codes.unknown_particle
          || eqb_ℤ (particle_charge r) (opposite (particle_charge p)))
        ≡ true =
      unfold balanced in all-one_of balanced particles p all-balanced in_p in
    elim (Bool-cases (r == Codes.unknown_particle)) [
      | inl unknown ↦ absurd (known (sym is_q ∙ (==_iff r Codes.unknown_particle).0 unknown))
      | inr other ↦
          let same = rw other at passed in
          ap particle_charge (sym is_q)
          ∙ eqb_ℤ→eq (particle_charge r) (opposite (particle_charge p)) same
    ]

charge_matches-classes :
    (v : ℤ)
    → (charge_matches v d_charged ≡ (charge_matches v d_positive || charge_matches v d_negative))
      × ((charge_matches v d_positive && charge_matches v d_negative) ≡ false)
      × (charge_matches v d_neutral ≡ not (charge_matches v d_charged))
      × (charge_matches v d_all_charges ≡ true)
unfolding charge_matches
charge_matches-classes (pos n) = ground arith
charge_matches-classes (negsuc n) = ground arith

-- A known particle is charged if it is positive or negative, not both, and neutral otherwise.
pub is_correct_charge-classes :
    (p : ℕ)
    → p ≢ Codes.unknown_particle
    → (is_correct_charge p d_charged
        ≡ (is_correct_charge p d_positive || is_correct_charge p d_negative))
      × ((is_correct_charge p d_positive && is_correct_charge p d_negative) ≡ false)
      × (is_correct_charge p d_neutral ≡ not (is_correct_charge p d_charged))
      × (is_correct_charge p d_all_charges ≡ true)
unfolding is_correct_charge
is_correct_charge-classes p known = elim (Bool-cases (p == Codes.unknown_particle)) [
  | inl unknown ↦ absurd (known ((==_iff p Codes.unknown_particle).0 unknown))
  | inr other ↦ rw other (charge_matches-classes (particle_charge p))
]
