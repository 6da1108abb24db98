-- ===== src/Particle/Tables.antt =====
-- Particle_t of src/particleType.h as a list, and the switch statements over it as tables.
use hddm.Prelude.{
  ℕ, ◌≡◌, refl, ap, sym, ◌∙◌, Bool, true, false, List, [], ◌∷◌, arith, ◌==◌, ◌&&◌, if◌then◌else◌,
  Bool-cases, ◌⊎◌, inl, inr,
}
use hddm.Particle.Codes
use hddm.Particle.Nuclei

-- switch (p) with a return for each case, and one for the default.
abbrev pub switch {ℓ} : {A : Type ℓ} → List (ℕ × A) → A → ℕ → A
switch [] default p = default
switch ((n, value) ∷ cases) default p =
    let rest = switch cases default p in if n == p then value else rest

-- switch (p) that returns 1 for some cases, and 0 for the default.
abbrev pub one_of : List ℕ → ℕ → Bool
one_of [] p = false
one_of (n ∷ cases) p = let rest = one_of cases p in if n == p then true else rest

-- RemapParticleID
abbrev pub remap_particle_id : ℕ → ℕ
remap_particle_id p = p

abbrev pub all : (ℕ → Bool) → List ℕ → Bool
all f [] = true
all f (p ∷ ps) = f p && all f ps

pub both : (a b : Bool) → (a && b) ≡ true → (a ≡ true) × (b ≡ true)
both true b h = (refl, h)
both false b h = cc

-- A test that all of a list pass is passed by each of it.
pub all-one_of :
    (f : ℕ → Bool) (ps : List ℕ) (p : ℕ) → all f ps ≡ true → one_of ps p ≡ true → f p ≡ true
all-one_of f [] p h e = cc
all-one_of f (q ∷ ps) p h e =
    let (here, rest) = both (f q) (all f ps) h in
    elim (Bool-cases (q == p)) [
      | inl same ↦ let e' : q ≡ p = ground arith in ap f (sym e') ∙ here
      | inr other ↦ let e' = rw other at e in all-one_of f ps p rest e'
    ]

abbrev pub keys {ℓ} : {A : Type ℓ} → List (ℕ × A) → List ℕ
keys [] = []
keys ((n, value) ∷ cases) = n ∷ keys cases

-- What is no case's label is left to the default.
pub switch-key {ℓ} :
    {A : Type ℓ} (cases : List (ℕ × A)) (default : A) (p : ℕ)
    → (one_of (keys cases) p ≡ true) ⊎ (switch cases default p ≡ default)
switch-key [] default p = inr refl
switch-key ((n, value) ∷ cases) default p =
    let rest = switch-key cases default p in
    elim (Bool-cases (n == p)) [ inl same ↦ inl (rw same refl) | inr other ↦ rw other rest ]

-- The enumerators of Particle_t.
abbrev nuclei : List ℕ
nuclei =
    Nuclei.be9 ∷ Nuclei.b10 ∷ Nuclei.b11 ∷ Nuclei.c12 ∷ Nuclei.n14 ∷ Nuclei.o16 ∷ Nuclei.f19
    ∷ Nuclei.ne20 ∷ Nuclei.na23 ∷ Nuclei.mg24 ∷ Nuclei.al27 ∷ Nuclei.si28 ∷ Nuclei.p31 ∷ Nuclei.s32
    ∷ Nuclei.cl35 ∷ Nuclei.ar36 ∷ Nuclei.k39 ∷ Nuclei.ca40 ∷ Nuclei.sc45 ∷ Nuclei.ti48 ∷ Nuclei.v51
    ∷ Nuclei.cr52 ∷ Nuclei.mn55 ∷ Nuclei.fe56 ∷ Nuclei.co59 ∷ Nuclei.ni58 ∷ Nuclei.cu63
    ∷ Nuclei.zn64 ∷ Nuclei.ge74 ∷ Nuclei.se80 ∷ Nuclei.kr84 ∷ Nuclei.sr88 ∷ Nuclei.zr90
    ∷ Nuclei.mo98 ∷ Nuclei.pd106 ∷ Nuclei.cd114 ∷ Nuclei.sn120 ∷ Nuclei.xe132 ∷ Nuclei.ba138
    ∷ Nuclei.ce140 ∷ Nuclei.sm152 ∷ Nuclei.dy164 ∷ Nuclei.yb174 ∷ Nuclei.w184 ∷ Nuclei.pt194
    ∷ Nuclei.au197 ∷ Nuclei.hg202 ∷ Nuclei.pb208 ∷ Nuclei.u238 ∷ Nuclei.ta181 ∷ []

abbrev pub particles : List ℕ
particles =
    Codes.unknown_particle ∷ Codes.gamma ∷ Codes.positron ∷ Codes.electron ∷ Codes.neutrino
    ∷ Codes.muon_plus ∷ Codes.muon_minus ∷ Codes.pi0 ∷ Codes.pi_plus ∷ Codes.pi_minus ∷ Codes.k_long
    ∷ Codes.k_plus ∷ Codes.k_minus ∷ Codes.neutron ∷ Codes.proton ∷ Codes.anti_proton
    ∷ Codes.k_short ∷ Codes.eta ∷ Codes.lambda ∷ Codes.sigma_plus ∷ Codes.sigma0 ∷ Codes.sigma_minus
    ∷ Codes.xi0 ∷ Codes.xi_minus ∷ Codes.omega_minus ∷ Codes.anti_neutron ∷ Codes.anti_lambda
    ∷ Codes.anti_sigma_minus ∷ Codes.anti_sigma0 ∷ Codes.anti_sigma_plus ∷ Codes.anti_xi0
    ∷ Codes.anti_xi_plus ∷ Codes.anti_omega_plus ∷ Codes.deuteron ∷ Codes.triton ∷ Codes.helium
    ∷ Codes.geantino ∷ Codes.he3 ∷ Codes.li6 ∷ Codes.li7 ∷ Codes.be7 ∷ Codes.rho0 ∷ Codes.rho_plus
    ∷ Codes.rho_minus ∷ Codes.omega_meson ∷ Codes.phi_meson ∷ Codes.eta_prime ∷ Codes.a0_980
    ∷ Codes.f0_980 ∷ Codes.k_star_892_0 ∷ Codes.k_star_892_plus ∷ Codes.k_star_892_minus
    ∷ Codes.anti_k_star_892_0 ∷ Codes.k1_1400_plus ∷ Codes.k1_1400_minus ∷ Codes.b1_1235_plus
    ∷ Codes.sigma_1385_minus ∷ Codes.sigma_1385_0 ∷ Codes.sigma_1385_plus ∷ Codes.jpsi ∷ Codes.eta_c
    ∷ Codes.chi_c0 ∷ Codes.chi_c1 ∷ Codes.chi_c2 ∷ Codes.psi2s ∷ Codes.d0 ∷ Codes.d_plus
    ∷ Codes.dstar0 ∷ Codes.dstar_plus ∷ Codes.lambda_c ∷ Codes.anti_d0 ∷ Codes.delta_plus_plus
    ∷ nuclei

abbrev pub IsParticle : ℕ → Type 0
IsParticle p = one_of particles p ≡ true
