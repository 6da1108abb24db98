-- ===== src/Particle/Classes.antt =====
-- IsLepton, IsFixedMass, IsResonance, IsDetachedVertex and Is_FinalStateParticle of src/particleType.h.
use hddm.Prelude.{ℕ, Bool, true, false, List, [], ◌∷◌, ◌==◌, ◌||◌, if◌then◌else◌}
use hddm.Particle.Tables.{one_of, remap_particle_id}
use hddm.Particle.Codes
use hddm.Particle.Nuclei

unfoldable pub is_lepton : ℕ → Bool
is_lepton p =
    p == Codes.electron
    || p == Codes.positron
    || p == Codes.muon_plus
    || p == Codes.muon_minus
    || p == Codes.neutrino

-- IsFixedMass: the later cases, and all.
abbrev is_fixed_mass_later : List ℕ
is_fixed_mass_later =
    Nuclei.mg24 ∷ Nuclei.al27 ∷ Nuclei.si28 ∷ Nuclei.p31 ∷ Nuclei.s32 ∷ Nuclei.cl35 ∷ Nuclei.ar36
    ∷ Nuclei.k39 ∷ Nuclei.ca40 ∷ Nuclei.sc45 ∷ Nuclei.ti48 ∷ Nuclei.v51 ∷ Nuclei.cr52 ∷ Nuclei.mn55
    ∷ Nuclei.fe56 ∷ Nuclei.co59 ∷ Nuclei.ni58 ∷ Nuclei.cu63 ∷ Nuclei.zn64 ∷ Nuclei.ge74
    ∷ Nuclei.se80 ∷ Nuclei.kr84 ∷ Nuclei.sr88 ∷ Nuclei.zr90 ∷ Nuclei.mo98 ∷ Nuclei.pd106
    ∷ Nuclei.cd114 ∷ Nuclei.sn120 ∷ Nuclei.xe132 ∷ Nuclei.ba138 ∷ Nuclei.ce140 ∷ Nuclei.sm152
    ∷ Nuclei.dy164 ∷ Nuclei.yb174 ∷ Nuclei.ta181 ∷ Nuclei.w184 ∷ Nuclei.pt194 ∷ Nuclei.au197
    ∷ Nuclei.hg202 ∷ Nuclei.pb208 ∷ Nuclei.u238 ∷ Codes.jpsi ∷ Codes.chi_c1 ∷ Codes.chi_c2
    ∷ Codes.psi2s ∷ Codes.d0 ∷ Codes.anti_d0 ∷ Codes.d_plus ∷ Codes.dstar0 ∷ Codes.dstar_plus
    ∷ Codes.lambda_c ∷ []

abbrev is_fixed_mass_cases : List ℕ
is_fixed_mass_cases =
    Codes.gamma ∷ Codes.positron ∷ Codes.electron ∷ Codes.neutrino ∷ Codes.muon_plus
    ∷ Codes.muon_minus ∷ Codes.pi0 ∷ Codes.pi_plus ∷ Codes.pi_minus ∷ Codes.k_short ∷ Codes.k_long
    ∷ Codes.k_plus ∷ Codes.k_minus ∷ Codes.neutron ∷ Codes.proton ∷ Codes.anti_proton ∷ Codes.eta
    ∷ Codes.lambda ∷ Codes.sigma_plus ∷ Codes.sigma0 ∷ Codes.sigma_minus ∷ Codes.xi0
    ∷ Codes.xi_minus ∷ Codes.omega_minus ∷ Codes.anti_neutron ∷ Codes.anti_lambda
    ∷ Codes.anti_sigma_minus ∷ Codes.anti_sigma0 ∷ Codes.anti_sigma_plus ∷ Codes.anti_xi0
    ∷ Codes.anti_xi_plus ∷ Codes.anti_omega_plus ∷ Codes.geantino ∷ Codes.eta_prime ∷ Codes.deuteron
    ∷ Codes.triton ∷ Codes.helium ∷ Codes.he3 ∷ Codes.li6 ∷ Codes.li7 ∷ Codes.be7 ∷ Nuclei.be9
    ∷ Nuclei.b10 ∷ Nuclei.b11 ∷ Nuclei.c12 ∷ Nuclei.n14 ∷ Nuclei.o16 ∷ Nuclei.f19 ∷ Nuclei.ne20
    ∷ Nuclei.na23 ∷ is_fixed_mass_later

unfoldable pub is_fixed_mass : ℕ → Bool
is_fixed_mass p = one_of is_fixed_mass_cases p

-- IsDetachedVertex: the later cases, and all.
abbrev is_detached_vertex_later : List ℕ
is_detached_vertex_later =
    Codes.xi_minus ∷ Codes.omega_minus ∷ Codes.anti_neutron ∷ Codes.anti_lambda
    ∷ Codes.anti_sigma_minus ∷ Codes.anti_sigma_plus ∷ Codes.anti_xi0 ∷ Codes.anti_xi_plus
    ∷ Codes.anti_omega_plus ∷ Codes.deuteron ∷ Codes.triton ∷ Codes.helium ∷ Codes.he3 ∷ []

abbrev is_detached_vertex_cases : List ℕ
is_detached_vertex_cases =
    Codes.muon_plus ∷ Codes.muon_minus ∷ Codes.pi_plus ∷ Codes.pi_minus ∷ Codes.k_short
    ∷ Codes.k_long ∷ Codes.k_plus ∷ Codes.k_minus ∷ Codes.neutron ∷ Codes.lambda ∷ Codes.sigma_plus
    ∷ Codes.sigma_minus ∷ Codes.xi0 ∷ is_detached_vertex_later

unfoldable pub is_detached_vertex : ℕ → Bool
is_detached_vertex p = one_of is_detached_vertex_cases p

-- Is_FinalStateParticle: the later cases, and all.
abbrev is_final_state_particle_later : List ℕ
is_final_state_particle_later =
    Nuclei.cl35 ∷ Nuclei.ar36 ∷ Nuclei.k39 ∷ Nuclei.ca40 ∷ Nuclei.sc45 ∷ Nuclei.ti48 ∷ Nuclei.v51
    ∷ Nuclei.cr52 ∷ Nuclei.mn55 ∷ Nuclei.fe56 ∷ Nuclei.co59 ∷ Nuclei.ni58 ∷ Nuclei.cu63
    ∷ Nuclei.zn64 ∷ Nuclei.ge74 ∷ Nuclei.se80 ∷ Nuclei.kr84 ∷ Nuclei.sr88 ∷ Nuclei.zr90
    ∷ Nuclei.mo98 ∷ Nuclei.pd106 ∷ Nuclei.cd114 ∷ Nuclei.sn120 ∷ Nuclei.xe132 ∷ Nuclei.ba138
    ∷ Nuclei.ce140 ∷ Nuclei.sm152 ∷ Nuclei.dy164 ∷ Nuclei.yb174 ∷ Nuclei.ta181 ∷ Nuclei.w184
    ∷ Nuclei.pt194 ∷ Nuclei.au197 ∷ Nuclei.hg202 ∷ Nuclei.pb208 ∷ Nuclei.u238 ∷ []

abbrev is_final_state_particle_cases : List ℕ
is_final_state_particle_cases =
    Codes.gamma ∷ Codes.positron ∷ Codes.electron ∷ Codes.neutrino ∷ Codes.muon_plus
    ∷ Codes.muon_minus ∷ Codes.pi_plus ∷ Codes.pi_minus ∷ Codes.k_long ∷ Codes.k_plus
    ∷ Codes.k_minus ∷ Codes.neutron ∷ Codes.proton ∷ Codes.anti_proton ∷ Codes.anti_neutron
    ∷ Codes.deuteron ∷ Codes.triton ∷ Codes.helium ∷ Codes.he3 ∷ Codes.li6 ∷ Codes.li7 ∷ Codes.be7
    ∷ Nuclei.be9 ∷ Nuclei.b10 ∷ Nuclei.b11 ∷ Nuclei.c12 ∷ Nuclei.n14 ∷ Nuclei.o16 ∷ Nuclei.f19
    ∷ Nuclei.ne20 ∷ Nuclei.na23 ∷ Nuclei.mg24 ∷ Nuclei.al27 ∷ Nuclei.si28 ∷ Nuclei.p31 ∷ Nuclei.s32
    ∷ is_final_state_particle_later

unfoldable pub is_final_state_particle : ℕ → Bool
is_final_state_particle p = one_of is_final_state_particle_cases p

unfoldable pub is_resonance : ℕ → Bool
is_resonance p =
    let q = remap_particle_id p in
    if is_fixed_mass q
    then false
    else if q == Codes.unknown_particle
    then false
    else if q == Codes.phi_meson
    then false
    else if q == Codes.omega_meson
    then false
    else true
