-- ===== src/Particle/Charge.antt =====
-- ParticleCharge and Is_CorrectCharge of src/particleType.h.
pub mod Conjugate
use hddm.Prelude.{ℕ, Bool, true, false, List, [], ◌∷◌, not, ◌==◌, if◌then◌else◌}
use hddm.Prelude.Int.{ℤ, pos, negsuc, eqb_ℤ, ltb_ℤ}
use hddm.Particle.Tables.{switch, remap_particle_id}
use hddm.Particle.Codes
use hddm.Particle.Nuclei

-- ParticleCharge: the later cases, and all.
abbrev particle_charge_later : List (ℕ × ℤ)
particle_charge_later =
    (Nuclei.o16, pos 8)
    ∷ (Nuclei.f19, pos 9)
    ∷ (Nuclei.ne20, pos 10)
    ∷ (Nuclei.na23, pos 11)
    ∷ (Nuclei.mg24, pos 12)
    ∷ (Nuclei.al27, pos 13)
    ∷ (Nuclei.si28, pos 14)
    ∷ (Nuclei.p31, pos 15)
    ∷ (Nuclei.s32, pos 16)
    ∷ (Nuclei.cl35, pos 17)
    ∷ (Nuclei.ar36, pos 18)
    ∷ (Nuclei.k39, pos 19)
    ∷ (Nuclei.ca40, pos 20)
    ∷ (Nuclei.sc45, pos 21)
    ∷ (Nuclei.ti48, pos 22)
    ∷ (Nuclei.v51, pos 23)
    ∷ (Nuclei.cr52, pos 24)
    ∷ (Nuclei.mn55, pos 25)
    ∷ (Nuclei.fe56, pos 26)
    ∷ (Nuclei.co59, pos 27)
    ∷ (Nuclei.ni58, pos 28)
    ∷ (Nuclei.cu63, pos 29)
    ∷ (Nuclei.zn64, pos 30)
    ∷ (Nuclei.ge74, pos 32)
    ∷ (Nuclei.se80, pos 34)
    ∷ (Nuclei.kr84, pos 36)
    ∷ (Nuclei.sr88, pos 38)
    ∷ (Nuclei.zr90, pos 40)
    ∷ (Nuclei.mo98, pos 42)
    ∷ (Nuclei.pd106, pos 46)
    ∷ (Nuclei.cd114, pos 48)
    ∷ (Nuclei.sn120, pos 50)
    ∷ (Nuclei.xe132, pos 54)
    ∷ (Nuclei.ba138, pos 56)
    ∷ (Nuclei.ce140, pos 58)
    ∷ (Nuclei.sm152, pos 62)
    ∷ (Nuclei.dy164, pos 66)
    ∷ (Nuclei.yb174, pos 70)
    ∷ (Nuclei.ta181, pos 73)
    ∷ (Nuclei.w184, pos 74)
    ∷ (Nuclei.pt194, pos 78)
    ∷ (Nuclei.au197, pos 79)
    ∷ (Nuclei.hg202, pos 80)
    ∷ (Nuclei.pb208, pos 82)
    ∷ (Nuclei.u238, pos 92)
    ∷ (Codes.sigma_1385_minus, negsuc 0)
    ∷ (Codes.sigma_1385_0, pos 0)
    ∷ (Codes.sigma_1385_plus, pos 1)
    ∷ (Codes.delta_plus_plus, pos 2)
    ∷ (Codes.jpsi, pos 0)
    ∷ (Codes.eta_c, pos 0)
    ∷ (Codes.chi_c0, pos 0)
    ∷ (Codes.chi_c1, pos 0)
    ∷ (Codes.chi_c2, pos 0)
    ∷ (Codes.psi2s, pos 0)
    ∷ (Codes.d0, pos 0)
    ∷ (Codes.anti_d0, pos 0)
    ∷ (Codes.d_plus, pos 1)
    ∷ (Codes.dstar0, pos 0)
    ∷ (Codes.dstar_plus, pos 1)
    ∷ (Codes.lambda_c, pos 1)
    ∷ []

abbrev particle_charge_cases : List (ℕ × ℤ)
particle_charge_cases =
    (Codes.unknown_particle, pos 0)
    ∷ (Codes.gamma, pos 0)
    ∷ (Codes.positron, pos 1)
    ∷ (Codes.electron, negsuc 0)
    ∷ (Codes.neutrino, pos 0)
    ∷ (Codes.muon_plus, pos 1)
    ∷ (Codes.muon_minus, negsuc 0)
    ∷ (Codes.pi0, pos 0)
    ∷ (Codes.pi_plus, pos 1)
    ∷ (Codes.pi_minus, negsuc 0)
    ∷ (Codes.k_short, pos 0)
    ∷ (Codes.k_long, pos 0)
    ∷ (Codes.k_plus, pos 1)
    ∷ (Codes.k_minus, negsuc 0)
    ∷ (Codes.neutron, pos 0)
    ∷ (Codes.proton, pos 1)
    ∷ (Codes.anti_proton, negsuc 0)
    ∷ (Codes.eta, pos 0)
    ∷ (Codes.lambda, pos 0)
    ∷ (Codes.sigma_plus, pos 1)
    ∷ (Codes.sigma0, pos 0)
    ∷ (Codes.sigma_minus, negsuc 0)
    ∷ (Codes.xi0, pos 0)
    ∷ (Codes.xi_minus, negsuc 0)
    ∷ (Codes.omega_minus, negsuc 0)
    ∷ (Codes.anti_neutron, pos 0)
    ∷ (Codes.anti_lambda, pos 0)
    ∷ (Codes.anti_sigma_minus, negsuc 0)
    ∷ (Codes.anti_sigma0, pos 0)
    ∷ (Codes.anti_sigma_plus, pos 1)
    ∷ (Codes.anti_xi0, pos 0)
    ∷ (Codes.anti_xi_plus, pos 1)
    ∷ (Codes.anti_omega_plus, pos 1)
    ∷ (Codes.geantino, pos 0)
    ∷ (Codes.rho0, pos 0)
    ∷ (Codes.rho_plus, pos 1)
    ∷ (Codes.rho_minus, negsuc 0)
    ∷ (Codes.omega_meson, pos 0)
    ∷ (Codes.eta_prime, pos 0)
    ∷ (Codes.phi_meson, pos 0)
    ∷ (Codes.a0_980, pos 0)
    ∷ (Codes.f0_980, pos 0)
    ∷ (Codes.k_star_892_0, pos 0)
    ∷ (Codes.k_star_892_plus, pos 1)
    ∷ (Codes.k_star_892_minus, negsuc 0)
    ∷ (Codes.anti_k_star_892_0, pos 0)
    ∷ (Codes.k1_1400_plus, pos 1)
    ∷ (Codes.k1_1400_minus, negsuc 0)
    ∷ (Codes.b1_1235_plus, pos 1)
    ∷ (Codes.deuteron, pos 1)
    ∷ (Codes.triton, pos 1)
    ∷ (Codes.helium, pos 2)
    ∷ (Codes.he3, pos 2)
    ∷ (Codes.li6, pos 3)
    ∷ (Codes.li7, pos 3)
    ∷ (Codes.be7, pos 4)
    ∷ (Nuclei.be9, pos 4)
    ∷ (Nuclei.b10, pos 5)
    ∷ (Nuclei.b11, pos 5)
    ∷ (Nuclei.c12, pos 6)
    ∷ (Nuclei.n14, pos 7)
    ∷ particle_charge_later

unfoldable pub particle_charge : ℕ → ℤ
particle_charge p = switch particle_charge_cases (pos 0) (remap_particle_id p)

pub data Charge : Type 0 where
  d_charged : Charge
  d_positive : Charge
  d_negative : Charge
  d_neutral : Charge
  d_all_charges : Charge

-- Is_CorrectCharge: its switch, and its first lines.
unfoldable pub charge_matches : ℤ → Charge → Bool
charge_matches charge d_neutral = eqb_ℤ charge (pos 0)
charge_matches charge d_positive = ltb_ℤ (pos 0) charge
charge_matches charge d_negative = ltb_ℤ charge (pos 0)
charge_matches charge d_charged = not (eqb_ℤ charge (pos 0))
charge_matches charge d_all_charges = true

abbrev pub is_all_charges : Charge → Bool
is_all_charges d_all_charges = true
is_all_charges d_charged = false
is_all_charges d_positive = false
is_all_charges d_negative = false
is_all_charges d_neutral = false

unfoldable pub is_correct_charge : ℕ → Charge → Bool
is_correct_charge p charge =
    if p == Codes.unknown_particle
    then is_all_charges charge
    else charge_matches (particle_charge p) charge
