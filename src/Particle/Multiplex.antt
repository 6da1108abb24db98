-- ===== src/Particle/Multiplex.antt =====
-- ParticleMultiplexPower and DemultiplexPID of src/particleType.h.
pub mod Inverse
use hddm.Prelude.{ℕ, List, [], ◌∷◌, ◌==◌, if◌then◌else◌}
use hddm.Prelude.Int.{ℤ, pos, negsuc}
use hddm.Particle.Tables.{switch, remap_particle_id}
use hddm.Particle.Codes
use hddm.Particle.Nuclei

abbrev power_cases : List (ℕ × ℤ)
power_cases =
    (Codes.gamma, pos 0)
    ∷ (Codes.positron, pos 1)
    ∷ (Codes.electron, pos 2)
    ∷ (Codes.neutrino, pos 3)
    ∷ (Codes.muon_plus, pos 4)
    ∷ (Codes.muon_minus, pos 5)
    ∷ (Codes.pi0, pos 6)
    ∷ (Codes.pi_plus, pos 7)
    ∷ (Codes.pi_minus, pos 8)
    ∷ (Codes.k_long, pos 9)
    ∷ (Codes.k_plus, pos 10)
    ∷ (Codes.k_minus, pos 11)
    ∷ (Codes.neutron, pos 12)
    ∷ (Codes.proton, pos 13)
    ∷ (Codes.anti_proton, pos 14)
    ∷ (Codes.anti_neutron, pos 15)
    ∷ (Codes.k_short, pos 0)
    ∷ (Codes.eta, pos 1)
    ∷ (Codes.lambda, pos 2)
    ∷ (Codes.sigma_plus, pos 3)
    ∷ (Codes.sigma0, pos 4)
    ∷ (Codes.sigma_minus, pos 5)
    ∷ (Codes.xi0, pos 6)
    ∷ (Codes.xi_minus, pos 7)
    ∷ (Codes.omega_minus, pos 8)
    ∷ (Codes.anti_lambda, pos 9)
    ∷ (Codes.anti_sigma_minus, pos 10)
    ∷ (Codes.anti_sigma0, pos 11)
    ∷ (Codes.anti_sigma_plus, pos 12)
    ∷ (Codes.anti_xi0, pos 13)
    ∷ (Codes.anti_xi_plus, pos 14)
    ∷ (Codes.anti_omega_plus, pos 15)
    ∷ (Codes.deuteron, pos 16)
    ∷ (Codes.rho0, pos 17)
    ∷ (Codes.rho_plus, pos 18)
    ∷ (Codes.rho_minus, pos 19)
    ∷ (Codes.omega_meson, pos 20)
    ∷ (Codes.eta_prime, pos 21)
    ∷ (Codes.phi_meson, pos 22)
    ∷ (Codes.a0_980, pos 23)
    ∷ (Codes.f0_980, pos 24)
    ∷ (Codes.k_star_892_0, pos 25)
    ∷ (Codes.k_star_892_plus, pos 26)
    ∷ (Codes.k_star_892_minus, pos 27)
    ∷ (Codes.anti_k_star_892_0, pos 28)
    ∷ (Codes.k1_1400_plus, pos 29)
    ∷ (Codes.k1_1400_minus, pos 30)
    ∷ (Codes.b1_1235_plus, pos 31)
    ∷ (Codes.sigma_1385_minus, pos 32)
    ∷ (Codes.sigma_1385_0, pos 33)
    ∷ (Codes.sigma_1385_plus, pos 34)
    ∷ (Codes.delta_plus_plus, pos 35)
    ∷ (Codes.jpsi, pos 36)
    ∷ (Codes.eta_c, pos 37)
    ∷ (Codes.chi_c0, pos 38)
    ∷ (Codes.chi_c1, pos 39)
    ∷ (Codes.chi_c2, pos 40)
    ∷ (Codes.psi2s, pos 41)
    ∷ (Codes.d0, pos 42)
    ∷ (Codes.d_plus, pos 43)
    ∷ (Codes.dstar0, pos 44)
    ∷ (Codes.dstar_plus, pos 45)
    ∷ (Codes.lambda_c, pos 46)
    ∷ (Codes.anti_d0, pos 47)
    ∷ []

unfoldable pub particle_multiplex_power : ℕ → ℤ
particle_multiplex_power p = switch power_cases (negsuc 0) (remap_particle_id p)

-- The two switch statements of DemultiplexPID.
abbrev pub final_state_bits : List (ℕ × ℕ)
final_state_bits =
    (0, Codes.gamma)
    ∷ (1, Codes.positron)
    ∷ (2, Codes.electron)
    ∷ (3, Codes.neutrino)
    ∷ (4, Codes.muon_plus)
    ∷ (5, Codes.muon_minus)
    ∷ (6, Codes.pi0)
    ∷ (7, Codes.pi_plus)
    ∷ (8, Codes.pi_minus)
    ∷ (9, Codes.k_long)
    ∷ (10, Codes.k_plus)
    ∷ (11, Codes.k_minus)
    ∷ (12, Codes.neutron)
    ∷ (13, Codes.proton)
    ∷ (14, Codes.anti_proton)
    ∷ (15, Codes.anti_neutron)
    ∷ []

abbrev pub decaying_bits : List (ℕ × ℕ)
decaying_bits =
    (0, Codes.k_short)
    ∷ (1, Codes.eta)
    ∷ (2, Codes.lambda)
    ∷ (3, Codes.sigma_plus)
    ∷ (4, Codes.sigma0)
    ∷ (5, Codes.sigma_minus)
    ∷ (6, Codes.xi0)
    ∷ (7, Codes.xi_minus)
    ∷ (8, Codes.omega_minus)
    ∷ (9, Codes.anti_lambda)
    ∷ (10, Codes.anti_sigma_minus)
    ∷ (11, Codes.anti_sigma0)
    ∷ (12, Codes.anti_sigma_plus)
    ∷ (13, Codes.anti_xi0)
    ∷ (14, Codes.anti_xi_plus)
    ∷ (15, Codes.anti_omega_plus)
    ∷ (16, Codes.deuteron)
    ∷ (17, Codes.rho0)
    ∷ (18, Codes.rho_plus)
    ∷ (19, Codes.rho_minus)
    ∷ (20, Codes.omega_meson)
    ∷ (21, Codes.eta_prime)
    ∷ (22, Codes.phi_meson)
    ∷ (23, Codes.a0_980)
    ∷ (24, Codes.f0_980)
    ∷ (25, Codes.k_star_892_0)
    ∷ (26, Codes.k_star_892_plus)
    ∷ (27, Codes.k_star_892_minus)
    ∷ (28, Codes.anti_k_star_892_0)
    ∷ (29, Codes.k1_1400_plus)
    ∷ (30, Codes.k1_1400_minus)
    ∷ (31, Codes.b1_1235_plus)
    ∷ (32, Codes.sigma_1385_minus)
    ∷ (33, Codes.sigma_1385_0)
    ∷ (34, Codes.sigma_1385_plus)
    ∷ (35, Codes.delta_plus_plus)
    ∷ (36, Codes.jpsi)
    ∷ (37, Codes.eta_c)
    ∷ (38, Codes.chi_c0)
    ∷ (39, Codes.chi_c1)
    ∷ (40, Codes.chi_c2)
    ∷ (41, Codes.psi2s)
    ∷ (42, Codes.d0)
    ∷ (43, Codes.d_plus)
    ∷ (44, Codes.dstar0)
    ∷ (45, Codes.dstar_plus)
    ∷ (46, Codes.lambda_c)
    ∷ (47, Codes.anti_d0)
    ∷ []

pub find_bit : List (ℕ × ℕ) → ℤ → ℕ
find_bit bits (pos n) = switch bits Codes.unknown_particle n
find_bit bits (negsuc n) = Codes.unknown_particle

unfoldable pub demultiplex_pid : ℤ → ℕ → ℕ
unfolding find_bit
demultiplex_pid bit is_decaying_flag =
    if is_decaying_flag == 0 then find_bit final_state_bits bit else find_bit decaying_bits bit
