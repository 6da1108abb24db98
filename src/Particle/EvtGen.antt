-- ===== src/Particle/EvtGen.antt =====
-- EvtGenString of src/particleType.h.
use hddm.Prelude.{ℕ, String, List, [], ◌∷◌}
use hddm.Prelude.Text.{Text, codes}
use hddm.Particle.Tables.{switch, remap_particle_id}
use hddm.Particle.Codes
use hddm.Particle.Nuclei

-- EvtGenString: the later cases, and all.
abbrev evt_gen_string_later : List (ℕ × String)
evt_gen_string_later =
    (Nuclei.b11, "Boron-11")
    ∷ (Nuclei.c12, "Carbon")
    ∷ (Nuclei.n14, "Nitrogen")
    ∷ (Nuclei.o16, "Oxygen")
    ∷ (Nuclei.f19, "Fluorine")
    ∷ (Nuclei.ne20, "Neon")
    ∷ (Nuclei.na23, "Sodium")
    ∷ (Nuclei.mg24, "Magnesium")
    ∷ (Nuclei.al27, "Aluminum")
    ∷ (Nuclei.si28, "Silicon")
    ∷ (Nuclei.p31, "Phosphorous")
    ∷ (Nuclei.s32, "Sulphur")
    ∷ (Nuclei.cl35, "Chlorine")
    ∷ (Nuclei.ar36, "Argon")
    ∷ (Nuclei.k39, "Potassium")
    ∷ (Nuclei.ca40, "Calcium")
    ∷ (Nuclei.sc45, "Scandium")
    ∷ (Nuclei.ti48, "Titanium")
    ∷ (Nuclei.v51, "Vanadium")
    ∷ (Nuclei.cr52, "Chromium")
    ∷ (Nuclei.mn55, "Manganese")
    ∷ (Nuclei.fe56, "Iron")
    ∷ (Nuclei.co59, "Cobalt")
    ∷ (Nuclei.ni58, "Nickel")
    ∷ (Nuclei.cu63, "Copper")
    ∷ (Nuclei.zn64, "Zinc")
    ∷ (Nuclei.ge74, "Germanium")
    ∷ (Nuclei.se80, "Selenium")
    ∷ (Nuclei.kr84, "Krypton")
    ∷ (Nuclei.sr88, "Strontium")
    ∷ (Nuclei.zr90, "Zirconium")
    ∷ (Nuclei.mo98, "Molybdenum")
    ∷ (Nuclei.pd106, "Palladium")
    ∷ (Nuclei.cd114, "Cadmium")
    ∷ (Nuclei.sn120, "Tin")
    ∷ (Nuclei.xe132, "Xenon")
    ∷ (Nuclei.ba138, "Barium")
    ∷ (Nuclei.ce140, "Cesium")
    ∷ (Nuclei.sm152, "Samerium")
    ∷ (Nuclei.dy164, "Dysprosium")
    ∷ (Nuclei.yb174, "Ytterbium")
    ∷ (Nuclei.ta181, "Tantalum")
    ∷ (Nuclei.w184, "Tungsten")
    ∷ (Nuclei.pt194, "Platium")
    ∷ (Nuclei.au197, "Gold")
    ∷ (Nuclei.hg202, "Mercury")
    ∷ (Nuclei.pb208, "Lead")
    ∷ (Nuclei.u238, "Uranium")
    ∷ (Codes.delta_plus_plus, "Delta++")
    ∷ (Codes.jpsi, "J/psi")
    ∷ (Codes.eta_c, "eta_c")
    ∷ (Codes.chi_c0, "chi_c0")
    ∷ (Codes.chi_c1, "chi_c1")
    ∷ (Codes.chi_c2, "chi_c2")
    ∷ (Codes.psi2s, "psi(2S)")
    ∷ (Codes.d0, "D0")
    ∷ (Codes.anti_d0, "anti-D0")
    ∷ (Codes.d_plus, "D+")
    ∷ (Codes.dstar0, "D*0")
    ∷ (Codes.dstar_plus, "D*+")
    ∷ (Codes.lambda_c, "Lambda_c0")
    ∷ []

abbrev evt_gen_string_cases : List (ℕ × String)
evt_gen_string_cases =
    (Codes.unknown_particle, "UnknownParticle")
    ∷ (Codes.gamma, "gamma")
    ∷ (Codes.positron, "e+")
    ∷ (Codes.electron, "e-")
    ∷ (Codes.neutrino, "nu_e")
    ∷ (Codes.muon_plus, "mu+")
    ∷ (Codes.muon_minus, "mu-")
    ∷ (Codes.pi0, "pi0")
    ∷ (Codes.pi_plus, "pi+")
    ∷ (Codes.pi_minus, "pi-")
    ∷ (Codes.k_long, "K_L0")
    ∷ (Codes.k_plus, "K+")
    ∷ (Codes.k_minus, "K-")
    ∷ (Codes.neutron, "n0")
    ∷ (Codes.proton, "p+")
    ∷ (Codes.anti_proton, "anti-p-")
    ∷ (Codes.k_short, "K_S0")
    ∷ (Codes.eta, "eta")
    ∷ (Codes.lambda, "Lambda0")
    ∷ (Codes.sigma_plus, "Sigma+")
    ∷ (Codes.sigma0, "Sigma0")
    ∷ (Codes.sigma_minus, "Sigma-")
    ∷ (Codes.xi0, "Xi0")
    ∷ (Codes.xi_minus, "Xi-")
    ∷ (Codes.omega_minus, "Omega-")
    ∷ (Codes.anti_neutron, "anti-n0")
    ∷ (Codes.anti_lambda, "anti-Lambda0")
    ∷ (Codes.anti_sigma_minus, "anti-Sigma-")
    ∷ (Codes.anti_sigma0, "anti-Sigma0")
    ∷ (Codes.anti_sigma_plus, "anti-Sigma+")
    ∷ (Codes.anti_xi0, "anti-Xi0")
    ∷ (Codes.anti_xi_plus, "anti-Xi+")
    ∷ (Codes.anti_omega_plus, "anti-Omega+")
    ∷ (Codes.geantino, "geantino")
    ∷ (Codes.rho0, "rho0")
    ∷ (Codes.rho_plus, "rho+")
    ∷ (Codes.rho_minus, "rho-")
    ∷ (Codes.omega_meson, "omega")
    ∷ (Codes.eta_prime, "eta'")
    ∷ (Codes.phi_meson, "phi")
    ∷ (Codes.a0_980, "a_0")
    ∷ (Codes.f0_980, "f_0")
    ∷ (Codes.k_star_892_0, "K*0")
    ∷ (Codes.k_star_892_plus, "K*+")
    ∷ (Codes.k_star_892_minus, "K*-")
    ∷ (Codes.anti_k_star_892_0, "anti-K*0")
    ∷ (Codes.k1_1400_plus, "K'_1+")
    ∷ (Codes.k1_1400_minus, "K'_1-")
    ∷ (Codes.b1_1235_plus, "b_1+")
    ∷ (Codes.sigma_1385_minus, "Sigma_1385_Minus")
    ∷ (Codes.sigma_1385_0, "Sigma_1385_0")
    ∷ (Codes.sigma_1385_plus, "Sigma_1385_Plus")
    ∷ (Codes.deuteron, "deuteron")
    ∷ (Codes.triton, "Triton")
    ∷ (Codes.helium, "Helium")
    ∷ (Codes.he3, "He3")
    ∷ (Codes.li6, "Lithium-6")
    ∷ (Codes.li7, "Lithium-7")
    ∷ (Codes.be7, "Beryllium-7")
    ∷ (Nuclei.be9, "Beryllium-9")
    ∷ (Nuclei.b10, "Boron-10")
    ∷ evt_gen_string_later

unfoldable pub evt_gen_string : ℕ → Text
evt_gen_string p = codes (switch evt_gen_string_cases "UnknownParticle" (remap_particle_id p))
