-- ===== src/Particle/EnumString.antt =====
-- EnumString of src/particleType.h.
use hddm.Prelude.{ℕ, String, List, [], ◌∷◌}
use hddm.Prelude.Text.{Text, codes}
use hddm.Particle.Tables.{switch, remap_particle_id}
use hddm.Particle.Codes
use hddm.Particle.Nuclei

-- EnumString: the later cases, and all.
abbrev enum_string_later : List (ℕ × String)
enum_string_later =
    (Nuclei.b11, "Boron-11")
    ∷ (Nuclei.c12, "Carbon")
    ∷ (Nuclei.n14, "Nitrogen")
    ∷ (Nuclei.o16, "Oxygen")
    ∷ (Nuclei.f19, "Fluorine")
    ∷ (Nuclei.ne20, "Neon")
    ∷ (Nuclei.na23, "Sodium")
    ∷ (Nuclei.mg24, "Magnesium")
    ∷ (Nuclei.al27, "Aluminum")
    ∷ (Nuclei.si28, "Silicon")
    ∷ (Nuclei.p31, "Phosphorous")
    ∷ (Nuclei.s32, "Sulphur")
    ∷ (Nuclei.cl35, "Chlorine")
    ∷ (Nuclei.ar36, "Argon")
    ∷ (Nuclei.k39, "Potassium")
    ∷ (Nuclei.ca40, "Calcium")
    ∷ (Nuclei.sc45, "Scandium")
    ∷ (Nuclei.ti48, "Titanium")
    ∷ (Nuclei.v51, "Vanadium")
    ∷ (Nuclei.cr52, "Chromium")
    ∷ (Nuclei.mn55, "Manganese")
    ∷ (Nuclei.fe56, "Iron")
    ∷ (Nuclei.co59, "Cobalt")
    ∷ (Nuclei.ni58, "Nickel")
    ∷ (Nuclei.cu63, "Copper")
    ∷ (Nuclei.zn64, "Zinc")
    ∷ (Nuclei.ge74, "Germanium")
    ∷ (Nuclei.se80, "Selenium")
    ∷ (Nuclei.kr84, "Krypton")
    ∷ (Nuclei.sr88, "Strontium")
    ∷ (Nuclei.zr90, "Zirconium")
    ∷ (Nuclei.mo98, "Molybdenum")
    ∷ (Nuclei.pd106, "Palladium")
    ∷ (Nuclei.cd114, "Cadmium")
    ∷ (Nuclei.sn120, "Tin")
    ∷ (Nuclei.xe132, "Xenon")
    ∷ (Nuclei.ba138, "Barium")
    ∷ (Nuclei.ce140, "Cesium")
    ∷ (Nuclei.sm152, "Samerium")
    ∷ (Nuclei.dy164, "Dysprosium")
    ∷ (Nuclei.yb174, "Ytterbium")
    ∷ (Nuclei.ta181, "Tantalum")
    ∷ (Nuclei.w184, "Tungsten")
    ∷ (Nuclei.pt194, "Platium")
    ∷ (Nuclei.au197, "Gold")
    ∷ (Nuclei.hg202, "Mercury")
    ∷ (Nuclei.pb208, "Lead")
    ∷ (Nuclei.u238, "Uranium")
    ∷ (Codes.delta_plus_plus, "DeltaPlusPlus")
    ∷ (Codes.jpsi, "Jpsi")
    ∷ (Codes.eta_c, "Eta_c")
    ∷ (Codes.chi_c0, "Chi_c0")
    ∷ (Codes.chi_c1, "Chi_c1")
    ∷ (Codes.chi_c2, "Chi_c2")
    ∷ (Codes.psi2s, "Psi2s")
    ∷ (Codes.d0, "D0")
    ∷ (Codes.anti_d0, "AntiD0")
    ∷ (Codes.d_plus, "DPlus")
    ∷ (Codes.dstar0, "Dstar0")
    ∷ (Codes.dstar_plus, "DstarPlus")
    ∷ (Codes.lambda_c, "Lambda_c")
    ∷ []

abbrev enum_string_cases : List (ℕ × String)
enum_string_cases =
    (Codes.unknown_particle, "UnknownParticle")
    ∷ (Codes.gamma, "Gamma")
    ∷ (Codes.positron, "Positron")
    ∷ (Codes.electron, "Electron")
    ∷ (Codes.neutrino, "Neutrino")
    ∷ (Codes.muon_plus, "MuonPlus")
    ∷ (Codes.muon_minus, "MuonMinus")
    ∷ (Codes.pi0, "Pi0")
    ∷ (Codes.pi_plus, "PiPlus")
    ∷ (Codes.pi_minus, "PiMinus")
    ∷ (Codes.k_long, "KLong")
    ∷ (Codes.k_plus, "KPlus")
    ∷ (Codes.k_minus, "KMinus")
    ∷ (Codes.neutron, "Neutron")
    ∷ (Codes.proton, "Proton")
    ∷ (Codes.anti_proton, "AntiProton")
    ∷ (Codes.k_short, "KShort")
    ∷ (Codes.eta, "Eta")
    ∷ (Codes.lambda, "Lambda")
    ∷ (Codes.sigma_plus, "SigmaPlus")
    ∷ (Codes.sigma0, "Sigma0")
    ∷ (Codes.sigma_minus, "SigmaMinus")
    ∷ (Codes.xi0, "Xi0")
    ∷ (Codes.xi_minus, "XiMinus")
    ∷ (Codes.omega_minus, "OmegaMinus")
    ∷ (Codes.anti_neutron, "AntiNeutron")
    ∷ (Codes.anti_lambda, "AntiLambda")
    ∷ (Codes.anti_sigma_minus, "AntiSigmaMinus")
    ∷ (Codes.anti_sigma0, "AntiSigma0")
    ∷ (Codes.anti_sigma_plus, "AntiSigmaPlus")
    ∷ (Codes.anti_xi0, "AntiXi0")
    ∷ (Codes.anti_xi_plus, "AntiXiPlus")
    ∷ (Codes.anti_omega_plus, "AntiOmegaPlus")
    ∷ (Codes.geantino, "Geantino")
    ∷ (Codes.rho0, "Rho0")
    ∷ (Codes.rho_plus, "RhoPlus")
    ∷ (Codes.rho_minus, "RhoMinus")
    ∷ (Codes.omega_meson, "omega")
    ∷ (Codes.eta_prime, "EtaPrime")
    ∷ (Codes.phi_meson, "phiMeson")
    ∷ (Codes.a0_980, "a0_980")
    ∷ (Codes.f0_980, "f0_980")
    ∷ (Codes.k_star_892_0, "KStar_892_0")
    ∷ (Codes.k_star_892_plus, "KStar_892_Plus")
    ∷ (Codes.k_star_892_minus, "KStar_892_Minus")
    ∷ (Codes.anti_k_star_892_0, "AntiKStar_892_0")
    ∷ (Codes.k1_1400_plus, "K1_1400_Plus")
    ∷ (Codes.k1_1400_minus, "K1_1400_Minus")
    ∷ (Codes.b1_1235_plus, "b1_1235_Plus")
    ∷ (Codes.sigma_1385_minus, "Sigma_1385_Minus")
    ∷ (Codes.sigma_1385_0, "Sigma_1385_0")
    ∷ (Codes.sigma_1385_plus, "Sigma_1385_Plus")
    ∷ (Codes.deuteron, "Deuteron")
    ∷ (Codes.triton, "Triton")
    ∷ (Codes.helium, "Helium")
    ∷ (Codes.he3, "Helium-3")
    ∷ (Codes.li6, "Lithium-6")
    ∷ (Codes.li7, "Lithium-7")
    ∷ (Codes.be7, "Beryllium-7")
    ∷ (Nuclei.be9, "Beryllium-9")
    ∷ (Nuclei.b10, "Boron-10")
    ∷ enum_string_later

unfoldable pub enum_string : ℕ → Text
enum_string p = codes (switch enum_string_cases "UnknownParticle" (remap_particle_id p))
