-- ===== src/Particle/ShortName.antt =====
-- ShortName of src/particleType.h.
use hddm.Prelude.{ℕ, String, List, [], ◌∷◌}
use hddm.Prelude.Text.{Text, codes}
use hddm.Particle.Tables.{switch, remap_particle_id}
use hddm.Particle.Codes
use hddm.Particle.Nuclei

-- ShortName: the later cases, and all.
abbrev short_name_later : List (ℕ × String)
short_name_later =
    (Nuclei.ca40, "ca40")
    ∷ (Nuclei.sc45, "sc45")
    ∷ (Nuclei.ti48, "ti48")
    ∷ (Nuclei.v51, "v51")
    ∷ (Nuclei.cr52, "cr52")
    ∷ (Nuclei.mn55, "mn55")
    ∷ (Nuclei.fe56, "fe56")
    ∷ (Nuclei.co59, "co59")
    ∷ (Nuclei.ni58, "ni58")
    ∷ (Nuclei.cu63, "cu63")
    ∷ (Nuclei.zn64, "zn64")
    ∷ (Nuclei.ge74, "ge74")
    ∷ (Nuclei.se80, "se80")
    ∷ (Nuclei.kr84, "kr84")
    ∷ (Nuclei.sr88, "sr88")
    ∷ (Nuclei.zr90, "zr90")
    ∷ (Nuclei.mo98, "mo98")
    ∷ (Nuclei.pd106, "pd106")
    ∷ (Nuclei.cd114, "cd114")
    ∷ (Nuclei.sn120, "sn120")
    ∷ (Nuclei.xe132, "xe132")
    ∷ (Nuclei.ba138, "ba138")
    ∷ (Nuclei.ce140, "ce140")
    ∷ (Nuclei.sm152, "sm152")
    ∷ (Nuclei.dy164, "dy164")
    ∷ (Nuclei.yb174, "yb174")
    ∷ (Nuclei.ta181, "ta181")
    ∷ (Nuclei.w184, "w184")
    ∷ (Nuclei.pt194, "pt194")
    ∷ (Nuclei.au197, "au197")
    ∷ (Nuclei.hg202, "hg202")
    ∷ (Nuclei.pb208, "pb208")
    ∷ (Nuclei.u238, "u238")
    ∷ (Codes.jpsi, "jpsi")
    ∷ (Codes.eta_c, "etac")
    ∷ (Codes.chi_c0, "chic0")
    ∷ (Codes.chi_c1, "chic1")
    ∷ (Codes.chi_c2, "chic2")
    ∷ (Codes.psi2s, "psi2s")
    ∷ (Codes.d0, "d0")
    ∷ (Codes.anti_d0, "antid0")
    ∷ (Codes.d_plus, "dp")
    ∷ (Codes.dstar0, "ds0")
    ∷ (Codes.dstar_plus, "dsp")
    ∷ (Codes.lambda_c, "lambc")
    ∷ (Codes.rho0, "Rho0")
    ∷ (Codes.rho_plus, "RhoPlus")
    ∷ (Codes.rho_minus, "RhoMinus")
    ∷ (Codes.a0_980, "a0_980")
    ∷ (Codes.f0_980, "f0_980")
    ∷ (Codes.k_star_892_0, "KStar_892_0")
    ∷ (Codes.k_star_892_plus, "KStar_892_Plus")
    ∷ (Codes.k_star_892_minus, "KStar_892_Minus")
    ∷ (Codes.anti_k_star_892_0, "AntiKStar_892_0")
    ∷ (Codes.k1_1400_plus, "K1_1400_Plus")
    ∷ (Codes.k1_1400_minus, "K1_1400_Minus")
    ∷ (Codes.b1_1235_plus, "b1_1235_Plus")
    ∷ (Codes.sigma_1385_minus, "Sigma_1385_Minus")
    ∷ (Codes.sigma_1385_0, "Sigma_1385_0")
    ∷ (Codes.sigma_1385_plus, "Sigma_1385_Plus")
    ∷ (Codes.delta_plus_plus, "DeltaPlusPlus")
    ∷ []

abbrev short_name_cases : List (ℕ × String)
short_name_cases =
    (Codes.unknown_particle, "x")
    ∷ (Codes.gamma, "g")
    ∷ (Codes.positron, "ep")
    ∷ (Codes.electron, "em")
    ∷ (Codes.neutrino, "nu")
    ∷ (Codes.muon_plus, "mup")
    ∷ (Codes.muon_minus, "mum")
    ∷ (Codes.pi0, "pi0")
    ∷ (Codes.pi_plus, "pip")
    ∷ (Codes.pi_minus, "pim")
    ∷ (Codes.k_long, "kl")
    ∷ (Codes.k_plus, "kp")
    ∷ (Codes.k_minus, "km")
    ∷ (Codes.neutron, "n")
    ∷ (Codes.proton, "prot")
    ∷ (Codes.anti_proton, "antip")
    ∷ (Codes.k_short, "ks")
    ∷ (Codes.eta, "eta")
    ∷ (Codes.lambda, "lamb")
    ∷ (Codes.sigma_plus, "sigp")
    ∷ (Codes.sigma0, "sig0")
    ∷ (Codes.sigma_minus, "sigm")
    ∷ (Codes.xi0, "xi0")
    ∷ (Codes.xi_minus, "xim")
    ∷ (Codes.omega_minus, "omegam")
    ∷ (Codes.anti_neutron, "antin")
    ∷ (Codes.anti_lambda, "antilamb")
    ∷ (Codes.anti_sigma_minus, "antisigm")
    ∷ (Codes.anti_sigma0, "antisig0")
    ∷ (Codes.anti_sigma_plus, "antisigp")
    ∷ (Codes.anti_xi0, "antixi0")
    ∷ (Codes.anti_xi_plus, "antixip")
    ∷ (Codes.anti_omega_plus, "antiomegap")
    ∷ (Codes.geantino, "geant")
    ∷ (Codes.omega_meson, "omega")
    ∷ (Codes.eta_prime, "etapr")
    ∷ (Codes.phi_meson, "phi")
    ∷ (Codes.deuteron, "d")
    ∷ (Codes.triton, "tri")
    ∷ (Codes.helium, "he")
    ∷ (Codes.he3, "he3")
    ∷ (Codes.li6, "li6")
    ∷ (Codes.li7, "li7")
    ∷ (Codes.be7, "be7")
    ∷ (Nuclei.be9, "be9")
    ∷ (Nuclei.b10, "b10")
    ∷ (Nuclei.b11, "b11")
    ∷ (Nuclei.c12, "c12")
    ∷ (Nuclei.n14, "n14")
    ∷ (Nuclei.o16, "o16")
    ∷ (Nuclei.f19, "f19")
    ∷ (Nuclei.ne20, "ne20")
    ∷ (Nuclei.na23, "na23")
    ∷ (Nuclei.mg24, "mg24")
    ∷ (Nuclei.al27, "al27")
    ∷ (Nuclei.si28, "si28")
    ∷ (Nuclei.p31, "p31")
    ∷ (Nuclei.s32, "s32")
    ∷ (Nuclei.cl35, "cl35")
    ∷ (Nuclei.ar36, "ar36")
    ∷ (Nuclei.k39, "k39")
    ∷ short_name_later

unfoldable pub short_name : ℕ → Text
short_name p = codes (switch short_name_cases "x" (remap_particle_id p))
