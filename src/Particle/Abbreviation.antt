-- ===== src/Particle/Abbreviation.antt =====
-- Get_ShortName of src/particleType.h.
use hddm.Prelude.{ℕ, String, List, [], ◌∷◌}
use hddm.Prelude.Text.{Text, codes}
use hddm.Particle.Tables.{switch}
use hddm.Particle.Codes
use hddm.Particle.Nuclei

-- Get_ShortName: the later cases, and all.
abbrev get_short_name_later : List (ℕ × String)
get_short_name_later =
    (Nuclei.mg24, "mg24")
    ∷ (Nuclei.al27, "al27")
    ∷ (Nuclei.si28, "si28")
    ∷ (Nuclei.p31, "p31")
    ∷ (Nuclei.s32, "s32")
    ∷ (Nuclei.cl35, "cl35")
    ∷ (Nuclei.ar36, "ar36")
    ∷ (Nuclei.k39, "k39")
    ∷ (Nuclei.ca40, "ca40")
    ∷ (Nuclei.sc45, "sc45")
    ∷ (Nuclei.ti48, "ti48")
    ∷ (Nuclei.v51, "v51")
    ∷ (Nuclei.cr52, "cr52")
    ∷ (Nuclei.mn55, "mn55")
    ∷ (Nuclei.fe56, "fe56")
    ∷ (Nuclei.co59, "co59")
    ∷ (Nuclei.ni58, "ni58")
    ∷ (Nuclei.cu63, "cu63")
    ∷ (Nuclei.zn64, "zn64")
    ∷ (Nuclei.ge74, "ge74")
    ∷ (Nuclei.se80, "se80")
    ∷ (Nuclei.kr84, "kr84")
    ∷ (Nuclei.sr88, "sr88")
    ∷ (Nuclei.zr90, "zr90")
    ∷ (Nuclei.mo98, "mo98")
    ∷ (Nuclei.pd106, "pd106")
    ∷ (Nuclei.cd114, "cd114")
    ∷ (Nuclei.sn120, "sn120")
    ∷ (Nuclei.xe132, "xe132")
    ∷ (Nuclei.ba138, "ba138")
    ∷ (Nuclei.ce140, "ce140")
    ∷ (Nuclei.sm152, "sm152")
    ∷ (Nuclei.dy164, "dy164")
    ∷ (Nuclei.yb174, "yb174")
    ∷ (Nuclei.ta181, "ta181")
    ∷ (Nuclei.w184, "w184")
    ∷ (Nuclei.pt194, "pt194")
    ∷ (Nuclei.au197, "au197")
    ∷ (Nuclei.hg202, "hg202")
    ∷ (Nuclei.pb208, "pb208")
    ∷ (Nuclei.u238, "u238")
    ∷ (Codes.jpsi, "jpsi")
    ∷ (Codes.eta_c, "etac")
    ∷ (Codes.chi_c0, "chic0")
    ∷ (Codes.chi_c1, "chic1")
    ∷ (Codes.chi_c2, "chic2")
    ∷ (Codes.psi2s, "psi2S")
    ∷ (Codes.d0, "d0")
    ∷ (Codes.anti_d0, "d0bar")
    ∷ (Codes.d_plus, "dp")
    ∷ (Codes.lambda_c, "lambc")
    ∷ []

abbrev get_short_name_cases : List (ℕ × String)
get_short_name_cases =
    (Codes.gamma, "g")
    ∷ (Codes.positron, "ep")
    ∷ (Codes.electron, "em")
    ∷ (Codes.neutrino, "neut")
    ∷ (Codes.muon_plus, "mup")
    ∷ (Codes.muon_minus, "mum")
    ∷ (Codes.pi0, "pi0")
    ∷ (Codes.pi_plus, "pip")
    ∷ (Codes.pi_minus, "pim")
    ∷ (Codes.k_long, "kl")
    ∷ (Codes.k_plus, "kp")
    ∷ (Codes.k_minus, "km")
    ∷ (Codes.neutron, "n")
    ∷ (Codes.proton, "p")
    ∷ (Codes.anti_proton, "pbar")
    ∷ (Codes.k_short, "ks")
    ∷ (Codes.eta, "eta")
    ∷ (Codes.lambda, "lamb")
    ∷ (Codes.sigma_plus, "sigp")
    ∷ (Codes.sigma0, "sig0")
    ∷ (Codes.sigma_minus, "sigm")
    ∷ (Codes.xi0, "xi0")
    ∷ (Codes.xi_minus, "xim")
    ∷ (Codes.omega_minus, "omgm")
    ∷ (Codes.anti_neutron, "nbar")
    ∷ (Codes.anti_lambda, "lbar")
    ∷ (Codes.anti_sigma_minus, "sigmbar")
    ∷ (Codes.anti_sigma0, "sig0bar")
    ∷ (Codes.anti_sigma_plus, "sigpbar")
    ∷ (Codes.anti_xi0, "xi0bar")
    ∷ (Codes.anti_xi_plus, "xipbar")
    ∷ (Codes.anti_omega_plus, "omgpbar")
    ∷ (Codes.omega_meson, "omg")
    ∷ (Codes.eta_prime, "etap")
    ∷ (Codes.phi_meson, "phi")
    ∷ (Codes.deuteron, "d")
    ∷ (Codes.triton, "tri")
    ∷ (Codes.helium, "he")
    ∷ (Codes.he3, "he3")
    ∷ (Codes.li6, "li6")
    ∷ (Codes.li7, "li7")
    ∷ (Codes.be7, "be7")
    ∷ (Nuclei.be9, "be9")
    ∷ (Nuclei.b10, "b10")
    ∷ (Nuclei.b11, "b11")
    ∷ (Nuclei.c12, "c12")
    ∷ (Nuclei.n14, "n14")
    ∷ (Nuclei.o16, "o16")
    ∷ (Nuclei.f19, "f19")
    ∷ (Nuclei.ne20, "ne20")
    ∷ (Nuclei.na23, "na23")
    ∷ get_short_name_later

unfoldable pub get_short_name : ℕ → Text
get_short_name p = codes (switch get_short_name_cases "UnknownParticle" p)
