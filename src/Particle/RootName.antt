-- ===== src/Particle/RootName.antt =====
-- ParticleName_ROOT of src/particleType.h.
use hddm.Prelude.{ℕ, String, List, [], ◌∷◌}
use hddm.Prelude.Text.{Text, codes}
use hddm.Particle.Tables.{switch, remap_particle_id}
use hddm.Particle.Codes
use hddm.Particle.Nuclei

-- ParticleName_ROOT: the later cases, and all.
abbrev particle_name_root_later : List (ℕ × String)
particle_name_root_later =
    (Nuclei.o16, "^{16}O")
    ∷ (Nuclei.f19, "^{19}F")
    ∷ (Nuclei.ne20, "^{20}Ne")
    ∷ (Nuclei.na23, "^{23}Na")
    ∷ (Nuclei.mg24, "^{24}Mg")
    ∷ (Nuclei.al27, "^{27}Al")
    ∷ (Nuclei.si28, "^{28}Si")
    ∷ (Nuclei.p31, "^{31}P")
    ∷ (Nuclei.s32, "^{32}S")
    ∷ (Nuclei.cl35, "^{35}Cl")
    ∷ (Nuclei.ar36, "^{36}Ar")
    ∷ (Nuclei.k39, "^{39}K")
    ∷ (Nuclei.ca40, "^{40}Ca")
    ∷ (Nuclei.sc45, "^{45}Sc")
    ∷ (Nuclei.ti48, "^{48}Ti")
    ∷ (Nuclei.v51, "^{51}V")
    ∷ (Nuclei.cr52, "^{52}Cr")
    ∷ (Nuclei.mn55, "^{55}Mn")
    ∷ (Nuclei.fe56, "^{56}Fe")
    ∷ (Nuclei.co59, "^{59}Co")
    ∷ (Nuclei.ni58, "^{58}Ni")
    ∷ (Nuclei.cu63, "^{63}Cu")
    ∷ (Nuclei.zn64, "^{64}Zn")
    ∷ (Nuclei.ge74, "^{74}Ge")
    ∷ (Nuclei.se80, "^{80}Se")
    ∷ (Nuclei.kr84, "^{84}Kr")
    ∷ (Nuclei.sr88, "^{88}Sr")
    ∷ (Nuclei.zr90, "^{90}Zr")
    ∷ (Nuclei.mo98, "^{98}Mo")
    ∷ (Nuclei.pd106, "^{106}Pd")
    ∷ (Nuclei.cd114, "^{114}Cd")
    ∷ (Nuclei.sn120, "^{120}Sn")
    ∷ (Nuclei.xe132, "^{132}Xe")
    ∷ (Nuclei.ba138, "^{138}Ba")
    ∷ (Nuclei.ce140, "^{140}Ce")
    ∷ (Nuclei.sm152, "^{152}Sm")
    ∷ (Nuclei.dy164, "^{164}Dy")
    ∷ (Nuclei.yb174, "^{174}Yb")
    ∷ (Nuclei.ta181, "^{181}Ta")
    ∷ (Nuclei.w184, "^{184}W")
    ∷ (Nuclei.pt194, "^{194}Pt")
    ∷ (Nuclei.au197, "^{197}Au")
    ∷ (Nuclei.hg202, "^{202}Hg")
    ∷ (Nuclei.pb208, "^{208}Pb")
    ∷ (Nuclei.u238, "^{238}U")
    ∷ (Codes.sigma_1385_minus, "#Sigma(1385)^{#minus}")
    ∷ (Codes.sigma_1385_0, "#Sigma(1385)^{0}")
    ∷ (Codes.sigma_1385_plus, "#Sigma(1385)^{#plus}")
    ∷ (Codes.delta_plus_plus, "#Delta(1232)^{#plus#plus}")
    ∷ (Codes.jpsi, "J/#psi")
    ∷ (Codes.eta_c, "#eta_{c}")
    ∷ (Codes.chi_c0, "#chi_{c0}")
    ∷ (Codes.chi_c1, "#chi_{c1}")
    ∷ (Codes.chi_c2, "#chi_{c2}")
    ∷ (Codes.psi2s, "#psi(2S)")
    ∷ (Codes.d0, "D^{0}")
    ∷ (Codes.anti_d0, "#bar{D^{0}}")
    ∷ (Codes.d_plus, "D{^+}")
    ∷ (Codes.dstar0, "D^{*0}")
    ∷ (Codes.dstar_plus, "D^{*+}")
    ∷ (Codes.lambda_c, "#Lambda_{c}")
    ∷ []

abbrev particle_name_root_cases : List (ℕ × String)
particle_name_root_cases =
    (Codes.unknown_particle, "X")
    ∷ (Codes.gamma, "#gamma")
    ∷ (Codes.positron, "e^{#plus}")
    ∷ (Codes.electron, "e^{#minus}")
    ∷ (Codes.neutrino, "#nu")
    ∷ (Codes.muon_plus, "#mu^{#plus}")
    ∷ (Codes.muon_minus, "#mu^{#minus}")
    ∷ (Codes.pi0, "#pi^{0}")
    ∷ (Codes.pi_plus, "#pi^{#plus}")
    ∷ (Codes.pi_minus, "#pi^{#minus}")
    ∷ (Codes.k_long, "K^{0}_{L}")
    ∷ (Codes.k_plus, "K^{#plus}")
    ∷ (Codes.k_minus, "K^{#minus}")
    ∷ (Codes.neutron, "n")
    ∷ (Codes.proton, "p")
    ∷ (Codes.anti_proton, "#bar{p}")
    ∷ (Codes.k_short, "K^{0}_{S}")
    ∷ (Codes.eta, "#eta")
    ∷ (Codes.lambda, "#Lambda")
    ∷ (Codes.sigma_plus, "#Sigma^{#plus}")
    ∷ (Codes.sigma0, "#Sigma^{0}")
    ∷ (Codes.sigma_minus, "#Sigma^{#minus}")
    ∷ (Codes.xi0, "#Xi^{0}")
    ∷ (Codes.xi_minus, "#Xi^{#minus}")
    ∷ (Codes.omega_minus, "#Omega^{#minus}")
    ∷ (Codes.anti_neutron, "#bar^{n}")
    ∷ (Codes.anti_lambda, "#bar^{#Lambda}")
    ∷ (Codes.anti_sigma_minus, "#bar{#Sigma}^{#minus}")
    ∷ (Codes.anti_sigma0, "#bar{#Sigma}^{0}")
    ∷ (Codes.anti_sigma_plus, "#bar{#Sigma}^{#plus}")
    ∷ (Codes.anti_xi0, "#bar{#Xi}^{0}")
    ∷ (Codes.anti_xi_plus, "#bar{#Xi}^{#plus}")
    ∷ (Codes.anti_omega_plus, "#bar{#Omega}^{#plus}")
    ∷ (Codes.geantino, "geantino")
    ∷ (Codes.rho0, "#rho^{0}")
    ∷ (Codes.rho_plus, "#rho^{#plus}")
    ∷ (Codes.rho_minus, "#rho^{#minus}")
    ∷ (Codes.omega_meson, "#omega")
    ∷ (Codes.eta_prime, "#eta'")
    ∷ (Codes.phi_meson, "#phi")
    ∷ (Codes.a0_980, "a_{0}(980)")
    ∷ (Codes.f0_980, "f_{0}(980)")
    ∷ (Codes.k_star_892_0, "K*(892)^{0}")
    ∷ (Codes.k_star_892_plus, "K*(892)^{#plus}")
    ∷ (Codes.k_star_892_minus, "K*(892)^{#minus}")
    ∷ (Codes.anti_k_star_892_0, "#bar{K*}(892)^{0}")
    ∷ (Codes.k1_1400_plus, "K_{1}(1400)^{#plus}")
    ∷ (Codes.k1_1400_minus, "K_{1}(1400)^{#minus}")
    ∷ (Codes.b1_1235_plus, "b_{1}(1235)^{#plus}")
    ∷ (Codes.deuteron, "d")
    ∷ (Codes.triton, "t")
    ∷ (Codes.helium, "He")
    ∷ (Codes.he3, "^{3}He")
    ∷ (Codes.li6, "^{6}Li")
    ∷ (Codes.li7, "^{7}Li")
    ∷ (Codes.be7, "^{7}Be")
    ∷ (Nuclei.be9, "^{9}Be")
    ∷ (Nuclei.b10, "^{10}B")
    ∷ (Nuclei.b11, "^{11}B")
    ∷ (Nuclei.c12, "^{12}C")
    ∷ (Nuclei.n14, "^{14}N")
    ∷ particle_name_root_later

unfoldable pub particle_name_root : ℕ → Text
particle_name_root p = codes (switch particle_name_root_cases "X" (remap_particle_id p))
