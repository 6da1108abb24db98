-- ===== src/Particle/Pdg.antt =====
-- PDGtype and PDGtoPType of src/particleType.h.
pub mod Inverse
use hddm.Prelude.{ℕ, List, [], ◌∷◌, if◌then◌else◌}
use hddm.Prelude.Int.{ℤ, pos, negsuc, eqb_ℤ}
use hddm.Particle.Tables.{switch, remap_particle_id}
use hddm.Particle.Codes
use hddm.Particle.Nuclei

-- PDGtype: the later cases, and all.
abbrev pdg_type_later : List (ℕ × ℤ)
pdg_type_later =
    (Nuclei.b11, pos 1000050110)
    ∷ (Nuclei.c12, pos 1000060120)
    ∷ (Nuclei.n14, pos 1000070140)
    ∷ (Nuclei.o16, pos 1000080160)
    ∷ (Nuclei.f19, pos 1000090190)
    ∷ (Nuclei.ne20, pos 1000100200)
    ∷ (Nuclei.na23, pos 1000110230)
    ∷ (Nuclei.mg24, pos 1000120240)
    ∷ (Nuclei.al27, pos 1000130270)
    ∷ (Nuclei.si28, pos 1000140280)
    ∷ (Nuclei.p31, pos 1000150310)
    ∷ (Nuclei.s32, pos 1000160320)
    ∷ (Nuclei.cl35, pos 1000170350)
    ∷ (Nuclei.ar36, pos 1000180360)
    ∷ (Nuclei.k39, pos 1000190390)
    ∷ (Nuclei.ca40, pos 1000200400)
    ∷ (Nuclei.sc45, pos 1000210450)
    ∷ (Nuclei.ti48, pos 1000220480)
    ∷ (Nuclei.v51, pos 1000230510)
    ∷ (Nuclei.cr52, pos 1000240520)
    ∷ (Nuclei.mn55, pos 1000250550)
    ∷ (Nuclei.fe56, pos 1000260560)
    ∷ (Nuclei.co59, pos 1000270590)
    ∷ (Nuclei.ni58, pos 1000280580)
    ∷ (Nuclei.cu63, pos 1000290630)
    ∷ (Nuclei.zn64, pos 1000300640)
    ∷ (Nuclei.ge74, pos 1000320740)
    ∷ (Nuclei.se80, pos 1000340800)
    ∷ (Nuclei.kr84, pos 1000360840)
    ∷ (Nuclei.sr88, pos 1000380880)
    ∷ (Nuclei.zr90, pos 1000400900)
    ∷ (Nuclei.mo98, pos 1000420980)
    ∷ (Nuclei.pd106, pos 1000461060)
    ∷ (Nuclei.cd114, pos 1000481140)
    ∷ (Nuclei.sn120, pos 1000501200)
    ∷ (Nuclei.xe132, pos 1000541320)
    ∷ (Nuclei.ba138, pos 1000561380)
    ∷ (Nuclei.ce140, pos 1000581400)
    ∷ (Nuclei.sm152, pos 1000621520)
    ∷ (Nuclei.dy164, pos 1000661640)
    ∷ (Nuclei.yb174, pos 1000701740)
    ∷ (Nuclei.ta181, pos 1000731810)
    ∷ (Nuclei.w184, pos 1000741840)
    ∷ (Nuclei.pt194, pos 1000781940)
    ∷ (Nuclei.au197, pos 1000791970)
    ∷ (Nuclei.hg202, pos 1000802020)
    ∷ (Nuclei.pb208, pos 1000822080)
    ∷ (Nuclei.u238, pos 1000922380)
    ∷ (Codes.delta_plus_plus, pos 2224)
    ∷ (Codes.jpsi, pos 443)
    ∷ (Codes.eta_c, pos 441)
    ∷ (Codes.chi_c0, pos 10441)
    ∷ (Codes.chi_c1, pos 20443)
    ∷ (Codes.chi_c2, pos 445)
    ∷ (Codes.psi2s, pos 100443)
    ∷ (Codes.d0, pos 421)
    ∷ (Codes.anti_d0, negsuc 420)
    ∷ (Codes.d_plus, pos 411)
    ∷ (Codes.dstar0, pos 423)
    ∷ (Codes.dstar_plus, pos 413)
    ∷ (Codes.lambda_c, pos 4122)
    ∷ []

abbrev pdg_type_cases : List (ℕ × ℤ)
pdg_type_cases =
    (Codes.unknown_particle, pos 0)
    ∷ (Codes.gamma, pos 22)
    ∷ (Codes.positron, negsuc 10)
    ∷ (Codes.electron, pos 11)
    ∷ (Codes.neutrino, pos 121416)
    ∷ (Codes.muon_plus, negsuc 12)
    ∷ (Codes.muon_minus, pos 13)
    ∷ (Codes.pi0, pos 111)
    ∷ (Codes.pi_plus, pos 211)
    ∷ (Codes.pi_minus, negsuc 210)
    ∷ (Codes.k_short, pos 310)
    ∷ (Codes.k_long, pos 130)
    ∷ (Codes.k_plus, pos 321)
    ∷ (Codes.k_minus, negsuc 320)
    ∷ (Codes.neutron, pos 2112)
    ∷ (Codes.proton, pos 2212)
    ∷ (Codes.anti_proton, negsuc 2211)
    ∷ (Codes.eta, pos 221)
    ∷ (Codes.lambda, pos 3122)
    ∷ (Codes.sigma_plus, pos 3222)
    ∷ (Codes.sigma0, pos 3212)
    ∷ (Codes.sigma_minus, pos 3112)
    ∷ (Codes.xi0, pos 3322)
    ∷ (Codes.xi_minus, pos 3312)
    ∷ (Codes.omega_minus, pos 3334)
    ∷ (Codes.anti_neutron, negsuc 2111)
    ∷ (Codes.anti_lambda, negsuc 3121)
    ∷ (Codes.anti_sigma_minus, negsuc 3221)
    ∷ (Codes.anti_sigma0, negsuc 3211)
    ∷ (Codes.anti_sigma_plus, negsuc 3111)
    ∷ (Codes.anti_xi0, negsuc 3321)
    ∷ (Codes.anti_xi_plus, negsuc 3311)
    ∷ (Codes.anti_omega_plus, negsuc 3333)
    ∷ (Codes.geantino, pos 0)
    ∷ (Codes.rho0, pos 113)
    ∷ (Codes.rho_plus, pos 213)
    ∷ (Codes.rho_minus, negsuc 212)
    ∷ (Codes.omega_meson, pos 223)
    ∷ (Codes.eta_prime, pos 331)
    ∷ (Codes.phi_meson, pos 333)
    ∷ (Codes.a0_980, pos 9000110)
    ∷ (Codes.f0_980, pos 9010221)
    ∷ (Codes.k_star_892_0, pos 313)
    ∷ (Codes.anti_k_star_892_0, negsuc 312)
    ∷ (Codes.k_star_892_plus, pos 323)
    ∷ (Codes.k_star_892_minus, negsuc 322)
    ∷ (Codes.k1_1400_plus, pos 20323)
    ∷ (Codes.k1_1400_minus, negsuc 20322)
    ∷ (Codes.b1_1235_plus, pos 10213)
    ∷ (Codes.deuteron, pos 45)
    ∷ (Codes.triton, pos 46)
    ∷ (Codes.helium, pos 47)
    ∷ (Codes.he3, pos 49)
    ∷ (Codes.sigma_1385_minus, pos 3114)
    ∷ (Codes.sigma_1385_0, pos 3214)
    ∷ (Codes.sigma_1385_plus, pos 3224)
    ∷ (Codes.li6, pos 1000030060)
    ∷ (Codes.li7, pos 1000030070)
    ∷ (Codes.be7, pos 1000040070)
    ∷ (Nuclei.be9, pos 1000040090)
    ∷ (Nuclei.b10, pos 1000050100)
    ∷ pdg_type_later

unfoldable pub pdg_type : ℕ → ℤ
pdg_type p = switch pdg_type_cases (pos 0) (remap_particle_id p)

-- PDGtoPType: the later cases, and all.
abbrev pdg_to_ptype_later : List (ℤ × ℕ)
pdg_to_ptype_later =
    (pos 1000050110, Nuclei.b11)
    ∷ (pos 1000060120, Nuclei.c12)
    ∷ (pos 1000070140, Nuclei.n14)
    ∷ (pos 1000080160, Nuclei.o16)
    ∷ (pos 1000090190, Nuclei.f19)
    ∷ (pos 1000100200, Nuclei.ne20)
    ∷ (pos 1000110230, Nuclei.na23)
    ∷ (pos 1000120240, Nuclei.mg24)
    ∷ (pos 1000130270, Nuclei.al27)
    ∷ (pos 1000140280, Nuclei.si28)
    ∷ (pos 1000150310, Nuclei.p31)
    ∷ (pos 1000160320, Nuclei.s32)
    ∷ (pos 1000170350, Nuclei.cl35)
    ∷ (pos 1000180360, Nuclei.ar36)
    ∷ (pos 1000190390, Nuclei.k39)
    ∷ (pos 1000200400, Nuclei.ca40)
    ∷ (pos 1000210450, Nuclei.sc45)
    ∷ (pos 1000220480, Nuclei.ti48)
    ∷ (pos 1000230510, Nuclei.v51)
    ∷ (pos 1000240520, Nuclei.cr52)
    ∷ (pos 1000250550, Nuclei.mn55)
    ∷ (pos 1000260560, Nuclei.fe56)
    ∷ (pos 1000270590, Nuclei.co59)
    ∷ (pos 1000280580, Nuclei.ni58)
    ∷ (pos 1000290630, Nuclei.cu63)
    ∷ (pos 1000300640, Nuclei.zn64)
    ∷ (pos 1000320740, Nuclei.ge74)
    ∷ (pos 1000340800, Nuclei.se80)
    ∷ (pos 1000360840, Nuclei.kr84)
    ∷ (pos 1000380880, Nuclei.sr88)
    ∷ (pos 1000400900, Nuclei.zr90)
    ∷ (pos 1000420980, Nuclei.mo98)
    ∷ (pos 1000461060, Nuclei.pd106)
    ∷ (pos 1000481140, Nuclei.cd114)
    ∷ (pos 1000501200, Nuclei.sn120)
    ∷ (pos 1000541320, Nuclei.xe132)
    ∷ (pos 1000561380, Nuclei.ba138)
    ∷ (pos 1000581400, Nuclei.ce140)
    ∷ (pos 1000621520, Nuclei.sm152)
    ∷ (pos 1000661640, Nuclei.dy164)
    ∷ (pos 1000701740, Nuclei.yb174)
    ∷ (pos 1000731810, Nuclei.ta181)
    ∷ (pos 1000741840, Nuclei.w184)
    ∷ (pos 1000781940, Nuclei.pt194)
    ∷ (pos 1000791970, Nuclei.au197)
    ∷ (pos 1000802020, Nuclei.hg202)
    ∷ (pos 1000822080, Nuclei.pb208)
    ∷ (pos 1000922380, Nuclei.u238)
    ∷ (pos 2224, Codes.delta_plus_plus)
    ∷ (pos 443, Codes.jpsi)
    ∷ (pos 441, Codes.eta_c)
    ∷ (pos 10441, Codes.chi_c0)
    ∷ (pos 20443, Codes.chi_c1)
    ∷ (pos 445, Codes.chi_c2)
    ∷ (pos 100443, Codes.psi2s)
    ∷ (pos 421, Codes.d0)
    ∷ (negsuc 420, Codes.anti_d0)
    ∷ (pos 411, Codes.d_plus)
    ∷ (pos 423, Codes.dstar0)
    ∷ (pos 413, Codes.dstar_plus)
    ∷ (pos 4122, Codes.lambda_c)
    ∷ []

abbrev pdg_to_ptype_cases : List (ℤ × ℕ)
pdg_to_ptype_cases =
    (pos 0, Codes.unknown_particle)
    ∷ (pos 22, Codes.gamma)
    ∷ (negsuc 10, Codes.positron)
    ∷ (pos 11, Codes.electron)
    ∷ (pos 121416, Codes.neutrino)
    ∷ (negsuc 12, Codes.muon_plus)
    ∷ (pos 13, Codes.muon_minus)
    ∷ (pos 111, Codes.pi0)
    ∷ (pos 211, Codes.pi_plus)
    ∷ (negsuc 210, Codes.pi_minus)
    ∷ (pos 310, Codes.k_short)
    ∷ (pos 130, Codes.k_long)
    ∷ (pos 321, Codes.k_plus)
    ∷ (negsuc 320, Codes.k_minus)
    ∷ (pos 2112, Codes.neutron)
    ∷ (pos 2212, Codes.proton)
    ∷ (negsuc 2211, Codes.anti_proton)
    ∷ (pos 221, Codes.eta)
    ∷ (pos 3122, Codes.lambda)
    ∷ (pos 3222, Codes.sigma_plus)
    ∷ (pos 3212, Codes.sigma0)
    ∷ (pos 3112, Codes.sigma_minus)
    ∷ (pos 3322, Codes.xi0)
    ∷ (pos 3312, Codes.xi_minus)
    ∷ (pos 3334, Codes.omega_minus)
    ∷ (negsuc 2111, Codes.anti_neutron)
    ∷ (negsuc 3121, Codes.anti_lambda)
    ∷ (negsuc 3221, Codes.anti_sigma_minus)
    ∷ (negsuc 3211, Codes.anti_sigma0)
    ∷ (negsuc 3111, Codes.anti_sigma_plus)
    ∷ (negsuc 3321, Codes.anti_xi0)
    ∷ (negsuc 3311, Codes.anti_xi_plus)
    ∷ (negsuc 3333, Codes.anti_omega_plus)
    ∷ (pos 113, Codes.rho0)
    ∷ (pos 213, Codes.rho_plus)
    ∷ (negsuc 212, Codes.rho_minus)
    ∷ (pos 223, Codes.omega_meson)
    ∷ (pos 331, Codes.eta_prime)
    ∷ (pos 333, Codes.phi_meson)
    ∷ (pos 9000110, Codes.a0_980)
    ∷ (pos 9010221, Codes.f0_980)
    ∷ (pos 313, Codes.k_star_892_0)
    ∷ (negsuc 312, Codes.anti_k_star_892_0)
    ∷ (pos 323, Codes.k_star_892_plus)
    ∷ (negsuc 322, Codes.k_star_892_minus)
    ∷ (pos 20323, Codes.k1_1400_plus)
    ∷ (negsuc 20322, Codes.k1_1400_minus)
    ∷ (pos 10213, Codes.b1_1235_plus)
    ∷ (pos 45, Codes.deuteron)
    ∷ (pos 46, Codes.triton)
    ∷ (pos 47, Codes.helium)
    ∷ (pos 49, Codes.he3)
    ∷ (pos 3114, Codes.sigma_1385_minus)
    ∷ (pos 3214, Codes.sigma_1385_0)
    ∷ (pos 3224, Codes.sigma_1385_plus)
    ∷ (pos 1000030060, Codes.li6)
    ∷ (pos 1000030070, Codes.li7)
    ∷ (pos 1000040070, Codes.be7)
    ∷ (pos 1000040090, Nuclei.be9)
    ∷ (pos 1000050100, Nuclei.b10)
    ∷ pdg_to_ptype_later

unfoldable pub find_pdg : List (ℤ × ℕ) → ℤ → ℕ
find_pdg [] pdg = Codes.unknown_particle
find_pdg ((n, p) ∷ cases) pdg = let rest = find_pdg cases pdg in if eqb_ℤ n pdg then p else rest

unfoldable pub pdg_to_ptype : ℤ → ℕ
unfolding find_pdg
pdg_to_ptype pdg = find_pdg pdg_to_ptype_cases pdg
