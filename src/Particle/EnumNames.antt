-- ===== src/Particle/EnumNames.antt =====
-- ParticleEnum of src/particleType.h.
pub mod Inverse
use hddm.Prelude.{ℕ, String, List, [], ◌∷◌, if◌then◌else◌}
use hddm.Prelude.Text.{Text, codes, text_eq}
use hddm.Particle.Codes
use hddm.Particle.Nuclei

-- The later tests of the chain, and all.
abbrev particle_enum_later : List (String × ℕ)
particle_enum_later =
    ("Boron-11", Nuclei.b11)
    ∷ ("Carbon", Nuclei.c12)
    ∷ ("Nitrogen", Nuclei.n14)
    ∷ ("Oxygen", Nuclei.o16)
    ∷ ("Fluorine", Nuclei.f19)
    ∷ ("Neon", Nuclei.ne20)
    ∷ ("Sodium", Nuclei.na23)
    ∷ ("Magnesium", Nuclei.mg24)
    ∷ ("Aluminum", Nuclei.al27)
    ∷ ("Silicon", Nuclei.si28)
    ∷ ("Phosphorous", Nuclei.p31)
    ∷ ("Sulphur", Nuclei.s32)
    ∷ ("Chlorine", Nuclei.cl35)
    ∷ ("Argon", Nuclei.ar36)
    ∷ ("Potassium", Nuclei.k39)
    ∷ ("Calcium", Nuclei.ca40)
    ∷ ("Scandium", Nuclei.sc45)
    ∷ ("Titanium", Nuclei.ti48)
    ∷ ("Vanadium", Nuclei.v51)
    ∷ ("Chromium", Nuclei.cr52)
    ∷ ("Manganese", Nuclei.mn55)
    ∷ ("Iron", Nuclei.fe56)
    ∷ ("Cobalt", Nuclei.co59)
    ∷ ("Nickel", Nuclei.ni58)
    ∷ ("Copper", Nuclei.cu63)
    ∷ ("Zinc", Nuclei.zn64)
    ∷ ("Germanium", Nuclei.ge74)
    ∷ ("Selenium", Nuclei.se80)
    ∷ ("Krypton", Nuclei.kr84)
    ∷ ("Strontium", Nuclei.sr88)
    ∷ ("Zirconium", Nuclei.zr90)
    ∷ ("Molybdenum", Nuclei.mo98)
    ∷ ("Palladium", Nuclei.pd106)
    ∷ ("Cadmium", Nuclei.cd114)
    ∷ ("Tin", Nuclei.sn120)
    ∷ ("Xenon", Nuclei.xe132)
    ∷ ("Barium", Nuclei.ba138)
    ∷ ("Cesium", Nuclei.ce140)
    ∷ ("Samerium", Nuclei.sm152)
    ∷ ("Dysprosium", Nuclei.dy164)
    ∷ ("Ytterbium", Nuclei.yb174)
    ∷ ("Tantalum", Nuclei.ta181)
    ∷ ("Tungsten", Nuclei.w184)
    ∷ ("Platium", Nuclei.pt194)
    ∷ ("Gold", Nuclei.au197)
    ∷ ("Mercury", Nuclei.hg202)
    ∷ ("Lead", Nuclei.pb208)
    ∷ ("Uranium", Nuclei.u238)
    ∷ ("Delta++", Codes.delta_plus_plus)
    ∷ ("Jpsi", Codes.jpsi)
    ∷ ("EtaC", Codes.eta_c)
    ∷ ("ChiC0", Codes.chi_c0)
    ∷ ("ChiC1", Codes.chi_c1)
    ∷ ("ChiC2", Codes.chi_c2)
    ∷ ("Psi(2S)", Codes.psi2s)
    ∷ ("D0", Codes.d0)
    ∷ ("AntiD0", Codes.anti_d0)
    ∷ ("D+", Codes.d_plus)
    ∷ ("D*0", Codes.dstar0)
    ∷ ("D*+", Codes.dstar_plus)
    ∷ ("LambdaC", Codes.lambda_c)
    ∷ []

abbrev particle_enum_tests : List (String × ℕ)
particle_enum_tests =
    ("UnknownParticle", Codes.unknown_particle)
    ∷ ("Photon", Codes.gamma)
    ∷ ("Positron", Codes.positron)
    ∷ ("Electron", Codes.electron)
    ∷ ("Neutrino", Codes.neutrino)
    ∷ ("Muon+", Codes.muon_plus)
    ∷ ("Muon-", Codes.muon_minus)
    ∷ ("Pi0", Codes.pi0)
    ∷ ("Pi+", Codes.pi_plus)
    ∷ ("Pi-", Codes.pi_minus)
    ∷ ("KLong", Codes.k_long)
    ∷ ("K+", Codes.k_plus)
    ∷ ("K-", Codes.k_minus)
    ∷ ("Neutron", Codes.neutron)
    ∷ ("Proton", Codes.proton)
    ∷ ("AntiProton", Codes.anti_proton)
    ∷ ("KShort", Codes.k_short)
    ∷ ("Eta", Codes.eta)
    ∷ ("Lambda", Codes.lambda)
    ∷ ("Sigma+", Codes.sigma_plus)
    ∷ ("Sigma0", Codes.sigma0)
    ∷ ("Sigma-", Codes.sigma_minus)
    ∷ ("Xi0", Codes.xi0)
    ∷ ("Xi-", Codes.xi_minus)
    ∷ ("Omega-", Codes.omega_minus)
    ∷ ("AntiNeutron", Codes.anti_neutron)
    ∷ ("AntiLambda", Codes.anti_lambda)
    ∷ ("AntiSigma-", Codes.anti_sigma_minus)
    ∷ ("AntiSigma0", Codes.anti_sigma0)
    ∷ ("AntiSigma+", Codes.anti_sigma_plus)
    ∷ ("AntiXi0", Codes.anti_xi0)
    ∷ ("AntiXi+", Codes.anti_xi_plus)
    ∷ ("AntiOmega+", Codes.anti_omega_plus)
    ∷ ("Geantino", Codes.geantino)
    ∷ ("Rho0", Codes.rho0)
    ∷ ("Rho+", Codes.rho_plus)
    ∷ ("Rho-", Codes.rho_minus)
    ∷ ("Omega", Codes.omega_meson)
    ∷ ("EtaPrime", Codes.eta_prime)
    ∷ ("Phi", Codes.phi_meson)
    ∷ ("a0(980)", Codes.a0_980)
    ∷ ("f0(980)", Codes.f0_980)
    ∷ ("K*(892)0", Codes.k_star_892_0)
    ∷ ("K*(892)+", Codes.k_star_892_plus)
    ∷ ("K*(892)-", Codes.k_star_892_minus)
    ∷ ("antiK*(892)0", Codes.anti_k_star_892_0)
    ∷ ("K1(1400)+", Codes.k1_1400_plus)
    ∷ ("K1(1400)-", Codes.k1_1400_minus)
    ∷ ("b1(1235)+", Codes.b1_1235_plus)
    ∷ ("Sigma(1385)-", Codes.sigma_1385_minus)
    ∷ ("Sigma(1385)0", Codes.sigma_1385_0)
    ∷ ("Sigma(1385)+", Codes.sigma_1385_plus)
    ∷ ("Deuteron", Codes.deuteron)
    ∷ ("Triton", Codes.triton)
    ∷ ("Helium", Codes.helium)
    ∷ ("Helium-3", Codes.he3)
    ∷ ("Lithium-6", Codes.li6)
    ∷ ("Lithium-7", Codes.li7)
    ∷ ("Beryllium-7", Codes.be7)
    ∷ ("Beryllium-9", Nuclei.be9)
    ∷ ("Boron-10", Nuclei.b10)
    ∷ particle_enum_later

-- if (strcmp(...) == 0) return ...; else if ...
find_enum : List (String × ℕ) → Text → ℕ
find_enum [] name = Codes.unknown_particle
find_enum ((s, p) ∷ tests) name =
    let rest = find_enum tests name in if text_eq name (codes s) then p else rest

unfoldable pub particle_enum : Text → ℕ
unfolding find_enum
particle_enum name = find_enum particle_enum_tests name
