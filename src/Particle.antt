-- ===== src/Particle.antt =====
-- Particle codes and names: `ParticleType` of src/particleType.h, and the search by name in
-- src/xml-hddm.cpp and in `lookupParticle` of src/hddm-cpp.cpp.
pub mod Print
pub mod Lookup
pub mod Multiplex
pub mod Classes
pub mod Charge
pub mod Pdg
pub mod Abbreviation
pub mod RootName
pub mod ShortName
pub mod EvtGen
pub mod EnumString
pub mod EnumNames
pub mod Tables
pub mod Nuclei
pub mod Codes
use hddm.Prelude.{ℕ, zero, suc, ◌+◌, ◌≤◌, arith, String, List, [], ◌∷◌, if◌then◌else◌, ◌==◌}
use hddm.Prelude.Text.{Text, codes, text_eq}
use hddm.Prelude.Int.{ℤ, pos, negsuc}

-- The cases of the switch from phosphorus on: the enumerator's value and the name returned.
nuclei_names : List (ℕ × String)
nuclei_names =
    (76, "Phosphorous")
    ∷ (77, "Sulphur")
    ∷ (78, "Chlorine")
    ∷ (79, "Argon")
    ∷ (80, "Potassium")
    ∷ (81, "Calcium")
    ∷ (82, "Scandium")
    ∷ (83, "Titanium")
    ∷ (84, "Vanadium")
    ∷ (85, "Chromium")
    ∷ (86, "Manganese")
    ∷ (87, "Iron")
    ∷ (88, "Cobalt")
    ∷ (89, "Nickel")
    ∷ (90, "Copper")
    ∷ (91, "Zinc")
    ∷ (92, "Germanium")
    ∷ (93, "Selenium")
    ∷ (94, "Krypton")
    ∷ (95, "Strontium")
    ∷ (96, "Zirconium")
    ∷ (97, "Molybdenum")
    ∷ (98, "Palladium")
    ∷ (99, "Cadmium")
    ∷ (100, "Tin")
    ∷ (101, "Xenon")
    ∷ (102, "Barium")
    ∷ (103, "Cesium")
    ∷ (104, "Samerium")
    ∷ (105, "Dysprosium")
    ∷ (106, "Ytterbium")
    ∷ (113, "Tantalum")
    ∷ (107, "Tungsten")
    ∷ (108, "Platium")
    ∷ (109, "Gold")
    ∷ (110, "Mercury")
    ∷ (111, "Lead")
    ∷ (112, "Uranium")
    ∷ (182, "Delta++")
    ∷ (183, "Jpsi")
    ∷ (184, "EtaC")
    ∷ (185, "ChiC0")
    ∷ (186, "ChiC1")
    ∷ (187, "ChiC2")
    ∷ (188, "Psi(2S)")
    ∷ (189, "D0")
    ∷ (194, "AntiD0")
    ∷ (190, "D+")
    ∷ (191, "D*0")
    ∷ (192, "D*+")
    ∷ (193, "LambdaC")
    ∷ []

-- All cases of the switch: the enumerator's value and the name returned.
particle_names : List (ℕ × String)
particle_names =
    (0, "UnknownParticle")
    ∷ (1, "Photon")
    ∷ (2, "Positron")
    ∷ (3, "Electron")
    ∷ (4, "Neutrino")
    ∷ (5, "Muon+")
    ∷ (6, "Muon-")
    ∷ (7, "Pi0")
    ∷ (8, "Pi+")
    ∷ (9, "Pi-")
    ∷ (10, "KLong")
    ∷ (11, "K+")
    ∷ (12, "K-")
    ∷ (13, "Neutron")
    ∷ (14, "Proton")
    ∷ (15, "AntiProton")
    ∷ (16, "KShort")
    ∷ (17, "Eta")
    ∷ (18, "Lambda")
    ∷ (19, "Sigma+")
    ∷ (20, "Sigma0")
    ∷ (21, "Sigma-")
    ∷ (22, "Xi0")
    ∷ (23, "Xi-")
    ∷ (24, "Omega-")
    ∷ (25, "AntiNeutron")
    ∷ (26, "AntiLambda")
    ∷ (27, "AntiSigma-")
    ∷ (28, "AntiSigma0")
    ∷ (29, "AntiSigma+")
    ∷ (30, "AntiXi0")
    ∷ (31, "AntiXi+")
    ∷ (32, "AntiOmega+")
    ∷ (48, "Geantino")
    ∷ (44, "Rho0")
    ∷ (42, "Rho+")
    ∷ (43, "Rho-")
    ∷ (33, "Omega")
    ∷ (35, "EtaPrime")
    ∷ (34, "Phi")
    ∷ (163, "a0(980)")
    ∷ (164, "f0(980)")
    ∷ (165, "K*(892)0")
    ∷ (166, "K*(892)+")
    ∷ (167, "K*(892)-")
    ∷ (168, "antiK*(892)0")
    ∷ (169, "K1(1400)+")
    ∷ (170, "K1(1400)-")
    ∷ (171, "b1(1235)+")
    ∷ (172, "Sigma(1385)-")
    ∷ (173, "Sigma(1385)0")
    ∷ (174, "Sigma(1385)+")
    ∷ (45, "Deuteron")
    ∷ (46, "Triton")
    ∷ (47, "Helium")
    ∷ (49, "Helium-3")
    ∷ (61, "Lithium-6")
    ∷ (62, "Lithium-7")
    ∷ (63, "Beryllium-7")
    ∷ (64, "Beryllium-9")
    ∷ (65, "Boron-10")
    ∷ (66, "Boron-11")
    ∷ (67, "Carbon")
    ∷ (68, "Nitrogen")
    ∷ (69, "Oxygen")
    ∷ (70, "Fluorine")
    ∷ (71, "Neon")
    ∷ (72, "Sodium")
    ∷ (73, "Magnesium")
    ∷ (74, "Aluminum")
    ∷ (75, "Silicon")
    ∷ nuclei_names

find_name : ℕ → List (ℕ × String) → Text
find_name code [] = codes "UnknownParticle"
find_name code ((n, name) ∷ more) = if n == code then codes name else find_name code more

-- ParticleType((Particle_t)value)
unfoldable pub particle_type : ℤ → Text
unfolding particle_names nuclei_names find_name
particle_type (pos n) = find_name n particle_names
particle_type (negsuc n) = codes "UnknownParticle"

-- for (val = ...; ...; val++) if (valueS == ParticleType(val)) break;
unfoldable pub search_particle : ℕ → ℕ → Text → ℕ
search_particle zero val name = val
search_particle (suc rounds) val name =
    let more = search_particle rounds (val + 1) name in
    if text_eq name (particle_type (pos val)) then val else more

-- The loop of `outputStream`: 99 if no code below it has the name.
unfoldable pub particle_code : Text → ℕ
unfolding search_particle
particle_code name = search_particle 99 0 name

search_particle_bound :
    (rounds val : ℕ) (name : Text) → search_particle rounds val name ≤ rounds + val
unfolding search_particle
search_particle_bound zero val name = omega arith
search_particle_bound (suc rounds) val name =
    ground (arith, search_particle_bound rounds (val + 1) name)

pub particle_code_bound : (name : Text) → particle_code name ≤ 99
unfolding particle_code
particle_code_bound name = search_particle_bound 99 0 name

-- The loop of `lookupParticle`, from a code on.
unfoldable pub lookup_from : ℕ → ℕ → Text → ℕ
lookup_from zero p name = 0
lookup_from (suc rounds) p name =
    let more = lookup_from rounds (p + 1) name in
    if text_eq (particle_type (pos p)) name then p else more

-- lookupParticle
unfoldable pub lookup_particle : Text → ℕ
unfolding lookup_from
lookup_particle name = lookup_from 100 0 name
