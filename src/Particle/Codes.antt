-- ===== src/Particle/Codes.antt =====
-- The values of the enumeration Particle_t of src/particleType.h: the particles.
use hddm.Prelude.{ℕ}

abbrev pub unknown_particle : ℕ
unknown_particle = 0

abbrev pub gamma : ℕ
gamma = 1

abbrev pub positron : ℕ
positron = 2

abbrev pub electron : ℕ
electron = 3

abbrev pub neutrino : ℕ
neutrino = 4

abbrev pub muon_plus : ℕ
muon_plus = 5

abbrev pub muon_minus : ℕ
muon_minus = 6

abbrev pub pi0 : ℕ
pi0 = 7

abbrev pub pi_plus : ℕ
pi_plus = 8

abbrev pub pi_minus : ℕ
pi_minus = 9

abbrev pub k_long : ℕ
k_long = 10

abbrev pub k_plus : ℕ
k_plus = 11

abbrev pub k_minus : ℕ
k_minus = 12

abbrev pub neutron : ℕ
neutron = 13

abbrev pub proton : ℕ
proton = 14

abbrev pub anti_proton : ℕ
anti_proton = 15

abbrev pub k_short : ℕ
k_short = 16

abbrev pub eta : ℕ
eta = 17

abbrev pub lambda : ℕ
lambda = 18

abbrev pub sigma_plus : ℕ
sigma_plus = 19

abbrev pub sigma0 : ℕ
sigma0 = 20

abbrev pub sigma_minus : ℕ
sigma_minus = 21

abbrev pub xi0 : ℕ
xi0 = 22

abbrev pub xi_minus : ℕ
xi_minus = 23

abbrev pub omega_minus : ℕ
omega_minus = 24

abbrev pub anti_neutron : ℕ
anti_neutron = 25

abbrev pub anti_lambda : ℕ
anti_lambda = 26

abbrev pub anti_sigma_minus : ℕ
anti_sigma_minus = 27

abbrev pub anti_sigma0 : ℕ
anti_sigma0 = 28

abbrev pub anti_sigma_plus : ℕ
anti_sigma_plus = 29

abbrev pub anti_xi0 : ℕ
anti_xi0 = 30

abbrev pub anti_xi_plus : ℕ
anti_xi_plus = 31

abbrev pub anti_omega_plus : ℕ
anti_omega_plus = 32

abbrev pub deuteron : ℕ
deuteron = 45

abbrev pub triton : ℕ
triton = 46

abbrev pub helium : ℕ
helium = 47

abbrev pub geantino : ℕ
geantino = 48

abbrev pub he3 : ℕ
he3 = 49

abbrev pub li6 : ℕ
li6 = 61

abbrev pub li7 : ℕ
li7 = 62

abbrev pub be7 : ℕ
be7 = 63

abbrev pub rho0 : ℕ
rho0 = 44

abbrev pub rho_plus : ℕ
rho_plus = 42

abbrev pub rho_minus : ℕ
rho_minus = 43

abbrev pub omega_meson : ℕ
omega_meson = 33

abbrev pub phi_meson : ℕ
phi_meson = 34

abbrev pub eta_prime : ℕ
eta_prime = 35

abbrev pub a0_980 : ℕ
a0_980 = 163

abbrev pub f0_980 : ℕ
f0_980 = 164

abbrev pub k_star_892_0 : ℕ
k_star_892_0 = 165

abbrev pub k_star_892_plus : ℕ
k_star_892_plus = 166

abbrev pub k_star_892_minus : ℕ
k_star_892_minus = 167

abbrev pub anti_k_star_892_0 : ℕ
anti_k_star_892_0 = 168

abbrev pub k1_1400_plus : ℕ
k1_1400_plus = 169

abbrev pub k1_1400_minus : ℕ
k1_1400_minus = 170

abbrev pub b1_1235_plus : ℕ
b1_1235_plus = 171

abbrev pub sigma_1385_minus : ℕ
sigma_1385_minus = 172

abbrev pub sigma_1385_0 : ℕ
sigma_1385_0 = 173

abbrev pub sigma_1385_plus : ℕ
sigma_1385_plus = 174

abbrev pub jpsi : ℕ
jpsi = 183

abbrev pub eta_c : ℕ
eta_c = 184

abbrev pub chi_c0 : ℕ
chi_c0 = 185

abbrev pub chi_c1 : ℕ
chi_c1 = 186

abbrev pub chi_c2 : ℕ
chi_c2 = 187

abbrev pub psi2s : ℕ
psi2s = 188

abbrev pub d0 : ℕ
d0 = 189

abbrev pub d_plus : ℕ
d_plus = 190

abbrev pub dstar0 : ℕ
dstar0 = 191

abbrev pub dstar_plus : ℕ
dstar_plus = 192

abbrev pub lambda_c : ℕ
lambda_c = 193

abbrev pub anti_d0 : ℕ
anti_d0 = 194

abbrev pub delta_plus_plus : ℕ
delta_plus_plus = 182
