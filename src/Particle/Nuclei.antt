-- ===== src/Particle/Nuclei.antt =====
-- The values of the enumeration Particle_t of src/particleType.h: the nuclei from Be9 on.
use hddm.Prelude.{ℕ}

abbrev pub be9 : ℕ
be9 = 64

abbrev pub b10 : ℕ
b10 = 65

abbrev pub b11 : ℕ
b11 = 66

abbrev pub c12 : ℕ
c12 = 67

abbrev pub n14 : ℕ
n14 = 68

abbrev pub o16 : ℕ
o16 = 69

abbrev pub f19 : ℕ
f19 = 70

abbrev pub ne20 : ℕ
ne20 = 71

abbrev pub na23 : ℕ
na23 = 72

abbrev pub mg24 : ℕ
mg24 = 73

abbrev pub al27 : ℕ
al27 = 74

abbrev pub si28 : ℕ
si28 = 75

abbrev pub p31 : ℕ
p31 = 76

abbrev pub s32 : ℕ
s32 = 77

abbrev pub cl35 : ℕ
cl35 = 78

abbrev pub ar36 : ℕ
ar36 = 79

abbrev pub k39 : ℕ
k39 = 80

abbrev pub ca40 : ℕ
ca40 = 81

abbrev pub sc45 : ℕ
sc45 = 82

abbrev pub ti48 : ℕ
ti48 = 83

abbrev pub v51 : ℕ
v51 = 84

abbrev pub cr52 : ℕ
cr52 = 85

abbrev pub mn55 : ℕ
mn55 = 86

abbrev pub fe56 : ℕ
fe56 = 87

abbrev pub co59 : ℕ
co59 = 88

abbrev pub ni58 : ℕ
ni58 = 89

abbrev pub cu63 : ℕ
cu63 = 90

abbrev pub zn64 : ℕ
zn64 = 91

abbrev pub ge74 : ℕ
ge74 = 92

abbrev pub se80 : ℕ
se80 = 93

abbrev pub kr84 : ℕ
kr84 = 94

abbrev pub sr88 : ℕ
sr88 = 95

abbrev pub zr90 : ℕ
zr90 = 96

abbrev pub mo98 : ℕ
mo98 = 97

abbrev pub pd106 : ℕ
pd106 = 98

abbrev pub cd114 : ℕ
cd114 = 99

abbrev pub sn120 : ℕ
sn120 = 100

abbrev pub xe132 : ℕ
xe132 = 101

abbrev pub ba138 : ℕ
ba138 = 102

abbrev pub ce140 : ℕ
ce140 = 103

abbrev pub sm152 : ℕ
sm152 = 104

abbrev pub dy164 : ℕ
dy164 = 105

abbrev pub yb174 : ℕ
yb174 = 106

abbrev pub w184 : ℕ
w184 = 107

abbrev pub pt194 : ℕ
pt194 = 108

abbrev pub au197 : ℕ
au197 = 109

abbrev pub hg202 : ℕ
hg202 = 110

abbrev pub pb208 : ℕ
pb208 = 111

abbrev pub u238 : ℕ
u238 = 112

abbrev pub ta181 : ℕ
ta181 = 113
