-- ===== src/Particle/EnumNames/Inverse.antt =====
-- ParticleEnum reads the names that ParticleType gives, and each table's names tell particles apart.
use hddm.Prelude.{
  ℕ, ◌≡◌, ◌≢◌, refl, ap, sym, ◌∙◌, Bool, true, List, [], ◌∷◌, ◌==◌, ◌||◌, Bool-cases, inl, inr,
  if◌then◌else◌, ==_iff,
}
use hddm.Prelude.Text.{Text, text_eq, text_eq→eq, codes}
use hddm.Prelude.Int.{pos}
use hddm.Particle.{particle_type}
use hddm.Particle.Tables.{IsParticle, all, all-one_of, particles}
use hddm.Particle.EnumNames.{particle_enum}
use hddm.Particle.EnumString.{enum_string}
use hddm.Particle.Abbreviation.{get_short_name}
use hddm.Particle.EvtGen.{evt_gen_string}
use hddm.Particle.ShortName.{short_name}
use hddm.Particle.RootName.{particle_name_root}

comes_back : ℕ → Bool
comes_back p = particle_enum (particle_type (pos p)) == p

all-comes_back : all comes_back particles ≡ true
unfolding comes_back particle_type particle_enum hddm.Particle.EnumNames.find_enum text_eq
all-comes_back = refl

-- ParticleEnum gives every particle back from the name that ParticleType gives it.
pub particle_enum-particle_type : (p : ℕ) → IsParticle p → particle_enum (particle_type (pos p)) ≡ p
unfolding comes_back
particle_enum-particle_type p h =
    let passed = all-one_of comes_back particles p all-comes_back h in
    (==_iff (particle_enum (particle_type (pos p))) p).0 passed

-- The first particle whose name in a table is the text.
find : (ℕ → Text) → List ℕ → Text → ℕ
find name [] text = 0
find name (p ∷ ps) text = let rest = find name ps text in if text_eq text (name p) then p else rest

found : (ℕ → Text) → ℕ → Bool
found name p = find name particles (name p) == p

found-distinct :
    (name : ℕ → Text) (p q : ℕ)
    → all (found name) particles ≡ true
    → IsParticle p
    → IsParticle q
    → name p ≡ name q
    → p ≡ q
unfolding found
found-distinct name p q h in_p in_q same =
    let at_p =
      (==_iff (find name particles (name p)) p).0 (all-one_of (found name) particles p h in_p) in
    let at_q =
      (==_iff (find name particles (name q)) q).0 (all-one_of (found name) particles q h in_q) in
    sym at_p ∙ ap (find name particles) same ∙ at_q

all-found_enum : all (found enum_string) particles ≡ true
unfolding found find enum_string text_eq
all-found_enum = refl

all-found_evt_gen : all (found evt_gen_string) particles ≡ true
unfolding found find evt_gen_string text_eq
all-found_evt_gen = refl

all-found_short : all (found short_name) particles ≡ true
unfolding found find short_name text_eq
all-found_short = refl

all-found_root : all (found particle_name_root) particles ≡ true
unfolding found find particle_name_root text_eq
all-found_root = refl

all-found_abbreviation :
    all
      (λ p. text_eq (get_short_name p) (codes "UnknownParticle") || found get_short_name p)
      particles
    ≡ true
unfolding found find get_short_name text_eq
all-found_abbreviation = refl

-- The abbreviation, which is not there for every particle.
get_short_name-distinct :
    (p q : ℕ)
    → IsParticle p
    → IsParticle q
    → get_short_name p ≢ codes "UnknownParticle"
    → get_short_name p ≡ get_short_name q
    → p ≡ q
unfolding found
get_short_name-distinct p q in_p in_q known same =
    sym (at_particle p in_p known)
    ∙ ap (find get_short_name particles) same
    ∙ at_particle q in_q (λ unknown. known (same ∙ unknown))
  where
    at_particle :
        (r : ℕ)
        → IsParticle r
        → get_short_name r ≢ codes "UnknownParticle"
        → find get_short_name particles (get_short_name r) ≡ r
    at_particle r in_r some_name =
        let test : ℕ → Bool =
          λ k. text_eq (get_short_name k) (codes "UnknownParticle") || found get_short_name k in
        let passed : (text_eq (get_short_name r) (codes "UnknownParticle")
              || found get_short_name r)
            ≡ true =
          all-one_of test particles r all-found_abbreviation in_r in
        elim (Bool-cases (text_eq (get_short_name r) (codes "UnknownParticle"))) [
          | inl none_there ↦
              absurd
                (some_name (text_eq→eq (get_short_name r) (codes "UnknownParticle") none_there))
          | inr other ↦
              let e : (find get_short_name particles (get_short_name r) == r) ≡ true =
                rw other at passed in
              (==_iff (find get_short_name particles (get_short_name r)) r).0 e
        ]

-- Two particles with the same name in EnumString, EvtGenString, ShortName or ParticleName_ROOT are the
-- same, and with the same in Get_ShortName unless that is its default.
pub names-distinct :
    (p q : ℕ)
    → IsParticle p
    → IsParticle q
    → (enum_string p ≡ enum_string q → p ≡ q)
      × (evt_gen_string p ≡ evt_gen_string q → p ≡ q)
      × (short_name p ≡ short_name q → p ≡ q)
      × (particle_name_root p ≡ particle_name_root q → p ≡ q)
      × (get_short_name p ≢ codes "UnknownParticle" → get_short_name p ≡ get_short_name q → p ≡ q)
names-distinct p q in_p in_q = (
  found-distinct enum_string p q all-found_enum in_p in_q,
  found-distinct evt_gen_string p q all-found_evt_gen in_p in_q,
  found-distinct short_name p q all-found_short in_p in_q,
  found-distinct particle_name_root p q all-found_root in_p in_q,
  get_short_name-distinct p q in_p in_q,
)
