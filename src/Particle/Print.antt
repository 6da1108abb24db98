-- ===== src/Particle/Print.antt =====
-- Particles that src/hddm-xml.cpp prints, read again by src/xml-hddm.cpp.
use hddm.Prelude.{
  ℕ, zero, suc, ◌+◌, ◌≤◌, ◌<◌, ◌≡◌, refl, ap, sym, subst, ◌∙◌, ◌⊎◌, Bool, true, false, [], ◌∷◌,
  ◌++◌, ◌==◌, inl, inr, Bool-cases, arith, append_assoc, if◌then◌else◌,
}
use hddm.Prelude.Text.{Text, text_eq, text_eq→eq}
use hddm.Prelude.Int.{ℤ, pos}
use hddm.Scalar.{show_int}
use hddm.HddmXml.{show_particle}
use hddm.Particle.{particle_type, search_particle, particle_code}

-- The text ends with a closing parenthesis.
abbrev ends_closed : Text → Bool
ends_closed [] = false
ends_closed (c ∷ []) = c == b')'
ends_closed (c ∷ d ∷ cs) = ends_closed (d ∷ cs)

ends_closed-append : (t : Text) → ends_closed (t ++ (b')' ∷ [])) ≡ true
ends_closed-append [] = refl
ends_closed-append (c ∷ []) = refl
ends_closed-append (c ∷ d ∷ cs) = ends_closed-append (d ∷ cs)

show_particle-ends_closed : (v : ℤ) → ends_closed (show_particle v) ≡ true
unfolding show_particle
show_particle-ends_closed v =
    ap ends_closed (sym (append_assoc (particle_type v) (b'(' ∷ show_int v) (b')' ∷ [])))
    ∙ ends_closed-append (particle_type v ++ (b'(' ∷ show_int v))

-- No name among the codes from `val` on, `rounds` many, ends so.
abbrev none_closed : ℕ → ℕ → Bool
none_closed zero val = true
none_closed (suc rounds) val =
    let more = none_closed rounds (val + 1) in
    if ends_closed (particle_type (pos val)) then false else more

search_particle-none :
    (rounds val : ℕ) (t : Text)
    → ends_closed t ≡ true
    → none_closed rounds val ≡ true
    → search_particle rounds val t ≡ rounds + val
unfolding search_particle
search_particle-none zero val t h k = omega arith
search_particle-none (suc rounds) val t h k =
    elim (Bool-cases (ends_closed (particle_type (pos val)))) [
      | inl closes ↦ absurd (let k' = rw closes at k in cc)
      | inr bare ↦ elim (Bool-cases (text_eq t (particle_type (pos val)))) [
        | inl same ↦
            let closes : ends_closed (particle_type (pos val)) ≡ true =
              subst (λ s. ends_closed s ≡ true) (text_eq→eq t (particle_type (pos val)) same) h in
            absurd cc
        | inr apart ↦
            rw apart (search_particle-none rounds (val + 1) t h (rw bare at k) ∙ omega arith)
      ]
    ]

names_open : none_closed 99 0 ≡ true
unfolding particle_type
names_open = refl

-- What `hddm-xml` prints of a particle, whatever its code, `xml-hddm` reads as code 99: the printed
-- value carries the code in parentheses, and no name of a code below 99 ends with one.
pub particle_code-show_particle : (v : ℤ) → particle_code (show_particle v) ≡ 99
unfolding particle_code
particle_code-show_particle v =
    search_particle-none 99 0 (show_particle v) (show_particle-ends_closed v) names_open

search_particle-first :
    (rounds val : ℕ) (s : Text)
    → ((n : ℕ)
        → val ≤ n
        → n < search_particle rounds val s
        → text_eq s (particle_type (pos n)) ≡ false)
      × ((search_particle rounds val s ≡ rounds + val)
          ⊎ (text_eq s (particle_type (pos (search_particle rounds val s))) ≡ true))
unfolding search_particle
search_particle-first zero val s = ((λ n h k. absurd (omega arith)), inl (omega arith))
search_particle-first (suc rounds) val s = elim (Bool-cases (text_eq s (particle_type (pos val)))) [
  | inl same ↦ rw same ((λ n h k. absurd (omega arith)), inr same)
  | inr apart ↦
      let (none, found) = search_particle-first rounds (val + 1) s in
      rw apart (
        (λ n h k. elim (Bool-cases (n == val)) [
          | inl here ↦ (let e : n ≡ val = ground arith in rw e apart)
          | inr there ↦ none n (ground arith) k
        ]),
        elim found [ inl all ↦ inl (all ∙ omega arith) | inr this ↦ inr this ],
      )
]

-- `xml-hddm` stores the first code whose name is the attribute's text: no smaller code has that name,
-- and the code itself has it unless it is 99.
pub particle_code-first :
    (s : Text)
    → ((n : ℕ) → n < particle_code s → text_eq s (particle_type (pos n)) ≡ false)
      × ((particle_code s ≡ 99) ⊎ (text_eq s (particle_type (pos (particle_code s))) ≡ true))
unfolding particle_code
particle_code-first s =
    let (none, found) = search_particle-first 99 0 s in ((λ n h. none n (omega arith) h), found)
