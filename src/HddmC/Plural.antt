-- ===== src/HddmC/Plural.antt =====
-- Where `XtString::plural` of src/hddm-c.cpp throws.
use hddm.Prelude.{
  ℕ, ◌-◌, ◌≤◌, ◌≡◌, ◌≢◌, refl, Bool, true, false, [], ◌∷◌, Option, none, some, length, drop, arith,
  inl, inr, Bool-cases, ltb, ge→ltb, ◌⊎◌,
}
use hddm.Prelude.Text.{Text, codes, text_eq}
use hddm.HddmC.{ends_with, longer_with, on_test, replace_end, plural}

-- A test is made where the text is long enough for it, or is not made.
longer_with-some :
    (bound : ℕ) (suffix p : Text)
    → (length suffix ≤ length p) ⊎ (length p ≤ bound)
    → (b : Bool) × (longer_with bound suffix p ≡ some b)
unfolding longer_with ends_with
longer_with-some bound suffix p h = elim (Bool-cases (ltb bound (length p))) [
  | inr short ↦ (false, rw short)
  | inl long ↦ elim h [
    | inl enough ↦ (
      text_eq (drop (length p - length suffix) p) suffix,
      rw (long, ge→ltb (length p) (length suffix) enough),
    )
    | inr short ↦ absurd (ground arith)
  ]
]

on_test-some :
    (t : Option Bool) (b : Bool) (ended : Text) (rest : Option Text) (r : Text)
    → t ≡ some b
    → rest ≡ some r
    → (r' : Text) × (on_test t ended rest ≡ some r')
on_test-some none b ended rest r h k = cc
on_test-some (some true) b ended rest r h k = (ended, refl)
on_test-some (some false) b ended rest r h k = (r, k)

plural_two : (p : Text) → length p ≡ 2 → plural p ≡ none
unfolding plural longer_with ends_with
plural_two [] h = absurd (omega (arith, h))
plural_two (a ∷ []) h = absurd (omega (arith, h))
plural_two (a ∷ b ∷ []) h = refl
plural_two (a ∷ b ∷ c ∷ p) h = absurd (omega (arith, h))

plural_other : (p : Text) → length p ≢ 2 → (r : Text) × (plural p ≡ some r)
unfolding plural
plural_other p h =
    let test : (bound : ℕ) (suffix : Text)
        → 1 ≤ bound
        → length suffix ≤ 3
        → (b : Bool) × (longer_with bound suffix p ≡ some b) =
      λ bound suffix one three.
        longer_with-some bound suffix p (elim (Bool-cases (ltb (length p) 3)) [
          | inl short ↦ inr (ground arith)
          | inr long ↦ inl (ground arith)
        ]) in
    let (b₁, t₁) = test 1 (codes "s") (omega arith) (omega arith) in
    let (b₂, t₂) = test 2 (codes "sh") (omega arith) (omega arith) in
    let (b₃, t₃) = test 2 (codes "ex") (omega arith) (omega arith) in
    let (b₄, t₄) = test 1 (codes "ies") (omega arith) (omega arith) in
    let (b₅, t₅) = test 3 (codes "tum") (omega arith) (omega arith) in
    let (r₁, e₁) = on_test-some _ b₁ (replace_end 1 (codes "ses") p) _ _ t₁ refl in
    let (r₂, e₂) = on_test-some _ b₂ (replace_end 2 (codes "shes") p) _ _ t₂ e₁ in
    let (r₃, e₃) = on_test-some _ b₃ (replace_end 2 (codes "ices") p) _ _ t₃ e₂ in
    let (r₄, e₄) = on_test-some _ b₄ (replace_end 3 (codes "iesList") p) _ _ t₄ e₃ in
    on_test-some _ b₅ (replace_end 3 (codes "ta") p) _ _ t₅ e₄

-- `plural` throws std::out_of_range for a name of two letters, and for no other.
pub plural-throws :
    (p : Text)
    → (length p ≡ 2 → plural p ≡ none) × (length p ≢ 2 → (r : Text) × (plural p ≡ some r))
plural-throws p = (plural_two p, plural_other p)
