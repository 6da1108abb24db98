-- ===== src/XString.antt =====
-- `basename` of src/XString.cpp.
use hddm.Prelude.{
  ℕ, suc, ◌≡◌, refl, ap, true, false, [], ◌∷◌, ◌++◌, Option, none, some, drop, ◌==◌, ◌⊎◌, inl, inr,
  Bool, Bool-cases, arith, if◌then◌else◌,
}
use hddm.Prelude.Text.{Text}

-- s.find_last_of of one character
unfoldable pub find_last_of : ℕ → Text → Option ℕ
find_last_of c [] = none
find_last_of c (x ∷ xs) = elim (find_last_of c xs) [
  | some p ↦ some (suc p)
  | none ↦ if x == c then some 0 else none
]

-- XString::basename
unfoldable pub basename : Text → Text
basename s = elim (find_last_of b'/' s) [ none ↦ s | some p ↦ drop (suc p) s ]

abbrev pub has_slash : Text → Bool
has_slash [] = false
has_slash (x ∷ xs) = if x == b'/' then true else has_slash xs

-- Where the last slash is: nowhere, or with a rest behind it that has none.
abbrev Located : Text → Option ℕ → Type 0
Located s none = has_slash s ≡ false
Located s (some p) =
    (has_slash (drop (suc p) s) ≡ false) × (dir : Text) × (s ≡ dir ++ (b'/' ∷ drop (suc p) s))

Located-cons :
    (x : ℕ) (xs : Text) (o : Option ℕ)
    → Located xs o
    → Located
        (x ∷ xs)
        (elim o [ some p ↦ some (suc p) | none ↦ if x == b'/' then some 0 else none ])
Located-cons x xs (some p) (clean, dir, e) = (clean, x ∷ dir, ap (λ t. x ∷ t) e)
Located-cons x xs none clean = elim (Bool-cases (x == b'/')) [
  | inl here ↦ let same : x ≡ b'/' = ground arith in rw here (clean, [], ap (λ c. c ∷ xs) same)
  | inr other ↦ rw (other, other) clean
]

find_last_of-Located : (s : Text) → Located s (find_last_of b'/' s)
unfolding find_last_of
find_last_of-Located [] = refl
find_last_of-Located (x ∷ xs) = Located-cons x xs (find_last_of b'/' xs) (find_last_of-Located xs)

basename_cases :
    (s : Text) (o : Option ℕ)
    → Located s o
    → (has_slash (elim o [ none ↦ s | some p ↦ drop (suc p) s ]) ≡ false)
      × (((elim o [ none ↦ s | some p ↦ drop (suc p) s ]) ≡ s)
          ⊎ ((dir : Text) × (s ≡ dir ++ (b'/' ∷ elim o [ none ↦ s | some p ↦ drop (suc p) s ]))))
basename_cases s none clean = (clean, inl refl)
basename_cases s (some p) (clean, dir, e) = (clean, inr (dir, e))

-- The base name has no slash, and it is the whole name or what follows a slash at its end.
pub basename-has_slash :
    (s : Text)
    → (has_slash (basename s) ≡ false)
      × ((basename s ≡ s) ⊎ ((dir : Text) × (s ≡ dir ++ (b'/' ∷ basename s))))
unfolding basename
basename-has_slash s = basename_cases s (find_last_of b'/' s) (find_last_of-Located s)
