-- ===== src/HddmC/Groups.antt =====
-- The list of tags that `constructGroup` of src/hddm-c.cpp makes.
use hddm.Prelude.{
  ℕ, suc, ◌≡◌, refl, ap, subst, ◌∙◌, Bool, true, false, List, [], ◌∷◌, ◌++◌, length, ◌||◌, inl, inr,
  Bool-cases, ◌⊎◌,
}
use hddm.Prelude.Text.{Text, text_eq, text_eq_refl, text_eq_flip}
use hddm.Outcome.{Outcome, ok, exit, fault, >>=-eq-ok}
use hddm.Dom.{Node, Nodes, element, text, nil, cons, tag_name}
use hddm.HddmC.{Entry, Builder, check_consistency, consult, construct_group, construct_groups}

-- Some entry has the name.
abbrev pub is_listed : Text → List Entry → Bool
is_listed name [] = false
is_listed name (e ∷ es) = text_eq name (tag_name e.node) || is_listed name es

-- No name is there twice.
abbrev pub IsDistinct : List Entry → Type 0
IsDistinct [] = Unit
IsDistinct (e ∷ es) = (is_listed (tag_name e.node) es ≡ false) × IsDistinct es

is_listed-append :
    (name : Text) (es : List Entry) (e : Entry)
    → is_listed name (es ++ (e ∷ [])) ≡ (is_listed name es || text_eq name (tag_name e.node))
is_listed-append name [] e = elim (Bool-cases (text_eq name (tag_name e.node))) [
  | inl same ↦ rw same
  | inr other ↦ rw other
]
is_listed-append name (x ∷ es) e = elim (Bool-cases (text_eq name (tag_name x.node))) [
  | inl same ↦ rw same
  | inr other ↦ rw other (is_listed-append name es e)
]

IsDistinct-append :
    (es : List Entry) (e : Entry)
    → IsDistinct es
    → is_listed (tag_name e.node) es ≡ false
    → IsDistinct (es ++ (e ∷ []))
IsDistinct-append [] e d h = (refl, tt)
IsDistinct-append (x ∷ es) e d h = elim (Bool-cases (text_eq (tag_name e.node) (tag_name x.node))) [
  | inl same ↦ absurd (let h' = rw same at h in cc)
  | inr other ↦ (
    is_listed-append (tag_name x.node) es e
        ∙ rw (d.0, text_eq_flip (tag_name e.node) (tag_name x.node) other),
    IsDistinct-append es e d.1 (rw other at h),
  )
]

consult-eq-ok :
    (el : Entry) (es : List Entry) (found otherwise : Outcome Builder) (s : Builder)
    → consult el es found otherwise ≡ ok s
    → ((is_listed (tag_name el.node) es ≡ true) × (found ≡ ok s))
      ⊎ ((is_listed (tag_name el.node) es ≡ false) × (otherwise ≡ ok s))
unfolding consult
consult-eq-ok el [] found otherwise s h = inr (refl, h)
consult-eq-ok el (e ∷ es) found otherwise s h =
    elim (Bool-cases (text_eq (tag_name el.node) (tag_name e.node))) [
      | inl same ↦
          let (_, _, k) = >>=-eq-ok (check_consistency el e) _ (rw same at h) in inl (rw same, k)
      | inr other ↦ rw other (consult-eq-ok el es found otherwise s (rw other at h))
    ]

-- What a run made of the tags that were there.
pub record Extends (old new : List Entry) : Type 0 where
  pub distinct : IsDistinct old → IsDistinct new
  pub kept : (name : Text) → is_listed name old ≡ true → is_listed name new ≡ true

Extends-refl : (a : List Entry) → Extends a a
Extends-refl a = record { distinct = λ d. d; kept = λ name h. h }

Extends-trans : (a b c : List Entry) → Extends a b → Extends b c → Extends a c
Extends-trans a b c f g = record {
  distinct = λ d. g.distinct (f.distinct d);
  kept = λ name h. g.kept name (f.kept name h);
}

Extends-entered :
    (es : List Entry) (e : Entry)
    → is_listed (tag_name e.node) es ≡ false
    → Extends es (es ++ (e ∷ []))
Extends-entered es e h = record {
  distinct = λ d. IsDistinct-append es e d h;
  kept = λ name k. is_listed-append name es e ∙ rw k;
}

abbrev tags_of : Outcome Builder → List Entry
tags_of (ok s) = s.tags
tags_of (exit n) = []
tags_of fault = []

module _ (declare : Node → Outcome Text) where
  mutual
    unfolding construct_group

    group-Extends :
        (parent : ℕ) (n : Node) (s s' : Builder)
        → construct_group declare parent n s ≡ ok s'
        → Extends s.tags s'.tags × (is_listed (tag_name n) s'.tags ≡ true)
    group-Extends parent (element tag attrs kids) s s' h =
        let el : Entry = record { parent = parent; node = element tag attrs kids } in
        let entered : Builder = record s { tags = s.tags ++ (el ∷ []) } in
        let descended = construct_groups declare (suc (length s.tags)) kids entered in
        elim (consult-eq-ok el s.tags (ok s) _ s' h) [
          | inl (listed, k) ↦
              let same : s.tags ≡ s'.tags = ap tags_of k in
              (
                subst (λ es. Extends s.tags es) same (Extends-refl s.tags),
                subst (λ es. is_listed tag es ≡ true) same listed,
              )
          | inr (fresh, k) ↦
              let (s₂, e, k₂) = >>=-eq-ok descended _ k in
              let (_, _, k₃) = >>=-eq-ok (declare (element tag attrs kids)) _ k₂ in
              let same : s₂.tags ≡ s'.tags = ap tags_of k₃ in
              let f = groups-Extends (suc (length s.tags)) kids entered s₂ e in
              let here : is_listed tag (s.tags ++ (el ∷ [])) ≡ true =
                is_listed-append tag s.tags el ∙ rw (fresh, text_eq_refl tag) in
              (
                subst (λ es. Extends s.tags es) same
                    (Extends-trans s.tags entered.tags s₂.tags (Extends-entered s.tags el fresh) f),
                subst (λ es. is_listed tag es ≡ true) same (f.kept tag here),
              )
        ]
    group-Extends parent (text t) s s' h = cc

    groups-Extends :
        (here : ℕ) (ns : Nodes) (s s' : Builder)
        → construct_groups declare here ns s ≡ ok s'
        → Extends s.tags s'.tags
    groups-Extends here nil s s' h =
        subst (λ es. Extends s.tags es) (ap tags_of h) (Extends-refl s.tags)
    groups-Extends here (cons (text t) ns) s s' h = groups-Extends here ns s s' h
    groups-Extends here (cons (element tag attrs kids) ns) s s' h =
        let (s₁, e, k) = >>=-eq-ok (construct_group declare here (element tag attrs kids) s) _ h in
        let (first, _) = group-Extends here (element tag attrs kids) s s₁ e in
        Extends-trans s.tags s₁.tags s'.tags first (groups-Extends here ns s₁ s' k)

  -- A run of `constructGroup` that does not exit leaves the element's name in the list of tags, takes
  -- no name off it, and brings none in twice.
  pub construct_group-Extends :
      (parent : ℕ) (n : Node) (s s' : Builder)
      → construct_group declare parent n s ≡ ok s'
      → Extends s.tags s'.tags × (is_listed (tag_name n) s'.tags ≡ true)
  construct_group-Extends parent n s s' h = group-Extends parent n s s' h
