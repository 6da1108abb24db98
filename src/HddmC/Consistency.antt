-- ===== src/HddmC/Consistency.antt =====
-- What `checkConsistency` of src/hddm-c.cpp makes sure of.
use hddm.Prelude.{
  ◌≡◌, refl, sym, ◌∙◌, Bool, true, false, not, List, [], ◌∷◌, ◌&&◌, ◌||◌, ◌==◌, inl, inr,
  Bool-cases, subst,
}
use hddm.Prelude.Text.{Text, codes, text_eq, text_eq→eq}
use hddm.Outcome.{ok, require->>=}
use hddm.Dom.{Attribute, attributes, get_attribute, is_occurs}
use hddm.HddmC.{Entry, attribute_agrees, attributes_agree, check_consistency}

abbrev pub has_name : Text → List Attribute → Bool
has_name name [] = false
has_name name ((n, v) ∷ attrs) = text_eq n name || has_name name attrs

and-parts : (a b : Bool) → (a && b) ≡ true → (a ≡ true) × (b ≡ true)
and-parts true b h = (refl, h)
and-parts false b h = cc

not-false : (b : Bool) → not b ≡ true → b ≡ false
not-false true h = cc
not-false false h = refl

or-parts : (a b : Bool) → (a || b) ≡ false → (a ≡ false) × (b ≡ false)
or-parts true b h = cc
or-parts false b h = (refl, h)

get_attribute-absent :
    (name : Text) (attrs : List Attribute)
    → has_name name attrs ≡ false
    → get_attribute name attrs ≡ []
unfolding get_attribute
get_attribute-absent name [] h = refl
get_attribute-absent name ((n, v) ∷ attrs) h =
    let (other, more) = or-parts (text_eq n name) (has_name name attrs) h in
    rw other (get_attribute-absent name attrs more)

attribute_agrees-plain :
    (name old new : Text)
    → is_occurs name ≡ false
    → attribute_agrees name old new ≡ true
    → text_eq new old ≡ true
unfolding attribute_agrees is_occurs
attribute_agrees-plain name old new plain h =
    let (not_min, not_max) =
      or-parts (text_eq name (codes "minOccurs")) (text_eq name (codes "maxOccurs")) plain in
    rw (not_min, not_max) at h

attributes_agree-named :
    (name : Text) (names olds news : List Attribute)
    → is_occurs name ≡ false
    → has_name name names ≡ true
    → attributes_agree names olds news ≡ true
    → text_eq (get_attribute name news) (get_attribute name olds) ≡ true
unfolding attributes_agree
attributes_agree-named name [] olds news plain named h = cc
attributes_agree-named name ((n, v) ∷ names) olds news plain named h =
    let (first, more) =
      and-parts (attribute_agrees n (get_attribute n olds) (get_attribute n news))
        (attributes_agree names olds news) h in
    elim (Bool-cases (text_eq n name)) [
      | inl same ↦
          let e = text_eq→eq n name same in
          attribute_agrees-plain name (get_attribute name olds) (get_attribute name news) plain (
            subst (λ k. attribute_agrees k (get_attribute k olds) (get_attribute k news) ≡ true) e
              first)
      | inr other ↦ attributes_agree-named name names olds news plain (rw other at named) more
    ]

-- Two elements that passed the check under one name have the same values, or none, of every attribute
-- but minOccurs and maxOccurs, and do not have the same parent.
pub check_consistency-agrees :
    (el old : Entry)
    → check_consistency el old ≡ ok tt
    → ((el.parent == old.parent) ≡ false)
      × ((name : Text)
          → is_occurs name ≡ false
          → get_attribute name (attributes el.node) ≡ get_attribute name (attributes old.node))
unfolding check_consistency
check_consistency-agrees el old h =
    let news = attributes el.node in
    let olds = attributes old.node in
    let (apart, k₁) = require->>= (not (el.parent == old.parent)) 1 _ h in
    let (by_old, k₂) = require->>= (attributes_agree olds olds news) 1 _ k₁ in
    let (by_new, k₃) = require->>= (attributes_agree news olds news) 1 _ k₂ in
    (
      not-false (el.parent == old.parent) apart,
      λ name plain. elim (Bool-cases (has_name name olds)) [
        | inl named ↦
            text_eq→eq (get_attribute name news) (get_attribute name olds)
              (attributes_agree-named name olds olds news plain named by_old)
        | inr not_old ↦ elim (Bool-cases (has_name name news)) [
          | inl named ↦
              text_eq→eq (get_attribute name news) (get_attribute name olds)
                (attributes_agree-named name news olds news plain named by_new)
          | inr not_new ↦
              get_attribute-absent name news not_new ∙ sym (get_attribute-absent name olds not_old)
        ]
      ],
    )
