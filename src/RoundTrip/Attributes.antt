-- ===== src/RoundTrip/Attributes.antt =====
-- The attributes of one tag: the loop of `outputStream` and the loop of `constructXML`.
use hddm.Prelude.{
  ◌≤◌, ◌≡◌, ap, subst, sym, true, false, List, [], ◌∷◌, ◌++◌, length, length-append, arith, inl,
  inr, Bool-cases, not, ◌&&◌,
}
use hddm.Prelude.Text.{Text, Bytes, codes, text_eq}
use hddm.Prelude.Int.{int_max}
use hddm.Outcome.{ok, ◌>>=◌, >>=-eq-ok}
use hddm.Dom.{Attribute, get_attribute, AttrType, constant, attr_type, is_occurs}
use hddm.Runtime.{Runtime}
use hddm.Template.{OccursApart}
use hddm.XmlHddm.{output_value, output_attributes}
use hddm.HddmXml.{read_value, read_attributes}
use hddm.HddmXml.Steps.{Advances, Advances-id, Advances-comp}
use hddm.Render.{render_value, render_attributes}
use hddm.RoundTrip.Value.{output_value-Advances}

module _ (rt : Runtime) where
  -- An occurrence bound is passed over.
  skip-Advances :
      (t : AttrType) (name type s : Text)
      → t ≡ constant
      → is_occurs name ≡ true
      → Advances (read_value rt t name type) [] (render_value rt t name type s)
  unfolding read_value render_value
  skip-Advances t name type s e occurs = rw (e, occurs, read_value, render_value) Advances-id

  pub passed-eq-ok :
      (these models : List Attribute) (name type : Text) (b : Bytes)
      → is_occurs name ≡ true
      → output_attributes rt these ((name, type) ∷ models) ≡ ok b
      → output_attributes rt these models ≡ ok b
  unfolding output_attributes
  passed-eq-ok these models name type b occurs h = rw occurs at h

  -- Inversion of one round of the writer's loop.
  pub stored-eq-ok :
      (these models : List Attribute) (name type : Text) (b : Bytes)
      → is_occurs name ≡ false
      → output_attributes rt these ((name, type) ∷ models) ≡ ok b
      → (b₁ : Bytes) × (b₂ : Bytes) × (output_value rt (attr_type type) (get_attribute name these)
          ≡ ok b₁)
        × (output_attributes rt these models ≡ ok b₂)
        × (b ≡ b₁ ++ b₂)
  unfolding output_attributes
  stored-eq-ok these models name type b apart h =
      let value = get_attribute name these in
      let h' = rw apart at h in
      elim (Bool-cases (text_eq value [] && not (text_eq type (codes "string")))) [
        | inl missing ↦ (let h'' = rw missing at h' in cc)
        | inr present ↦
            let h'' = rw present at h' in
            let (b₁, e₁, k₁) =
              >>=-eq-ok (output_value rt (attr_type type) value)
                (λ b'. output_attributes rt these models >>= λ bs. ok (b' ++ bs)) h'' in
            let (b₂, e₂, k₂) =
              >>=-eq-ok (output_attributes rt these models) (λ bs. ok (b₁ ++ bs)) k₁ in
            (b₁, b₂, e₁, e₂, cc)
      ]

  pub output_attributes-Advances :
      (these models : List Attribute) (b : Bytes)
      → OccursApart models
      → output_attributes rt these models ≡ ok b
      → length b ≤ int_max
      → Advances (read_attributes rt models) b (render_attributes rt these models)
  unfolding read_attributes render_attributes
  output_attributes-Advances these [] b apart h fits =
      let e : [] ≡ b = unfold output_attributes in cc in
      subst (λ c. Advances (λ p. p) c []) e Advances-id
  output_attributes-Advances these ((name, type) ∷ models) b apart h fits =
      elim (Bool-cases (is_occurs name)) [
        | inl occurs ↦
            Advances-comp
              (skip-Advances (attr_type type) name type (get_attribute name these) (apart.0 occurs)
                occurs)
              (output_attributes-Advances these models b apart.1
                (passed-eq-ok these models name type b occurs h) fits)
        | inr stored ↦
            let (b₁, b₂, e₁, e₂, e) = stored-eq-ok these models name type b stored h in
            let total = length-append b₁ b₂ in
            let whole = ap length e in
            subst
              (λ c.
                Advances (read_attributes rt ((name, type) ∷ models)) c
                  (render_attributes rt these ((name, type) ∷ models)))
              (sym e)
              (Advances-comp
                (output_value-Advances rt (attr_type type) name type (get_attribute name these) b₁
                  e₁ (omega (arith, total, whole)))
                (output_attributes-Advances these models b₂ apart.1 e₂
                  (omega (arith, total, whole))))
      ]
