-- ===== src/Sequencer/Same.antt =====
-- Written and read for the same class: the genes in the members' order give everything back.
use hddm.Prelude.{ℕ, suc, ◌+◌, ◌≡◌, refl, ap, sym, ◌∙◌, subst, Bool, ◌++◌, some, arith}
use hddm.Prelude.Text.{Bytes}
use hddm.Prelude.Int.{ℤ, IsInt32}
use hddm.Sequencer.{
  Class, class_of, Members, no_members, with_member, element, Elements, no_elements, one_more,
  Fields, no_fields, field, codon, Codons, no_codons, next, empty_fields, target, set_field,
  write_fields, read_genes, pick_fields, put_member, pick_target, pick_elements,
}
use hddm.Sequencer.Projection.{
  IsWritten, AreReadable, AllReadable, FitTarget, read_genes-write_fields,
}

-- The genes of a class for itself, from a place on.
unfoldable pub own_genes : ℕ → Members → Codons
own_genes k no_members = no_codons
own_genes k (with_member is_list (class_of n inner) ms) =
    next (codon (suc k) (own_genes 0 inner)) (own_genes (suc k) ms)

-- The members from number k on.
abbrev AreFrom : ℕ → Members → Members → Type 0
AreFrom k ms all = (j : ℕ) → target (suc (k + j)) all ≡ target (suc j) ms

AreFrom-next :
    (k : ℕ) (is_list : Bool) (c : Class) (ms all : Members)
    → AreFrom k (with_member is_list c ms) all
    → AreFrom (suc k) ms all
unfolding target
AreFrom-next k is_list c ms all h j =
    ap (λ i. target i all) (let e : suc (suc k + j) ≡ suc (k + suc j) = omega arith in e)
    ∙ h (suc j)

-- Some fields in front of others.
append_fields : Fields → Fields → Fields
append_fields no_fields fs = fs
append_fields (field es pre) fs = field es (append_fields pre fs)

fields_count : Fields → ℕ
fields_count no_fields = 0
fields_count (field es fs) = suc (fields_count fs)

snoc_field : Fields → Elements → Fields
snoc_field pre es = append_fields pre (field es no_fields)

append_fields-snoc_field :
    (pre : Fields) (es : Elements) (fs : Fields)
    → append_fields pre (field es fs) ≡ append_fields (snoc_field pre es) fs
unfolding append_fields snoc_field
append_fields-snoc_field no_fields es fs = refl
append_fields-snoc_field (field old pre) es fs = ap (field old) (append_fields-snoc_field pre es fs)

fields_count-snoc_field :
    (pre : Fields) (es : Elements) → fields_count (snoc_field pre es) ≡ suc (fields_count pre)
unfolding fields_count append_fields snoc_field
fields_count-snoc_field no_fields es = refl
fields_count-snoc_field (field old pre) es = ap suc (fields_count-snoc_field pre es)

set_field-append_fields :
    (pre : Fields) (es old : Elements) (fs : Fields)
    → set_field (suc (fields_count pre)) es (append_fields pre (field old fs))
      ≡ append_fields pre (field es fs)
unfolding set_field append_fields fields_count
set_field-append_fields no_fields es old fs = refl
set_field-append_fields (field first pre) es old fs =
    ap (field first) (set_field-append_fields pre es old fs)

put_member-append_fields :
    (pre : Fields) (es : Elements) (fs : Fields)
    → put_member (suc (fields_count pre)) es es (append_fields pre (field no_elements fs))
      ≡ append_fields pre (field es fs)
unfolding put_member
put_member-append_fields pre no_elements fs = refl
put_member-append_fields pre (one_more e es) fs =
    set_field-append_fields pre (one_more e es) no_elements fs

module _ (put_int : ℤ → Bytes) (get_int : Bytes → ℤ × Bytes)
    (take_attrs : ℕ → Bytes → Bytes × Bytes) where
  -- What may be written for some members: each member's elements, with attributes that can be split off.
  abbrev pub AllRecords : (Fields → Type 0) → ℕ → Elements → Type 0
  AllRecords is_record n no_elements = Unit
  AllRecords is_record n (one_more (element attrs fs) es) =
      ((rest : Bytes) → take_attrs n (attrs ++ rest) ≡ (attrs, rest))
      × is_record fs
      × AllRecords is_record n es

  abbrev pub IsRecord : Members → Fields → Type 0
  IsRecord no_members no_fields = Unit
  IsRecord no_members (field es fs) = ⊥
  IsRecord (with_member is_list c ms) no_fields = ⊥
  IsRecord (with_member is_list (class_of n inner) ms) (field es fs) =
      IsWritten put_int get_int take_attrs es is_list (class_of n inner)
      × AllRecords (λ f. IsRecord inner f) n es
      × IsRecord ms fs

  pick_fields-next :
      (order : ℕ) (sequence gs : Codons) (all : Members) (es : Elements) (fs slots : Fields)
      → pick_fields (next (codon order sequence) gs) all (field es fs) slots
        ≡ pick_fields gs all fs
            (put_member order es (pick_target (pick_fields sequence) (target order all) es) slots)
  unfolding pick_fields
  pick_fields-next order sequence gs all es fs slots = refl

  pick_elements-same :
      (genes : Codons) (inner : Members) (n : ℕ) (es : Elements)
      → ((fs : Fields) → IsRecord inner fs → pick_fields genes inner fs (empty_fields inner) ≡ fs)
      → AllRecords (λ f. IsRecord inner f) n es
      → pick_elements (pick_fields genes) inner es ≡ es
  unfolding pick_elements
  pick_elements-same genes inner n no_elements same h = refl
  pick_elements-same genes inner n (one_more (element attrs fs) es) same (split, h, hs) =
      ap (λ f. one_more (element attrs f) (pick_elements (pick_fields genes) inner es)) (same fs h)
      ∙ ap (one_more (element attrs fs)) (pick_elements-same genes inner n es same hs)

  target-from :
      (k n : ℕ) (is_list : Bool) (inner ms all : Members)
      → AreFrom k (with_member is_list (class_of n inner) ms) all
      → target (suc k) all ≡ some (is_list, class_of n inner)
  unfolding target
  target-from k n is_list inner ms all from =
      ap (λ i. target (suc i) all) (let e : k ≡ k + 0 = omega arith in e) ∙ from 0

  pick_target-same :
      (genes : Codons) (inner : Members) (n : ℕ) (is_list : Bool) (es : Elements)
      → ((fs : Fields) → IsRecord inner fs → pick_fields genes inner fs (empty_fields inner) ≡ fs)
      → AllRecords (λ f. IsRecord inner f) n es
      → pick_target (pick_fields genes) (some (is_list, class_of n inner)) es ≡ es
  unfolding pick_target
  pick_target-same genes inner n is_list es same h = pick_elements-same genes inner n es same h

  AreFrom-start : (ms : Members) → AreFrom 0 ms ms
  AreFrom-start ms j = ap (λ i. target (suc i) ms) (let e : 0 + j ≡ j = omega arith in e)

  own_inner :
      (inner : Members) (f : Fields)
      → (AreFrom (fields_count no_fields) inner inner
          → IsRecord inner f
          → pick_fields
              (own_genes (fields_count no_fields) inner)
              inner
              f
              (append_fields no_fields (empty_fields inner))
            ≡ append_fields no_fields f)
      → IsRecord inner f
      → pick_fields (own_genes 0 inner) inner f (empty_fields inner) ≡ f
  unfolding fields_count append_fields
  own_inner inner f ih h = ih (AreFrom-start inner) h

  -- What the genes of a class for itself pick is all that was there.
  pick_fields-own_genes :
      (ms all : Members) (pre fs : Fields)
      → AreFrom (fields_count pre) ms all
      → IsRecord ms fs
      → pick_fields (own_genes (fields_count pre) ms) all fs (append_fields pre (empty_fields ms))
        ≡ append_fields pre fs
  unfolding own_genes empty_fields
  pick_fields-own_genes no_members all pre no_fields from h = unfold pick_fields in refl
  pick_fields-own_genes no_members all pre (field es fs) from h = absurd h
  pick_fields-own_genes (with_member is_list c ms) all pre no_fields from h = absurd h
  pick_fields-own_genes (with_member is_list (class_of n inner) ms) all pre (field es fs) from
        (w, hs, h) =
      let k = fields_count pre in
      let genes = own_genes 0 inner in
      let others = own_genes (suc k) ms in
      let start : Fields = append_fields pre (field no_elements (empty_fields ms)) in
      let within : (f : Fields)
          → IsRecord inner f
          → pick_fields genes inner f (empty_fields inner) ≡ f =
        λ f hf. own_inner inner f (pick_fields-own_genes inner inner no_fields f) hf in
      let picked : pick_target (pick_fields genes) (target (suc k) all) es ≡ es =
        ap (λ t. pick_target (pick_fields genes) t es) (target-from k n is_list inner ms all from)
        ∙ pick_target-same genes inner n is_list es within hs in
      let counted = fields_count-snoc_field pre es in
      let rest : pick_fields others all fs (append_fields (snoc_field pre es) (empty_fields ms))
          ≡ append_fields (snoc_field pre es) fs =
        ap
          (λ i.
            pick_fields (own_genes i ms) all fs
              (append_fields (snoc_field pre es) (empty_fields ms)))
          (sym counted)
        ∙ pick_fields-own_genes ms all (snoc_field pre es) fs
            (subst (λ i. AreFrom i ms all) (sym counted)
              (AreFrom-next k is_list (class_of n inner) ms all from))
            h in
      pick_fields-next (suc k) genes others all es fs start
      ∙ ap (λ es'. pick_fields others all fs (put_member (suc k) es es' start)) picked
      ∙ ap (pick_fields others all fs) (
          put_member-append_fields pre es (empty_fields ms)
          ∙ append_fields-snoc_field pre es (empty_fields ms))
      ∙ rest
      ∙ sym (append_fields-snoc_field pre es fs)

  AllReadable-AllRecords :
      (genes : Codons) (inner : Members) (n : ℕ) (es : Elements)
      → ((fs : Fields)
          → IsRecord inner fs
          → AreReadable put_int get_int take_attrs genes inner inner fs)
      → AllRecords (λ f. IsRecord inner f) n es
      → AllReadable put_int get_int take_attrs
          (λ s r f. AreReadable put_int get_int take_attrs genes s r f)
          (class_of n inner)
          (class_of n inner)
          es
  AllReadable-AllRecords genes inner n no_elements fit h = tt
  AllReadable-AllRecords genes inner n (one_more (element attrs fs) es) fit (split, h, hs) =
      (split, fit fs h, AllReadable-AllRecords genes inner n es fit hs)

  own_genes-AreReadable :
      (ms all : Members) (k : ℕ) (fs : Fields)
      → AreFrom k ms all
      → IsRecord ms fs
      → AreReadable put_int get_int take_attrs (own_genes k ms) ms all fs
  unfolding own_genes
  own_genes-AreReadable no_members all k no_fields from h = tt
  own_genes-AreReadable no_members all k (field es fs) from h = absurd h
  own_genes-AreReadable (with_member is_list c ms) all k no_fields from h = absurd h
  own_genes-AreReadable (with_member is_list (class_of n inner) ms) all k (field es fs) from
        (w, hs, h) =
      (
        w,
        subst
            (λ t.
              FitTarget put_int get_int take_attrs
                (λ s r f. AreReadable put_int get_int take_attrs (own_genes 0 inner) s r f) t
                is_list (class_of n inner) es)
            (sym (target-from k n is_list inner ms all from))
            (
              refl,
              AllReadable-AllRecords (own_genes 0 inner) inner n es
                  (λ f hf. own_genes-AreReadable inner inner 0 f (AreFrom-start inner) hf) hs,
            ),
        own_genes-AreReadable ms all (suc k) fs
            (AreFrom-next k is_list (class_of n inner) ms all from) h,
      )

  -- What was written of an element's members, or of a record, is read back as it was by the genes of the
  -- class for itself, whatever stands behind, and the stream is left there. The XDR integers are read back,
  -- attributes can be split off, all that is there stores something, links have one element at most, and
  -- sizes fit an int.
  pub read_genes-own_genes :
      ((v : ℤ) (rest : Bytes) → IsInt32 v → get_int (put_int v ++ rest) ≡ (v, rest))
      → (ms : Members) (fs : Fields) (rest : Bytes) → IsRecord ms fs
      → read_genes get_int take_attrs
          (own_genes 0 ms)
          ms
          (empty_fields ms)
          (write_fields put_int fs ms ++ rest)
        ≡ (fs, rest)
  read_genes-own_genes get-put_int ms fs rest h =
      read_genes-write_fields put_int get_int take_attrs get-put_int (own_genes 0 ms) ms ms fs
        (empty_fields ms) rest (own_genes-AreReadable ms ms 0 fs (AreFrom-start ms) h)
      ∙ ap (λ (f : Fields). (f, rest))
          (own_inner ms fs (pick_fields-own_genes ms ms no_fields fs) h)
