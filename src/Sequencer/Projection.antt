-- ===== src/Sequencer/Projection.antt =====
-- What was written for one class is read, by the genes, as the members of another.
use hddm.Prelude.{
  ℕ, suc, ◌≤◌, ◌<◌, ◌≡◌, refl, ap, ◌∙◌, Bool, true, false, [], ◌++◌, Option, none, some, length,
  append_assoc, drop, drop-append, arith,
}
use hddm.Prelude.Text.{Bytes}
use hddm.Prelude.Int.{ℤ, pos, ltb_ℤ, IsInt32, int_max}
use hddm.Sequencer.{
  Class, class_of, Members, no_members, with_member, Element, element, Elements, no_elements,
  one_more, Fields, no_fields, field, codon, Codons, no_codons, next, count, empty_fields, target,
  set_field, write_element, write_fields, write_member, write_all, read_element, read_elements,
  read_target, read_genes, pick_fields, put_member, pick_target, pick_elements,
}

module _ (put_int : ℤ → Bytes) (get_int : Bytes → ℤ × Bytes)
    (take_attrs : ℕ → Bytes → Bytes × Bytes) where
  -- Whether a member's elements may be written: something is stored of them, and sizes fit an int.
  pub record IsWritten (es : Elements) (is_list : Bool) (c : Class) : Type 0 where
    pub small : length (write_member put_int es is_list c) ≤ int_max
    pub stored : 0 < count es → 0 < length (write_member put_int es is_list c)
    pub few : count es ≤ int_max
    pub single : is_list ≡ false → count es ≤ 1

  abbrev pub Fit : Type 1
  Fit = Members → Members → Fields → Type 0

  -- Elements of the class with some members, for a class with others: their attributes can be split off.
  abbrev pub AllReadable : Fit → Class → Class → Elements → Type 0
  AllReadable fit c d no_elements = Unit
  AllReadable fit (class_of m src) (class_of n ref) (one_more (element attrs fs) es) =
      ((rest : Bytes) → take_attrs n (attrs ++ rest) ≡ (attrs, rest))
      × fit src ref fs
      × AllReadable fit (class_of m src) (class_of n ref) es

  abbrev pub FitTarget : Fit → Option (Bool × Class) → Bool → Class → Elements → Type 0
  FitTarget fit none is_list c es = Unit
  FitTarget fit (some (as_list, d)) is_list c es = (is_list ≡ as_list) × AllReadable fit c d es

  -- The genes fit what was written for `src` and what is read for `ref`: a gene without a target may be
  -- for anything, one with a target is for a member of the same kind.
  abbrev pub AreReadable : Codons → Fit
  AreReadable no_codons no_members ref no_fields = Unit
  AreReadable no_codons no_members ref (field es fs) = ⊥
  AreReadable no_codons (with_member is_list c src) ref fs = ⊥
  AreReadable (next g gs) no_members ref fs = ⊥
  AreReadable (next g gs) (with_member is_list c src) ref no_fields = ⊥
  AreReadable (next (codon order sequence) gs) (with_member is_list c src) ref (field es fs) =
      IsWritten es is_list c
      × FitTarget (λ s r f. AreReadable sequence s r f) (target order ref) is_list c es
      × AreReadable gs src ref fs

  module _
      (get-put_int : (v : ℤ) (rest : Bytes)
        → IsInt32 v
        → get_int (put_int v ++ rest) ≡ (v, rest)) where
    abbrev GenesRead : Codons → Type 0
    GenesRead gs =
        (src ref : Members) (fs slots : Fields) (rest : Bytes)
        → AreReadable gs src ref fs
        → read_genes get_int take_attrs gs ref slots (write_fields put_int fs src ++ rest)
          ≡ (pick_fields gs ref fs slots, rest)

    small_int : (n : ℕ) → n ≤ int_max → IsInt32 (pos n)
    small_int n h = record { above = omega arith; below = h }

    read_element-write_element :
        (gs : Codons) (m n : ℕ) (src ref : Members) (attrs : Bytes) (fs : Fields) (rest : Bytes)
        → GenesRead gs
        → ((more : Bytes) → take_attrs n (attrs ++ more) ≡ (attrs, more))
        → AreReadable gs src ref fs
        → read_element get_int take_attrs
            (read_genes get_int take_attrs gs)
            (class_of n ref)
            (write_element put_int (element attrs fs) (class_of m src) ++ rest)
          ≡ (element attrs (pick_fields gs ref fs (empty_fields ref)), rest)
    unfolding read_element write_element
    read_element-write_element gs m n src ref attrs fs rest reads split h =
        rw
          (
            append_assoc attrs (write_fields put_int fs src) rest,
            split (write_fields put_int fs src ++ rest),
            reads src ref fs (empty_fields ref) rest h,
          )
          refl

    read_elements-write_all :
        (gs : Codons) (m n : ℕ) (src ref : Members) (es : Elements) (rest : Bytes)
        → GenesRead gs
        → AllReadable (λ s r f. AreReadable gs s r f) (class_of m src) (class_of n ref) es
        → read_elements get_int take_attrs
            (read_genes get_int take_attrs gs)
            (class_of n ref)
            (count es)
            (write_all put_int es (class_of m src) ++ rest)
          ≡ (pick_elements (pick_fields gs) ref es, rest)
    unfolding read_elements write_all count pick_elements
    read_elements-write_all gs m n src ref no_elements rest reads h = refl
    read_elements-write_all gs m n src ref (one_more (element attrs fs) es) rest reads
          (split, h, hs) =
        let first = write_element put_int (element attrs fs) (class_of m src) in
        let others = write_all put_int es (class_of m src) in
        rw
          (
            append_assoc first others rest,
            read_element-write_element gs m n src ref attrs fs (others ++ rest) reads split h,
            read_elements-write_all gs m n src ref es rest reads hs,
          )
          refl

    read_target-write_member :
        (gs : Codons) (t : Option (Bool × Class)) (is_list : Bool) (c : Class) (e : Element)
        (es : Elements) (rest : Bytes)
        → GenesRead gs
        → IsWritten (one_more e es) is_list c
        → FitTarget (λ s r f. AreReadable gs s r f) t is_list c (one_more e es)
        → read_target get_int take_attrs
            (read_genes get_int take_attrs gs)
            t
            (write_member put_int (one_more e es) is_list c ++ rest)
          ≡ pick_target (pick_fields gs) t (one_more e es)
    unfolding read_target pick_target pick_elements write_member write_all count
    read_target-write_member gs none is_list c e es rest reads w h = refl
    read_target-write_member gs (some (true, class_of n ref)) true (class_of m src) e es rest reads
          w (same, h) =
        let body =
          write_element put_int e (class_of m src) ++ write_all put_int es (class_of m src) in
        let number =
          get-put_int (pos (suc (count es))) (body ++ rest) (small_int (suc (count es)) w.few) in
        rw (append_assoc (put_int (pos (suc (count es)))) body rest, read_target, number)
          (ap (λ (r : Elements × Bytes). r.0)
            (read_elements-write_all gs m n src ref (one_more e es) rest reads h))
    read_target-write_member gs (some (false, class_of n ref)) false (class_of m src) e
          (one_more e' es) rest reads w (same, h) =
        absurd (let few = w.single refl in omega (arith, few))
    read_target-write_member gs (some (false, class_of n ref)) false (class_of m src)
          (element attrs fs) no_elements rest reads w (same, (split, h, hs)) =
        let one = read_element-write_element gs m n src ref attrs fs rest reads split h in
        ap (λ (r : Element × Bytes). one_more r.0 no_elements) one
    read_target-write_member gs (some (false, class_of n ref)) true (class_of m src) e es rest reads
          w (same, h) =
        cc
    read_target-write_member gs (some (true, class_of n ref)) false (class_of m src) e es rest reads
          w (same, h) =
        cc

    -- One round of the loop over the genes.
    read_genes-none :
        (order : ℕ) (sequence gs : Codons) (ref : Members) (slots : Fields) (bytes body : Bytes)
        → get_int bytes ≡ (pos 0, body)
        → read_genes get_int take_attrs (next (codon order sequence) gs) ref slots bytes
          ≡ read_genes get_int take_attrs gs ref slots body
    unfolding read_genes
    read_genes-none order sequence gs ref slots bytes body e = rw e refl

    read_genes-some :
        (order : ℕ) (sequence gs : Codons) (ref : Members) (slots : Fields) (bytes body : Bytes)
        (size : ℕ)
        → get_int bytes ≡ (pos size, body)
        → 0 < size
        → read_genes get_int take_attrs (next (codon order sequence) gs) ref slots bytes
          ≡ read_genes get_int take_attrs gs ref
              (set_field order
                (read_target get_int take_attrs
                  (read_genes get_int take_attrs sequence)
                  (target order ref)
                  body)
                slots)
              (drop size body)
    unfolding read_genes
    read_genes-some order sequence gs ref slots bytes body size e h =
        let some_bytes : ltb_ℤ (pos 0) (pos size) ≡ true = ground arith in rw (e, some_bytes) refl

    -- The bytes of a member, in front of the others and of the rest.
    abbrev framed : Bytes → Bytes → Bytes
    framed body others = put_int (pos (length body)) ++ (body ++ others)

    get_int-framed :
        (body others rest : Bytes)
        → length body ≤ int_max
        → get_int (framed body others ++ rest) ≡ (pos (length body), body ++ (others ++ rest))
    get_int-framed body others rest h =
        ap get_int (
          append_assoc (put_int (pos (length body))) (body ++ others) rest
          ∙ ap (λ l. put_int (pos (length body)) ++ l) (append_assoc body others rest))
        ∙ get-put_int (pos (length body)) (body ++ (others ++ rest)) (small_int (length body) h)

    -- What was written of a record, or of any element's members, is read by genes that fit it as what they
    -- pick, each member of the file at the place that its gene is for and those without a place left out,
    -- whatever stands behind, and the stream is left there. The XDR integers are read back; of what the
    -- genes are for, attributes can be split off; all that is there stores something, links have one
    -- element at most, and sizes fit an int.
    pub read_genes-write_fields :
        (gs : Codons) (src ref : Members) (fs slots : Fields) (rest : Bytes)
        → AreReadable gs src ref fs
        → read_genes get_int take_attrs gs ref slots (write_fields put_int fs src ++ rest)
          ≡ (pick_fields gs ref fs slots, rest)
    unfolding pick_fields write_fields put_member
    read_genes-write_fields no_codons no_members ref no_fields slots rest h =
        unfold read_genes in refl
    read_genes-write_fields no_codons no_members ref (field es fs) slots rest h = absurd h
    read_genes-write_fields no_codons (with_member is_list c src) ref fs slots rest h = absurd h
    read_genes-write_fields (next g gs) no_members ref fs slots rest h = absurd h
    read_genes-write_fields (next g gs) (with_member is_list c src) ref no_fields slots rest h =
        absurd h
    read_genes-write_fields (next (codon order sequence) gs) (with_member is_list c src) ref
          (field no_elements fs) slots rest (w, h, hs) =
        let others = write_fields put_int fs src in
        read_genes-none order sequence gs ref slots (framed [] others ++ rest) (others ++ rest)
          (get_int-framed [] others rest (omega arith))
        ∙ read_genes-write_fields gs src ref fs slots rest hs
    read_genes-write_fields (next (codon order sequence) gs) (with_member is_list c src) ref
          (field (one_more e es) fs) slots rest (w, h, hs) =
        let body = write_member put_int (one_more e es) is_list c in
        let others = write_fields put_int fs src in
        let picked = pick_target (pick_fields sequence) (target order ref) (one_more e es) in
        let stored = w.stored (unfold count in omega arith) in
        let read =
          read_target-write_member sequence (target order ref) is_list c e es (others ++ rest)
            (read_genes-write_fields sequence) w h in
        read_genes-some order sequence gs ref slots (framed body others ++ rest)
          (body ++ (others ++ rest)) (length body) (get_int-framed body others rest w.small) stored
        ∙ ap
            (λ (es' : Elements).
              read_genes get_int take_attrs gs ref (set_field order es' slots)
                (drop (length body) (body ++ (others ++ rest))))
            read
        ∙ ap (read_genes get_int take_attrs gs ref (set_field order picked slots))
            (drop-append body (others ++ rest))
        ∙ read_genes-write_fields gs src ref fs (set_field order picked slots) rest hs
