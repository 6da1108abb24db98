-- ===== src/RoundTrip/Records.antt =====
-- A whole stream: the records that the loop of src/xml-hddm.cpp writes, read by the loop of
-- src/hddm-xml.cpp.
use hddm.Prelude.{
  ℕ, zero, suc, ◌+◌, ◌≤◌, ◌<◌, ◌≡◌, refl, ap, ◌∙◌, sym, true, false, List, [], ◌∷◌, ◌++◌, length,
  take, append_assoc, append-nil, arith, ◌⊎◌, inl, inr, lt→ltb, Bool-cases, ◌==◌, some,
}
use hddm.Prelude.Text.{Text, Bytes, codes}
use hddm.Prelude.Int.{ℤ, pos, negsuc, ◌-ℤ◌, int_max, ltb_ℤ, eqb_ℤ, to_int32, to_int32_small}
use hddm.Outcome.{ok, >>=-eq-ok}
use hddm.Dom.{Node, Nodes, element, Attribute, child_nodes}
use hddm.Runtime.{Runtime}
use hddm.Template.{AllTemplates, stores_attributes, has_element}
use hddm.Extent.{extent_children}
use hddm.XmlHddm.{output_stream, output_children, output_record, output_records}
use hddm.XmlHddm.Inversion.{output_stream-parts}
use hddm.Render.{render_children}
use hddm.Stream.{Device, Machine, again, turn, run}
use hddm.Stream.Reading.{on_file, turn-record, turn-end}
use hddm.RoundTrip.Content.{children_size, attributes_none}
use hddm.RoundTrip.Record.{children-Reads}
use hddm.RoundTrip.Top.{AllSupplied, read_tops-Reads}

-- The records that a request count asks for: that many, or all if it is negative.
abbrev pub requested {ℓ} : {A : Type ℓ} → ℤ → List A → List A
requested (pos k) docs = take k docs
requested (negsuc k) docs = docs

module _ (rt : Runtime) where
  -- A record's document: the tags that the reader asks about are there, and the record with the
  -- reader's spare bytes fits an `int`.
  pub record IsRecord (models : Nodes) (this : Node) : Type 0 where
    pub supplied : AllSupplied models (child_nodes this)
    pub small : extent_children rt (child_nodes this) models + 1000 ≤ int_max

  abbrev pub AllRecords : Nodes → List Node → Type 0
  AllRecords models [] = Unit
  AllRecords models (this ∷ more) = IsRecord models this × AllRecords models more

  -- The documents, rendered one after the other.
  abbrev pub render_records : Nodes → List Node → Text
  render_records models [] = []
  render_records models (this ∷ more) =
      render_children rt 0 (child_nodes this) models ++ render_records models more

  -- The bytes of a record: its size and its content.
  record-parts :
      (tag : Text) (attrs : List Attribute) (kids : Nodes) (this : Node) (b : Bytes)
      → stores_attributes attrs ≡ false
      → has_element kids ≡ true
      → AllTemplates kids
      → extent_children rt (child_nodes this) kids ≤ int_max
      → output_record rt (element tag attrs kids) this ≡ ok b
      → (body : Bytes) × (output_children rt (child_nodes this) kids ≡ ok body)
        × (1 < length body)
        × (length body ≤ extent_children rt (child_nodes this) kids)
        × (b ≡ rt.put_int (pos (length body)) ++ body)
  unfolding output_record
  record-parts tag attrs kids this b bare tags good fits h =
      let (buf, e, k) = >>=-eq-ok (output_stream rt this (element tag attrs kids)) _ h in
      let (b₁, body, e₁, e₂, same) = output_stream-parts rt this tag attrs kids buf e in
      let same' : buf ≡ body =
        same ∙ ap (λ x. x ++ body) (sym (attributes_none rt _ attrs b₁ e₁ bare)) in
      let large = children_size rt (child_nodes this) kids body e₂ tags in
      let (small, _) = children-Reads rt kids 0 good (child_nodes this) body e₂ fits in
      let size : to_int32 (length body) ≡ pos (length body) =
        to_int32_small (length body) (omega arith) in
      let held : ltb_ℤ (pos 0) (pos (length body)) ≡ true =
        lt→ltb (0 + 0) (length body + 0) (omega arith) in
      (body, e₂, omega arith, small, (let k' = rw (same', size, held) at k in cc))

  output_records-parts :
      (root this : Node) (more : List Node) (bytes : Bytes)
      → output_records rt root (this ∷ more) ≡ ok bytes
      → (b : Bytes) × (bs : Bytes) × (output_record rt root this ≡ ok b)
        × (output_records rt root more ≡ ok bs)
        × (bytes ≡ b ++ bs)
  unfolding output_records
  output_records-parts root this more bytes h =
      let (b, e₁, k₁) = >>=-eq-ok (output_record rt root this) _ h in
      let (bs, e₂, k₂) = >>=-eq-ok (output_records rt root more) _ k₁ in (b, bs, e₁, e₂, cc)

module _ (rt : Runtime) (d : Device) where
  suc-sub : (k : ℕ) → pos (suc k) -ℤ pos 1 ≡ pos k
  unfolding ◌-ℤ◌
  suc-sub k = ground arith

  negsuc-sub : (k : ℕ) → negsuc k -ℤ pos 1 ≡ negsuc (k + 1)
  unfolding ◌-ℤ◌
  negsuc-sub k = ground arith

  -- One more record is counted off the request.
  request-step :
      (reqcount : ℤ) (models : Nodes) (this : Node) (more : List Node)
      → eqb_ℤ reqcount (pos 0) ≡ false
      → render_records rt models (requested reqcount (this ∷ more))
        ≡ render_children rt 0 (child_nodes this) models
          ++ render_records rt models (requested (reqcount -ℤ pos 1) more)
  unfolding ◌-ℤ◌
  request-step (pos zero) models this more wanted = cc
  request-step (pos (suc k)) models this more wanted =
      ap
        (λ q.
          render_children rt 0 (child_nodes this) models
          ++ render_records rt models (requested q more))
        (sym (suc-sub k))
  request-step (negsuc k) models this more wanted =
      ap
        (λ q.
          render_children rt 0 (child_nodes this) models
          ++ render_records rt models (requested q more))
        (sym (negsuc-sub k))

  request_end :
      (reqcount : ℤ) (models : Nodes) (docs : List Node)
      → (docs ≡ []) ⊎ (eqb_ℤ reqcount (pos 0) ≡ true)
      → render_records rt models (requested reqcount docs) ≡ []
  request_end (pos zero) models docs h = refl
  request_end (pos (suc k)) models docs (inl empty) = rw empty
  request_end (pos (suc k)) models docs (inr stopped) =
      absurd (let more : eqb_ℤ (pos (suc k)) (pos 0) ≡ false = ground arith in cc)
  request_end (negsuc k) models docs (inl empty) = rw empty
  request_end (negsuc k) models docs (inr stopped) =
      absurd (let more : eqb_ℤ (negsuc k) (pos 0) ≡ false = ground arith in cc)

  run-again :
      (root : Node) (m m' : Machine d) (n k : ℕ)
      → turn rt d root m ≡ ok (again m')
      → n ≡ k
      → run rt d (suc n) root m ≡ run rt d k root m'
  unfolding run
  run-again root m m' n k t same = rw (t, same)

  run-end :
      (root : Node) (models : Nodes) (docs : List Node) (m : Machine d) (n : ℕ)
      → (docs ≡ []) ⊎ (eqb_ℤ m.reqcount (pos 0) ≡ true)
      → (d.content m.raw ≡ []) ⊎ (eqb_ℤ m.reqcount (pos 0) ≡ true)
      → run rt d (suc n) root (on_file m)
        ≡ ok (
            some (
              (m.out ++ render_records rt models (requested m.reqcount docs))
              ++ (codes "</HDDM>" ++ (10 ∷ []))))
  unfolding run
  run-end root models docs m n ended h =
      let (m', t, same) = turn-end rt d root m h in
      rw (t, request_end m.reqcount models docs ended, append-nil, same)

  -- A stream of records that `xml-hddm` wrote, in a file that holds nothing else behind the header, read
  -- by `hddm-xml` with at least one round per record and one more: where every tag of the template
  -- stores something, no occurrence bound is the name of a type, the root has a tag and stores no attribute itself, each document has the tags the
  -- reader would ask about and fits an `int` with 1000 bytes to spare, and checksums are off, the loop
  -- ends and its output is the rendering of the requested records, in order, and the closing tag.
  pub run-output_records :
      (tag : Text) (attrs : List Attribute) (kids : Nodes) (docs : List Node) (bytes : Bytes)
      (m : Machine d) (spare : ℕ)
      → stores_attributes attrs ≡ false
      → has_element kids ≡ true
      → AllTemplates kids
      → AllRecords rt kids docs
      → output_records rt (element tag attrs kids) docs ≡ ok bytes
      → d.content m.raw ≡ bytes
      → (m.integrity_check_mode == 1) ≡ false
      → run rt d (suc (length docs + spare)) (element tag attrs kids) (on_file m)
        ≡ ok (
            some (
              (m.out ++ render_records rt kids (requested m.reqcount docs))
              ++ (codes "</HDDM>" ++ (10 ∷ []))))
  run-output_records tag attrs kids [] bytes m spare bare tags good all h file off =
      let no_bytes : [] ≡ bytes = unfold output_records in cc in
      run-end (element tag attrs kids) kids [] m (0 + spare) (inl refl) (inl (file ∙ sym no_bytes))
  run-output_records tag attrs kids (this ∷ more) bytes m spare bare tags good all h file off =
      let root = element tag attrs kids in
      elim (Bool-cases (eqb_ℤ m.reqcount (pos 0))) [
        | inl enough ↦
            run-end root kids (this ∷ more) m (length (this ∷ more) + spare) (inr enough)
              (inr enough)
        | inr wanted ↦
            let (b, bs, e₁, e₂, e) = output_records-parts rt root this more bytes h in
            let fits = all.0.small in
            let (body, h', large, light, s) =
              record-parts rt tag attrs kids this b bare tags good (omega (arith, fits)) e₁ in
            let printed = render_children rt 0 (child_nodes this) kids in
            let (r, buffer, size, c, t) =
              turn-record rt d root m body bs printed (file ∙ e ∙ ap (λ x. x ++ bs) s) large
                (omega (arith, fits, light)) wanted off
                (λ rest.
                  read_tops-Reads rt kids (child_nodes this) body good all.0.supplied h'
                    (omega (arith, fits)) m.out rest m.answers) in
            let m' = record m {
              out = m.out ++ printed;
              raw = r;
              buffer = buffer;
              event_buffer_size = size;
              reqcount = m.reqcount -ℤ pos 1;
            } in
            run-again root (on_file m) (on_file m') _ (suc (length more + spare)) t (omega arith)
            ∙ rw (
              run-output_records tag attrs kids more bs m' spare bare tags good all.1 e₂ c off,
              request-step m.reqcount kids this more wanted,
              append_assoc m.out printed
                  (render_records rt kids (requested (m.reqcount -ℤ pos 1) more)),
            )
      ]
