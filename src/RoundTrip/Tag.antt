-- ===== src/RoundTrip/Tag.antt =====
-- A tag of the template with all its instances: `outputStream` frames them, `constructXML` unframes
-- them, at every depth.
use hddm.Prelude.{
  ℕ, zero, suc, ◌+◌, ◌≤◌, ◌<◌, ◌≡◌, refl, ap, ◌∙◌, subst, true, false, List, [], ◌∷◌, ◌++◌, length,
  length-append, append_assoc, append-nil, arith, ltb, inl, inr, Bool-cases,
}
use hddm.Prelude.Text.{Text, Bytes}
use hddm.Prelude.Int.{ℤ, pos, negsuc, sub_pos, pos_part, neg_part, ltb_ℤ, eqb_ℤ, int_max, IsInt32}
use hddm.Outcome.{Outcome, ok, ◌>>=◌}
use hddm.Dom.{Node, Nodes, element, Attribute, max_occurs}
use hddm.Runtime.{Runtime}
use hddm.XmlHddm.{frame}
use hddm.HddmXml.{
  Progress, repeat, read_child, read_repeat, finish, one_instance, construct_xml,
  construct_children,
}
use hddm.HddmXml.Steps.{at, Reads}
use hddm.HddmXml.Loop.{Collected, render_all-none}
use hddm.Render.{count_tag, render_all}
use hddm.RoundTrip.Frame.{frame_many, frame_one}

pub pos-IsInt32 : (n : ℕ) → n ≤ int_max → IsInt32 (pos n)
pos-IsInt32 n h = record { above = omega arith; below = h }

size_test : (n : ℕ) → 0 < n → ltb_ℤ (pos 0) (pos n) ≡ true
size_test n h = ground arith

eqb_refl : (n : ℕ) → eqb_ℤ (pos n) (pos n) ≡ true
eqb_refl n = ground arith

finish_lem :
    (n : ℕ) (out : Text) (rest : Bytes) → finish (pos n) (n, at out 0 rest) ≡ ok (out, rest)
unfolding finish
finish_lem n out rest = rw (eqb_refl n)

at_eq : (out : Text) {m n : ℕ} {s t : Bytes} → m ≡ n → s ≡ t → at out m s ≡ at out n t
at_eq out e h = cc

nil_of_length : (xs : Bytes) → length xs ≡ 0 → [] ≡ xs
nil_of_length [] h = refl
nil_of_length (x ∷ xs) h = absurd (omega arith)

counted_pos : (k n : ℕ) → (k ≡ 0 → n ≡ 0) → 0 < n → 0 < k
counted_pos zero n h pos_n = absurd (let e = h refl in omega arith)
counted_pos (suc k) n h pos_n = omega arith

-- A tag that may not repeat and has an instance has just one.
rep_one :
    (rep : ℤ) (k : ℕ)
    → ltb_ℤ (pos 1) rep ≡ false
    → 0 < k
    → k + neg_part rep ≤ pos_part rep
    → rep ≡ pos k
rep_one (pos n) k one some_k h = ap pos (ground arith)
rep_one (negsuc n) k one some_k h = absurd (omega arith)

module _ (rt : Runtime) where
  -- A child with a positive size, of which its reader takes exactly the content.
  read_child-content :
      (construct : ℤ → Text → Bytes → Outcome (Text × Bytes)) (b : Bytes) (t : Text)
      → 0 < length b
      → length b ≤ int_max
      → ((out : Text) (rest : Bytes)
          → construct (pos (length b)) out (b ++ rest) ≡ ok (out ++ t, rest))
      → Reads (read_child rt construct) (rt.put_int (pos (length b)) ++ b) t
  unfolding read_child
  read_child-content construct b t content fits reads = record {
    run = λ out n rest.
        let size = length b in
        let whole = length-append (rt.put_int (pos size)) b in
        let len = rt.length-put_int (pos size) in
        let total : length (rt.put_int (pos size) ++ b) + n ≡ 4 + (size + n) =
          omega (arith, whole, len) in
        rw (
          total,
          append_assoc (rt.put_int (pos size)) b rest,
          rt.get-put_int (pos size) (b ++ rest) (pos-IsInt32 size fits),
          size_test size content,
          reads out rest,
          sub_pos 4 (size + n),
          sub_pos size n,
        );
  }

  read_child-empty :
      (construct : ℤ → Text → Bytes → Outcome (Text × Bytes))
      → Reads (read_child rt construct) (rt.put_int (pos 0) ++ []) []
  unfolding read_child
  read_child-empty construct = record {
    run = λ out n rest.
        let whole = length-append (rt.put_int (pos 0)) [] in
        let len = rt.length-put_int (pos 0) in
        let total : length (rt.put_int (pos 0) ++ []) + n ≡ 4 + n = omega (arith, whole, len) in
        rw (
          total,
          append_assoc (rt.put_int (pos 0)) [] rest,
          rt.get-put_int (pos 0) rest (pos-IsInt32 0 (omega arith)),
          sub_pos 4 n,
          append-nil,
        );
  }

  pub read_repeat_many :
      (rep : ℤ) (out : Text) (n count : ℕ) (rest : Bytes)
      → ltb_ℤ (pos 1) rep ≡ true
      → count ≤ int_max
      → read_repeat rt rep (at out (4 + n) (rt.put_int (pos count) ++ rest))
        ≡ (pos count, at out n rest)
  unfolding read_repeat
  read_repeat_many rep out n count rest many fits =
      rw (many, rt.get-put_int (pos count) rest (pos-IsInt32 count fits), sub_pos 4 n)

  read_repeat_one :
      (rep : ℤ) (p : Progress) → ltb_ℤ (pos 1) rep ≡ false → read_repeat rt rep p ≡ (rep, p)
  unfolding read_repeat
  read_repeat_one rep p one = rw one

  module _ (tag : Text) (attrs : List Attribute) (kids : Nodes) (depth : ℕ) where
    abbrev pub body : Progress → Outcome Progress
    body = one_instance rt tag attrs kids depth (construct_children rt kids depth)

    abbrev pub passes : ℤ × Progress → Outcome (Text × Bytes)
    passes r = repeat body (pos_part r.0) 0 r.1 >>= finish r.0

    pub construct_xml-eq :
        (size : ℤ) (out : Text) (input : Bytes)
        → construct_xml rt (element tag attrs kids) size depth out input
          ≡ passes
              (read_repeat rt (max_occurs attrs) (record { out = out; size = size; input = input }))
    unfolding construct_xml
    construct_xml-eq size out input = refl

    module _ (out : Node → Outcome Bytes) (one : Node → Text) (weigh : Node → ℕ) (these : Nodes)
        (buf : Bytes) (total : ℕ)
        (c : Collected out body one weigh tag (max_occurs attrs) these 0 buf total) where
      -- After the repeat count, the loop takes all instances and the tests pass.
      passes-Collected :
          (printed : Text) (rest : Bytes)
          → passes (pos total, at printed (length buf) (buf ++ rest))
            ≡ ok (printed ++ render_all one tag these, rest)
      passes-Collected printed rest =
          let k = count_tag tag these in
          let same : total ≡ k = c.counted ∙ omega arith in
          ap (λ n. repeat body n 0 (at printed (length buf) (buf ++ rest)) >>= finish (pos total))
            (omega (arith, same))
          ∙ ap (λ o. o >>= finish (pos total)) (c.loops 0 0 printed rest)
          ∙ ap (λ n. finish (pos total) (n, at (printed ++ render_all one tag these) 0 rest))
              (omega (arith, same))
          ∙ finish_lem total (printed ++ render_all one tag these) rest

      -- A tag that may repeat: size, count, instances.
      many-Reads :
          ltb_ℤ (pos 1) (max_occurs attrs) ≡ true
          → length buf + 4 ≤ int_max
          → Reads
              (read_child rt
                (λ size out input. construct_xml rt (element tag attrs kids) size depth out input))
              (rt.put_int (pos (length buf + 4)) ++ (rt.put_int (pos total) ++ buf))
              (render_all one tag these)
      many-Reads many fits =
          let content = rt.put_int (pos total) ++ buf in
          let whole = length-append (rt.put_int (pos total)) buf in
          let len = rt.length-put_int (pos total) in
          let size : length content ≡ 4 + length buf = omega (arith, whole, len) in
          let size' : length content ≡ length buf + 4 = omega (arith, whole, len) in
          let few : total ≤ int_max = omega (arith, c.counted, c.sized) in
          subst
            (λ (n : ℕ).
              Reads
                (read_child rt (λ size out input.
                  construct_xml rt (element tag attrs kids) size depth out input))
                (rt.put_int (pos n) ++ content) (render_all one tag these))
            size'
            (read_child-content _ content (render_all one tag these) (omega arith) (omega arith)
              λ printed rest.
                construct_xml-eq (pos (length content)) printed (content ++ rest)
                ∙ ap (λ p. passes (read_repeat rt (max_occurs attrs) p))
                    (at_eq printed size (append_assoc (rt.put_int (pos total)) buf rest))
                ∙ ap passes (
                    read_repeat_many (max_occurs attrs) printed (length buf) total (buf ++ rest)
                      many few)
                ∙ passes-Collected printed rest)

      none-Reads :
          length buf ≡ 0
          → Reads
              (read_child rt
                (λ size out input. construct_xml rt (element tag attrs kids) size depth out input))
              (rt.put_int (pos (length buf)) ++ buf)
              (render_all one tag these)
      none-Reads empty =
          let nothing : count_tag tag these ≡ 0 = omega (arith, c.sized) in
          rw (render_all-none one tag these nothing) (
            subst
              (λ s.
                Reads
                  (read_child rt (λ size out input.
                    construct_xml rt (element tag attrs kids) size depth out input))
                  (rt.put_int (pos (length s)) ++ s) [])
              (nil_of_length buf empty)
              (read_child-empty
                λ size out input. construct_xml rt (element tag attrs kids) size depth out input))

      -- A tag that may not repeat: size, and the instance if there is one.
      one-Reads :
          ltb_ℤ (pos 1) (max_occurs attrs) ≡ false
          → 0 < length buf
          → length buf ≤ int_max
          → Reads
              (read_child rt
                (λ size out input. construct_xml rt (element tag attrs kids) size depth out input))
              (rt.put_int (pos (length buf)) ++ buf)
              (render_all one tag these)
      one-Reads single held fits =
          let k = count_tag tag these in
          let some_k : 0 < k = counted_pos k (length buf) c.empty held in
          let within : k + neg_part (max_occurs attrs) ≤ pos_part (max_occurs attrs) =
            omega (arith, c.bounded some_k) in
          let same : k ≡ total = omega (arith, c.counted) in
          let rep_eq : max_occurs attrs ≡ pos total =
            rep_one (max_occurs attrs) k single some_k within ∙ ap pos same in
          read_child-content _ buf (render_all one tag these) held fits λ printed rest.
            construct_xml-eq (pos (length buf)) printed (buf ++ rest)
            ∙ ap passes
                (read_repeat_one (max_occurs attrs) (at printed (length buf) (buf ++ rest)) single)
            ∙ ap (λ rep. passes (rep, at printed (length buf) (buf ++ rest))) rep_eq
            ∙ passes-Collected printed rest

      -- What `frame` puts out is read back.
      pub frame-Reads :
          length buf + 4 ≤ int_max
          → Reads
              (read_child rt
                (λ size out input. construct_xml rt (element tag attrs kids) size depth out input))
              (frame rt (max_occurs attrs) buf total)
              (render_all one tag these)
      frame-Reads fits = elim (Bool-cases (ltb_ℤ (pos 1) (max_occurs attrs))) [
        | inl many ↦
            rw (frame_many rt (max_occurs attrs) buf total many fits) (many-Reads many fits)
        | inr single ↦
            rw (frame_one rt (max_occurs attrs) buf total single (omega arith))
              (elim (Bool-cases (ltb 0 (length buf))) [
                | inl held ↦ one-Reads single (ground arith) (omega arith)
                | inr empty ↦ none-Reads (ground arith)
              ])
      ]
