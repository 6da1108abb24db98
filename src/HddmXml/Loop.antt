-- ===== src/HddmXml/Loop.antt =====
-- The repeat loop of `constructXML` in src/hddm-xml.cpp, over the instances that the writer collected.
use hddm.Prelude.{
  ℕ, zero, suc, ◌+◌, ◌≤◌, ◌<◌, ◌≡◌, refl, ap, ◌∙◌, subst, sym, true, false, not, List, [], ◌++◌,
  length, length-append, append_assoc, append-nil, arith, inl, inr, Bool-cases,
}
use hddm.Prelude.Text.{Text, Bytes, text_eq}
use hddm.Prelude.Int.{ℤ, pos, pos_part, neg_part, ltb_ℤ, int_max}
use hddm.Outcome.{Outcome, ok}
use hddm.Dom.{Node, Nodes, element, text, nil, cons, Attribute}
use hddm.XmlHddm.{collect}
use hddm.XmlHddm.Inversion.{collect-taken, collect-skipped}
use hddm.Extent.{extent_all}
use hddm.HddmXml.{Progress, repeat}
use hddm.HddmXml.Steps.{at, Reads}
use hddm.Render.{count_tag, render_all}

repeat_step :
    (body : Progress → Outcome Progress) (n r : ℕ) (p q : Progress)
    → ltb_ℤ (pos 0) p.size ≡ true
    → body p ≡ ok q
    → repeat body (suc n) r p ≡ repeat body n (r + 1) q
unfolding repeat
repeat_step body n r p q more h = rw (repeat, more, h)

pub repeat_done :
    (body : Progress → Outcome Progress) (n r : ℕ) (out : Text) (input : Bytes)
    → repeat body n r (at out 0 input) ≡ ok (r, at out 0 input)
unfolding repeat
repeat_done body zero r out input = refl
repeat_done body (suc n) r out input = refl

size_pos : (n : ℕ) → 0 < n → ltb_ℤ (pos 0) (pos n) ≡ true
size_pos n h = ground arith

room_le :
    (count : ℕ) (rep : ℤ)
    → not (ltb_ℤ rep (pos (count + 1))) ≡ true
    → count + 1 + neg_part rep ≤ pos_part rep
room_le count rep h = ground arith

take_bound :
    (k count : ℕ) (rep : ℤ)
    → not (ltb_ℤ rep (pos (count + 1))) ≡ true
    → (0 < k → count + 1 + k + neg_part rep ≤ pos_part rep)
    → count + suc k + neg_part rep ≤ pos_part rep
take_bound zero count rep room h = omega (arith, room_le count rep room)
take_bound (suc k) count rep room h = omega (arith, h (omega arith))

end_eq :
    (m n : ℕ) (o t u : Text) (rest : Bytes)
    → m ≡ n
    → ◌≡◌ {A = Outcome (ℕ × Progress)}
        (ok (m, at ((o ++ t) ++ u) 0 rest))
        (ok (n, at (o ++ (t ++ u)) 0 rest))
end_eq m n o t u rest h = rw (append_assoc o t u) (ap (λ k. ok (k, at (o ++ (t ++ u)) 0 rest)) h)

-- The rest of the input, after one instance.
Reads-first :
    {body : Progress → Outcome Progress} {b : Bytes} {t : Text} (more : Bytes) (out : Text)
    (rest : Bytes)
    → Reads body b t
    → body (at out (length (b ++ more)) ((b ++ more) ++ rest))
      ≡ ok (at (out ++ t) (length more) (more ++ rest))
Reads-first {b} more out rest h =
    rw (length-append b more, append_assoc b more rest) (h.run out (length more) (more ++ rest))

pub render_all-none :
    (one : Node → Text) (tag : Text) (ns : Nodes)
    → count_tag tag ns ≡ 0
    → render_all one tag ns ≡ []
unfolding count_tag render_all
render_all-none one tag nil h = refl
render_all-none one tag (cons (text t) ns) h = render_all-none one tag ns h
render_all-none one tag (cons (element t attrs kids) ns) h = elim (Bool-cases (text_eq t tag)) [
  | inl same ↦ absurd (let h' = rw same at h in omega arith)
  | inr other ↦ rw other (render_all-none one tag ns (let h' = rw other at h in omega arith))
]

module _ (out : Node → Outcome Bytes) (body : Progress → Outcome Progress) (one : Node → Text)
    (weigh : Node → ℕ) (tag : Text) (rep : ℤ) where
  -- What the writer's loop leaves when it ends: how many instances it counted, and that the reader's
  -- loop takes them one by one, whatever number of rounds it may still go.
  pub record Collected (ns : Nodes) (count : ℕ) (bs : Bytes) (total : ℕ) : Type 0 where
    pub counted : total ≡ count + count_tag tag ns
    pub sized : count_tag tag ns ≤ length bs
    pub bounded : 0 < count_tag tag ns → count + count_tag tag ns + neg_part rep ≤ pos_part rep
    pub empty : count_tag tag ns ≡ 0 → length bs ≡ 0
    pub light : length bs ≤ extent_all weigh tag ns
    pub loops :
        (extra r : ℕ) (printed : Text) (rest : Bytes)
        → repeat body (count_tag tag ns + extra) r (at printed (length bs) (bs ++ rest))
          ≡ ok (r + count_tag tag ns, at (printed ++ render_all one tag ns) 0 rest)

  Collected-nil : (count : ℕ) → Collected nil count [] count
  unfolding count_tag render_all extent_all
  Collected-nil count = record {
    counted = omega arith;
    sized = omega arith;
    bounded = λ h. absurd (omega arith);
    empty = λ h. refl;
    light = omega arith;
    loops = λ extra r printed rest.
        repeat_done body (0 + extra) r printed rest
        ∙ ap (λ (n : ℕ). ok (n, at printed 0 rest)) (omega arith)
        ∙ ap (λ o. ok (r + 0, at o 0 rest)) (sym (append-nil printed));
  }

  Collected-text :
      (s : Text) (ns : Nodes) (count : ℕ) (bs : Bytes) (total : ℕ)
      → Collected ns count bs total
      → Collected (cons (text s) ns) count bs total
  unfolding count_tag render_all extent_all
  Collected-text s ns count bs total c = record {
    counted = c.counted;
    sized = c.sized;
    bounded = c.bounded;
    empty = c.empty;
    light = c.light;
    loops = c.loops;
  }

  Collected-skip :
      (t : Text) (attrs : List Attribute) (kids ns : Nodes) (count : ℕ) (bs : Bytes) (total : ℕ)
      → text_eq t tag ≡ false
      → Collected ns count bs total
      → Collected (cons (element t attrs kids) ns) count bs total
  Collected-skip t attrs kids ns count bs total other c =
      let same_count : count_tag tag (cons (element t attrs kids) ns) ≡ count_tag tag ns =
        unfold count_tag in (rw other (omega arith)) in
      let same_text : render_all one tag (cons (element t attrs kids) ns) ≡ render_all one tag ns =
        unfold render_all in (rw other) in
      let same_weight : extent_all weigh tag (cons (element t attrs kids) ns)
          ≡ extent_all weigh tag ns =
        unfold extent_all in (rw other (omega arith)) in
      record {
        counted = rw same_count c.counted;
        sized = rw same_count c.sized;
        bounded = rw same_count c.bounded;
        empty = rw same_count c.empty;
        light = rw same_weight c.light;
        loops = rw (same_count, same_text) c.loops;
      }

  Collected-take :
      (t : Text) (attrs : List Attribute) (kids ns : Nodes) (count : ℕ) (b more : Bytes) (total : ℕ)
      → text_eq t tag ≡ true
      → not (ltb_ℤ rep (pos (count + 1))) ≡ true
      → 0 < length b
      → length b ≤ weigh (element t attrs kids)
      → Reads body b (one (element t attrs kids))
      → Collected ns (count + 1) more total
      → Collected (cons (element t attrs kids) ns) count (b ++ more) total
  Collected-take t attrs kids ns count b more total same room content small reads c =
      let k = count_tag tag ns in
      let step_count : count_tag tag (cons (element t attrs kids) ns) ≡ suc k =
        unfold count_tag in (rw same (omega arith)) in
      let step_text : render_all one tag (cons (element t attrs kids) ns)
          ≡ one (element t attrs kids) ++ render_all one tag ns =
        unfold render_all in (rw same) in
      let step_weight : extent_all weigh tag (cons (element t attrs kids) ns)
          ≡ weigh (element t attrs kids) + extent_all weigh tag ns =
        unfold extent_all in (rw same) in
      let whole = length-append b more in
      record {
        counted = rw step_count (omega (arith, c.counted));
        sized = rw step_count (omega (arith, whole, c.sized));
        bounded = rw step_count (λ h. take_bound k count rep room c.bounded);
        empty = rw step_count (λ h. absurd (omega arith));
        light = rw step_weight (omega (arith, whole, c.light));
        loops =
            rw (step_count, step_text)
              λ extra r printed rest.
                let step_rounds : suc k + extra ≡ suc (k + extra) = omega arith in
                ap (λ n. repeat body n r (at printed (length (b ++ more)) ((b ++ more) ++ rest)))
                  step_rounds
                ∙ repeat_step body (k + extra) r _ _
                    (size_pos (length (b ++ more)) (omega (arith, whole)))
                    (Reads-first more printed rest reads)
                ∙ c.loops extra (r + 1) (printed ++ one (element t attrs kids)) rest
                ∙ end_eq (r + 1 + k) (r + suc k) printed (one (element t attrs kids))
                    (render_all one tag ns) rest (omega arith);
      }

  extent_split :
      (t : Text) (attrs : List Attribute) (kids ns : Nodes)
      → text_eq t tag ≡ true
      → extent_all weigh tag (cons (element t attrs kids) ns) ≤ int_max
      → (weigh (element t attrs kids) ≤ int_max) × (extent_all weigh tag ns ≤ int_max)
  unfolding extent_all
  extent_split t attrs kids ns same fits = let fits' = rw same at fits in omega arith

  extent_skip :
      (t : Text) (attrs : List Attribute) (kids ns : Nodes)
      → text_eq t tag ≡ false
      → extent_all weigh tag (cons (element t attrs kids) ns) ≤ int_max
      → extent_all weigh tag ns ≤ int_max
  unfolding extent_all
  extent_skip t attrs kids ns other fits = let fits' = rw other at fits in omega arith

  module _
      (good : (t : Text) (attrs : List Attribute) (kids : Nodes) (b : Bytes)
        → out (element t attrs kids) ≡ ok b
        → weigh (element t attrs kids) ≤ int_max
        → (0 < length b)
          × (length b ≤ weigh (element t attrs kids))
          × Reads body b (one (element t attrs kids))) where
    pub collect-Collected :
        (ns : Nodes) (count : ℕ) (bs : Bytes) (total : ℕ)
        → collect out tag rep count ns ≡ ok (bs, total)
        → extent_all weigh tag ns ≤ int_max
        → Collected ns count bs total
    collect-Collected nil count bs total h fits =
        let no_bytes : [] ≡ bs = unfold collect in cc in
        let same_count : count ≡ total = unfold collect in cc in
        subst (λ c. Collected nil count c total) no_bytes
          (subst (λ n. Collected nil count [] n) same_count (Collected-nil count))
    collect-Collected (cons (text s) ns) count bs total h fits =
        Collected-text s ns count bs total
          (collect-Collected ns count bs total (unfold collect in h) (unfold extent_all in fits))
    collect-Collected (cons (element t attrs kids) ns) count bs total h fits =
        elim (Bool-cases (text_eq t tag)) [
          | inl same ↦
              let (b, more, e₁, first, room, e₂, e) =
                collect-taken out tag rep count t attrs kids ns bs total same h in
              let (mine, rest) = extent_split t attrs kids ns same fits in
              let (content, small, reads) = good t attrs kids b e₁ mine in
              subst (λ c. Collected (cons (element t attrs kids) ns) count c total) (sym e)
                (Collected-take t attrs kids ns count b more total same room content small reads
                  (collect-Collected ns (count + 1) more total e₂ rest))
          | inr other ↦ Collected-skip t attrs kids ns count bs total other (
              collect-Collected ns count bs total
                (collect-skipped out tag rep count t attrs kids ns (bs, total) other h)
                (extent_skip t attrs kids ns other fits))
        ]
