-- ===== src/RoundTrip/Empty.antt =====
-- A tag whose instances have no bytes: src/xml-hddm.cpp writes them, src/hddm-xml.cpp does not read them.
use hddm.Prelude.{ℕ, ◌≤◌, ◌<◌, ◌≡◌, ap, ◌∙◌, true, false, List, [], ◌++◌, append_assoc, arith}
use hddm.Prelude.Text.{Text, Bytes}
use hddm.Prelude.Int.{ℤ, pos, ltb_ℤ, eqb_ℤ, int_max}
use hddm.Outcome.{exit, ◌>>=◌}
use hddm.Dom.{Nodes, element, Attribute, max_occurs}
use hddm.Runtime.{Runtime}
use hddm.XmlHddm.{frame}
use hddm.HddmXml.{finish, read_repeat, read_child, construct_xml}
use hddm.HddmXml.Steps.{at}
use hddm.HddmXml.Loop.{repeat_done}
use hddm.RoundTrip.Frame.{frame_many}
use hddm.RoundTrip.Tag.{pos-IsInt32, read_repeat_many, construct_xml-eq, body, passes}

finish_short :
    (n : ℕ) (out : Text) (input : Bytes) → 0 < n → finish (pos n) (0, at out 0 input) ≡ exit 5
unfolding finish
finish_short n out input h = let differ : eqb_ℤ (pos 0) (pos n) ≡ false = ground arith in rw differ

module _ (rt : Runtime) where
  empty_content :
      (tag : Text) (attrs : List Attribute) (kids : Nodes) (depth count : ℕ) (out : Text)
      (rest : Bytes)
      → ltb_ℤ (pos 1) (max_occurs attrs) ≡ true
      → 0 < count
      → count ≤ int_max
      → construct_xml rt (element tag attrs kids) (pos 4) depth out (rt.put_int (pos count) ++ rest)
        ≡ exit 5
  empty_content tag attrs kids depth count out rest many some_count fits =
      construct_xml-eq rt tag attrs kids depth (pos 4) out (rt.put_int (pos count) ++ rest)
      ∙ ap (passes rt tag attrs kids depth) (
          ap
            (λ (n : ℕ).
              read_repeat rt (max_occurs attrs) (at out n (rt.put_int (pos count) ++ rest)))
            (omega arith)
          ∙ read_repeat_many rt (max_occurs attrs) out 0 count rest many fits)
      ∙ ap (λ o. o >>= finish (pos count))
          (repeat_done (body rt tag attrs kids depth) count 0 out rest)
      ∙ finish_short count out rest some_count

  -- What the writer puts out for one or more instances, without content, of a tag that may repeat makes
  -- the reader leave with status 5, a repeat count mismatch: its loop does not enter where the size is
  -- used up.
  pub read_child-frame_empty :
      (tag : Text) (attrs : List Attribute) (kids : Nodes) (depth count : ℕ) (out : Text) (size : ℤ)
      (rest : Bytes)
      → ltb_ℤ (pos 1) (max_occurs attrs) ≡ true
      → 0 < count
      → count ≤ int_max
      → read_child rt
          (λ n out input. construct_xml rt (element tag attrs kids) n depth out input)
          (record { out = out; size = size; input = frame rt (max_occurs attrs) [] count ++ rest })
        ≡ exit 5
  unfolding read_child
  read_child-frame_empty tag attrs kids depth count out size rest many some_count fits = rw (
    frame_many rt (max_occurs attrs) [] count many (omega arith),
    append_assoc (rt.put_int (pos 4)) (rt.put_int (pos count) ++ []) rest,
    append_assoc (rt.put_int (pos count)) [] rest,
    rt.get-put_int (pos 4) (rt.put_int (pos count) ++ rest) (pos-IsInt32 4 (omega arith)),
    empty_content tag attrs kids depth count out rest many some_count fits,
  )
