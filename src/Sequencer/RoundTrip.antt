-- ===== src/Sequencer/RoundTrip.antt =====
-- A record that a generated library wrote, in the hands of a library from the same template.
use hddm.Prelude.{ℕ, ◌≡◌, Bool, ◌++◌}
use hddm.Prelude.Text.{Text, Bytes}
use hddm.Prelude.Int.{ℤ, IsInt32}
use hddm.Sequencer.{Codons, Fields, empty_fields, write_fields, read_genes}
use hddm.Sequencer.Same.{own_genes, IsRecord, read_genes-own_genes}
use hddm.Sequencer.Header.{Tags, tag, walked, closing_line}
use hddm.Sequencer.Synthesis.{synthesize}
use hddm.Sequencer.Synthesis.Same.{AreDistinct, HaveEnds, members_of, synthesize-own_genes}

-- A library that meets a file whose header is its own template, with different names for the tags below
-- one tag, and where getEndTag finds the end of each element below the root in the header's text, makes
-- genes for it without an exception, and they read every record that the same library wrote as it was,
-- whatever stands behind it. The XDR integers are read back, attributes can be split off, all that is
-- there stores something, links have one element at most, and sizes fit an int.
pub read_genes-synthesize :
    (number : Text → ℕ) (repeats : Text → Bool) (put_int : ℤ → Bytes) (get_int : Bytes → ℤ × Bytes)
    (take_attrs : ℕ → Bytes → Bytes × Bytes) (name text : Text) (below : Tags) (fs : Fields)
    (rest : Bytes)
    → ((v : ℤ) (more : Bytes) → IsInt32 v → get_int (put_int v ++ more) ≡ (v, more))
    → AreDistinct below
    → HaveEnds 1 (closing_line 0 name text) below
    → IsRecord put_int get_int take_attrs (members_of number repeats below) fs
    → (genes : Codons) × (synthesize (tag name text below) (tag name text below) ≡ walked genes)
      × (read_genes get_int take_attrs genes
            (members_of number repeats below)
            (empty_fields (members_of number repeats below))
            (write_fields put_int fs (members_of number repeats below) ++ rest)
          ≡ (fs, rest))
read_genes-synthesize number repeats put_int get_int take_attrs name text below fs rest get-put_int
      d ends h =
    (
      own_genes 0 (members_of number repeats below),
      synthesize-own_genes number repeats name text below d ends,
      read_genes-own_genes put_int get_int take_attrs get-put_int (members_of number repeats below)
          fs rest h,
    )
