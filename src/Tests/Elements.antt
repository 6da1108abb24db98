-- ===== src/Tests/Elements.antt =====
-- The theorems about HDDM_ElementList at a run of three elements in a list of five.
use hddm.Prelude.{ℕ, suc, ◌+◌, ◌≡◌, refl, true, List, ◌∷◌, [], some, arith}
use hddm.Prelude.Int.{pos, negsuc}
use hddm.Outcome.{ok}
use hddm.ElementList.{ElementList, insert_some, add, del, slice, at_index, inflate, deflate}
use hddm.ElementList.Cursor.{IsView}
use hddm.ElementList.Add.{add-IsView}
use hddm.ElementList.Delete.{del-IsView}
use hddm.ElementList.Access.{at_index-IsView, slice-IsView, inflate-deflate, insert_some-below}

abbrev front : List ℕ
front = 10 ∷ []

abbrev three : List ℕ
three = 1 ∷ 2 ∷ 3 ∷ []

abbrev behind : List ℕ
behind = 20 ∷ []

abbrev shared_run : ElementList ℕ
shared_run = record {
  host = 10 ∷ 1 ∷ 2 ∷ 3 ∷ 20 ∷ [];
  first = 1;
  last = 3;
  size = 3;
  ref = 0;
  is_mutable = true;
}

shared_run-IsView : IsView front three behind shared_run
shared_run-IsView = record { host = refl; first = refl; size = refl; last = refl }

add-IsView_example :
    (s' part : ElementList ℕ) × (add 0 shared_run (pos 1) (7 ∷ 8 ∷ []) ≡ ok (some (s', part)))
    × IsView front (1 ∷ 7 ∷ 8 ∷ 2 ∷ 3 ∷ []) behind s'
    × IsView (10 ∷ 1 ∷ []) (7 ∷ 8 ∷ []) (2 ∷ 3 ∷ 20 ∷ []) part
add-IsView_example =
    add-IsView front three behind 0 shared_run (pos 1) 7 (8 ∷ []) shared_run-IsView (omega arith)
      refl

del-IsView_example :
    (s' : ElementList ℕ) × (del shared_run (negsuc 0) (pos 1) ≡ ok (some (s', 2 ∷ 3 ∷ [])))
    × IsView front (1 ∷ []) behind s'
del-IsView_example =
    del-IsView front three behind shared_run (pos 1) (negsuc 0) shared_run-IsView (omega arith) refl
      refl

slice-IsView_example :
    (part : ElementList ℕ) × (slice shared_run (pos 1) (negsuc 0) ≡ ok part)
    × IsView (10 ∷ 1 ∷ []) (2 ∷ 3 ∷ []) (20 ∷ []) part
slice-IsView_example =
    slice-IsView front three behind shared_run (pos 1) (negsuc 0) 2 shared_run-IsView (omega arith)
      (omega arith) refl

at_index-IsView_example :
    (x : ℕ) × (at_index shared_run (negsuc 1) ≡ ok x) × (three ≡ 1 ∷ x ∷ 3 ∷ [])
at_index-IsView_example =
    at_index-IsView front three behind shared_run (negsuc 1) shared_run-IsView (omega arith)

inflate-deflate_example :
    (s' : ElementList ℕ) × (inflate (deflate shared_run) (11 ∷ 4 ∷ 5 ∷ 6 ∷ []) ≡ ok s')
    × IsView (11 ∷ []) (4 ∷ 5 ∷ 6 ∷ []) [] s'
    × (s'.is_mutable ≡ true)
inflate-deflate_example =
    inflate-deflate front three behind shared_run (11 ∷ []) (4 ∷ 5 ∷ 6 ∷ []) [] shared_run-IsView
      refl refl

insert_some-below_example :
    (s' : ElementList ℕ) × (insert_some shared_run (negsuc 3) (7 ∷ []) ≡ ok (s', 1))
    × (s'.host ≡ 10 ∷ 7 ∷ 1 ∷ 2 ∷ 3 ∷ 20 ∷ [])
    × (s'.first ≡ 2)
    × (s'.first + s'.size ≡ suc s'.last + 1)
insert_some-below_example =
    insert_some-below front three behind shared_run (7 ∷ []) 2 shared_run-IsView (omega arith) refl
