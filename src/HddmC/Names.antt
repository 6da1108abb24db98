-- ===== src/HddmC/Names.antt =====
-- Names of C structures in src/hddm-c.cpp, made from the names of tags.
use hddm.Prelude.{
  ℕ, ◌-◌, Bool, true, false, [], ◌∷◌, ◌++◌, Option, none, some, length, take, drop, ltb, leb, ◌&&◌,
  if◌then◌else◌,
}
use hddm.Prelude.Text.{Text, codes, text_eq}

-- p.substr(len - n, n) == suffix, for the suffix's length n. There is none where the position lies
-- beyond the text's end: std::out_of_range is thrown.
unfoldable pub ends_with : Text → Text → Option Bool
ends_with suffix p =
    let len = length p in
    let n = length suffix in if ltb len n then none else some (text_eq (drop (len - n) p) suffix)

-- p.replace(len - n, n, ending)
abbrev pub replace_end : ℕ → Text → Text → Text
replace_end n ending p = take (length p - n) p ++ ending

-- A test of `plural`: longer than a bound, and with that ending.
unfoldable pub longer_with : ℕ → Text → Text → Option Bool
longer_with bound suffix p = if ltb bound (length p) then ends_with suffix p else some false

-- What is done if a test holds, and if it does not.
abbrev pub on_test : Option Bool → Text → Option Text → Option Text
on_test none ended rest = none
on_test (some true) ended rest = some ended
on_test (some false) ended rest = rest

-- XtString::plural; `none` is the exception.
unfoldable pub plural : Text → Option Text
plural p = on_test (longer_with 3 (codes "tum") p) (replace_end 3 (codes "ta") p) (
    on_test (longer_with 1 (codes "ies") p) (replace_end 3 (codes "iesList") p) (
      on_test (longer_with 2 (codes "ex") p) (replace_end 2 (codes "ices") p) (
        on_test (longer_with 2 (codes "sh") p) (replace_end 2 (codes "shes") p) (
          on_test (longer_with 1 (codes "s") p) (replace_end 1 (codes "ses") p)
            (some (if ltb 1 (length p) then p ++ codes "s" else p))))))

abbrev pub to_upper : ℕ → ℕ
to_upper c = if leb b'a' c && leb c b'z' then c - 32 else c

abbrev pub capitalised : Text → Text
capitalised [] = []
capitalised (c ∷ cs) = to_upper c ∷ cs

-- XtString::simpleType, with the global classPrefix
unfoldable pub simple_type : Text → Text → Text
simple_type prefix p = prefix ++ (codes "_" ++ (capitalised p ++ codes "_t"))

-- XtString::listType
unfoldable pub list_type : Text → Text → Option Text
list_type prefix p = elim (plural p) [
  | none ↦ none
  | some r ↦ some (prefix ++ (codes "_" ++ (capitalised r ++ codes "_t")))
]
