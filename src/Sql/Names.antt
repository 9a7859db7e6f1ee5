-- ===== src/Sql/Names.antt =====
-- `StringSlice` of sql/util/types.go.
use sqlike.Common.{
  ℕ, suc, Bool, true, false, List, [], ◌∷◌, ◌++◌, Option, none, some, Bytes, same, if◌then◌else◌,
  take, drop,
}

-- `IndexOf`: none for -1.
unfoldable pub index_of : List Bytes → Bytes → Option ℕ
index_of [] search = none
index_of (w ∷ ws) search =
    if same w search
    then some 0
    else elim (index_of ws search) [ none ↦ none | some i ↦ some (suc i) ]

-- `Splice`, for an index that `IndexOf` found.
abbrev pub splice : List Bytes → ℕ → List Bytes
splice ws i = take i ws ++ drop (suc i) ws

abbrev pub is_some {ℓ} : {A : Type ℓ} → Option A → Bool
is_some none = false
is_some (some a) = true
