-- ===== src/Sql/Migrate/Walk.antt =====
-- The walk over the generated columns of a field in sql/dialect/mysql/table.go ends.
use sqlike.Common.{ℕ, zero, suc, ◌+◌, ◌≤◌, ◌≡◌, refl, List, [], ◌∷◌, ◌++◌, Bytes, arith}
use sqlike.Sql.Migrate.{
  Child, child, Children, no_children, and_child, child_list, generated_entries, size, sizes,
  all_sizes,
}

all_sizes-append : (cs ds : List Child) → all_sizes (cs ++ ds) ≡ all_sizes cs + all_sizes ds
unfolding all_sizes
all_sizes-append [] ds = omega arith
all_sizes-append (c ∷ cs) ds = omega (arith, all_sizes-append cs ds)

all_sizes-child_list : (cs : Children) → all_sizes (child_list cs) ≡ sizes cs
unfolding all_sizes sizes
all_sizes-child_list no_children = refl
all_sizes-child_list (and_child c cs) = omega (arith, all_sizes-child_list cs)

enough :
    (f g : ℕ) (sf : Bytes) (cs : List Child)
    → all_sizes cs ≤ f
    → all_sizes cs ≤ g
    → generated_entries f sf cs ≡ generated_entries g sf cs
unfolding generated_entries all_sizes size
enough zero zero sf cs h k = refl
enough zero (suc g) sf [] h k = refl
enough (suc f) zero sf [] h k = refl
enough (suc f) (suc g) sf [] h k = refl
enough zero (suc g) sf (child n t col below ∷ cs) h k = absurd (omega arith)
enough (suc f) zero sf (child n t col below ∷ cs) h k = absurd (omega arith)
enough (suc f) (suc g) sf (child n t col below ∷ cs) h k =
    let s = all_sizes-append cs (child_list below) in
    let c = all_sizes-child_list below in
    rw (enough f g sf (cs ++ child_list below) (omega (arith, s, c)) (omega (arith, s, c))) refl

-- The walk over the generated columns of a field ends: as many rounds as there are columns below the field are
-- enough, and more change nothing.
generated_entries_enough :
    (sf : Bytes) (cs : List Child) (more : ℕ)
    → generated_entries (all_sizes cs + more) sf cs ≡ generated_entries (all_sizes cs) sf cs
generated_entries_enough sf cs more =
    enough (all_sizes cs + more) (all_sizes cs) sf cs (omega arith) (omega arith)
