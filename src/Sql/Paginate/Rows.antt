-- ===== src/Sql/Paginate/Rows.antt =====
-- The condition behind a cursor against the order of the rows. A sort is a pair: whether the row is not
-- before the cursor in it, and whether it is behind.
use sqlike.Common.{◌≡◌, refl, Bool, true, false, ◌&&◌, ◌||◌, List, [], ◌∷◌}

-- Not before the cursor in any sort but the last.
abbrev pub bounded : List (Bool × Bool) → Bool
bounded [] = true
bounded (k ∷ []) = true
bounded (k ∷ l ∷ ks) = k.0 && bounded (l ∷ ks)

-- Behind the cursor in some sort, or not before it in the last, the primary key.
abbrev pub beyond : List (Bool × Bool) → Bool
beyond [] = false
beyond (k ∷ []) = k.0
beyond (k ∷ l ∷ ks) = k.1 || beyond (l ∷ ks)

-- At the cursor or behind it in the order of ORDER BY, which compares the sorts one after another.
abbrev pub follows : List (Bool × Bool) → Bool
follows [] = false
follows (k ∷ []) = k.0
follows (k ∷ l ∷ ks) = k.1 || (k.0 && follows (l ∷ ks))

pub bounded-follows :
    (ks : List (Bool × Bool)) → (bounded ks && beyond ks) ≡ true → follows ks ≡ true
bounded-follows [] h = h
bounded-follows (k ∷ []) h = h
bounded-follows ((true, true) ∷ l ∷ ks) h = refl
bounded-follows ((true, false) ∷ l ∷ ks) h = bounded-follows (l ∷ ks) h
bounded-follows ((false, true) ∷ l ∷ ks) h = refl
bounded-follows ((false, false) ∷ l ∷ ks) h = h

-- What is behind the cursor is not before it.
abbrev pub AllOrdered : List (Bool × Bool) → Type 0
AllOrdered [] = Unit {0}
AllOrdered (k ∷ ks) = (k.1 ≡ true → k.0 ≡ true) × AllOrdered ks

pub follows-bounded :
    (k l : Bool × Bool)
    → AllOrdered (k ∷ l ∷ [])
    → follows (k ∷ l ∷ []) ≡ true
    → (bounded (k ∷ l ∷ []) && beyond (k ∷ l ∷ [])) ≡ true
follows-bounded (true, true) l o h = refl
follows-bounded (true, false) l o h = h
follows-bounded (false, true) l o h = o.0 refl
follows-bounded (false, false) l o h = h
