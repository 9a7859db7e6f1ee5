-- ===== src/Types/Key/Shape.antt =====
-- The paths that `marshal` of types/key.go writes.
use sqlike.Common.{
  ℕ, suc, ◌≡◌, refl, sym, ap, ◌∙◌, Bool, true, false, [], ◌∷◌, ◌++◌, none, some, Bytes, arith, ◌==◌,
  if◌then◌else◌, length-append, take-append_length, get_elem?-append,
}
use sqlike.Sql.Primitive.{ℤ, pos, negsuc}
use sqlike.Go.Decimal.{
  Int64, is_digit, AllDigits, format_nat, format_int, parse_int, format_nat-AllDigits, first_digit,
  parse_int-format_int,
}
use sqlike.Go.Escape.{
  should_escape, AllBytes, path_escape, path_unescape, path_unescape-path_escape,
  path_escape-no_slash, path_escape-no_comma,
}
use sqlike.Go.Split.{Lacks, append-Lacks, split, split-append}
use sqlike.Types.Key.{invalid_number, key, Pointer, nil, identity, set_identity, set_parts}

digits-Lacks :
    (x : ℕ) (w : Bytes) → ((c : ℕ) → is_digit c ≡ true → (c == x) ≡ false) → AllDigits w → Lacks x w
digits-Lacks x [] h k = tt
digits-Lacks x (c ∷ w) h (d, k) = (h c d, digits-Lacks x w h k)

digit_slash : (c : ℕ) → is_digit c ≡ true → (c == b'/') ≡ false
digit_slash c h = ground arith

digit_comma : (c : ℕ) → is_digit c ≡ true → (c == b',') ≡ false
digit_comma c h = ground arith

format_int-no_slash : (i : ℤ) → Lacks b'/' (format_int i)
unfolding format_int
format_int-no_slash (pos n) = digits-Lacks b'/' (format_nat n) digit_slash (format_nat-AllDigits n)
format_int-no_slash (negsuc n) =
    (refl, digits-Lacks b'/' (format_nat (suc n)) digit_slash (format_nat-AllDigits (suc n)))

format_int-no_comma : (i : ℤ) → Lacks b',' (format_int i)
unfolding format_int
format_int-no_comma (pos n) = digits-Lacks b',' (format_nat n) digit_comma (format_nat-AllDigits n)
format_int-no_comma (negsuc n) =
    (refl, digits-Lacks b',' (format_nat (suc n)) digit_comma (format_nat-AllDigits (suc n)))

-- A number of 64 bits or a name of bytes, and not both.
abbrev pub Identity : ℤ → Bytes → Type 0
Identity i [] = Int64 i
Identity i (c ∷ n) = AllBytes (c ∷ n) × (i ≡ pos 0)

pub identity-no_slash : (i : ℤ) (n : Bytes) → Identity i n → Lacks b'/' (identity true i n)
identity-no_slash i [] h = format_int-no_slash i
identity-no_slash i (c ∷ n) (h, e) = (
  refl,
  append-Lacks b'/' (path_escape (c ∷ n)) (b'\'' ∷ []) (path_escape-no_slash (c ∷ n) h) (refl, tt),
)

identity-no_comma : (i : ℤ) (n : Bytes) → Identity i n → Lacks b',' (identity true i n)
identity-no_comma i [] h = format_int-no_comma i
identity-no_comma i (c ∷ n) (h, e) = (
  refl,
  append-Lacks b',' (path_escape (c ∷ n)) (b'\'' ∷ []) (path_escape-no_comma (c ∷ n) h) (refl, tt),
)

digit_quote : (c : ℕ) → is_digit c ≡ true → (c == b'\'') ≡ false
digit_quote c h = ground arith

-- The number of a key, read into a key: its name stays.
module _ (ns kind m : Bytes) (j : ℤ) (p : Pointer) where
  set_number :
      (c : ℕ) (cs : Bytes)
      → (c == b'\'') ≡ false
      → set_identity (key ns kind j m p) (c ∷ cs) ≡ (
        key ns kind (parse_int (c ∷ cs)).0 m p,
        if (parse_int (c ∷ cs)).1 then none else some invalid_number,
      )
  unfolding set_identity
  set_number c cs h = ground arith

  set_number_text :
      (t : Bytes) (c : ℕ) (cs : Bytes) (i : ℤ)
      → t ≡ c ∷ cs
      → (c == b'\'') ≡ false
      → parse_int t ≡ (i, true)
      → set_identity (key ns kind j m p) t ≡ (key ns kind i m p, none)
  set_number_text t c cs i e h q =
      ap (set_identity (key ns kind j m p)) e
      ∙ set_number c cs h
      ∙ ap (λ r. (key ns kind r.0 m p, if r.1 then none else some invalid_number))
          (ap parse_int (sym e) ∙ q)

  set_format_int :
      (i : ℤ)
      → Int64 i
      → set_identity (key ns kind j m p) (format_int i) ≡ (key ns kind i m p, none)
  unfolding format_int
  set_format_int (pos n) h =
      let (c, w, e, d) = first_digit n in
      set_number_text (format_nat n) c w (pos n) e (digit_quote c d)
        (parse_int-format_int (pos n) h)
  set_format_int (negsuc n) h =
      set_number_text (b'-' ∷ format_nat (suc n)) b'-' (format_nat (suc n)) (negsuc n) refl refl
        (parse_int-format_int (negsuc n) h)

-- A name in quotes, read into a key.
set_name :
    (c : ℕ) (w s ns kind : Bytes) (p : Pointer)
    → path_unescape (c ∷ w) ≡ some s
    → set_identity (key ns kind (pos 0) [] p) (b'\'' ∷ c ∷ (w ++ b'\'' ∷ []))
      ≡ (key ns kind (pos 0) s p, none)
unfolding set_identity
set_name c w s ns kind p h = ground (
  arith,
  h,
  length-append w (b'\'' ∷ []),
  get_elem?-append w (b'\'' ∷ []) 0,
  take-append_length w (b'\'' ∷ []),
)

first_of :
    (b : Bool) (x y : ℕ) (v w : Bytes)
    → (d : ℕ) × (t : Bytes) × ((if b then x ∷ v else y ∷ w) ≡ d ∷ t)
first_of true x y v w = (x, v, refl)
first_of false x y v w = (y, w, refl)

escape_first : (c : ℕ) (w : Bytes) → (d : ℕ) × (v : Bytes) × (path_escape (c ∷ w) ≡ d ∷ v)
unfolding path_escape
escape_first c w = first_of (should_escape c) _ _ _ _

pub set_identity-identity :
    (i : ℤ) (n ns kind : Bytes) (p : Pointer)
    → Identity i n
    → set_identity (key ns kind (pos 0) [] p) (identity true i n) ≡ (key ns kind i n p, none)
set_identity-identity i [] ns kind p h = set_format_int ns kind [] (pos 0) p i h
set_identity-identity i (c ∷ n) ns kind p (h, e) =
    let (d, v, q) = escape_first c n in
    ap (λ x. set_identity (key ns kind (pos 0) [] p) (b'\'' ∷ (x ++ b'\'' ∷ []))) q
    ∙ set_name d v (c ∷ n) ns kind p
        (ap path_unescape (sym q) ∙ path_unescape-path_escape (c ∷ n) h)
    ∙ ap (λ j. (key ns kind j (c ∷ n) p, none)) (sym e)

-- The path of one level.
abbrev pub level : Bytes → ℤ → Bytes → Bytes
level kind i n = kind ++ b',' ∷ identity true i n

pub set_parts-level :
    (i : ℤ) (n ns kind : Bytes) (p : Pointer)
    → Lacks b',' kind
    → Identity i n
    → set_parts (key ns [] (pos 0) [] p) (split b',' (level kind i n)) ≡ (key ns kind i n p, none)
unfolding set_parts set_identity
set_parts-level i n ns kind p h q =
    ap (set_parts (key ns [] (pos 0) [] p))
      (split-append b',' kind (identity true i n) h (identity-no_comma i n q))
    ∙ set_identity-identity i n ns kind p q

pub level-no_slash :
    (i : ℤ) (n kind : Bytes) → Lacks b'/' kind → Identity i n → Lacks b'/' (level kind i n)
level-no_slash i n kind h q =
    append-Lacks b'/' kind (b',' ∷ identity true i n) h (refl, identity-no_slash i n q)

-- The path of a key with a number, read into any key without a parent: its name stays.
pub set_parts-number :
    (i j : ℤ) (m ns a kind : Bytes)
    → Lacks b',' kind
    → Int64 i
    → set_parts (key ns a j m nil) (split b',' (level kind i [])) ≡ (key ns kind i m nil, none)
unfolding set_parts set_identity
set_parts-number i j m ns a kind h q =
    ap (set_parts (key ns a j m nil))
      (split-append b',' kind (format_int i) h (format_int-no_comma i))
    ∙ set_format_int ns kind m j nil i q
