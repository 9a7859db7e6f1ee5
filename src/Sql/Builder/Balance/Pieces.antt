-- ===== src/Sql/Builder/Balance/Pieces.antt =====
-- Each `Build…` method writes a question mark for each argument, if its parts do.
use sqlike.Common.{
  ℕ, zero, suc, ◌+◌, ◌-◌, ◌≡◌, refl, Bool, true, false, List, [], ◌∷◌, ◌++◌, Option, none, some,
  Bytes, codes, arith, ◌==◌, if◌then◌else◌, length, same, get_elem?, Option-cases, inl, inr,
}
use sqlike.Sql.Outcome.{Outcome, ok, err, panic, ◌>>=◌ as bind}
use sqlike.Sql.Primitive.{
  Operator, is_null, not_null, equal, Order, ascending, descending, AggregateBy, sum,
  json_func_name, json_func_names,
}
use sqlike.Sql.Stmt.{Stmt, Step, ◌>>◌, done, fail, write, quote, wrap}
use sqlike.Sql.Builder.{operator_map}
use sqlike.Sql.Builder.Pieces.{
  build_cast_as, build_function, build_json_function, build_like, build_field, qualifier,
  build_column, join, has_dollar, build_json_column, build_nil, build_as, build_aggregate,
  build_operator, build_clause, build_sort, build_key_value, build_whens, build_case, build_charset,
  build_encoding,
}
use sqlike.Sql.Builder.Balance.{
  holes, holes-append, Balanced, Plain, Plain-append, Plain-quote, wrote, did_nothing, ◌▸◌, either,
  AllBalanced, AllPlain, PlainCharset, separated-Balanced, preceded-Balanced,
}

-- A text of the builder itself.
literal : (w : Bytes) → (holes w == 0) ≡ true → Balanced (write w)
literal w h = wrote w (ground arith)

fails : {e : _} → Balanced (fail e)
fails = record { matches = λ s t h. cc }

pub cast_as-Balanced :
    (value : Step) (t : Bytes) → Balanced value → Balanced (build_cast_as value t)
unfolding build_cast_as holes
cast_as-Balanced value t b =
    literal _ refl
    ▸ b
    ▸ literal _ refl
    ▸ either (same t (codes "JSON")) (literal (codes "JSON") refl) fails
    ▸ literal _ refl

pub function-Balanced :
    (name : Bytes) (args : List Step)
    → Plain name
    → AllBalanced args
    → Balanced (build_function name args)
unfolding build_function holes
function-Balanced name args h bs =
    wrote name h ▸ literal _ refl ▸ separated-Balanced (codes ",") args refl bs ▸ literal _ refl

-- A name that is found in a list of names with no question mark.
pub found-Plain :
    (ws : List Bytes) (i : ℕ) (w : Bytes) → AllPlain ws → get_elem? ws i ≡ some w → Plain w
found-Plain [] i w h e = cc
found-Plain (v ∷ ws) zero w h e = ground (arith, h.0)
found-Plain (v ∷ ws) (suc i) w h e = found-Plain ws i w h.1 e

json_func_names-plain : AllPlain json_func_names
unfolding holes
json_func_names-plain = omega arith

unknown-Plain : Plain (codes "Unknown JSON Function")
unfolding holes
unknown-Plain = refl

json_func_name-Plain : (f : ℕ) (w : Bytes) → json_func_name f ≡ ok w → Plain w
unfolding json_func_name
json_func_name-Plain f w e = elim (Option-cases (get_elem? json_func_names (f - 1))) [
  | inl h ↦ ground (arith, unknown-Plain)
  | inr (n, h) ↦
      ground (arith, unknown-Plain, found-Plain json_func_names (f - 1) n json_func_names-plain h)
]

written :
    (t : ℕ) (o : Outcome Bytes)
    → json_func_name t ≡ o
    → (s u : Stmt) → bind (json_func_name t) (λ n. write n s) ≡ ok u
    → holes u.text + length s.args ≡ holes s.text + length u.args
written t (ok n) e s u h = ground (arith, json_func_name-Plain t n e, holes-append s.text n)
written t (err x) e s u h = ground arith
written t panic e s u h = ground arith

abbrev pub OptBalanced : Option Step → Type 0
OptBalanced none = Unit {0}
OptBalanced (some p) = Balanced p

pub json_function-Balanced :
    (prefix : Option Step) (t : ℕ) (args : List Step)
    → OptBalanced prefix
    → AllBalanced args
    → Balanced (build_json_function prefix t args)
unfolding build_json_function holes
json_function-Balanced prefix t args bp bs =
    in_front prefix bp
    ▸ named t (json_func_name t) refl
    ▸ literal _ refl
    ▸ separated-Balanced (codes ",") args refl bs
    ▸ literal _ refl
  where
    named :
        (t : ℕ) (o : Outcome Bytes)
        → json_func_name t ≡ o
        → Balanced (λ s. bind (json_func_name t) (λ n. write n s))
    named t o e = record { matches = λ s u h. written t o e s u h }

    in_front :
        (prefix : Option Step)
        → OptBalanced prefix
        → Balanced (elim prefix [ none ↦ done | some p ↦ p >> write (codes " ") ])
    in_front none bp = did_nothing
    in_front (some p) bp = bp ▸ literal _ refl

pub like-Balanced : (f v : Step) (b : Bool) → Balanced f → Balanced v → Balanced (build_like f b v)
unfolding build_like holes
like-Balanced f v b bf bv = bf ▸ literal _ refl ▸ word b ▸ literal _ refl ▸ bv
  where
    word : (b : Bool) → Balanced (write (if b then codes "NOT LIKE" else codes "LIKE"))
    word true = literal _ refl
    word false = literal _ refl

pub field-Balanced :
    (name : Bytes) (vs : List Step) → Plain name → AllBalanced vs → Balanced (build_field name vs)
unfolding build_field holes
field-Balanced name vs h bs =
    literal _ refl
    ▸ literal _ refl
    ▸ wrote (quote name) (Plain-quote name h)
    ▸ preceded-Balanced (codes ",") vs refl bs
    ▸ literal _ refl

qualifier-Balanced : (t : Bytes) → Plain t → Balanced (qualifier t)
unfolding qualifier holes
qualifier-Balanced [] h = did_nothing
qualifier-Balanced (x ∷ t) h = wrote _ (Plain-quote (x ∷ t) h) ▸ literal _ refl

pub column-Balanced : (t n : Bytes) → Plain t → Plain n → Balanced (build_column t n)
unfolding build_column
column-Balanced t n h k = qualifier-Balanced t h ▸ wrote (quote n) (Plain-quote n k)

join-Plain : (sep : Bytes) (ps : List Bytes) → Plain sep → AllPlain ps → Plain (join sep ps)
unfolding join holes
join-Plain sep [] h hs = refl
join-Plain sep (p ∷ []) h (hp, hs) = hp
join-Plain sep (p ∷ q ∷ ps) h (hp, hs) =
    Plain-append p _ hp (Plain-append sep _ h (join-Plain sep (q ∷ ps) h hs))

Plain-wrap : (n : Bytes) → Plain n → Plain (wrap n)
unfolding holes
Plain-wrap n h = omega (arith, holes-append n (b'\'' ∷ []))

pub json_column-Balanced :
    (c : Bytes) (n : List Bytes) (u : Bool)
    → Plain c
    → AllPlain n
    → Balanced (build_json_column c n u)
unfolding build_json_column holes
json_column-Balanced c n u h hs = wrote _ (
    Plain-append (quote c) _ (Plain-quote c h) (
      Plain-append (if u then codes "->>" else codes "->") _ (arrow u)
        (Plain-wrap _ (path (has_dollar (join (codes ".") n))))))
  where
    arrow : (u : Bool) → Plain (if u then codes "->>" else codes "->")
    arrow true = refl
    arrow false = refl

    path : (b : Bool) → Plain (if b then join (codes ".") n else codes "$." ++ join (codes ".") n)
    path true = join-Plain (codes ".") n refl hs
    path false =
        Plain-append (codes "$.") (join (codes ".") n) refl (join-Plain (codes ".") n refl hs)

pub nil-Balanced : (f : Step) (b : Bool) → Balanced f → Balanced (build_nil f b)
unfolding build_nil holes
nil-Balanced f true h = h ▸ literal _ refl
nil-Balanced f false h = h ▸ literal _ refl

pub as-Balanced : (f : Step) (n : Bytes) → Balanced f → Plain n → Balanced (build_as f n)
unfolding build_as holes
as-Balanced f n h k =
    literal _ refl ▸ h ▸ literal _ refl ▸ literal _ refl ▸ wrote (quote n) (Plain-quote n k)

pub aggregate-Balanced : (f : Step) (b : AggregateBy) → Balanced f → Balanced (build_aggregate f b)
unfolding build_aggregate holes
aggregate-Balanced f sum h = literal _ refl ▸ h ▸ literal _ refl
aggregate-Balanced f _ h = literal _ refl ▸ literal _ refl ▸ h ▸ literal _ refl

operator_map-Plain : (op : Operator) → Plain (operator_map op)
unfolding operator_map holes
operator_map-Plain equal = refl
operator_map-Plain _ = refl

pub operator-Balanced : (op : Operator) → Balanced (build_operator op)
unfolding build_operator holes
operator-Balanced op = literal _ refl ▸ wrote _ (operator_map-Plain op) ▸ literal _ refl

pub clause-Balanced :
    (f : Step) (op : Operator) (v : Step) → Balanced f → Balanced v → Balanced (build_clause f op v)
unfolding build_clause holes
clause-Balanced f op v bf bv =
    bf
    ▸ wrote _ (
        Plain-append (codes " ") _ refl
          (Plain-append (operator_map op) (codes " ") (operator_map-Plain op) refl))
    ▸ operand op
  where
    operand : (op : Operator) → Balanced (elim op [ is_null ↦ done | not_null ↦ done | _ ↦ v ])
    operand is_null = did_nothing
    operand not_null = did_nothing
    operand _ = bv

pub sort-Balanced : (f : Step) (o : Order) → Balanced f → Balanced (build_sort f o)
unfolding build_sort holes
sort-Balanced f ascending h = h
sort-Balanced f descending h = h ▸ literal _ refl ▸ literal _ refl

pub key_value-Balanced :
    (f : Bytes) (v : Step) → Plain f → Balanced v → Balanced (build_key_value f v)
unfolding build_key_value holes
key_value-Balanced f v h b = wrote (quote f) (Plain-quote f h) ▸ literal _ refl ▸ b

abbrev pub PairsBalanced : List (Step × Step) → Type 0
PairsBalanced [] = Unit {0}
PairsBalanced ((w, t) ∷ ws) = Balanced w × Balanced t × PairsBalanced ws

whens-Balanced : (ws : List (Step × Step)) → PairsBalanced ws → Balanced (build_whens ws)
unfolding build_whens holes
whens-Balanced [] h = did_nothing
whens-Balanced ((w, t) ∷ ws) (hw, ht, hs) =
    literal _ refl ▸ hw ▸ literal _ refl ▸ ht ▸ whens-Balanced ws hs

pub case-Balanced :
    (ws : List (Step × Step)) (e : Option Step)
    → PairsBalanced ws
    → OptBalanced e
    → Balanced (build_case ws e)
unfolding build_case holes
case-Balanced ws e hs h =
    literal _ refl
    ▸ literal _ refl
    ▸ whens-Balanced ws hs
    ▸ literal _ refl
    ▸ otherwise e h
    ▸ literal _ refl
    ▸ literal _ refl
  where
    otherwise : (e : Option Step) → OptBalanced e → Balanced (elim e [ none ↦ done | some m ↦ m ])
    otherwise none h = did_nothing
    otherwise (some m) h = h

charset-Balanced : (c : Option Bytes) → PlainCharset c → Balanced (build_charset c)
unfolding build_charset holes
charset-Balanced none h = did_nothing
charset-Balanced (some []) h = record { matches = λ s t e. cc }
charset-Balanced (some (x ∷ n)) h =
    either (x == b'_') did_nothing (literal _ refl)
    ▸ wrote _ (Plain-append (x ∷ n) (codes " ") h refl)

pub encoding-Balanced :
    (c : Option Bytes) (f : Step) (n : Bytes)
    → PlainCharset c
    → Balanced f
    → Plain n
    → Balanced (build_encoding c f n)
unfolding build_encoding holes
encoding-Balanced c f n h b k =
    charset-Balanced c h ▸ b ▸ wrote _ (Plain-append (codes " COLLATE ") n refl k)
