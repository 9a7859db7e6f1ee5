-- ===== src/Sql/Expr/Meaning.antt =====
-- What a group of conditions means: its tokens are read as SQL reads them, parentheses first, then AND,
-- then OR, over any valuation of the conditions. Between two conditions stands an operator, and an operator stands
-- between two conditions; all else is a syntax error.
use sqlike.Common.{
  ◌≡◌, refl, sym, ap, ◌∙◌, Bool, true, false, ◌&&◌, ◌||◌, List, [], ◌∷◌, Option, none, some, codes,
  if◌then◌else◌, same,
}
use sqlike.Sql.Primitive.{and, or, Any, Anys, raw, operator, group, empty, cons, append}
use sqlike.Sql.Zero.{is_zero}

-- The alternatives that were closed by OR, and the conjunction that is being read.
abbrev pub Frame : Type 0
Frame = Bool × Bool

-- What reads on from the open parentheses and the current frame; the last flag says that a condition is to come.
abbrev Reader : Type 0
Reader = List Frame → Bool → Bool → Bool → Option Bool

-- A condition of this truth.
abbrev operand : Option Bool → Reader → Reader
operand (some b) k st o c true = k st o (c && b) false
operand _ k st o c w = none

-- An opening and a closing parenthesis.
abbrev opened : Reader → Reader
opened k st o c true = k ((o, c) ∷ st) false true true
opened k st o c false = none

abbrev closed : Reader → Reader
closed k ((p, d) ∷ st) o c false = k st p (d && (o || c)) false
closed k _ o c w = none

abbrev conjoin : Reader → Reader
conjoin k st o c false = k st o c true
conjoin k st o c true = none

abbrev disjoin : Reader → Reader
disjoin k st o c false = k st (o || c) true true
disjoin k st o c true = none

abbrev finish : Reader
finish [] o c false = some (o || c)
finish _ o c w = none

-- A statement with a syntax error selects nothing.
abbrev pub holds : Option Bool → Bool
holds none = false
holds (some b) = b

pub append_empty : (a : Anys) → append a empty ≡ a
append_empty empty = refl
append_empty (cons x a) = ap (cons x) (append_empty a)

module _ (v : Any → Bool) where
  unfoldable mutual
    -- The tokens of a condition; a group without any is no restriction.
    pub evaluate : Any → Option Bool
    evaluate (group empty) = some true
    evaluate (group (cons x xs)) = read (cons x xs) [] false true true
    evaluate x = some (v x)

    -- The truth of the tokens, with the open parentheses, the current frame, and whether a condition is to come.
    pub read : Anys → List Frame → Bool → Bool → Bool → Option Bool
    read empty st o c w = finish st o c w
    read (cons (raw t) xs) st o c w =
        if same t (codes "(")
        then opened (read xs) st o c w
        else if same t (codes ")")
        then closed (read xs) st o c w
        else operand (some (v (raw t))) (read xs) st o c w
    read (cons (operator and) xs) st o c w = conjoin (read xs) st o c w
    read (cons (operator or) xs) st o c w = disjoin (read xs) st o c w
    read (cons (group empty) xs) st o c w = read xs st o c w
    read (cons x xs) st o c w = operand (evaluate x) (read xs) st o c w

  -- The truth of a condition.
  unfoldable pub truth : Any → Bool
  unfolding evaluate
  truth x = holds (evaluate x)

  -- A list of tokens that reads as one condition of truth `b`, in any place where one is to come.
  abbrev pub Splices : Anys → Bool → Type 0
  Splices xs b =
      (st : List Frame) (o c : Bool) (rest : Anys)
      → read (append xs rest) st o c true ≡ read rest st o (c && b) false

  -- A value that reads as a condition: no operator, no parenthesis, and a group only if it has no tokens, or its
  -- tokens read as one condition.
  abbrev pub IsCondition : Any → Type 0
  IsCondition (operator op) = ⊥
  IsCondition (raw w) = (same w (codes "(") ≡ false) × (same w (codes ")") ≡ false)
  IsCondition (group empty) = Unit {0}
  IsCondition (group (cons x xs)) = Splices (cons x xs) (truth (group (cons x xs)))
  IsCondition _ = Unit {0}

  abbrev pub AllConditions : Anys → Type 0
  AllConditions empty = Unit {0}
  AllConditions (cons x xs) = IsCondition x × AllConditions xs

  -- The conditions that are not left out.
  abbrev pub terms : Anys → List Any
  terms empty = []
  terms (cons x xs) = if is_zero x then terms xs else x ∷ terms xs

  abbrev pub all_true : List Any → Bool
  all_true [] = true
  all_true (x ∷ xs) = truth x && all_true xs

  abbrev pub any_true : List Any → Bool
  any_true [] = false
  any_true (x ∷ xs) = truth x || any_true xs

  evaluate-group :
      (x : Any) (xs : Anys) → evaluate (group (cons x xs)) ≡ read (cons x xs) [] false true true
  unfolding read
  evaluate-group x xs = refl

  -- Tokens that read as one condition read so alone.
  pub evaluate-Splices :
      (x : Any) (xs : Anys) (b : Bool)
      → Splices (cons x xs) b
      → evaluate (group (cons x xs)) ≡ some b
  unfolding read
  evaluate-Splices x xs b h =
      evaluate-group x xs
      ∙ ap (λ ys. read ys [] false true true) (sym (append_empty (cons x xs)))
      ∙ h [] false true empty

  pub truth-Splices :
      (x : Any) (xs : Anys) (b : Bool) → Splices (cons x xs) b → truth (group (cons x xs)) ≡ b
  unfolding truth
  truth-Splices x xs b h = ap holds (evaluate-Splices x xs b h)

  group_condition :
      (x : Any) (ys xs : Anys) (st : List Frame) (o c b : Bool)
      → evaluate (group (cons x ys)) ≡ some b
      → read (cons (group (cons x ys)) xs) st o c true ≡ read xs st o (c && b) false
  unfolding read
  group_condition x ys xs st o c b e = ap (λ m. operand m (read xs) st o c true) e

  pub read_condition :
      (x : Any) (xs : Anys) (st : List Frame) (o c : Bool)
      → is_zero x ≡ false
      → IsCondition x
      → read (cons x xs) st o c true ≡ read xs st o (c && truth x) false
  unfolding read is_zero truth
  read_condition (raw w) xs st o c z (h, k) = rw (h, k)
  read_condition (operator op) xs st o c z h = absurd h
  read_condition (group empty) xs st o c z h = cc
  read_condition (group (cons x ys)) xs st o c z h =
      group_condition x ys xs st o c (truth (group (cons x ys))) (evaluate-Splices x ys _ h)
  read_condition _ xs st o c z h = refl
