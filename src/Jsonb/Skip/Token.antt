-- ===== src/Jsonb/Skip/Token.antt =====
-- The texts of which `skip` takes exactly one value: what it does on the JSON that the encoder
-- writes. `delimiter` is what stands behind a value inside an array or an object.
use sqlike.Common.{
  ℕ, zero, suc, ◌+◌, ◌<◌, ◌≡◌, refl, sym, ap, ◌∙◌, Bool, true, false, [], ◌∷◌, ◌++◌, ◌||◌, some,
  Bytes, arith, ltb, ◌==◌, length, get_elem?, length-append, append_assoc, append-nil,
}
use sqlike.Jsonb.Outcome.{Outcome, ok, err, panic, spin}
use sqlike.Jsonb.Reader.{Reader, peek_type}
use sqlike.Jsonb.Reader.View.{
  at, get_at, in_bounds, next_token-found, peek_type-found, over, then_ok, shift,
}
use sqlike.Jsonb.Types.{json_number, is_white_space, value_map}
use sqlike.Jsonb.Str.Agree.{skip_string-read_string, returned, ending}
use sqlike.Jsonb.Str.RoundTrip.{read_string-encode_string}
use sqlike.Jsonb.Str.{escape_string, encode_string, skip_string}
use sqlike.Jsonb.Skip.{skip, skip_object_loop, by_type, skip_number, skip_number_loop, ends_number}

abbrev pub delimiter : ℕ → Bool
delimiter d = d == b',' || d == b']' || d == b'}'

-- `skip` takes the text as one value, if a delimiter stands behind it.
abbrev pub Skips : Bytes → Type 0
Skips w =
    (f : ℕ) (pre : Bytes) (d : ℕ) (ds : Bytes)
    → delimiter d ≡ true
    → length w < f
    → skip f (at pre (w ++ d ∷ ds)) ≡ (at (pre ++ w) (d ∷ ds), ok tt)

pub record IsToken (w : Bytes) : Type 0 where
  pub first : ℕ
  pub others : Bytes
  pub splits : w ≡ first ∷ others
  pub not_white : is_white_space first ≡ false
  pub not_close : (first == b']') ≡ false
  pub skips : Skips w

-- A call that ended by returning `tt`, from where it left the reader and how it ended.
returned_tt :
    (o : Reader × Outcome (Unit {0})) (r : Reader)
    → o.0 ≡ r
    → ending o.1 ≡ returned
    → o ≡ (r, ok tt)
returned_tt (s, ok u) r e h = ap (λ x. (x, ok tt)) e
returned_tt (s, err x) r e h = cc
returned_tt (s, panic) r e h = cc
returned_tt (s, spin) r e h = cc

-- `skipString` takes exactly what `EncodeString` wrote.
pub skip_string-encode_string :
    (s pre rest : Bytes)
    → skip_string (at pre (encode_string s ++ rest)) ≡ (at (pre ++ encode_string s) rest, ok tt)
skip_string-encode_string s pre rest =
    let r = at pre (encode_string s ++ rest) in
    let h = read_string-encode_string s pre rest in
    let (left, ends) = skip_string-read_string r in
    returned_tt (skip_string r) _ (left ∙ ap (λ (x : Reader × Outcome Bytes). x.0) h)
      (ends ∙ ap (λ (x : Reader × Outcome Bytes). ending x.1) h)

-- `skip` looks at the first byte.
pub skip-found :
    (f : ℕ) (pre : Bytes) (c : ℕ) (cs : Bytes)
    → is_white_space c ≡ false
    → skip (suc f) (at pre (c ∷ cs)) ≡ by_type (value_map c) (skip_object_loop f) (at pre (c ∷ cs))
unfolding skip
skip-found f pre c cs w = then_ok peek_type _ (peek_type-found pre c cs w)

string-Skips : (s : Bytes) → Skips (encode_string s)
unfolding encode_string value_map is_white_space by_type
string-Skips s zero pre d ds q h = absurd (omega arith)
string-Skips s (suc f) pre d ds q h =
    skip-found f pre b'"' _ refl ∙ skip_string-encode_string s pre (d ∷ ds)

-- An encoded string.
pub string-IsToken : (s : Bytes) → IsToken (encode_string s)
unfolding encode_string is_white_space
string-IsToken s = record {
  first = b'"';
  others = escape_string s ++ b'"' ∷ [];
  splits = refl;
  not_white = refl;
  not_close = refl;
  skips = string-Skips s;
}

-- No byte of the text ends a number.
abbrev pub Digits : Bytes → Type 0
Digits [] = Unit {0}
Digits (c ∷ cs) = (ends_number c ≡ false) × Digits cs

delimiter-ends_number : (d : ℕ) → delimiter d ≡ true → ends_number d ≡ true
unfolding ends_number
delimiter-ends_number d h = ground arith

number_stop :
    (f i d : ℕ) (r : Reader)
    → ltb i r.len ≡ true
    → get_elem? r.b i ≡ some d
    → ends_number d ≡ true
    → skip_number_loop (suc f) i r ≡ (record r { pos = i }, ok tt)
unfolding skip_number_loop
number_stop f i d r within here h = ground arith

pub number_go :
    (f i d : ℕ) (r : Reader)
    → ltb i r.len ≡ true
    → get_elem? r.b i ≡ some d
    → ends_number d ≡ false
    → skip_number_loop (suc f) i r ≡ skip_number_loop f (i + 1) r
unfolding skip_number_loop
number_go f i d r within here h = ground arith

skip_number_loop-Digits :
    (w seen ds : Bytes) (f d p : ℕ)
    → Digits w
    → ends_number d ≡ true
    → length w < f
    → skip_number_loop f (length seen) (over seen (w ++ d ∷ ds) p)
      ≡ (at (seen ++ w) (d ∷ ds), ok tt)
skip_number_loop-Digits w seen ds zero d p a e h = absurd (omega arith)
skip_number_loop-Digits [] seen ds (suc f) d p a e h =
    number_stop f (length seen) d (over seen (d ∷ ds) p) (in_bounds seen d ds) (get_at seen d ds) e
    ∙ ap (λ s. (at s (d ∷ ds), ok tt)) (sym (append-nil seen))
skip_number_loop-Digits (x ∷ w) seen ds (suc f) d p (ax, a) e h =
    number_go f (length seen) x (over seen (x ∷ (w ++ d ∷ ds)) p) (in_bounds seen x (w ++ d ∷ ds))
      (get_at seen x (w ++ d ∷ ds)) ax
    ∙ shift (skip_number_loop f) seen x (w ++ d ∷ ds) p
    ∙ skip_number_loop-Digits w (seen ++ x ∷ []) ds f d p a e (omega arith)
    ∙ ap (λ s. (at s (d ∷ ds), ok tt)) (append_assoc seen (x ∷ []) w)

pub number-ne-n : (x : ℕ) → value_map x ≡ json_number → (x == b'n') ≡ false
unfolding value_map
number-ne-n x v = ground arith

pub number-not_white : (x : ℕ) → value_map x ≡ json_number → is_white_space x ≡ false
unfolding value_map is_white_space
number-not_white x v = ground arith

number-not_close : (x : ℕ) → value_map x ≡ json_number → (x == b']') ≡ false
unfolding value_map
number-not_close x v = ground arith

number-Skips :
    (x : ℕ) (w : Bytes)
    → value_map x ≡ json_number
    → is_white_space x ≡ false
    → Digits w
    → Skips (x ∷ w)
unfolding skip_number by_type
number-Skips x w v white a zero pre d ds q h = absurd (omega arith)
number-Skips x w v white a (suc f) pre d ds q h =
    let t = w ++ d ∷ ds in
    let seen = pre ++ x ∷ [] in
    skip-found f pre x t white
    ∙ ground (
      arith,
      number-ne-n x v,
      next_token-found pre x t white,
      skip_number_loop-Digits w seen ds (suc (length (seen ++ t))) d (length seen) a
          (delimiter-ends_number d q)
          (omega (arith, length-append seen t, length-append w (d ∷ ds))),
      append_assoc pre (x ∷ []) w,
    )

-- A number: a byte that begins one, and bytes that do not end it.
pub number-IsToken : (x : ℕ) (w : Bytes) → value_map x ≡ json_number → Digits w → IsToken (x ∷ w)
number-IsToken x w v a = record {
  first = x;
  others = w;
  splits = refl;
  not_white = number-not_white x v;
  not_close = number-not_close x v;
  skips = number-Skips x w v (number-not_white x v) a;
}
