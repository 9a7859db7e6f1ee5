-- ===== src/Sql/Insert/Fills.antt =====
-- Steps of `InsertInto` in sql/dialect/mysql/insert.go that write a number of placeholders and append as many
-- arguments.
use sqlike.Common.{
  ℕ, ◌+◌, ◌≡◌, refl, ap, Bool, true, false, Bytes, codes, arith, if◌then◌else◌, length,
}
use sqlike.Sql.Outcome.{Outcome, ok, err, panic, ◌>>=◌ as bind}
use sqlike.Sql.Stmt.{Stmt, Step, ◌>>◌, done, write}
use sqlike.Sql.Builder.Balance.{holes, holes-append, Plain}
use sqlike.Sql.Insert.{comma}

-- The placeholders and the arguments went up by `n`.
abbrev pub Grown : ℕ → Stmt → Stmt → Type 0
Grown n s t = (holes t.text ≡ holes s.text + n) × (length t.args ≡ length s.args + n)

-- A step that succeeds writes `n` question marks and appends `n` arguments.
pub record Fills (n : ℕ) (m : Step) : Type 0 where
  pub fills : (s t : Stmt) → m s ≡ ok t → Grown n s t

pub wrote : (w : Bytes) → Plain w → Fills 0 (write w)
wrote w h = record { fills = λ s t e. (ground (arith, holes-append s.text w), ground arith) }

pub did_nothing : Fills 0 done
did_nothing = record { fills = λ s t e. (ground arith, ground arith) }

pub either : {n : ℕ} {m k : Step} (b : Bool) → Fills n m → Fills n k → Fills n (if b then m else k)
either true fm fk = fm
either false fm fk = fk

-- A call, and what follows it if it succeeds.
pub bind_inv :
    {A B : Type 0} (o : Outcome A) (k : A → Outcome B) (t : B)
    → bind o k ≡ ok t
    → (a : A) × (o ≡ ok a) × (k a ≡ ok t)
bind_inv (ok a) k t e = (a, refl, e)
bind_inv (err x) k t e = cc
bind_inv panic k t e = cc

pub ok_inj : {A : Type 0} (a b : A) → ok a ≡ ok b → a ≡ b
ok_inj a b e = cc

pub same_Grown : (s t : Stmt) → s ≡ t → Grown 0 s t
same_Grown s t e =
    let h = ap (λ u. holes u.text) e in
    let a = ap (λ u. length u.args) e in (omega arith, omega arith)

infixr 6 ◌▸◌
pub ◌▸◌ : {n p : ℕ} {m k : Step} → Fills n m → Fills p k → Fills (n + p) (m >> k)
◌▸◌ {n} {p} {m} {k} fm fk = record {
  fills = λ s t e.
      let (u, e1, e2) = bind_inv (m s) k t e in
      let (h1, a1) = fm.fills s u e1 in
      let (h2, a2) = fk.fills u t e2 in (omega arith, omega arith);
}

pub retally : {n p : ℕ} {m : Step} → n ≡ p → Fills n m → Fills p m
retally e f = record {
  fills = λ s t h. let (a, b) = f.fills s t h in (omega (arith, e), omega (arith, e));
}

pub comma-Fills : (j : Bool) → Fills 0 (comma j)
unfolding holes
comma-Fills j = either j (wrote (codes ",") refl) did_nothing
