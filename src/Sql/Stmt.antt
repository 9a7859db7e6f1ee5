-- ===== src/Sql/Stmt.antt =====
-- sql/stmt/statement.go: the text and the arguments of a statement, and `MySQLUtil` of
-- sql/util/mysql.go.
use Prim.Native.String.{String}
use sqlike.Common.{ℕ, List, [], ◌∷◌, ◌++◌, Bytes, length}
use sqlike.Sql.Outcome.{Outcome, ok, err, ◌>>=◌ as bind}
use sqlike.Sql.Primitive.{Scalar}

-- A driver argument; a geometry has its type, its SRID and its text (`spatial.Geometry`).
pub data Arg : Type 0 where
  null : Arg
  plain : Scalar → Arg
  geometry : ℕ → ℕ → Bytes → Arg

pub record Stmt : Type 0 where
  pub text : Bytes
  pub args : List Arg
  pub c : ℕ

abbrev pub new_stmt : Stmt
new_stmt = record { text = []; args = []; c = 0 }

-- `Reset`: the counter `c` is not reset.
abbrev reset : Stmt → Stmt
reset s = record s { text = []; args = [] }

-- A step of a builder.
abbrev pub Step : Type 0
Step = Stmt → Outcome Stmt

infixl 5 ◌>>◌
abbrev pub ◌>>◌ : Step → Step → Step
◌>>◌ m k s = bind (m s) k

abbrev pub done : Step
done s = ok s

abbrev pub fail : String → Step
fail e s = err e

-- `WriteString`, `WriteByte`
abbrev pub write : Bytes → Step
write w s = ok (record s { text = s.text ++ w })

-- `AppendArgs` of one argument
abbrev pub append_arg : Arg → Step
append_arg a s = let args' = s.args ++ a ∷ [] in ok (record s { args = args'; c = length args' })

-- `Quote`, `Wrap`, `TableName`
abbrev pub quote : Bytes → Bytes
quote n = b'`' ∷ (n ++ b'`' ∷ [])

abbrev pub wrap : Bytes → Bytes
wrap n = b'\'' ∷ (n ++ b'\'' ∷ [])

abbrev pub table_name : Bytes → Bytes → Bytes
table_name db table = quote db ++ (b'.' ∷ quote table)
