-- ===== src/Eval/Value.antt =====
-- stage0/src/frontend/eval/value.rs: the values of compile-time evaluation. A float is its bits.
use kore_lang.Base.{ℕ, Bool, true, false, Option, none, some, String, if◌then◌else◌}
use kore_lang.Base.Int.{ℤ, pos, eqb_ℤ}
use kore_lang.Diag.{Span}
use kore_lang.Ast.{TypeExpr}

pub data Value : Type 0 where
  int : ℤ → Value
  float : ℕ → Value
  bool : Bool → Value
  str : String → Value
  type : TypeExpr → Value
  func : String → Span → Value
  unit error : Value

unfoldable pub is_truthy : Value → Bool
is_truthy (bool b) = b
is_truthy (int n) = if eqb_ℤ n (pos 0) then false else true
is_truthy unit = false
is_truthy error = false
is_truthy _ = true

unfoldable pub as_int : Value → Option ℤ
as_int (int n) = some n
as_int _ = none

unfoldable pub as_bool : Value → Option Bool
as_bool (bool b) = some b
as_bool _ = none

unfoldable pub type_name : Value → String
type_name (int n) = "int"
type_name (float f) = "float"
type_name (bool b) = "bool"
type_name (str s) = "str"
type_name (type t) = "type"
type_name (func name span) = "func"
type_name unit = "void"
type_name error = "<error>"
