-- ===== src/TypeCheck/Monad.antt =====
-- stage0/src/frontend/typecheck/checker.rs: the checker's state, and the steps that its walk is made
-- of. The symbol table, which the checker never reads, is left out.
pub mod Keeps
pub mod Yields
use kore_lang.Base.{ℕ, Bool, true, false, Option, none, some, String, List, [], ◌∷◌, if◌then◌else◌}
use kore_lang.Base.Dict.{Dict, get, put}
use kore_lang.Diag.{Span, at, error_diagnostic}
use kore_lang.Diag.Sink.{DiagSink, emit}
use kore_lang.TypeCheck.Types.{Ty, eqb}
use kore_lang.TypeCheck.Context.{TypeContext}

-- The scopes are listed from the innermost.
pub record TypeChecker : Type 0 where
  pub type_ctx : TypeContext
  pub sink : DiagSink
  pub var_scopes : List (Dict Ty)
  pub current_return_type : Option Ty
  pub branch_in_stmt_pos : Bool

unfoldable pub new : DiagSink → TypeChecker
new sink = record {
  type_ctx = kore_lang.TypeCheck.Context.new;
  sink = sink;
  var_scopes = [];
  current_return_type = none;
  branch_in_stmt_pos = false;
}

-- A step of the checker: its value, and the state that it leaves.
abbrev pub Check : Type 0 → Type 0
Check A = TypeChecker → A × TypeChecker

abbrev pub pure : {A : Type 0} → A → Check A
pure a s = (a, s)

module _ {A B : Type 0} where
  infixl 1 ◌>>=◌ ◌>>◌
  abbrev pub ◌>>=◌ : Check A → (A → Check B) → Check B
  (m >>= k) s = k (m s).0 (m s).1

  abbrev pub ◌>>◌ : Check A → Check B → Check B
  m >> n = m >>= λ _. n

abbrev pub skip : Check (Unit {0})
skip = pure tt

-- Read from the state.
abbrev pub look : {A : Type 0} → (TypeChecker → A) → Check A
look f s = (f s, s)

abbrev pub in_scopes : (List (Dict Ty) → List (Dict Ty)) → Check (Unit {0})
in_scopes f s = (tt, record s { var_scopes = f s.var_scopes })

unfoldable pub push_scope : Check (Unit {0})
push_scope = in_scopes (λ scopes. [] ∷ scopes)

-- `Vec::pop`, which does nothing on the empty stack.
unfoldable pub outer : List (Dict Ty) → List (Dict Ty)
outer [] = []
outer (scope ∷ scopes) = scopes

unfoldable pub pop_scope : Check (Unit {0})
unfolding outer
pop_scope = in_scopes outer

unfoldable pub define_in : String → Ty → List (Dict Ty) → List (Dict Ty)
unfolding put
define_in name ty [] = []
define_in name ty (scope ∷ scopes) = put scope name ty ∷ scopes

unfoldable pub define_var : String → Ty → Check (Unit {0})
unfolding define_in
define_var name ty = in_scopes (define_in name ty)

unfoldable pub lookup_in : List (Dict Ty) → String → Ty
unfolding get
lookup_in [] name = Ty.unknown
lookup_in (scope ∷ scopes) name =
    let rest = lookup_in scopes name in elim (get scope name) [ some ty ↦ ty | none ↦ rest ]

unfoldable pub lookup_var : TypeChecker → String → Ty
unfolding lookup_in
lookup_var s name = lookup_in s.var_scopes name

unfoldable pub emit_error : ℕ → Span → Check (Unit {0})
unfolding emit
emit_error code span s = (tt, record s { sink = emit (error_diagnostic code (at span)) s.sink })

-- `ErrorCode::as_u16` of the codes that the checker reports.
abbrev pub undefined_name : ℕ
undefined_name = 4002

abbrev pub type_mismatch : ℕ
type_mismatch = 4004

abbrev pub internal_compiler_error : ℕ
internal_compiler_error = 9001

-- Report unless the test holds.
unfoldable pub demand : Bool → ℕ → Span → Check (Unit {0})
unfolding emit_error
demand ok code span = if ok then skip else emit_error code span

-- A type, or a report and `Unknown`.
unfoldable pub expect : Option Ty → ℕ → Span → Check Ty
unfolding emit_error
expect none code span = do emit_error code span; pure Ty.unknown
expect (some ty) code span = pure ty

-- `std::mem::take` on the flag, at the head of `check_expr`.
unfoldable pub enter : {A : Type 0} → (Bool → Check A) → Check A
enter body s = body s.branch_in_stmt_pos (record s { branch_in_stmt_pos = false })

-- Set the flag, then go on.
unfoldable pub with_pos : {A : Type 0} → Bool → Check A → Check A
with_pos pos m s = m (record s { branch_in_stmt_pos = pos })

unfoldable pub is_unknown : Ty → Bool
is_unknown Ty.unknown = true
is_unknown _ = false
