-- ===== src/TypeCheck/Module/Funcs.antt =====
-- What the check of functions and of a module keeps, and when it reports nothing.
use kore_lang.Base.{
  ◌≤◌, ◌≡◌, ◌∙◌, refl, sym, ap, subst, Bool, true, false, Option, none, some, List, [], ◌∷◌, arith,
  inl, inr, Bool-cases,
}
use kore_lang.Base.Dict.{Dict, put}
use kore_lang.Diag.{at, error_diagnostic}
use kore_lang.Diag.Sink.{DiagSink}
use kore_lang.Diag.Sink.Counts.{err_count-emit}
use kore_lang.Ast.{Param, Func, Item, span_of}
use kore_lang.TypeCheck.Types.{Ty}
use kore_lang.TypeCheck.Context.{TypeContext, resolve_type_expr}
use kore_lang.TypeCheck.Monad.{
  TypeChecker, ◌>>◌, push_scope, pop_scope, outer, define_in, define_var, internal_compiler_error,
  emit_error, demand,
}
use kore_lang.TypeCheck.Monad.Keeps.{
  Scopes, errors, calm, Kept, id_scopes, after-Keeps, demand-Keeps,
}
use kore_lang.TypeCheck.Checker.{check_expr}
use kore_lang.TypeCheck.Checker.Keeps.{check_expr-Kept}
use kore_lang.TypeCheck.Typing.{Typed}
use kore_lang.TypeCheck.Sound.{check_expr_sound}
use kore_lang.TypeCheck.Complete.{check_expr_iff}
use kore_lang.TypeCheck.Module.{
  ret_type, err_type, define_params, return_type, fits_return, check_body, check_func,
}

unfoldable pub bind_params : TypeContext → List Param → Scopes → Scopes
unfolding define_in resolve_type_expr
bind_params c [] sc = sc
bind_params c (p ∷ ps) sc = bind_params c ps (define_in p.name (resolve_type_expr c p.ty) sc)

-- The body has a type by the rules, in the scope of the parameters, that the declared one admits.
unfoldable pub FuncTyped : TypeContext → Scopes → Func → Type 0
FuncTyped c sc f =
    (t : Ty) × Typed c (some (return_type (ret_type c f.ret) (err_type c f.err)))
      (bind_params c f.params ([] ∷ sc)) false f.body t
    × (fits_return t (ret_type c f.ret) ≡ true)

-- Every function of the items is typed.
unfoldable pub FuncsTyped : TypeContext → Scopes → List Item → Type 0
unfolding FuncTyped
FuncsTyped c sc [] = Unit
FuncsTyped c sc (Item.func f ∷ items) = FuncTyped c sc f × FuncsTyped c sc items
FuncsTyped c sc (Item.struct d ∷ items) = FuncsTyped c sc items
FuncsTyped c sc (Item.union d ∷ items) = FuncsTyped c sc items
FuncsTyped c sc (Item.use_path p ∷ items) = FuncsTyped c sc items

define_params-scopes :
    (ps : List Param) (s : TypeChecker)
    → define_params ps s ≡ (tt, record s { var_scopes = bind_params s.type_ctx ps s.var_scopes })
unfolding define_params bind_params define_var
define_params-scopes [] s = refl
define_params-scopes (p ∷ ps) s =
    define_params-scopes ps
      (record s { var_scopes = define_in p.name (resolve_type_expr s.type_ctx p.ty) s.var_scopes })

-- The state between functions: no return type, and the flag down.
abbrev pub rest : TypeChecker → TypeChecker
rest s = record s { current_return_type = none; branch_in_stmt_pos = false }

-- The state in which the body of a function is checked.
abbrev in_body : Func → TypeChecker → TypeChecker
in_body f s = record (calm s) {
  var_scopes = bind_params s.type_ctx f.params ([] ∷ s.var_scopes);
  current_return_type = some (return_type (ret_type s.type_ctx f.ret) (err_type s.type_ctx f.err));
}

-- What follows the check of the body.
abbrev after_body : Func → TypeContext → Ty × TypeChecker → Unit {0} × TypeChecker
after_body f c (t, s) =
    (do
      demand (fits_return t (ret_type c f.ret)) internal_compiler_error (span_of f.body)
      pop_scope)
      (record s { current_return_type = none })

check_func-parts :
    (f : Func) (s : TypeChecker)
    → check_func f (rest s) ≡ after_body f s.type_ctx (check_expr f.body (in_body f s))
unfolding check_func push_scope check_body
check_func-parts f s =
    ap (λ r. check_body f r.1)
      (define_params-scopes f.params (record (rest s) { var_scopes = [] ∷ s.var_scopes }))

outer-bind_params :
    (c : TypeContext) (ps : List Param) (scope : Dict Ty) (sc : Scopes)
    → outer (bind_params c ps (scope ∷ sc)) ≡ sc
unfolding outer bind_params define_in
outer-bind_params c [] scope sc = refl
outer-bind_params c (p ∷ ps) scope sc =
    outer-bind_params c ps (put scope p.name (resolve_type_expr c p.ty)) sc

abbrev checker : TypeContext → DiagSink → Scopes → Option Ty → Bool → TypeChecker
checker c sink sc r b = record {
  type_ctx = c;
  sink = sink;
  var_scopes = sc;
  current_return_type = r;
  branch_in_stmt_pos = b;
}

-- The check of a function keeps scopes and definitions and takes no report back.
pub record FuncKept (s t : TypeChecker) : Type 0 where
  pub at_rest :
      t ≡ record s { sink = t.sink; current_return_type = none; branch_in_stmt_pos = false }
  pub grows : errors s ≤ errors t

same_state :
    (sink : DiagSink) {c d : TypeContext} {sc sd : Scopes} {r q : Option Ty} {b e : Bool}
    → c ≡ d
    → sc ≡ sd
    → r ≡ q
    → b ≡ e
    → checker c sink sc r b ≡ checker d sink sd q e
same_state sink hc hs hr hb = rw (hc, hs, hr, hb) refl

after_body-Kept :
    (f : Func) (s u : TypeChecker) (t : Ty)
    → Kept id_scopes (in_body f s) u
    → FuncKept s (after_body f s.type_ctx (t, u)).1
unfolding pop_scope
after_body-Kept f s u t k =
    let ok = fits_return t (ret_type s.type_ctx f.ret) in
    let v : TypeChecker = record u { current_return_type = none } in
    let w = (demand ok internal_compiler_error (span_of f.body) v).1 in
    let d : Kept id_scopes v w =
      after-Keeps v (demand-Keeps ok internal_compiler_error (span_of f.body)) k.taken in
    record {
      at_rest =
          same_state w.sink (d.context ∙ k.context)
            (ap outer (d.scopes ∙ k.scopes) ∙ outer-bind_params s.type_ctx f.params [] s.var_scopes)
            d.ret d.taken;
      grows = omega (arith, d.grows, k.grows);
    }

pub check_func-FuncKept : (f : Func) (s : TypeChecker) → FuncKept s (check_func f (rest s)).1
check_func-FuncKept f s =
    let b = in_body f s in
    let (t, u) = check_expr f.body b in
    subst (λ r. FuncKept s r.1) (sym (check_func-parts f s))
      (after_body-Kept f s u t (check_expr-Kept f.body b))

-- The value of a body that does not fit is reported.
after_body-quiet :
    (f : Func) (s u : TypeChecker) (t : Ty)
    → errors (in_body f s) ≤ errors u
    → errors (after_body f s.type_ctx (t, u)).1 ≡ errors s
    → (errors u ≡ errors s) × (fits_return t (ret_type s.type_ctx f.ret) ≡ true)
unfolding pop_scope demand emit_error
after_body-quiet f s u t grows quiet =
    let one =
      err_count-emit (error_diagnostic internal_compiler_error (at (span_of f.body))) u.sink in
    elim (Bool-cases (fits_return t (ret_type s.type_ctx f.ret))) [
      | inl fits ↦ (rw fits at quiet, fits)
      | inr misfit ↦ absurd (omega (arith, one, grows, rw misfit at quiet))
    ]

-- A check of a function that reports nothing has found a type for the body.
pub check_func_sound :
    (f : Func) (s : TypeChecker)
    → errors (check_func f (rest s)).1 ≡ errors s
    → FuncTyped s.type_ctx s.var_scopes f
unfolding FuncTyped
check_func_sound f s quiet =
    let b = in_body f s in
    let (t, u) = check_expr f.body b in
    let (same, fits) =
      after_body-quiet f s u t (check_expr-Kept f.body b).grows
        (ap (λ r. errors r.1) (sym (check_func-parts f s)) ∙ quiet) in
    (t, (check_expr_sound b f.body same).1, fits)

pub check_func_complete :
    (f : Func) (s : TypeChecker)
    → FuncTyped s.type_ctx s.var_scopes f
    → check_func f (rest s) ≡ (tt, rest s)
unfolding FuncTyped pop_scope demand
check_func_complete f s (t, d, fits) =
    let b = in_body f s in
    check_func-parts f s
    ∙ ap (after_body f s.type_ctx) ((check_expr_iff b f.body t).1 d)
    ∙ rw fits (
        ap (λ sc. (tt, record (rest s) { var_scopes = sc }))
          (outer-bind_params s.type_ctx f.params [] s.var_scopes))
