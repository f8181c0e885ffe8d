-- ===== src/TypeCheck/Module/Whole.antt =====
-- The check of all functions, and of a module from the start.
use kore_lang.Base.{◌≤◌, ◌≡◌, ◌↔◌, ◌∙◌, refl, sym, ap, subst, List, [], ◌∷◌, arith}
use kore_lang.Diag.Sink.{DiagSink}
use kore_lang.Ast.{Func, Item, Module}
use kore_lang.TypeCheck.Context as Context
use kore_lang.TypeCheck.Context.{TypeContext}
use kore_lang.TypeCheck.Monad.{TypeChecker, new}
use kore_lang.TypeCheck.Monad.Keeps.{errors}
use kore_lang.TypeCheck.Module.{
  collect_items, register_builtins, check_func, check_funcs, check_module,
}
use kore_lang.TypeCheck.Module.Funcs.{
  FuncTyped, FuncsTyped, rest, FuncKept, check_func-FuncKept, check_func_sound, check_func_complete,
}

-- One function, then the others.
step-FuncKept :
    (f : Func) (items : List Item) (s : TypeChecker)
    → ((t : TypeChecker) → FuncKept t (check_funcs items (rest t)).1)
    → FuncKept s (check_funcs items (check_func f (rest s)).1).1
step-FuncKept f items s ih =
    let t = (check_func f (rest s)).1 in
    let k = check_func-FuncKept f s in
    let later = ih (record s { sink = t.sink }) in
    subst (λ u. FuncKept s (check_funcs items u).1) (sym k.at_rest)
      (record { at_rest = later.at_rest; grows = omega (arith, k.grows, later.grows) })

check_funcs-FuncKept :
    (items : List Item) (s : TypeChecker) → FuncKept s (check_funcs items (rest s)).1
unfolding check_funcs
check_funcs-FuncKept [] s = record { at_rest = refl; grows = omega arith }
check_funcs-FuncKept (Item.func f ∷ items) s = step-FuncKept f items s (check_funcs-FuncKept items)
check_funcs-FuncKept (Item.struct d ∷ items) s = check_funcs-FuncKept items s
check_funcs-FuncKept (Item.union d ∷ items) s = check_funcs-FuncKept items s
check_funcs-FuncKept (Item.use_path p ∷ items) s = check_funcs-FuncKept items s

-- If nothing is reported, then neither for the first function, which leaves the state as it was.
step_sound :
    (f : Func) (items : List Item) (s : TypeChecker)
    → errors (check_funcs items (check_func f (rest s)).1).1 ≡ errors s
    → FuncTyped s.type_ctx s.var_scopes f × (errors (check_funcs items (rest s)).1 ≡ errors s)
step_sound f items s quiet =
    let t = (check_func f (rest s)).1 in
    let k = check_func-FuncKept f s in
    let later = (check_funcs-FuncKept items (record s { sink = t.sink })).grows in
    let quiet' : errors (check_funcs items (rest (record s { sink = t.sink }))).1 ≡ errors s =
      subst (λ u. errors (check_funcs items u).1 ≡ errors s) k.at_rest quiet in
    let d = check_func_sound f s (omega (arith, k.grows, later, quiet')) in
    let run = check_func_complete f s d in
    (d, subst (λ r. errors (check_funcs items r.1).1 ≡ errors s) run quiet)

check_funcs_sound :
    (items : List Item) (s : TypeChecker)
    → errors (check_funcs items (rest s)).1 ≡ errors s
    → FuncsTyped s.type_ctx s.var_scopes items
unfolding check_funcs FuncsTyped
check_funcs_sound [] s quiet = tt
check_funcs_sound (Item.func f ∷ items) s quiet =
    let (d, quiet') = step_sound f items s quiet in (d, check_funcs_sound items s quiet')
check_funcs_sound (Item.struct d ∷ items) s quiet = check_funcs_sound items s quiet
check_funcs_sound (Item.union d ∷ items) s quiet = check_funcs_sound items s quiet
check_funcs_sound (Item.use_path p ∷ items) s quiet = check_funcs_sound items s quiet

check_funcs_complete :
    (items : List Item) (s : TypeChecker)
    → FuncsTyped s.type_ctx s.var_scopes items
    → check_funcs items (rest s) ≡ (tt, rest s)
unfolding check_funcs FuncsTyped
check_funcs_complete [] s d = refl
check_funcs_complete (Item.func f ∷ items) s (d, ds) =
    ap (λ r. check_funcs items r.1) (check_func_complete f s d) ∙ check_funcs_complete items s ds
check_funcs_complete (Item.struct def ∷ items) s d = check_funcs_complete items s d
check_funcs_complete (Item.union def ∷ items) s d = check_funcs_complete items s d
check_funcs_complete (Item.use_path p ∷ items) s d = check_funcs_complete items s d

-- What pass 1 collects from a module.
abbrev pub collected : Module → TypeContext
collected m = collect_items m.items (register_builtins Context.new)

-- The check of a module, in a new checker, adds no error to the sink exactly if the rules type the
-- body of every function, for the definitions of the whole module; in every case it leaves these
-- definitions, no scope and no return type, and takes no report back.
pub check_module_iff :
    (m : Module) (sink : DiagSink)
    → ((errors (check_module m (new sink)).1 ≡ sink.err_count)
        ↔ FuncsTyped (collected m) [] m.items)
      × ((check_module m (new sink)).1
          ≡ record (new (check_module m (new sink)).1.sink) { type_ctx = collected m })
      × (sink.err_count ≤ errors (check_module m (new sink)).1)
unfolding check_module new
check_module_iff m sink =
    let s : TypeChecker = record (new sink) { type_ctx = collected m } in
    let kept = check_funcs-FuncKept m.items s in
    (
      (check_funcs_sound m.items s, λ ds. ap (λ r. errors r.1) (check_funcs_complete m.items s ds)),
      kept.at_rest,
      kept.grows,
    )
