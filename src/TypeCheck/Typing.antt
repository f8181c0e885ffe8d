-- ===== src/TypeCheck/Typing.antt =====
-- The typing rules that stage0/src/frontend/typecheck/checker.rs checks, stated without its state: a
-- form has a type in the scopes, for the definitions and the return type at hand, and where its value
-- is dropped or used. A rule is named after the form that it types.
use kore_lang.Base.{
  suc, ◌≡◌, Bool, true, false, not, ◌||◌, Option, none, some, String, List, [], ◌∷◌,
}
use kore_lang.Base.Dict.{name_eq, is_some}
use kore_lang.Diag.{Span}
use kore_lang.Ast.{TypeExpr, Expr, MaybeExpr, Exprs, FieldInits, Arms, Pattern, Stmts, Stmt}
use kore_lang.TypeCheck.Types.{Ty, eqb, i32, f64}
use kore_lang.TypeCheck.Context.{TypeContext, get_struct, get_struct_field, resolve_type_expr}
use kore_lang.TypeCheck.Monad.{define_in, is_unknown}
use kore_lang.TypeCheck.Monad.Keeps.{Scopes}
use kore_lang.TypeCheck.Rules.{
  fits, is_assignable, path_ty, call_ty, field_ty, deref_ty, index_ty, propagate_ty, unary_ty,
  variant_ty, payload_fits,
}
use kore_lang.TypeCheck.Checker.{count_exprs}
use kore_lang.TypeCheck.Forms.{bind_pattern, branch_ty, is_mixed, binary_ty, is_expr}

mutual
  pub data Typed (c : TypeContext) (r : Option Ty) : Scopes → Bool → Expr → Ty → Type 0 where
    int :
        {sc : Scopes} {pos : Bool} {n : String} {span : Span}
        → Typed c r sc pos (Expr.int n span) i32
    float :
        {sc : Scopes} {pos : Bool} {x : String} {span : Span}
        → Typed c r sc pos (Expr.float x span) f64
    bool :
        {sc : Scopes} {pos : Bool} {b : Bool} {span : Span}
        → Typed c r sc pos (Expr.bool b span) Ty.bool
    str :
        {sc : Scopes} {pos : Bool} {text : String} {span : Span}
        → Typed c r sc pos (Expr.str text span) Ty.str
    nil : {sc : Scopes} {pos : Bool} {span : Span} → Typed c r sc pos (Expr.nil span) Ty.void
    path :
        {sc : Scopes} {pos : Bool} {segments : List String} {span : Span}
        → Typed c r sc pos (Expr.path segments span) (path_ty c sc segments)
    binary :
        {sc : Scopes} {pos : Bool} {op : String} {lhs rhs : Expr} {span : Span} {t u v : Ty}
        → Typed c r sc false lhs t
        → Typed c r sc false rhs u
        → binary_ty op t u ≡ some v
        → Typed c r sc pos (Expr.binary op lhs rhs span) v
    call :
        {sc : Scopes} {pos : Bool} {callee : Expr} {args : Exprs} {span : Span} {t : Ty}
        → Typed c r sc false callee t
        → TypedAll c r sc args
        → Typed c r sc pos (Expr.call callee args span) (call_ty t)
    field :
        {sc : Scopes} {pos : Bool} {base : Expr} {name : String} {span : Span} {t u : Ty}
        → Typed c r sc false base t
        → field_ty c t name ≡ some u
        → Typed c r sc pos (Expr.field base name span) u
    not_ :
        {sc : Scopes} {pos : Bool} {op : String} {operand : Expr} {span : Span} {t : Ty}
        → Typed c r sc false operand t
        → name_eq op "!" ≡ true
        → (eqb t Ty.bool || is_unknown t) ≡ true
        → Typed c r sc pos (Expr.unary op operand span) Ty.bool
    minus :
        {sc : Scopes} {pos : Bool} {op : String} {operand : Expr} {span : Span} {t u : Ty}
        → Typed c r sc false operand t
        → name_eq op "!" ≡ false
        → unary_ty op t ≡ some u
        → Typed c r sc pos (Expr.unary op operand span) u
    deref :
        {sc : Scopes} {pos : Bool} {inner : Expr} {span : Span} {t u : Ty}
        → Typed c r sc false inner t
        → deref_ty t ≡ some u
        → Typed c r sc pos (Expr.deref inner span) u
    index :
        {sc : Scopes} {pos : Bool} {base i : Expr} {span : Span} {t u v : Ty}
        → Typed c r sc false base t
        → Typed c r sc false i u
        → index_ty t ≡ some v
        → Typed c r sc pos (Expr.index base i span) v
    propagate :
        {sc : Scopes} {pos : Bool} {inner : Expr} {span : Span} {t u : Ty}
        → Typed c r sc false inner t
        → propagate_ty t ≡ some u
        → Typed c r sc pos (Expr.propagate inner span) u
    block :
        {sc : Scopes} {pos : Bool} {stmts : Stmts} {span : Span} {t : Ty}
        → TypedBlock c r ([] ∷ sc) pos stmts t
        → Typed c r sc pos (Expr.block stmts span) t
    -- Only where the value is used must the arms not be mixed.
    branch :
        {sc : Scopes} {pos : Bool} {scrutinee : MaybeExpr} {arms : Arms} {span : Span}
        {o : Option Ty} {tys : List Ty}
        → TypedMaybe c r sc scrutinee o
        → TypedArms c r sc pos arms tys
        → (pos || not (is_mixed tys)) ≡ true
        → Typed c r sc pos (Expr.branch scrutinee arms span) (branch_ty tys)
    loop :
        {sc : Scopes} {pos : Bool} {label : Option String} {subject : MaybeExpr} {body : Expr}
        {span : Span} {o : Option Ty} {t : Ty}
        → TypedMaybe c r sc subject o
        → Typed c r sc false body t
        → Typed c r sc pos (Expr.loop label subject body span) Ty.void
    ret :
        {sc : Scopes} {pos : Bool} {value : MaybeExpr} {span : Span} {o : Option Ty}
        → TypedMaybe c r sc value o
        → Typed c r sc pos (Expr.ret value span) Ty.never
    stop :
        {sc : Scopes} {pos : Bool} {label : Option String} {span : Span}
        → Typed c r sc pos (Expr.stop label span) Ty.never
    skip :
        {sc : Scopes} {pos : Bool} {label : Option String} {span : Span}
        → Typed c r sc pos (Expr.skip label span) Ty.never
    jmp :
        {sc : Scopes} {pos : Bool} {target : MaybeExpr} {label : Option String} {span : Span}
        {o : Option Ty}
        → TypedMaybe c r sc target o
        → Typed c r sc pos (Expr.jmp target label span) Ty.never
    struct_lit :
        {sc : Scopes} {pos : Bool} {name : String} {inits : FieldInits} {span : Span}
        → is_some (get_struct c name) ≡ true
        → TypedInits c r sc name inits
        → Typed c r sc pos (Expr.struct_lit name inits span) (Ty.struct name)
    empty_array :
        {sc : Scopes} {pos : Bool} {span : Span}
        → Typed c r sc pos (Expr.array_lit Exprs.no_exprs span) Ty.unknown
    array_lit :
        {sc : Scopes} {pos : Bool} {e : Expr} {es : Exprs} {span : Span} {t : Ty}
        → Typed c r sc false e t
        → TypedElements c r sc t es
        → Typed c r sc pos
            (Expr.array_lit (Exprs.more_exprs e es) span)
            (Ty.array t (suc (count_exprs es)))
    variant_constructor :
        {sc : Scopes} {pos : Bool} {name : String} {payload : MaybeExpr} {span : Span}
        {o : Option Ty} {t expected : Ty}
        → TypedMaybe c r sc payload o
        → variant_ty c r name ≡ some (t, expected)
        → payload_fits o expected ≡ true
        → Typed c r sc pos (Expr.variant_constructor name payload span) t

  pub data TypedMaybe (c : TypeContext) (r : Option Ty)
      : Scopes → MaybeExpr → Option Ty → Type 0 where
    no_expr : {sc : Scopes} → TypedMaybe c r sc MaybeExpr.no_expr none
    an_expr :
        {sc : Scopes} {e : Expr} {t : Ty}
        → Typed c r sc false e t
        → TypedMaybe c r sc (MaybeExpr.an_expr e) (some t)

  pub data TypedAll (c : TypeContext) (r : Option Ty) : Scopes → Exprs → Type 0 where
    no_exprs : {sc : Scopes} → TypedAll c r sc Exprs.no_exprs
    more_exprs :
        {sc : Scopes} {e : Expr} {es : Exprs} {t : Ty}
        → Typed c r sc false e t
        → TypedAll c r sc es
        → TypedAll c r sc (Exprs.more_exprs e es)

  -- Each value fits the field that the struct has under its name.
  pub data TypedInits (c : TypeContext) (r : Option Ty)
      : Scopes → String → FieldInits → Type 0 where
    no_inits : {sc : Scopes} {name : String} → TypedInits c r sc name FieldInits.no_inits
    more_inits :
        {sc : Scopes} {name field : String} {e : Expr} {inits : FieldInits} {t expected : Ty}
        → Typed c r sc false e t
        → get_struct_field c name field ≡ some expected
        → fits t expected ≡ true
        → TypedInits c r sc name inits
        → TypedInits c r sc name (FieldInits.more_inits field e inits)

  -- Each element fits the first.
  pub data TypedElements (c : TypeContext) (r : Option Ty) : Scopes → Ty → Exprs → Type 0 where
    no_elements : {sc : Scopes} {first : Ty} → TypedElements c r sc first Exprs.no_exprs
    more_elements :
        {sc : Scopes} {first : Ty} {e : Expr} {es : Exprs} {t : Ty}
        → Typed c r sc false e t
        → fits t first ≡ true
        → TypedElements c r sc first es
        → TypedElements c r sc first (Exprs.more_exprs e es)

  -- The types of the arms, each in a scope of its own.
  pub data TypedArms (c : TypeContext) (r : Option Ty)
      : Scopes → Bool → Arms → List Ty → Type 0 where
    no_arms : {sc : Scopes} {pos : Bool} → TypedArms c r sc pos Arms.no_arms []
    more_arms :
        {sc : Scopes} {pos : Bool} {pattern : Pattern} {body : Expr} {span : Span} {arms : Arms}
        {t : Ty} {tys : List Ty}
        → Typed c r (bind_pattern pattern ([] ∷ sc)) pos body t
        → TypedArms c r sc pos arms tys
        → TypedArms c r sc pos (Arms.more_arms pattern body span arms) (t ∷ tys)

  -- The value of the last expression is dropped where that of the block is.
  pub data TypedBlock (c : TypeContext) (r : Option Ty) : Scopes → Bool → Stmts → Ty → Type 0 where
    no_stmts : {sc : Scopes} {pos : Bool} → TypedBlock c r sc pos Stmts.no_stmts Ty.void
    last_expr :
        {sc : Scopes} {pos : Bool} {e : Expr} {t : Ty}
        → Typed c r sc pos e t
        → TypedBlock c r sc pos (Stmts.more_stmts (Stmt.expr_stmt e) Stmts.no_stmts) t
    last_stmt :
        {sc sc' : Scopes} {pos : Bool} {st : Stmt}
        → is_expr st ≡ false
        → TypedStmt c r sc st sc'
        → TypedBlock c r sc pos (Stmts.more_stmts st Stmts.no_stmts) Ty.void
    more_stmts :
        {sc sc' : Scopes} {pos : Bool} {st st' : Stmt} {sts : Stmts} {t : Ty}
        → TypedStmt c r sc st sc'
        → TypedBlock c r sc' pos (Stmts.more_stmts st' sts) t
        → TypedBlock c r sc pos (Stmts.more_stmts st (Stmts.more_stmts st' sts)) t

  -- A statement, and the scopes after it.
  pub data TypedStmt (c : TypeContext) (r : Option Ty) : Scopes → Stmt → Scopes → Type 0 where
    let_plain :
        {sc : Scopes} {name : String} {is_mut : Bool} {init : Expr} {span : Span} {t : Ty}
        → Typed c r sc false init t
        → TypedStmt c r sc (Stmt.let_stmt name is_mut none init span) (define_in name t sc)
    let_annotated :
        {sc : Scopes} {name : String} {is_mut : Bool} {type_expr : TypeExpr} {init : Expr}
        {span : Span} {t : Ty}
        → Typed c r sc false init t
        → is_assignable t (resolve_type_expr c type_expr) ≡ true
        → TypedStmt c r sc
            (Stmt.let_stmt name is_mut (some type_expr) init span)
            (define_in name (resolve_type_expr c type_expr) sc)
    assign :
        {sc : Scopes} {target value : Expr} {span : Span} {t u : Ty}
        → Typed c r sc false target t
        → Typed c r sc false value u
        → is_assignable u t ≡ true
        → TypedStmt c r sc (Stmt.assign target value span) sc
    expr_stmt :
        {sc : Scopes} {e : Expr} {t : Ty}
        → Typed c r sc true e t
        → TypedStmt c r sc (Stmt.expr_stmt e) sc
    defer :
        {sc : Scopes} {e : Expr} {span : Span} {t : Ty}
        → Typed c r sc true e t
        → TypedStmt c r sc (Stmt.defer e span) sc
