-- ===== src/Ast.antt =====
-- stage0/src/frontend/ast/node.rs: the syntax tree. A list or an option of nodes is a type of its own,
-- `no_…` and `more_…`; the source's `Arm` is part of `more_arms`.
use kore_lang.Base.{ℕ, String, Bool, Option, List}
use kore_lang.Diag.{Span}

pub data TypeExpr : Type 0 where
  named : String → Span → TypeExpr
  borrow : TypeExpr → Span → TypeExpr
  own : TypeExpr → Span → TypeExpr
  array : TypeExpr → ℕ → Span → TypeExpr
  slice : TypeExpr → Span → TypeExpr
  err_union : TypeExpr → TypeExpr → Span → TypeExpr

mutual
  pub data Expr : Type 0 where
    int float str : String → Span → Expr
    bool : Bool → Span → Expr
    nil : Span → Expr
    path : List String → Span → Expr
    branch : MaybeExpr → Arms → Span → Expr
    loop : Option String → MaybeExpr → Expr → Span → Expr
    call : Expr → Exprs → Span → Expr
    field : Expr → String → Span → Expr
    index : Expr → Expr → Span → Expr
    deref propagate : Expr → Span → Expr
    unary : String → Expr → Span → Expr
    binary : String → Expr → Expr → Span → Expr
    block : Stmts → Span → Expr
    ret : MaybeExpr → Span → Expr
    stop skip : Option String → Span → Expr
    jmp : MaybeExpr → Option String → Span → Expr
    struct_lit : String → FieldInits → Span → Expr
    array_lit : Exprs → Span → Expr
    variant_constructor : String → MaybeExpr → Span → Expr

  pub data MaybeExpr : Type 0 where
    no_expr : MaybeExpr
    an_expr : Expr → MaybeExpr

  pub data Exprs : Type 0 where
    no_exprs : Exprs
    more_exprs : Expr → Exprs → Exprs

  pub data FieldInits : Type 0 where
    no_inits : FieldInits
    more_inits : String → Expr → FieldInits → FieldInits

  pub data Arms : Type 0 where
    no_arms : Arms
    more_arms : Pattern → Expr → Span → Arms → Arms

  pub data Pattern : Type 0 where
    variant : String → List String → Span → Pattern
    bind : String → Span → Pattern
    lit : Expr → Pattern
    wildcard : Span → Pattern
    cond : Expr → Pattern

  pub data Stmts : Type 0 where
    no_stmts : Stmts
    more_stmts : Stmt → Stmts → Stmts

  pub data Stmt : Type 0 where
    let_stmt : String → Bool → Option TypeExpr → Expr → Span → Stmt
    assign : Expr → Expr → Span → Stmt
    defer : Expr → Span → Stmt
    expr_stmt : Expr → Stmt

-- `Expr::span`.
unfoldable pub span_of : Expr → Span
span_of (Expr.int s span) = span
span_of (Expr.float s span) = span
span_of (Expr.str s span) = span
span_of (Expr.bool b span) = span
span_of (Expr.nil span) = span
span_of (Expr.path segments span) = span
span_of (Expr.branch scrutinee arms span) = span
span_of (Expr.loop label subject body span) = span
span_of (Expr.call callee args span) = span
span_of (Expr.field base name span) = span
span_of (Expr.index base i span) = span
span_of (Expr.deref e span) = span
span_of (Expr.propagate e span) = span
span_of (Expr.unary op e span) = span
span_of (Expr.binary op lhs rhs span) = span
span_of (Expr.block stmts span) = span
span_of (Expr.ret value span) = span
span_of (Expr.stop label span) = span
span_of (Expr.skip label span) = span
span_of (Expr.jmp target label span) = span
span_of (Expr.struct_lit name inits span) = span
span_of (Expr.array_lit elements span) = span
span_of (Expr.variant_constructor name payload span) = span

pub record Param : Type 0 where
  pub name : String
  pub ty : TypeExpr
  pub is_mut : Bool
  pub span : Span

pub record Func : Type 0 where
  pub name : String
  pub params : List Param
  pub ret : Option TypeExpr
  pub err : Option TypeExpr
  pub body : Expr
  pub span : Span
  pub is_public : Bool

pub record Field : Type 0 where
  pub name : String
  pub ty : TypeExpr
  pub span : Span

pub record StructDef : Type 0 where
  pub name : String
  pub fields : List Field
  pub span : Span
  pub is_public : Bool

pub record Variant : Type 0 where
  pub name : String
  pub payload : List TypeExpr
  pub span : Span

pub record UnionDef : Type 0 where
  pub name : String
  pub variants : List Variant
  pub span : Span
  pub is_public : Bool

pub record UsePath : Type 0 where
  pub segments : List String
  pub span : Span

pub data Item : Type 0 where
  func : Func → Item
  struct : StructDef → Item
  union : UnionDef → Item
  use_path : UsePath → Item

pub record Module : Type 0 where
  pub items : List Item
  pub span : Span
