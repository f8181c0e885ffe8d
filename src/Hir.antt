-- ===== src/Hir.antt =====
-- stage0/src/middleend/hir/mod.rs: modules, bodies, blocks, statements, places and operands.
-- Ids are their indices; an f64 is its bit pattern, on which no modelled code computes.
pub mod Ty
pub mod Cfg
pub mod Run
use kore_lang.Base.{ℕ, String, Bool, Option, List}
use kore_lang.Base.Int.{ℤ}
use kore_lang.Diag.{Span}
use kore_lang.Hir.Ty.{HirType}

abbrev pub BlockId : Type 0
BlockId = ℕ

abbrev pub LocalId : Type 0
LocalId = ℕ

abbrev pub FuncId : Type 0
FuncId = ℕ

pub data BinOp : Type 0 where
  add sub mul div rem bit_and bit_or bit_xor shl shr eq ne lt le gt ge logic_and logic_or : BinOp

pub data UnOp : Type 0 where
  neg not bit_not : UnOp

pub data Const : Type 0 where
  void : Const
  bool : Bool → Const
  int : ℤ → Const
  float : ℕ → Const
  str : String → Const
  nil : Const

mutual
  pub data HirPlace : Type 0 where
    local : LocalId → HirPlace
    field : HirPlace → ℕ → HirPlace
    index : HirPlace → HirOperand → HirPlace
    deref : HirPlace → HirPlace

  pub data HirOperand : Type 0 where
    const : Const → HirOperand
    place : HirPlace → HirOperand
    func_ref : FuncId → HirOperand

pub data AggregateKind : Type 0 where
  struct : ℕ → AggregateKind
  union : ℕ → ℕ → AggregateKind
  array : HirType → ℕ → AggregateKind
  error_union : ℕ → HirType → AggregateKind

-- `use_operand` is the source's `Use`.
pub data HirRvalue : Type 0 where
  use_operand : HirOperand → HirRvalue
  binary_op : BinOp → HirOperand → HirOperand → HirRvalue
  unary_op : UnOp → HirOperand → HirRvalue
  ref : HirPlace → Bool → HirRvalue
  deref : HirOperand → HirRvalue
  aggregate : AggregateKind → List HirOperand → HirRvalue
  discriminant : HirPlace → HirRvalue
  extract_payload : HirPlace → ℕ → HirRvalue
  array_to_slice : HirOperand → HirType → ℕ → HirRvalue

pub data HirStmt : Type 0 where
  assign : HirPlace → HirRvalue → Span → HirStmt
  call : Option HirPlace → HirOperand → List HirOperand → Span → HirStmt
  drop : HirPlace → Span → HirStmt

pub data HirTerminator : Type 0 where
  goto : BlockId → HirTerminator
  return : Option HirOperand → HirTerminator
  switch : HirOperand → List (ℕ × BlockId) → BlockId → HirTerminator
  unreachable : HirTerminator

pub record HirBlock : Type 0 where
  pub id : BlockId
  pub stmts : List HirStmt
  pub terminator : HirTerminator
  pub span : Span

pub record HirLocal : Type 0 where
  pub name : Option String
  pub ty : HirType
  pub span : Span

pub record HirBody : Type 0 where
  pub blocks : List HirBlock
  pub locals : List HirLocal
  pub entry_block : BlockId

pub record HirParam : Type 0 where
  pub name : String
  pub ty : HirType
  pub span : Span

pub record HirFunction : Type 0 where
  pub name : String
  pub params : List HirParam
  pub ret_type : HirType
  pub body : Option HirBody
  pub span : Span

pub record HirField : Type 0 where
  pub name : String
  pub ty : HirType
  pub span : Span

pub record HirStruct : Type 0 where
  pub name : String
  pub fields : List HirField
  pub span : Span

pub record HirVariant : Type 0 where
  pub name : String
  pub payload : Option HirType
  pub span : Span

pub record HirUnion : Type 0 where
  pub name : String
  pub variants : List HirVariant
  pub span : Span

pub record HirGlobal : Type 0 where
  pub name : String
  pub ty : HirType
  pub init : Option Const
  pub span : Span

pub record HirModule : Type 0 where
  pub functions : List HirFunction
  pub structs : List HirStruct
  pub unions : List HirUnion
  pub globals : List HirGlobal
