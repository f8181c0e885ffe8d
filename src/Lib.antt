-- ===== src/Lib.antt =====
-- Kore's stage0 compiler (stage0/src, in Rust): its middle end, its diagnostics and parts of its front
-- end.
--
-- The program. The front end turns a source file into a syntax tree, resolves names (frontend/resolve),
-- evaluates compile-time bindings (frontend/eval) and checks types. The middle end lowers the tree to
-- the HIR, a graph of basic blocks for each function (middleend/hir), checks that graph
-- (middleend/validate) and has passes that make it smaller (middleend/pass). Every phase reports to one
-- sink (diag), which counts, merges and throttles diagnostics. LLVM's back end comes last.
--
-- The files.
--   Base      tests, lists and sets over the native numbers, signed integers with checked operations
--             (Base/Int), and text-keyed maps (Base/Dict).
--   Diag      diag/diagnostic.rs; Diag/Sink is diag/sink.rs, with its counters (Counts), what it stores
--             (Stored) and the order in which it hands that out (Sorted).
--   Hir       the types of middleend/hir/mod.rs; Hir/Ty those of hir/ty.rs, and sizes; Hir/Cfg
--             the walk over the graph that several files of the source repeat; Hir/Run the meaning of
--             a body over any machine, that is any meaning of statements and operands, by which passes
--             are judged.
--   Pass      middleend/pass: DeadCode, ConstFold, DeadStore and Manager, one for each file of the
--             source, each with its laws beneath. ConstFold/Registers is a machine of 32-bit registers that
--             stands for the back end's integers; Manager/Rounds says which rounds the manager runs.
--   Validate  middleend/validate: Cfg for cfg.rs, Local for local.rs, Types for typecheck.rs, and Body
--             for mod.rs, which runs the three.
--   Lexer     frontend/lexer: Tokens for token.rs and keywords.rs, and for lexer_impl.rs Comment (the kinds
--             of comments), Scan and Literal (one branch of the main loop each) and the loop itself.
--             The state is the bytes from the position on, the position and the sink.
--   Ast       frontend/ast/node.rs: the syntax tree, which the parser builds and the front end walks.
--   Resolve   frontend/resolve: Symbols for symbols.rs, Scope for scope.rs, Builder for builder.rs.
--   Eval      frontend/eval: Env for env.rs, Value for value.rs, Evaluator for evaluator.rs: a monad
--             over the environment, the sink and the count of steps, in which a panic is `none`.
--   TypeCheck frontend/typecheck: Types for types.rs, Context for context.rs, and for checker.rs Monad (its
--             state and the steps of its walk), Rules (the types of forms), Checker (expressions and
--             statements) and Module (functions, modules). Typing has the rules that it is judged by,
--             Sound and Complete the two directions.
--   Escape    frontend/escape: Context for context.rs, Checker for checker.rs, with Branch for the join
--             of arms and Use for the check of a use.
-- A definition has the name of the function that it models. A method that changes its object takes it
-- and returns it changed; one that also answers returns a pair. Loops over a `Vec` are recursions on the
-- list, each with the name of what it does. A panic is `none`, in the lexer `panic`.
--
-- Bounds and fuel. The walk over reachable blocks gets one unit of fuel for each edge and one more,
-- since each round takes one entry from its worklist and each edge puts one there at most once. The walk
-- back from the returns gets one for each block and each target, since a block is put on its worklist
-- once. The rounds of the liveness analysis get one for each block and local, twice, and one more: where
-- block ids differ, each round but the last adds a local to one of the two sets of a block. The walk of
-- the check of locals gets the number of blocks and one more, the depth of its recursion. Constants are
-- i128 in the source; the checked operations have their bounds. The back end cuts integer literals to an
-- i32, and takes `!` of one for its complement: there the pass and the back end disagree, and what is said of
-- the two together is said of i32 values and without such a `!`. Ids of symbols are cut to 32 bits.
-- Counters of the sink are u32 in the source: emit_u32 has them, a panic past the range, and emit, which
-- the rest of the development uses, counts without a bound.
--
-- Compile-time integers are i64 in the source; a result out of their range is a panic here, as in a build
-- that checks for overflow.
--
-- The loops of the lexer get one unit of fuel for each byte that is left and one more, since each round
-- reads a byte. Running out of it is an outcome of its own.
--
-- Not modelled: the text of diagnostics and of the HIR; the parser, the registry of
-- modules and the lowering, whose turn has not come; LLVM, the linker and the command line, which are input and output. The parsing of numbers is the standard library's, a
-- parameter of the evaluator, and so are the decoding and encoding of characters, parameters of the
-- lexer. A float constant is its bits. Hash maps and sets are lists, since the code does not depend on
-- the order of their elements, but for the search for a variant in the unions of a module.
pub mod Base
pub mod Diag
pub mod Ast
pub mod Lexer
pub mod Hir
pub mod Pass
pub mod Resolve
pub mod Validate
pub mod Eval
pub mod Escape
pub mod TypeCheck
