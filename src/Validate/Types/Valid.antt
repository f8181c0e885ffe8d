-- ===== src/Validate/Types/Valid.antt =====
-- The answer of the check of types, and the errors it reports.
use kore_lang.Base.{
  suc, ◌≤◌, ltb, ◌≡◌, ◌↔◌, ◌∙◌, refl, ap, Bool, true, false, ◌&&◌, Option, none, some, List, [],
  ◌∷◌, All, arith, Bool-cases, if◌then◌else◌, inl, inr,
}
use kore_lang.Diag.{nowhere, error_diagnostic}
use kore_lang.Diag.Sink.{DiagSink}
use kore_lang.Diag.Sink.Counts.{err_count-emit}
use kore_lang.Hir.{HirStmt, HirBlock, HirBody, HirLocal, HirUnion, assign}
use kore_lang.Hir.Ty.{HirType}
use kore_lang.Validate.Types.{
  fits, infer_place_type, infer_rvalue_type, check_stmt_types, check_stmts_types,
  validate_terminator, check_blocks_types, validate_types,
}
use kore_lang.Validate.Types.Equal.{Compatible, types_compatible_iff}

module _ (locals : List HirLocal) (unions : List HirUnion) where
  -- Where both types are known, they are compatible.
  abbrev pub Fit : Option HirType → Option HirType → Type 0
  Fit none r = Unit
  Fit (some t) none = Unit
  Fit (some t) (some u) = Compatible t u

  abbrev pub StmtFits : HirStmt → Type 0
  StmtFits (assign lhs rhs span) =
      Fit (infer_place_type locals unions lhs) (infer_rvalue_type locals unions rhs)
  StmtFits (HirStmt.call dest func args span) = Unit
  StmtFits (HirStmt.drop p span) = Unit

  fits_iff : (l r : Option HirType) → (fits locals unions l r ≡ true) ↔ Fit l r
  unfolding fits
  fits_iff none r = ((λ h. tt), (λ h. refl))
  fits_iff (some l) none = ((λ h. tt), (λ h. refl))
  fits_iff (some l) (some r) = types_compatible_iff l r

  -- What a part of the check does: it answers `true` only where the statements fit, and then it changes
  -- nothing; else it reports an error.
  record Checked (Fits : Type 0) (c d : DiagSink × Bool) : Type 0 where
    fit : d.1 ≡ true → (c.1 ≡ true) × Fits
    quiet : Fits → d ≡ c
    errors : c.0.err_count ≤ d.0.err_count
    answer : d.1 ≡ (c.1 && ltb d.0.err_count (suc c.0.err_count))

  Checked-then :
      {F G : Type 0} (c d e : DiagSink × Bool) → Checked F c d → Checked G d e → Checked (F × G) c e
  Checked-then c d e p q = record {
    fit = λ h. let (a, g) = q.fit h in let (b, f) = p.fit a in (b, (f, g));
    quiet = λ h. q.quiet h.1 ∙ p.quiet h.0;
    errors = omega (arith, p.errors, q.errors);
    answer = ground (arith, p.answer, q.answer, p.errors, q.errors);
  }

  stmt-Checked :
      (st : HirStmt) (c : DiagSink × Bool)
      → Checked (StmtFits st) c (check_stmt_types locals unions st c)
  unfolding check_stmt_types
  stmt-Checked (assign lhs rhs span) (sink, ok) =
      let l = infer_place_type locals unions lhs in
      let r = infer_rvalue_type locals unions rhs in
      let decided = fits_iff l r in
      elim (Bool-cases (fits locals unions l r)) [
        | inl good ↦ record {
          fit = λ h. (ground arith, decided.0 good);
          quiet = λ h. ground arith;
          errors = ground arith;
          answer = ground arith;
        }
        | inr bad ↦
            let count = err_count-emit (error_diagnostic 4004 nowhere) sink in
            record {
              fit = λ h. absurd (ground arith);
              quiet = λ h. absurd (ground (arith, decided.1 h));
              errors = ground (arith, count);
              answer = ground (arith, count);
            }
      ]
  stmt-Checked (HirStmt.call dest func args span) (sink, ok) = record {
    fit = λ h. (h, tt);
    quiet = λ h. refl;
    errors = omega arith;
    answer = ground arith;
  }
  stmt-Checked (HirStmt.drop p span) (sink, ok) = record {
    fit = λ h. (h, tt);
    quiet = λ h. refl;
    errors = omega arith;
    answer = ground arith;
  }

  stmts-Checked :
      (sts : List HirStmt) (c : DiagSink × Bool)
      → Checked (All StmtFits sts) c (check_stmts_types locals unions sts c)
  unfolding check_stmts_types
  stmts-Checked [] c = record {
    fit = λ h. (h, tt);
    quiet = λ h. refl;
    errors = omega arith;
    answer = ground arith;
  }
  stmts-Checked (st ∷ sts) c =
      let first = check_stmt_types locals unions st c in
      Checked-then c first (check_stmts_types locals unions sts first) (stmt-Checked st c)
        (stmts-Checked sts first)

  blocks-Checked :
      (bs : List HirBlock) (c : DiagSink × Bool)
      → Checked (All (λ b. All StmtFits b.stmts) bs) c (check_blocks_types locals unions bs c)
  unfolding check_blocks_types validate_terminator
  blocks-Checked [] c = record {
    fit = λ h. (h, tt);
    quiet = λ h. refl;
    errors = omega arith;
    answer = ground arith;
  }
  blocks-Checked (b ∷ bs) c =
      let first = check_stmts_types locals unions b.stmts c in
      Checked-then c first (check_blocks_types locals unions bs first) (stmts-Checked b.stmts c)
        (blocks-Checked bs first)

quiet-if :
    (r : DiagSink × Bool) (sink : DiagSink)
    → (r.1 ≡ true → r ≡ (sink, true))
    → (if r.1 then r.0 else sink) ≡ sink
quiet-if (s, true) sink h = ap (λ q. q.0) (h refl)
quiet-if (s, false) sink h = refl

-- The check answers `true` exactly if every assignment whose two types are known has compatible types,
-- and then it has reported nothing; else the sink has more errors than before.
pub validate_types_iff :
    (body : HirBody) (unions : List HirUnion) (sink : DiagSink)
    → (((validate_types body unions sink).1 ≡ true)
        ↔ All (λ b. All (StmtFits body.locals unions) b.stmts) body.blocks)
      × ((if (validate_types body unions sink).1 then (validate_types body unions sink).0 else sink)
          ≡ sink)
      × ((validate_types body unions sink).1
          ≡ ltb (validate_types body unions sink).0.err_count (suc sink.err_count))
unfolding validate_types
validate_types_iff body unions sink =
    let k = blocks-Checked body.locals unions body.blocks (sink, true) in
    (
      ((λ h. (k.fit h).1), (λ h. ap (λ r. r.1) (k.quiet h))),
      quiet-if (validate_types body unions sink) sink (λ h. k.quiet (k.fit h).1),
      ground (arith, k.answer),
    )
