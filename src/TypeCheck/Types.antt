-- ===== src/TypeCheck/Types.antt =====
-- stage0/src/frontend/typecheck/types.rs: the types of the checker, without their text. A list or an
-- option of types is a type of its own.
use kore_lang.Base.{ℕ, Bool, true, false, ◌&&◌, ◌||◌, String, ◌==◌, ◌≡◌, ◌↔◌, refl, arith, subst}
use kore_lang.Base.Dict.{name_eq, name_eq_iff, name_eq_refl}

mutual
  pub data Ty : Type 0 where
    int : Bool → ℕ → Ty
    float : ℕ → Ty
    bool str void never unknown : Ty
    borrow own slice : Ty → Ty
    array : Ty → ℕ → Ty
    err_union : Ty → Ty → Ty
    struct union : String → Ty
    func : Tys → Ty → MaybeTy → Ty

  pub data Tys : Type 0 where
    no_tys : Tys
    more_tys : Ty → Tys → Tys

  pub data MaybeTy : Type 0 where
    no_ty : MaybeTy
    a_ty : Ty → MaybeTy

abbrev pub same_bool : Bool → Bool → Bool
same_bool true b = b
same_bool false true = false
same_bool false false = true

-- The derived `PartialEq`.
unfoldable mutual
  pub eqb : Ty → Ty → Bool
  eqb (Ty.int s w) (Ty.int s' w') = same_bool s s' && w == w'
  eqb (Ty.float w) (Ty.float w') = w == w'
  eqb Ty.bool Ty.bool = true
  eqb Ty.str Ty.str = true
  eqb Ty.void Ty.void = true
  eqb Ty.never Ty.never = true
  eqb Ty.unknown Ty.unknown = true
  eqb (Ty.borrow t) (Ty.borrow u) = eqb t u
  eqb (Ty.own t) (Ty.own u) = eqb t u
  eqb (Ty.slice t) (Ty.slice u) = eqb t u
  eqb (Ty.array t n) (Ty.array u k) = eqb t u && n == k
  eqb (Ty.err_union t e) (Ty.err_union u f) = eqb t u && eqb e f
  eqb (Ty.struct n) (Ty.struct k) = name_eq n k
  eqb (Ty.union n) (Ty.union k) = name_eq n k
  eqb (Ty.func ps t e) (Ty.func qs u f) = eqb_tys ps qs && (eqb t u && eqb_maybe e f)
  eqb _ _ = false

  pub eqb_tys : Tys → Tys → Bool
  eqb_tys Tys.no_tys Tys.no_tys = true
  eqb_tys (Tys.more_tys t ts) (Tys.more_tys u us) = eqb t u && eqb_tys ts us
  eqb_tys _ _ = false

  pub eqb_maybe : MaybeTy → MaybeTy → Bool
  eqb_maybe MaybeTy.no_ty MaybeTy.no_ty = true
  eqb_maybe (MaybeTy.a_ty t) (MaybeTy.a_ty u) = eqb t u
  eqb_maybe _ _ = false

abbrev pub i32 : Ty
i32 = Ty.int true 32

abbrev pub i64 : Ty
i64 = Ty.int true 64

abbrev pub u32 : Ty
u32 = Ty.int false 32

abbrev pub u64 : Ty
u64 = Ty.int false 64

abbrev pub f64 : Ty
f64 = Ty.float 64

unfoldable pub is_never : Ty → Bool
is_never Ty.never = true
is_never _ = false

unfoldable pub is_int : Ty → Bool
is_int (Ty.int s w) = true
is_int _ = false

unfoldable pub is_float : Ty → Bool
is_float (Ty.float w) = true
is_float _ = false

unfoldable pub is_numeric : Ty → Bool
unfolding is_int is_float
is_numeric t = is_int t || is_float t

and_true : (a b : Bool) → (a && b) ≡ true → (a ≡ true) × (b ≡ true)
and_true true b h = (refl, h)
and_true false b h = absurd (ground arith)

same_bool→eq : (a b : Bool) → same_bool a b ≡ true → a ≡ b
same_bool→eq a b h = ground arith

mutual
  unfolding eqb

  eqb→eq : (t u : Ty) → eqb t u ≡ true → t ≡ u
  eqb→eq (Ty.int s w) (Ty.int s' w') h =
      let p = and_true (same_bool s s') (w == w') h in let q = same_bool→eq s s' p.0 in ground arith
  eqb→eq (Ty.struct n) (Ty.struct k) h = let e = (name_eq_iff n k).0 h in ground arith
  eqb→eq (Ty.union n) (Ty.union k) h = let e = (name_eq_iff n k).0 h in ground arith
  eqb→eq (Ty.borrow t) (Ty.borrow u) h = rw (eqb→eq t u h)
  eqb→eq (Ty.own t) (Ty.own u) h = rw (eqb→eq t u h)
  eqb→eq (Ty.slice t) (Ty.slice u) h = rw (eqb→eq t u h)
  eqb→eq (Ty.array t n) (Ty.array u k) h = ground (arith, eqb→eq t u)
  eqb→eq (Ty.err_union t e) (Ty.err_union u f) h =
      let p = and_true (eqb t u) (eqb e f) h in rw (eqb→eq t u p.0, eqb→eq e f p.1)
  eqb→eq (Ty.func ps t e) (Ty.func qs u f) h =
      let p = and_true (eqb_tys ps qs) (eqb t u && eqb_maybe e f) h in
      let q = and_true (eqb t u) (eqb_maybe e f) p.1 in
      rw (eqb_tys→eq ps qs p.0, eqb→eq t u q.0, eqb_maybe→eq e f q.1)
  eqb→eq _ _ h = ground arith

  eqb_tys→eq : (ts us : Tys) → eqb_tys ts us ≡ true → ts ≡ us
  eqb_tys→eq (Tys.more_tys t ts) (Tys.more_tys u us) h =
      let p = and_true (eqb t u) (eqb_tys ts us) h in rw (eqb→eq t u p.0, eqb_tys→eq ts us p.1)
  eqb_tys→eq _ _ h = ground arith

  eqb_maybe→eq : (t u : MaybeTy) → eqb_maybe t u ≡ true → t ≡ u
  eqb_maybe→eq (MaybeTy.a_ty t) (MaybeTy.a_ty u) h = rw (eqb→eq t u h)
  eqb_maybe→eq _ _ h = ground arith

mutual
  unfolding eqb

  pub eqb_refl : (t : Ty) → eqb t t ≡ true
  eqb_refl (Ty.int true w) = ground arith
  eqb_refl (Ty.int false w) = ground arith
  eqb_refl (Ty.float w) = ground arith
  eqb_refl Ty.bool = refl
  eqb_refl Ty.str = refl
  eqb_refl Ty.void = refl
  eqb_refl Ty.never = refl
  eqb_refl Ty.unknown = refl
  eqb_refl (Ty.borrow t) = eqb_refl t
  eqb_refl (Ty.own t) = eqb_refl t
  eqb_refl (Ty.slice t) = eqb_refl t
  eqb_refl (Ty.array t n) = ground (arith, eqb_refl t)
  eqb_refl (Ty.err_union t e) = ground (arith, eqb_refl t, eqb_refl e)
  eqb_refl (Ty.struct n) = name_eq_refl n
  eqb_refl (Ty.union n) = name_eq_refl n
  eqb_refl (Ty.func ps t e) = ground (arith, eqb_tys_refl ps, eqb_refl t, eqb_maybe_refl e)

  eqb_tys_refl : (ts : Tys) → eqb_tys ts ts ≡ true
  eqb_tys_refl Tys.no_tys = refl
  eqb_tys_refl (Tys.more_tys t ts) = ground (arith, eqb_refl t, eqb_tys_refl ts)

  eqb_maybe_refl : (t : MaybeTy) → eqb_maybe t t ≡ true
  eqb_maybe_refl MaybeTy.no_ty = refl
  eqb_maybe_refl (MaybeTy.a_ty t) = eqb_refl t

-- The comparison says whether two types are the same.
pub eqb_iff : (t u : Ty) → (eqb t u ≡ true) ↔ (t ≡ u)
eqb_iff t u = (eqb→eq t u, λ e. subst (λ v. eqb t v ≡ true) e (eqb_refl t))
