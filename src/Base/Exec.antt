-- ===== src/Base/Exec.antt =====
-- Methods that may fail and that change a receiver: a Go method with a pointer receiver and an
-- `error` result. What was written before a failure stays written, so the state comes back beside
-- the error too.
use mathlib.Core.Bool.{Bool, true, false}

pub data Result (E A : Type 0) : Type 0 where
  ok : A → Result E A
  err : E → Result E A

-- A check: nothing, or the error to return.
abbrev pub Check : Type 0 → Type 0
Check E = Result E (Unit {0})

abbrev pub nil_error : {E : Type 0} → Check E
nil_error = ok tt

abbrev pub Method : Type 0 → Type 0 → Type 0 → Type 0
Method S E A = S → Result E A × S

-- `if test { return error }; return nil`
abbrev pub check_if : {E : Type 0} → Bool → E → Check E
check_if true e = err e
check_if false e = ok tt

module _ {S E A : Type 0} where
  unfoldable pub pure : A → Method S E A
  pure a s = (ok a, s)

  unfoldable pub fail : E → Method S E A
  fail e s = (err e, s)

  -- A function that reads nothing of the receiver and may fail.
  unfoldable pub lift : Result E A → Method S E A
  lift r s = (r, s)

  -- A function that reads the receiver and may fail.
  unfoldable pub reads : (S → Result E A) → Method S E A
  reads f s = (f s, s)

module _ {S E : Type 0} where
  unfoldable pub modify : (S → S) → Method S E (Unit {0})
  modify f s = (ok tt, f s)

  -- `if test { return error }`
  unfoldable pub refuse_if : Bool → E → Method S E (Unit {0})
  unfolding lift
  refuse_if b e = lift (check_if b e)

  -- `if test(s) { return error }` for a test of the receiver
  unfoldable pub refuse_when : (S → Bool) → E → Method S E (Unit {0})
  unfolding reads
  refuse_when t e = reads (λ s. check_if (t s) e)

module _ {S E A B : Type 0} where
  abbrev pub continue : Result E A → (A → Method S E B) → Method S E B
  continue (ok a) f s = f a s
  continue (err e) f s = (err e, s)

  infixl 5 ◌>>=◌ ◌>>◌
  -- Opening this opens the primitive methods too.
  unfoldable pub ◌>>=◌ : Method S E A → (A → Method S E B) → Method S E B
  unfolding pure fail lift reads modify refuse_if refuse_when
  ◌>>=◌ m f s = let (r, s') = m s in continue r f s'

  abbrev pub ◌>>◌ : Method S E A → Method S E B → Method S E B
  m >> n = m >>= λ _. n
