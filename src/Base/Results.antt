-- ===== src/Base/Results.antt =====
-- Go's `(value, error)` pairs. An operation on a store returns the store beside its result, since
-- what was written before an error stays written.
use mathlib.Core.Path.{◌≡◌, refl}
use mathlib.Core.Bool.{Bool, true, false}
use mathlib.Core.Option.{Option, none, some}

pub data Result (E A : Type 0) : Type 0 where
  ok : A → Result E A
  err : E → Result E A

infixl 5 ◌>>=◌ ◌>>◌
abbrev pub ◌>>=◌ : {E A B : Type 0} → Result E A → (A → Result E B) → Result E B
ok a >>= f = f a
err e >>= f = err e

abbrev pub ◌>>◌ : {E A B : Type 0} → Result E A → Result E B → Result E B
m >> k = m >>= λ _. k

-- `if bad { return err }`
abbrev pub fail_if : {E : Type 0} → Bool → E → Result E (Unit {0})
fail_if true e = err e
fail_if false e = ok tt

abbrev pub or_fail : {E A : Type 0} → Option A → E → Result E A
or_fail none e = err e
or_fail (some a) e = ok a

-- The error of a callee as one of the caller's (`fmt.Errorf("...: %w", err)`).
abbrev pub wrap : {E F A : Type 0} → (E → F) → Result E A → Result F A
wrap f (ok a) = ok a
wrap f (err e) = err (f e)

-- A stateful operation behind checks that read no state.
abbrev pub after : {E A B S : Type 0} → Result E A → (A → S → Result E B × S) → S → Result E B × S
after (ok a) k s = k a s
after (err e) k s = (err e, s)

pub Result-cases :
    {E A : Type 0} (r : Result E A) {P : Type 0}
    → ((a : A) → r ≡ ok a → P)
    → ((e : E) → r ≡ err e → P)
    → P
Result-cases (ok a) f g = f a refl
Result-cases (err e) f g = g e refl
