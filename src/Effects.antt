-- ===== src/Effects.antt =====
-- State and failure together, the form of every function that calls the platform. `if (!x) return
-- std::unexpected(x.error())` is a step of a `do` block.
pub mod Steps
use wsldisk.Base.{Bool, if◌then◌else◌}
use wsldisk.Errors.{Error, Result, ok, err}

-- A function that changes a state and may fail: it returns its result and the state that it leaves,
-- on every path.
abbrev pub M : Type 0 → Type 0 → Type 0
M S A = S → Result A × S

infixl 5 ◌>>=◌ ◌>>◌
abbrev pub ◌>>=◌ : {S A B : Type 0} → M S A → (A → M S B) → M S B
◌>>=◌ m f s = let r = m s in elim r.0 [ ok a ↦ f a r.1 | err e ↦ (err e, r.1) ]

abbrev pub ◌>>◌ : {S B : Type 0} → M S (Unit {0}) → M S B → M S B
m >> k = m >>= λ _. k

abbrev pub pure : {S A : Type 0} → A → M S A
pure a s = (ok a, s)

abbrev pub raise : {S A : Type 0} → Error → M S A
raise e s = (err e, s)

abbrev pub from_result : {S A : Type 0} → Result A → M S A
from_result r s = (r, s)

-- A result that the caller inspects itself.
abbrev pub attempt : {S A : Type 0} → M S A → M S (Result A)
attempt m s = let r = m s in (ok r.0, r.1)

-- `if (!test) return fail(...)`.
abbrev pub guard : {S : Type 0} → Bool → Error → M S (Unit {0})
guard b e s = if b then (ok tt, s) else (err e, s)
