-- ===== src/Effects/Steps.antt =====
-- Reasoning about one step of a `do` block of `Effects`.
use wsldisk.Base.{◌≡◌, inl, inr}
use wsldisk.Errors.{ok, Result-cases}
use wsldisk.Effects.{M, ◌>>=◌}

module _ {S A B : Type 0} (m : M S A) (f : A → M S B) (s : S) where
  -- What holds after the first step, and after the rest where that succeeds, holds after both.
  pub bind-keeps :
      (P : S → Type 0)
      → P (m s).1
      → ((a : A) → (m s).0 ≡ ok a → P (f a (m s).1).1)
      → P ((m >>= f) s).1
  bind-keeps P first rest = elim (Result-cases (m s).0) [
    | inl (e, h) ↦ rw (h, ◌>>=◌) first
    | inr (a, h) ↦ rw (h, ◌>>=◌) (rest a h)
  ]

  -- A block that succeeds has succeeded in both steps.
  pub bind-eq-ok :
      {b : B}
      → ((m >>= f) s).0 ≡ ok b
      → (a : A) × ((m s).0 ≡ ok a) × ((f a (m s).1).0 ≡ ok b) × (((m >>= f) s).1 ≡ (f a (m s).1).1)
  bind-eq-ok {b} h = elim (Result-cases (m s).0) [
    | inl (e, p) ↦ let q = rw (p, ◌>>=◌) at h in cc
    | inr (a, p) ↦ (a, p, rw (p, ◌>>=◌) at h, rw (p, ◌>>=◌))
  ]
