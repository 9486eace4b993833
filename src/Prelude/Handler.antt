-- ===== src/Prelude/Handler.antt =====
-- Handlers of requests: from one state of the database to the next, with a result or an exception.
-- Each step that the controllers share has an inversion of its success.
use mathlib.Core.Path.{◌≡◌, refl}
use mathlib.Core.Bool.{Bool, true, false}
use mathlib.Core.Option.{Option, none, some}
use native.Mathlib.Omega.{arith}
use security_scan.Prelude.Outcome.{Outcome, ok, throw, Exception, forbidden, not_found}
use security_scan.Prelude.Tests.{if◌then◌else◌}

abbrev pub Handler : Type 0 → Type 0 → Type 0
Handler S A = S → S × Outcome A

module _ {S A : Type 0} where
  -- findByPkBang and its like, and then the rest of a handler
  unfoldable pub with_found : {B : Type 0} → Option B → (B → Handler S A) → Handler S A
  with_found none rest s = (s, throw not_found)
  with_found (some b) rest s = rest b s

  -- ForbiddenError.from(abac).throwUnlessCan
  unfoldable pub throw_unless : Bool → Handler S A → Handler S A
  throw_unless allowed rest s = if allowed then rest s else (s, throw forbidden)

  pub with_found_inv :
      {B : Type 0} (o : Option B) (rest : B → Handler S A) (s t : S) (a : A)
      → with_found o rest s ≡ (t, ok a)
      → (b : B) × (o ≡ some b) × (rest b s ≡ (t, ok a))
  unfolding with_found
  with_found_inv none rest s t a h = absurd (ground (arith, h))
  with_found_inv (some b) rest s t a h = (b, refl, h)

  pub throw_unless_inv :
      (allowed : Bool) (rest : Handler S A) (s t : S) (a : A)
      → throw_unless allowed rest s ≡ (t, ok a)
      → (allowed ≡ true) × (rest s ≡ (t, ok a))
  unfolding throw_unless
  throw_unless_inv true rest s t a h = (refl, h)
  throw_unless_inv false rest s t a h = absurd (ground (arith, h))

  -- A step that throws has changed nothing if the rest, where it throws, has changed nothing.
  pub with_found_throw :
      {B : Type 0} (o : Option B) (rest : B → Handler S A) (s t : S) (e : Exception)
      → ((b : B) → rest b s ≡ (t, throw e) → t ≡ s)
      → with_found o rest s ≡ (t, throw e)
      → t ≡ s
  unfolding with_found
  with_found_throw none rest s t e keep h = ground arith
  with_found_throw (some b) rest s t e keep h = keep b h

  pub throw_unless_throw :
      (allowed : Bool) (rest : Handler S A) (s t : S) (e : Exception)
      → (rest s ≡ (t, throw e) → t ≡ s)
      → throw_unless allowed rest s ≡ (t, throw e)
      → t ≡ s
  unfolding throw_unless
  throw_unless_throw true rest s t e keep h = keep h
  throw_unless_throw false rest s t e keep h = ground arith
