-- ===== src/Base/Runs.antt =====
-- What a successful or failed run of an action says of its steps.
use mathlib.Core.Path.{◌≡◌, refl, ◌∙◌}
use mathlib.Core.Logic.{◌⊎◌, inl, inr}
use mathlib.Core.Bool.{Bool, true, false}
use mathlib.Core.Option.{Option, none, some}
use native.Mathlib.Omega.{arith}
use awmsom.Base.Monad.{
  Action, Result, ok, err, Error, raise_if, or_raise, gets, transaction, resume, ◌>>=◌, ◌>>◌,
}

module _ {S A : Type 0} where
  pub or_raise-ok :
      (o : Option A) (e : Error) (s s' : S) (a : A)
      → or_raise o e s ≡ (ok a, s')
      → (o ≡ some a) × (s' ≡ s)
  or_raise-ok none e s s' a h = ground arith
  or_raise-ok (some x) e s s' a h = ground arith

  pub or_raise-err :
      (o : Option A) (e e' : Error) (s s' : S) → or_raise o e s ≡ (err e', s') → (e' ≡ e) × (s' ≡ s)
  or_raise-err none e e' s s' h = ground arith
  or_raise-err (some x) e e' s s' h = ground arith

  pub transaction-ok :
      (m : Action S A) (s s' : S) (a : A) → transaction m s ≡ (ok a, s') → m s ≡ (ok a, s')
  transaction-ok m s s' a h = ground arith

  pub transaction-err :
      (m : Action S A) (s s' : S) (e : Error) → transaction m s ≡ (err e, s') → s' ≡ s
  transaction-err m s s' e h = ground arith

module _ {S : Type 0} where
  pub raise_if-ok :
      (b : Bool) (e : Error) (s s' : S) (u : Unit {0})
      → raise_if b e s ≡ (ok u, s')
      → (b ≡ false) × (s' ≡ s)
  raise_if-ok b e s s' u h = ground arith

  pub raise_if-err :
      (b : Bool) (e e' : Error) (s s' : S)
      → raise_if b e s ≡ (err e', s')
      → (b ≡ true) × (e' ≡ e) × (s' ≡ s)
  raise_if-err false e e' s s' h = cc
  raise_if-err true e e' s s' h = (refl, cc, cc)

module _ {S A B : Type 0} where
  pub >>=-ok :
      (m : Action S A) (f : A → Action S B) (s s' : S) (b : B)
      → (m >>= f) s ≡ (ok b, s')
      → (a : A) × (s₁ : S) × (m s ≡ (ok a, s₁)) × (f a s₁ ≡ (ok b, s'))
  >>=-ok m f s s' b h = go (m s) refl h
    where
      go :
          (x : Result A × S)
          → m s ≡ x
          → resume f x ≡ (ok b, s')
          → (a : A) × (s₁ : S) × (m s ≡ (ok a, s₁)) × (f a s₁ ≡ (ok b, s'))
      go (ok a, s₁) e h = (a, s₁, e, h)
      go (err e', s₁) e h = ground arith

  pub >>=-err :
      (m : Action S A) (f : A → Action S B) (s s' : S) (e : Error)
      → (m >>= f) s ≡ (err e, s')
      → (m s ≡ (err e, s')) ⊎ ((a : A) × (s₁ : S) × (m s ≡ (ok a, s₁)) × (f a s₁ ≡ (err e, s')))
  >>=-err m f s s' e h = go (m s) refl h
    where
      go :
          (x : Result A × S)
          → m s ≡ x
          → resume f x ≡ (err e, s')
          → (m s ≡ (err e, s')) ⊎ ((a : A) × (s₁ : S) × (m s ≡ (ok a, s₁)) × (f a s₁ ≡ (err e, s')))
      go (ok a, s₁) q h = inr (a, s₁, q, h)
      go (err e', s₁) q h = inl (ground arith)

  -- A relation that two steps keep, and that is transitive, holds over the two in a row.
  pub >>=-relates :
      (R : S → S → Type 0) (m : Action S A) (f : A → Action S B) (s : S)
      → ((s₁ s₂ : S) → R s s₁ → R s₁ s₂ → R s s₂)
      → R s (m s).1
      → ((a : A) (s₁ : S) → R s₁ (f a s₁).1)
      → R s ((m >>= f) s).1
  >>=-relates R m f s trans first second = go (m s) first
    where
      go : (x : Result A × S) → R s x.1 → R s (resume f x).1
      go (ok a, s₁) r = trans s₁ _ r (second a s₁)
      go (err e, s₁) r = r

-- A guard or a lookup that was passed, with the rest of the call.
module _ {S A : Type 0} where
  pub raise_if-then :
      (b : Bool) (e : Error) (m : Action S A) (s s' : S) (a : A)
      → (raise_if b e >> m) s ≡ (ok a, s')
      → (b ≡ false) × (m s ≡ (ok a, s'))
  raise_if-then true e m s s' a h = absurd (ground arith)
  raise_if-then false e m s s' a h = (refl, h)

module _ {S A B : Type 0} where
  pub or_raise-then :
      (o : Option A) (e : Error) (f : A → Action S B) (s s' : S) (b : B)
      → (or_raise o e >>= f) s ≡ (ok b, s')
      → (a : A) × (o ≡ some a) × (f a s ≡ (ok b, s'))
  or_raise-then none e f s s' b h = absurd (ground arith)
  or_raise-then (some a) e f s s' b h = (a, refl, h)

-- A call that leaves the state alone if it succeeds, or if it fails.
module _ {S A : Type 0} where
  abbrev pub Reads : Action S A → Type 0
  Reads m = (s s' : S) (a : A) → m s ≡ (ok a, s') → s' ≡ s

  abbrev pub Atomic : Action S A → Type 0
  Atomic m = (s s' : S) (e : Error) → m s ≡ (err e, s') → s' ≡ s

  pub or_raise-Reads : (o : Option A) (e : Error) → Reads (or_raise {S = S} o e)
  or_raise-Reads o e s s' a h = (or_raise-ok o e s s' a h).1

  pub or_raise-Atomic : (o : Option A) (e : Error) → Atomic (or_raise {S = S} o e)
  or_raise-Atomic o e s s' x h = (or_raise-err o e x s s' h).1

  pub transaction-Atomic : (m : Action S A) → Atomic (transaction m)
  transaction-Atomic m s s' e h = transaction-err m s s' e h

module _ {S : Type 0} where
  pub raise_if-Reads : (b : Bool) (e : Error) → Reads (raise_if {S = S} b e)
  raise_if-Reads b e s s' a h = (raise_if-ok b e s s' a h).1

  pub raise_if-Atomic : (b : Bool) (e : Error) → Atomic (raise_if {S = S} b e)
  raise_if-Atomic b e s s' x h = (raise_if-err b e x s s' h).2

module _ {S A B : Type 0} where
  pub gets-Atomic :
      (g : S → A) (f : A → Action S B) → ((a : A) → Atomic (f a)) → Atomic (gets g >>= f)
  gets-Atomic g f at s s' e h = at (g s) s s' e h

  pub >>=-Atomic :
      (m : Action S A) (f : A → Action S B)
      → Reads m
      → Atomic m
      → ((a : A) → Atomic (f a))
      → Atomic (m >>= f)
  >>=-Atomic m f reads atomic rest s s' e h = go (>>=-err m f s s' e h)
    where
      go :
          (m s ≡ (err e, s')) ⊎ ((a : A) × (s₁ : S) × (m s ≡ (ok a, s₁)) × (f a s₁ ≡ (err e, s')))
          → s' ≡ s
      go (inl h) = atomic s s' e h
      go (inr (a, s₁, h, k)) = rest a s₁ s' e k ∙ reads s s₁ a h
