-- ===== src/Base/Run.antt =====
-- Steps on a state that may fail.
use mathlib.Core.Option.{Option, none, some}

abbrev pub Run {ℓ κ} : Type ℓ → Type κ → Type (ℓ ⊔ κ)
Run S A = S → Option (A × S)

abbrev pub pure {ℓ κ} : {S : Type ℓ} {A : Type κ} → A → Run S A
pure a s = some (a, s)

abbrev pub fail {ℓ κ} : {S : Type ℓ} {A : Type κ} → Run S A
fail s = none

infixl 5 ◌>>=◌
abbrev pub ◌>>=◌ {ℓ κ μ} :
    {S : Type ℓ} {A : Type κ} {B : Type μ} → Run S A → (A → Run S B) → Run S B
(r >>= f) s = elim (r s) [ none ↦ none | some (a, t) ↦ f a t ]

infixl 5 ◌>>◌
abbrev pub ◌>>◌ {ℓ κ μ} : {S : Type ℓ} {A : Type κ} {B : Type μ} → Run S A → Run S B → Run S B
(r >> f) s = elim (r s) [ none ↦ none | some (a, t) ↦ f t ]

-- If a step returns, its value satisfies `P`.
abbrev pub Yields {ℓ κ μ} : {S : Type ℓ} {A : Type κ} → (A → Type μ) → Option (A × S) → Type μ
Yields P none = Unit
Yields P (some (a, s)) = P a

pub Yields-bind {ℓ κ μ ν ξ} :
    {S : Type ℓ} {A : Type κ} {B : Type μ} (P : A → Type ν) (Q : B → Type ξ) (r : Run S A)
    (f : A → Run S B) (s : S)
    → Yields P (r s)
    → ((a : A) (t : S) → P a → Yields Q (f a t))
    → Yields Q ((r >>= f) s)
Yields-bind {S} {A} {B} P Q r f s h k = cases (r s) h
  where
    cases :
        (o : Option (A × S))
        → Yields P o
        → Yields Q (elim o as (λ x. Option (B × S)) [ none ↦ none | some (a, t) ↦ f a t ])
    cases none h = tt
    cases (some (a, t)) h = k a t h

pub Yields-any {ℓ κ} :
    {S : Type ℓ} {A : Type κ} (o : Option (A × S)) → Yields (λ (a : A). Unit {0}) o
Yields-any none = tt
Yields-any (some (a, s)) = tt
