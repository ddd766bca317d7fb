-- ===== src/Index/Rounds.antt =====
-- The result of a loop without a bound.

pub data Loop {ℓ} (A : Type ℓ) : Type ℓ where
  returns : A → Loop A
  forever : Loop A

infixl 20 ◌>>=◌
abbrev pub ◌>>=◌ {ℓ μ} : {A : Type ℓ} {B : Type μ} → Loop A → (A → Loop B) → Loop B
returns a >>= f = f a
forever >>= f = forever
