-- ===== src/Base/Results.antt =====
-- The results of the C functions: a value, or the reason why there is none.

-- `partial` is `*ret = -2` and `malformed` is `*ret = -1`. `fault` is a read outside of the buffer,
-- which C leaves undefined, and `stuck` is fuel that ran out: neither is a value of the code.
pub data Code : Type 0 where
  partial malformed fault stuck : Code

pub data Res {ℓ} (A : Type ℓ) : Type ℓ where
  ok : A → Res A
  err : Code → Res A

infixl 5 ◌>>=◌ ◌>>◌
abbrev pub ◌>>=◌ {ℓ κ} : {A : Type ℓ} {B : Type κ} → Res A → (A → Res B) → Res B
ok a >>= f = f a
err e >>= f = err e

abbrev pub ◌>>◌ {ℓ} : {B : Type ℓ} → Res (Unit {0}) → Res B → Res B
m >> k = m >>= λ _. k
