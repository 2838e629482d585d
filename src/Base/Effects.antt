-- ===== src/Base/Effects.antt =====
-- The outcome of kernel code: a result, `panic` (lib/kprintf.c: it prints and loops for ever),
-- `hang`, a loop that did not end within its fuel, or `overrun`, a write beyond the end of a buffer on
-- the stack, after which nothing is said of the kernel.

pub data Outcome {ℓ} (A : Type ℓ) : Type ℓ where
  ok : A → Outcome A
  panic : Outcome A
  hang : Outcome A
  overrun : Outcome A

infixl 5 ◌>>=◌
abbrev pub ◌>>=◌ {ℓ κ} : {A : Type ℓ} {B : Type κ} → Outcome A → (A → Outcome B) → Outcome B
ok a >>= f = f a
panic >>= f = panic
hang >>= f = hang
overrun >>= f = overrun
