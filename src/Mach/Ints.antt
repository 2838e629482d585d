-- ===== src/Mach/Ints.antt =====
-- The `int` of C on 32 bits. What overflows wraps around, as the instructions of the processor do.
use linda.Base.{ℕ, ◌-◌, ◌%◌, ◌^◌, ◌<◌, ◌≡◌, arith, ltb, if◌then◌else◌, ℤ, pos, negsuc, ◌-ℤ◌}
use linda.Mach.{u32_mod}

-- A word as an `int`.
abbrev pub to_int : ℕ → ℤ
to_int w = if ltb w (2 ^ 31) then pos w else negsuc (u32_mod - w - 1)

-- The `int` that an integer becomes.
unfoldable pub wrap_int : ℤ → ℤ
wrap_int (pos n) = to_int (n % u32_mod)
wrap_int (negsuc n) = to_int (u32_mod - 1 - n % u32_mod)

-- `a - b`
unfoldable pub sub_int : ℤ → ℤ → ℤ
unfolding wrap_int ◌-ℤ◌
sub_int a b = wrap_int (a -ℤ b)

-- The numbers that an `int` can hold.
abbrev pub IsInt : ℤ → Type 0
IsInt (pos n) = n < 2 ^ 31
IsInt (negsuc n) = n < 2 ^ 31

pub wrap_int-IsInt : (z : ℤ) → IsInt z → wrap_int z ≡ z
unfolding wrap_int
wrap_int-IsInt (pos n) h = ground arith
wrap_int-IsInt (negsuc n) h = ground arith

pub sub_int_lem : (a b : ℤ) → IsInt (a -ℤ b) → sub_int a b ≡ a -ℤ b
unfolding sub_int
sub_int_lem a b h = wrap_int-IsInt (a -ℤ b) h
