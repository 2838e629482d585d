-- ===== src/Drivers/Kbd/Shift.antt =====
-- The modifier keys (drivers/kbd.c): what they do to `shift`, and when it is lost.
use Prim.Native.Nat.{bit_and, bit_or, bit_xor}
use linda.Base.{
  ℕ, ◌+◌, ◌<◌, ◌≡◌, refl, Bool, true, ◌&&◌, ◌||◌, ◌≤◌, ◌==◌, ne→==, lt→not_leb, tabulate,
  tabulate-at, arith, ltb,
}
use linda.Drivers.Kbd.{kbd_read, key_down, and_not, and_not_e0esc}
use linda.Drivers.Kbd.Maps.{capslock_bit, e0esc_bit}

-- A key code goes down or up while a byte is ready at the keyboard.
abbrev pub press : ℕ → ℕ → ℕ
press code shift = (kbd_read 1 code shift).1

abbrev pub release : ℕ → ℕ → ℕ
release code shift = (kbd_read 1 (code + 0x80) shift).1

-- The scan code of a modifier key and its bit.
pub data Modifier : ℕ → ℕ → Type 0 where
  left_shift : Modifier 0x2A 1
  right_shift : Modifier 0x36 1
  left_ctl : Modifier 0x1D 2
  left_alt : Modifier 0x38 4

held_table : (code bit : ℕ) → ℕ → Bool
held_table code bit shift =
    (press code shift == bit_or shift bit) && (release code (press code shift) == and_not shift bit)

caps_table : ℕ → Bool
caps_table shift =
    (press 0x3A shift == bit_xor shift capslock_bit)
    && (release 0x3A (press 0x3A (release 0x3A (press 0x3A shift))) == shift)

left_shift_table : tabulate (held_table 0x2A 1) 64 ≡ true
unfolding tabulate held_table kbd_read key_down
left_shift_table = refl

right_shift_table : tabulate (held_table 0x36 1) 64 ≡ true
unfolding tabulate held_table kbd_read key_down
right_shift_table = refl

left_ctl_table : tabulate (held_table 0x1D 2) 64 ≡ true
unfolding tabulate held_table kbd_read key_down
left_ctl_table = refl

left_alt_table : tabulate (held_table 0x38 4) 64 ≡ true
unfolding tabulate held_table kbd_read key_down
left_alt_table = refl

held_table_lem : {code bit : ℕ} → Modifier code bit → tabulate (held_table code bit) 64 ≡ true
held_table_lem left_shift = left_shift_table
held_table_lem right_shift = right_shift_table
held_table_lem left_ctl = left_ctl_table
held_table_lem left_alt = left_alt_table

held_parts :
    (code bit shift : ℕ)
    → held_table code bit shift ≡ true
    → (press code shift ≡ bit_or shift bit) × (release code (press code shift) ≡ and_not shift bit)
unfolding held_table
held_parts code bit shift h = (ground arith, ground arith)

-- With no escape pending, pressing a shift, control or alt key sets the bit of that key and no other,
-- and releasing it again clears the bit and leaves the others as they were before.
pub Modifier-press-release :
    {code bit : ℕ} (shift : ℕ)
    → Modifier code bit
    → shift < 64
    → (press code shift ≡ bit_or shift bit) × (release code (press code shift) ≡ and_not shift bit)
Modifier-press-release {code} {bit} shift m h =
    held_parts code bit shift (tabulate-at (held_table code bit) shift h (held_table_lem m))

caps_parts :
    (shift : ℕ)
    → caps_table shift ≡ true
    → (press 0x3A shift ≡ bit_xor shift capslock_bit)
      × (release 0x3A (press 0x3A (release 0x3A (press 0x3A shift))) ≡ shift)
unfolding caps_table
caps_parts shift h = (ground arith, ground arith)

caps_all : tabulate caps_table 64 ≡ true
unfolding tabulate caps_table kbd_read key_down
caps_all = refl

-- With no escape pending, pressing the caps lock key flips CAPSLOCK and no other bit, and a second
-- stroke of the key gives back the state from before the first.
capslock_twice :
    (shift : ℕ)
    → shift < 64
    → (press 0x3A shift ≡ bit_xor shift capslock_bit)
      × (release 0x3A (press 0x3A (release 0x3A (press 0x3A shift))) ≡ shift)
capslock_twice shift h = caps_parts shift (tabulate-at caps_table shift h caps_all)

escaped_table : ℕ → Bool
escaped_table shift =
    (and_not_e0esc shift == 0) && (ltb shift 64 || (bit_and shift e0esc_bit == e0esc_bit))

escaped_all : tabulate escaped_table 128 ≡ true
unfolding tabulate escaped_table
escaped_all = refl

escaped_parts :
    (shift : ℕ)
    → escaped_table shift ≡ true
    → 64 ≤ shift
    → (and_not_e0esc shift ≡ 0) × (bit_and shift e0esc_bit ≡ 64)
unfolding escaped_table
escaped_parts shift t h = (ground arith, ground arith)

-- A key that goes down behind the escape byte 0xE0 is read as if no other key were held or locked:
-- whatever `shift` says besides E0ESC, both the character and the new `shift` are those of a state in
-- which nothing but E0ESC is set.
escaped_key_drops_shift :
    (code shift : ℕ)
    → code < 0x80
    → 64 ≤ shift
    → shift < 128
    → kbd_read 1 code shift ≡ kbd_read 1 code e0esc_bit
unfolding kbd_read
escaped_key_drops_shift code shift c l h =
    let (a, b) = escaped_parts shift (tabulate-at escaped_table shift h escaped_all) l in
    rw (ne→== code 0xE0 (omega arith), lt→not_leb code 0x80 c, a, b)
