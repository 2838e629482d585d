-- ===== src/Drivers/Kbd.antt =====
-- drivers/kbd.c: from scan codes to characters. The static `shift` is the state; what the two ports
-- give is an argument.
pub mod Maps
pub mod Shift
mod Tests
use Prim.Native.Nat.{bit_and, bit_or, bit_xor}
use linda.Base.{
  ℕ, ◌+◌, ◌-◌, ◌%◌, ◌^◌, Bool, ◌&&◌, ltb, leb, ◌==◌, if◌then◌else◌, Outcome, ok, ◌>>=◌, ℤ, pos,
  negsuc,
}
use linda.Mach.{u32_mod}
use linda.Drivers.Console.{Console, console_put}
use Maps.{
  normalmap, shiftmap, ctlmap, shiftcode, togglecode, e0esc_bit, capslock_bit, ctl_bit, shift_bit,
}

-- `& ~mask` on a `uint_t`
abbrev pub and_not : ℕ → ℕ → ℕ
and_not x mask = bit_and x (u32_mod - 1 - mask)

-- `&= ~E0ESC`: the macro is `1<<6` with no brackets, so this is `(~1) << 6`.
abbrev pub and_not_e0esc : ℕ → ℕ
and_not_e0esc x = bit_and x (u32_mod - 2 ^ 7)

-- `charcode[shift & (CTL|SHIFT)]`
unfoldable pub charcode : ℕ → ℕ → ℕ
charcode k = if k == 0 then normalmap else if k == 1 then shiftmap else ctlmap

-- CAPSLOCK swaps the case of the letters.
unfoldable pub swap_case : ℕ → ℕ
swap_case ch =
    if leb b'a' ch && leb ch b'z'
    then ch - 32
    else if leb b'A' ch && leb ch b'Z'
    then ch + 32
    else ch

-- A key that goes down, `code` being its code and `shift` the state after the escape is dealt with.
unfoldable pub key_down : ℕ → ℕ → ℕ × ℕ
unfolding charcode swap_case shiftcode togglecode
key_down code shift =
    let shift' = bit_xor (bit_or shift (shiftcode code)) (togglecode code) in
    let ch = charcode (bit_and shift' 3) code in
    (if bit_and shift' capslock_bit == 0 then ch else swap_case ch, shift')

-- The result and the new `shift`.
unfoldable pub kbd_read : ℕ → ℕ → ℕ → ℤ × ℕ
unfolding shiftcode
kbd_read st code shift =
    if bit_and st 1 == 0
    then (negsuc 0, shift)
    else if code == 0xE0
    then (pos 0, bit_or shift e0esc_bit)
    else if leb 0x80 code
    then (
      pos 0,
      and_not shift (
          bit_or (shiftcode (if bit_and shift e0esc_bit == 0 then bit_and code 0x7F else code))
            e0esc_bit),
    )
    else let (ch, shift') =
        if bit_and shift e0esc_bit == 0
        then key_down code shift
        else key_down (bit_or code 0x80) (and_not_e0esc shift) in
      (pos ch, shift')

-- `(char)kbd_read()` is -1 for the byte 255 too.
abbrev pub char_of : ℤ → ℕ
char_of (pos ch) = ch % 2 ^ 8
char_of (negsuc _) = 255

unfoldable pub kbd_trap_handler : ℕ → ℕ → ℕ × Console → Outcome (ℕ × Console)
unfolding kbd_read
kbd_trap_handler st code (shift, s) =
    let (ch, shift') = kbd_read st code shift in
    if char_of ch == 255
    then ok (shift', s)
    else console_put (char_of ch) s >>= λ s'. ok (shift', s')
