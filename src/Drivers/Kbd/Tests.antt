-- ===== src/Drivers/Kbd/Tests.antt =====
-- Runs of the keyboard: characters with and without shift, and the theorems at given states.
use Prim.Native.Nat.{bit_or}
use linda.Base.{◌≡◌, refl, pos, arith}
use linda.Drivers.Kbd.{kbd_read, key_down, and_not}
use linda.Drivers.Kbd.Maps.{normalmap, shiftmap}
use linda.Drivers.Kbd.Shift.{press, release, left_shift, Modifier-press-release}

letter_a :
    (kbd_read 1 0x1E 0 ≡ (pos 97, 0))
    × (kbd_read 1 0x1E 1 ≡ (pos 65, 1))
    × (kbd_read 1 0x1E 9 ≡ (pos 97, 9))
unfolding kbd_read key_down normalmap shiftmap
letter_a = (refl, refl, refl)

Modifier-press-release_example :
    (press 0x2A 10 ≡ bit_or 10 1) × (release 0x2A (press 0x2A 10) ≡ and_not 10 1)
Modifier-press-release_example = Modifier-press-release 10 left_shift (omega arith)
