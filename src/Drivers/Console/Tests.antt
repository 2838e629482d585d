-- ===== src/Drivers/Console/Tests.antt =====
-- Runs of the text screen, and its theorems at a screen with the cursor in a given cell.
use linda.Base.{ℕ, ◌≡◌, refl, true, [], ◌∷◌, arith, ℤ, pos, pos_part}
use linda.Drivers.Console.{Console, put_body, console_write}
use linda.Drivers.Console.Cursor.{IsCursor}
use linda.Drivers.Console.Write.{IsFree, Written, console_write-Written}

-- The cell number `j` holds `j`.
abbrev numbered : ℤ → ℕ
numbered j = pos_part j

abbrev screen : ℕ → ℤ → Console
screen y x = record {
  console_y = y;
  console_x = x;
  console_fb = numbered;
  cons = record { locked = 0 };
  cpu = record { ncli = 0; intena = true; iflag = true };
  out = [];
}

screen-IsCursor : IsCursor (screen 5 (pos 78))
screen-IsCursor = record { row = omega arith; left = omega arith; right = omega arith }

screen-IsFree : IsFree (screen 5 (pos 78))
screen-IsFree = record { unlocked = refl; masked = record { masked = λ h. absurd (h refl) } }

letter_at_the_end :
    ((put_body 65 (screen 5 (pos 78))).console_fb (pos 478) ≡ 0x741)
    × ((put_body 65 (screen 5 (pos 78))).console_y ≡ 6)
unfolding put_body
letter_at_the_end = (refl, refl)

console_write-Written_example :
    Written (screen 5 (pos 78)) (console_write (72 ∷ 105 ∷ 10 ∷ []) (screen 5 (pos 78)))
console_write-Written_example =
    console_write-Written (72 ∷ 105 ∷ 10 ∷ []) (screen 5 (pos 78))
      (λ e. absurd (omega arith), (λ e. absurd (omega arith), (λ e. absurd (omega arith), tt)))
      screen-IsFree screen-IsCursor
