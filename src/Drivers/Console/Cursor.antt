-- ===== src/Drivers/Console/Cursor.antt =====
-- Where the cursor of the screen (drivers/console.c) can be.
use linda.Base.{
  ℕ, ◌+◌, ◌-◌, ◌*◌, ◌≤◌, ◌<◌, ◌≡◌, ◌≢◌, true, arith, ltb, if◌then◌else◌, ℤ, pos, negsuc, pos_part,
  ◌≤ℤ◌, ◌-ℤ◌,
}
use linda.Drivers.Console.{
  Console, tml_rows, tml_columns, write, put_body, put_color_body, console_setcolor, is_printable,
}

-- The cursor is where console_put can leave it: not in the last row, and not in the last column.
pub record IsCursor (s : Console) : Type 0 where
  pub row : s.console_y < tml_rows - 1
  pub left : pos 0 ≤ℤ s.console_x
  pub right : s.console_x ≤ℤ pos (tml_columns - 2)

-- A cursor above the last row and in one of the columns 0 to 78 is so again after every character, but
-- for a backspace in the first column.
pub put_body-IsCursor :
    (cnt : ℕ) (s : Console)
    → (cnt ≡ 8 → s.console_x ≢ pos 0)
    → IsCursor s
    → IsCursor (put_body cnt s)
unfolding put_body
put_body-IsCursor cnt s b c = record {
  row = ground arith;
  left = ground arith;
  right = ground arith;
}

-- With the cursor in place, a printable character above the last row but one goes to the cell under
-- the cursor and to no other; the cursor then moves on by one column, or from column 78 to the
-- start of the next row.
put_body_printable :
    (cnt : ℕ) (j : ℤ) (s : Console)
    → is_printable cnt ≡ true
    → IsCursor s
    → s.console_y < 23
    → ((put_body cnt s).console_fb j
        ≡ write s.console_fb
            (pos (s.console_y * 80 + pos_part s.console_x))
            (console_setcolor cnt 7 0)
            j)
      × ((put_body cnt s).console_y
          ≡ (if ltb (pos_part s.console_x) 78 then s.console_y else s.console_y + 1))
      × ((put_body cnt s).console_x
          ≡ pos (if ltb (pos_part s.console_x) 78 then pos_part s.console_x + 1 else 0))
unfolding put_body
put_body_printable cnt j s p c y = (ground arith, ground arith, ground arith)

-- A backspace in the first column of row `y` is not refused: the cursor leaves the row, and a
-- printable character that follows goes to the cell before the row, which for the first row is no
-- cell of the screen.
backspace_leaves_row :
    (cnt : ℕ) (s : Console)
    → is_printable cnt ≡ true
    → s.console_x ≡ pos 0
    → s.console_y < 24
    → ((put_body 8 s).console_x ≡ negsuc 0)
      × ((put_body cnt (put_body 8 s)).console_fb (pos (s.console_y * 80) -ℤ pos 1)
          ≡ console_setcolor cnt 7 0)
unfolding put_body
backspace_leaves_row cnt s p x y = (ground arith, ground arith)

put_color_body_step :
    (c fg bg n : ℕ) (s : Console)
    → is_printable c ≡ true
    → s.console_x ≡ pos n
    → 79 ≤ n
    → s.console_y < 23
    → ((put_color_body c fg bg s).console_y ≡ s.console_y + 1)
      × ((put_color_body c fg bg s).console_x ≡ pos (n + 1))
unfolding put_color_body
put_color_body_step c fg bg n s p x h y = (ground arith, ground arith)

-- At the end of a row console_put_color does not go back to the first column: from the last column on,
-- each of two printable characters starts one more row, and the column lies outside the screen.
put_color_body_keeps_column :
    (c d fg bg : ℕ) (s : Console)
    → is_printable c ≡ true
    → is_printable d ≡ true
    → s.console_x ≡ pos 79
    → s.console_y < 22
    → ((put_color_body d fg bg (put_color_body c fg bg s)).console_y ≡ s.console_y + 2)
      × ((put_color_body d fg bg (put_color_body c fg bg s)).console_x ≡ pos 81)
put_color_body_keeps_column c d fg bg s p q x y =
    let (a, b) = put_color_body_step c fg bg 79 s p x (omega arith) (omega arith) in
    let (e, f) =
      put_color_body_step d fg bg 80 (put_color_body c fg bg s) q b (omega arith)
        (omega (arith, a)) in
    (omega (arith, a, e), f)
