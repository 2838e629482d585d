-- ===== src/Drivers/Console.antt =====
-- drivers/console.c: the text screen. `console_x` is an `int` that can go below 0, so it is a ℤ, and
-- so is an index of the frame buffer `console_fb`; `console_y` never goes below 0. A `char` is a byte;
-- those from 128 on are negative. What is written to the ports of the cursor is kept in `out`.
pub mod Scroll
pub mod Cursor
pub mod Write
mod Tests
use linda.Base.{
  ℕ, zero, suc, ◌+◌, ◌-◌, ◌*◌, ◌/◌, ◌%◌, ◌^◌, Bool, ◌&&◌, List, [], ◌∷◌, ◌++◌, Outcome, ok, ◌>>=◌,
  ltb, leb, ◌==◌, if◌then◌else◌, ℤ, pos, negsuc, pos_part, neg_part, ◌+ℤ◌, ◌-ℤ◌, eq_ℤ, ltb_ℤ,
}
use linda.Kernel.Spinlock.{Cpu, Spinlock, acquire, release, initlock}

abbrev pub tml_rows : ℕ
tml_rows = 25

abbrev pub tml_columns : ℕ
tml_columns = 80

abbrev pub vga_light_grey : ℕ
vga_light_grey = 7

abbrev pub vga_black : ℕ
vga_black = 0

pub record Console : Type 0 where
  pub console_y : ℕ
  pub console_x : ℤ
  pub console_fb : ℤ → ℕ
  pub cons : Spinlock
  pub cpu : Cpu
  pub out : List (ℕ × ℕ)

abbrev pub write : (ℤ → ℕ) → ℤ → ℕ → ℤ → ℕ
write fb i v j = if eq_ℤ i j then v else fb j

-- The two loops of console_scroll: they copy cell by cell, in the order of the cells.
unfoldable pub scroll_cells : ℕ → ℕ → (ℤ → ℕ) → ℤ → ℕ
scroll_cells zero i fb = fb
scroll_cells (suc n) i fb = scroll_cells n (suc i) (write fb (pos i) (fb (pos (i + tml_columns))))

unfoldable pub console_scroll : Console → Console
console_scroll s =
    if leb (tml_rows - 1) s.console_y
    then record s {
      console_fb = scroll_cells (tml_rows * tml_columns) 0 s.console_fb;
      console_y = s.console_y - 1;
    }
    else s

-- `(ushort_t)(console_y * TML_COLUMNS + console_x)`
abbrev pub cursor_pos : ℕ → ℤ → ℕ
cursor_pos y x = (y * tml_columns + pos_part x + 2 ^ 32 - neg_part x) % 2 ^ 16

unfoldable pub console_move : Console → Console
console_move s =
    let at = cursor_pos s.console_y s.console_x in
    record s {
      out = s.out ++ (0x3D4, 14) ∷ (0x3D5, at / 2 ^ 8) ∷ (0x3D4, 15) ∷ (0x3D5, at % 2 ^ 8) ∷ [];
    }

-- A byte for the character, half a byte for each colour: the bits do not overlap, so `|` is `+`.
unfoldable pub console_setcolor : ℕ → ℕ → ℕ → ℕ
console_setcolor cnt fg bg = cnt + (fg + bg * 2 ^ 4) * 2 ^ 8

-- `cnt >= ' '`, of a signed char
abbrev pub is_printable : ℕ → Bool
is_printable cnt = leb 32 cnt && ltb cnt 128

-- `(console_x + 8) & ~(8-1)`, where `console_x` is at least -8
abbrev pub tab_stop : ℤ → ℤ
tab_stop x = pos ((pos_part x + 8 - neg_part x) / 8 * 8)

-- The branches on the character, which console_put and console_put_color share.
unfoldable pub put_char : ℕ → ℕ → ℕ → Console → Console
unfolding console_setcolor ◌+ℤ◌ ◌-ℤ◌
put_char cnt fg bg s =
    if cnt == 10
    then record s { console_y = s.console_y + 1; console_x = pos 0 }
    else if cnt == 8
    then record s { console_x = s.console_x -ℤ pos 1 }
    else if cnt == 9
    then record s { console_x = tab_stop s.console_x }
    else if is_printable cnt
    then record s {
      console_fb =
          write s.console_fb (pos (s.console_y * tml_columns) +ℤ s.console_x)
            (console_setcolor cnt fg bg);
      console_x = s.console_x +ℤ pos 1;
    }
    else s

-- The end of the row: console_put starts a new one before the last column.
unfoldable pub wrap : Console → Console
wrap s =
    if ltb_ℤ s.console_x (pos (tml_columns - 1))
    then s
    else record s { console_y = s.console_y + 1; console_x = pos 0 }

-- console_put_color leaves the column as it is.
unfoldable pub wrap_color : Console → Console
wrap_color s =
    if ltb_ℤ s.console_x (pos tml_columns) then s else record s { console_y = s.console_y + 1 }

-- What console_put does between acquire and release.
unfoldable pub put_body : ℕ → Console → Console
unfolding put_char wrap console_scroll console_move
put_body cnt s = console_move (console_scroll (wrap (put_char cnt vga_light_grey vga_black s)))

unfoldable pub put_color_body : ℕ → ℕ → ℕ → Console → Console
unfolding put_char wrap_color console_scroll console_move
put_color_body cnt fg bg s = console_move (console_scroll (wrap_color (put_char cnt fg bg s)))

-- A body that runs with the console lock held.
unfoldable pub locked : (Console → Console) → Console → Outcome Console
locked body s = acquire (s.cons, s.cpu) >>= λ (lock, cpu).
    let s' = body (record s { cons = lock; cpu = cpu }) in
    release (s'.cons, s'.cpu) >>= λ (lock', cpu'). ok (record s' { cons = lock'; cpu = cpu' })

unfoldable pub console_put : ℕ → Console → Outcome Console
unfolding locked
console_put cnt s = locked (put_body cnt) s

unfoldable pub console_put_color : ℕ → ℕ → ℕ → Console → Outcome Console
unfolding locked
console_put_color cnt fg bg s = locked (put_color_body cnt fg bg) s

-- A string is the list of its characters.
unfoldable pub console_write : List ℕ → Console → Outcome Console
console_write [] s = ok s
console_write (c ∷ cs) s = console_put c s >>= console_write cs

unfoldable pub console_write_color : List ℕ → ℕ → ℕ → Console → Outcome Console
console_write_color [] fg bg s = ok s
console_write_color (c ∷ cs) fg bg s = console_put_color c fg bg s >>= console_write_color cs fg bg

-- The loops that fill the screen with grey blanks.
unfoldable pub blank_cells : ℕ → ℕ → (ℤ → ℕ) → ℤ → ℕ
unfolding console_setcolor
blank_cells zero i fb = fb
blank_cells (suc n) i fb =
    blank_cells n (suc i) (write fb (pos i) (console_setcolor 32 vga_light_grey vga_black))

unfoldable pub console_init : Console → Console
unfolding initlock
console_init s = record s {
  console_x = pos 0;
  console_y = 0;
  console_fb = blank_cells (tml_rows * tml_columns) 0 s.console_fb;
  cons = initlock s.cons;
}

unfoldable pub console_clear : Console → Console
unfolding console_move
console_clear s = console_move (record s {
  console_fb = blank_cells (tml_rows * tml_columns) 0 s.console_fb;
  console_x = pos 0;
  console_y = 0;
})
