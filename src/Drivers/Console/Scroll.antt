-- ===== src/Drivers/Console/Scroll.antt =====
-- The loops over the cells of the screen (drivers/console.c) against what they are for.
use linda.Base.{
  ℕ, zero, suc, ◌+◌, ◌-◌, ◌*◌, ◌++◌, ◌∷◌, [], ◌<◌, ◌≡◌, refl, ◌&&◌, arith, ltb, leb, if◌then◌else◌,
  ℤ, pos, ◌∙◌,
}
use linda.Drivers.Console.{
  Console, tml_rows, tml_columns, write, scroll_cells, blank_cells, console_setcolor,
  vga_light_grey, vga_black, console_scroll, console_clear,
}

scroll_cells_lem :
    (n i j : ℕ) (fb : ℤ → ℕ)
    → scroll_cells n i fb (pos j)
      ≡ (if leb i j && ltb j (i + n) then fb (pos (j + tml_columns)) else fb (pos j))
unfolding scroll_cells
scroll_cells_lem zero i j fb = ground arith
scroll_cells_lem (suc n) i j fb =
    scroll_cells_lem n (suc i) j (write fb (pos i) (fb (pos (i + tml_columns)))) ∙ ground arith

blank_cells_lem :
    (n i j : ℕ) (fb : ℤ → ℕ)
    → blank_cells n i fb (pos j) ≡ (
        if leb i j && ltb j (i + n)
        then console_setcolor 32 vga_light_grey vga_black
        else fb (pos j))
unfolding blank_cells
blank_cells_lem zero i j fb = ground arith
blank_cells_lem (suc n) i j fb =
    blank_cells_lem n (suc i) j (write fb (pos i) (console_setcolor 32 vga_light_grey vga_black))
    ∙ ground arith

-- With the cursor on the last row or below, console_scroll moves every row of the screen up by one,
-- takes the cursor along and leaves its column; with the cursor above, it changes nothing.
console_scroll_lem :
    (row col : ℕ) (s : Console)
    → row < tml_rows
    → col < tml_columns
    → ((console_scroll s).console_fb (pos (row * tml_columns + col)) ≡ (
        if leb 24 s.console_y
        then s.console_fb (pos (suc row * tml_columns + col))
        else s.console_fb (pos (row * tml_columns + col))))
      × ((console_scroll s).console_y
          ≡ (if leb 24 s.console_y then s.console_y - 1 else s.console_y))
      × ((console_scroll s).console_x ≡ s.console_x)
unfolding console_scroll
console_scroll_lem row col s h k = (
  ground (arith, scroll_cells_lem 2000 0 (row * tml_columns + col) s.console_fb),
  ground arith,
  ground arith,
)

-- After console_clear every cell of the screen is a grey blank, and the cursor is in the first cell.
console_clear_lem :
    (row col : ℕ) (s : Console)
    → row < tml_rows
    → col < tml_columns
    → ((console_clear s).console_fb (pos (row * tml_columns + col)) ≡ 0x720)
      × ((console_clear s).console_y ≡ 0)
      × ((console_clear s).console_x ≡ pos 0)
      × ((console_clear s).out ≡ s.out ++ (0x3D4, 14) ∷ (0x3D5, 0) ∷ (0x3D4, 15) ∷ (0x3D5, 0) ∷ [])
unfolding console_clear console_setcolor
console_clear_lem row col s h k = (
  ground (arith, blank_cells_lem 2000 0 (row * tml_columns + col) s.console_fb),
  refl,
  refl,
  refl,
)
