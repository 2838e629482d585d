-- ===== src/Drivers/Kbd/Maps.antt =====
-- include/kernel/drivers/kbd.h: what a key's scan code means, without and with shift, and with
-- control. A table gives its first entries in order and some later ones by index; all others are 0.
-- C('/') is negative, and an `uchar_t` keeps it as 239.
use linda.Base.{ℕ, List, [], ◌∷◌, get_or, ◌==◌, if◌then◌else◌}

-- The entries of a table that are given by index.
unfoldable pub designated : List (ℕ × ℕ) → ℕ → ℕ
designated [] i = 0
designated ((j, v) ∷ table) i = let rest = designated table i in if i == j then v else rest

-- Keys that mean the same in normalmap and shiftmap.
abbrev special_keys : List (ℕ × ℕ)
special_keys =
    (0x9C, 10)
    ∷ (0xB5, 47)
    ∷ (0xC8, 226)
    ∷ (0xD0, 227)
    ∷ (0xC9, 230)
    ∷ (0xD1, 231)
    ∷ (0xCB, 228)
    ∷ (0xCD, 229)
    ∷ (0x97, 224)
    ∷ (0xCF, 225)
    ∷ (0xD2, 232)
    ∷ (0xD3, 233)
    ∷ []

abbrev pub entry : List ℕ → List (ℕ × ℕ) → ℕ → ℕ
entry row table i = get_or row i (designated table i)

unfoldable pub normalmap : ℕ → ℕ
unfolding designated
normalmap =
    entry
      (0 ∷ 27 ∷ 49 ∷ 50 ∷ 51 ∷ 52 ∷ 53 ∷ 54 ∷ 55 ∷ 56 ∷ 57 ∷ 48 ∷ 45 ∷ 61 ∷ 8 ∷ 9 ∷ 113 ∷ 119 ∷ 101
        ∷ 114 ∷ 116 ∷ 121 ∷ 117 ∷ 105 ∷ 111 ∷ 112 ∷ 91 ∷ 93 ∷ 10 ∷ 0 ∷ 97 ∷ 115 ∷ 100 ∷ 102 ∷ 103
        ∷ 104 ∷ 106 ∷ 107 ∷ 108 ∷ 59 ∷ 39 ∷ 96 ∷ 0 ∷ 92 ∷ 122 ∷ 120 ∷ 99 ∷ 118 ∷ 98 ∷ 110 ∷ 109 ∷ 44
        ∷ 46 ∷ 47 ∷ 0 ∷ 42 ∷ 0 ∷ 32 ∷ 0 ∷ 0 ∷ 0 ∷ 0 ∷ 0 ∷ 0 ∷ 0 ∷ 0 ∷ 0 ∷ 0 ∷ 0 ∷ 0 ∷ 0 ∷ 55 ∷ 56
        ∷ 57 ∷ 45 ∷ 52 ∷ 53 ∷ 54 ∷ 43 ∷ 49 ∷ 50 ∷ 51 ∷ 48 ∷ 46 ∷ 0 ∷ 0 ∷ 0 ∷ 0 ∷ [])
      special_keys

unfoldable pub shiftmap : ℕ → ℕ
unfolding designated
shiftmap =
    entry
      (0 ∷ 27 ∷ 33 ∷ 64 ∷ 35 ∷ 36 ∷ 37 ∷ 94 ∷ 38 ∷ 42 ∷ 40 ∷ 41 ∷ 95 ∷ 43 ∷ 8 ∷ 9 ∷ 81 ∷ 87 ∷ 69
        ∷ 82 ∷ 84 ∷ 89 ∷ 85 ∷ 73 ∷ 79 ∷ 80 ∷ 123 ∷ 125 ∷ 10 ∷ 0 ∷ 65 ∷ 83 ∷ 68 ∷ 70 ∷ 71 ∷ 72 ∷ 74
        ∷ 75 ∷ 76 ∷ 58 ∷ 34 ∷ 126 ∷ 0 ∷ 124 ∷ 90 ∷ 88 ∷ 67 ∷ 86 ∷ 66 ∷ 78 ∷ 77 ∷ 60 ∷ 62 ∷ 63 ∷ 0
        ∷ 42 ∷ 0 ∷ 32 ∷ 0 ∷ 0 ∷ 0 ∷ 0 ∷ 0 ∷ 0 ∷ 0 ∷ 0 ∷ 0 ∷ 0 ∷ 0 ∷ 0 ∷ 0 ∷ 55 ∷ 56 ∷ 57 ∷ 45 ∷ 52
        ∷ 53 ∷ 54 ∷ 43 ∷ 49 ∷ 50 ∷ 51 ∷ 48 ∷ 46 ∷ 0 ∷ 0 ∷ 0 ∷ 0 ∷ [])
      special_keys

unfoldable pub ctlmap : ℕ → ℕ
unfolding designated
ctlmap =
    entry
      (0 ∷ 0 ∷ 0 ∷ 0 ∷ 0 ∷ 0 ∷ 0 ∷ 0 ∷ 0 ∷ 0 ∷ 0 ∷ 0 ∷ 0 ∷ 0 ∷ 0 ∷ 0 ∷ 17 ∷ 23 ∷ 5 ∷ 18 ∷ 20 ∷ 25
        ∷ 21 ∷ 9 ∷ 15 ∷ 16 ∷ 0 ∷ 0 ∷ 13 ∷ 0 ∷ 1 ∷ 19 ∷ 4 ∷ 6 ∷ 7 ∷ 8 ∷ 10 ∷ 11 ∷ 12 ∷ 0 ∷ 0 ∷ 0 ∷ 0
        ∷ 28 ∷ 26 ∷ 24 ∷ 3 ∷ 22 ∷ 2 ∷ 14 ∷ 13 ∷ 0 ∷ 0 ∷ 239 ∷ 0 ∷ 0 ∷ [])
      ((0x9C, 13)
        ∷ (0xB5, 239)
        ∷ (0xC8, 226)
        ∷ (0xD0, 227)
        ∷ (0xC9, 230)
        ∷ (0xD1, 231)
        ∷ (0xCB, 228)
        ∷ (0xCD, 229)
        ∷ (0x97, 224)
        ∷ (0xCF, 225)
        ∷ (0xD2, 232)
        ∷ (0xD3, 233)
        ∷ [])

abbrev pub shift_bit : ℕ
shift_bit = 1

abbrev pub ctl_bit : ℕ
ctl_bit = 2

abbrev pub alt_bit : ℕ
alt_bit = 4

abbrev pub capslock_bit : ℕ
capslock_bit = 8

abbrev pub numlock_bit : ℕ
numlock_bit = 16

abbrev pub scrolllock_bit : ℕ
scrolllock_bit = 32

abbrev pub e0esc_bit : ℕ
e0esc_bit = 64

unfoldable pub shiftcode : ℕ → ℕ
unfolding designated
shiftcode = designated (
    (0x1D, ctl_bit)
    ∷ (0x2A, shift_bit)
    ∷ (0x36, shift_bit)
    ∷ (0x38, alt_bit)
    ∷ (0x9D, ctl_bit)
    ∷ (0xB8, alt_bit)
    ∷ [])

unfoldable pub togglecode : ℕ → ℕ
unfolding designated
togglecode = designated ((0x3A, capslock_bit) ∷ (0x45, numlock_bit) ∷ (0x46, scrolllock_bit) ∷ [])
