-- ===== src/Str/Blocks.antt =====
-- The routines on blocks (lib/string.c): what memset, memcpy and memmove write, overlaps included,
-- and what memcmp and memscan tell.
use linda.Base.{
  ℕ, zero, suc, ◌+◌, ◌-◌, ◌≤◌, ◌<◌, ◌≡◌, ◌≢◌, ◌↔◌, ◌⊎◌, inl, refl, ◌∙◌, arith, ltb, leb,
  if◌then◌else◌, pos, negsuc, dec_lt, dec_le, ℕ_discrete, le→leb, lt→not_leb, eq→==, ne→==,
}
use linda.Str.{write_byte, memset, memcpy, copy_down, memmove, char_difference, memcmp}

-- The memory with the block at `dest` holding what the block at `src` held.
abbrev pub moved : ℕ → ℕ → ℕ → (ℕ → ℕ) → ℕ → ℕ
moved dest src count mem a =
    if leb dest a then if ltb a (dest + count) then mem (a - dest + src) else mem a else mem a

-- memset fills its block with the byte and leaves the rest of the memory.
memset_lem :
    (s c count : ℕ) (mem : ℕ → ℕ) (a : ℕ)
    → memset s c count mem a ≡ (if leb s a then if ltb a (s + count) then c else mem a else mem a)
unfolding memset
memset_lem s c zero mem a = ground arith
memset_lem s c (suc count) mem a = memset_lem (suc s) c count (write_byte s c mem) a ∙ ground arith

copied_up :
    (dest src count : ℕ) (mem : ℕ → ℕ) (a : ℕ)
    → (dest ≤ src) ⊎ (src + suc count ≤ dest)
    → moved (suc dest) (suc src) count (write_byte dest (mem src) mem) a
      ≡ moved dest src (suc count) mem a
copied_up dest src count mem a h = elim (ℕ_discrete a dest) [
  | yes e ↦ rw e (ground arith)
  | no d ↦ elim (dec_lt dest a) [
    | yes l ↦ let at : a - suc dest + suc src ≡ a - dest + src = omega arith in rw at (ground arith)
    | no g ↦ ground arith
  ]
]

memcpy_lem :
    (dest src count : ℕ) (mem : ℕ → ℕ) (a : ℕ)
    → (dest ≤ src) ⊎ (src + count ≤ dest)
    → memcpy dest src count mem a ≡ moved dest src count mem a
unfolding memcpy
memcpy_lem dest src zero mem a h = ground arith
memcpy_lem dest src (suc count) mem a h =
    memcpy_lem (suc dest) (suc src) count (write_byte dest (mem src) mem) a (ground arith)
    ∙ copied_up dest src count mem a h

copied_down :
    (dest src count : ℕ) (mem : ℕ → ℕ) (a : ℕ)
    → src ≤ dest
    → moved dest src count (write_byte (dest + count) (mem (src + count)) mem) a
      ≡ moved dest src (suc count) mem a
copied_down dest src count mem a h = elim (ℕ_discrete a (dest + count)) [
  | yes e ↦
      let at : dest + count - dest + src ≡ src + count = omega arith in rw (e, at) (ground arith)
  | no d ↦ ground arith
]

copy_down_lem :
    (dest src count : ℕ) (mem : ℕ → ℕ) (a : ℕ)
    → src ≤ dest
    → copy_down dest src count mem a ≡ moved dest src count mem a
unfolding copy_down
copy_down_lem dest src zero mem a h = ground arith
copy_down_lem dest src (suc count) mem a h =
    copy_down_lem dest src count (write_byte (dest + count) (mem (src + count)) mem) a h
    ∙ copied_down dest src count mem a h

-- memmove moves its block whether or not the blocks overlap, and writes nothing else.
pub memmove-moved :
    (dest src count : ℕ) (mem : ℕ → ℕ) (a : ℕ)
    → memmove dest src count mem a ≡ moved dest src count mem a
unfolding memmove
memmove-moved dest src count mem a = elim (dec_le dest src) [
  | yes h ↦ rw (le→leb dest src h) (memcpy_lem dest src count mem a (inl h))
  | no h ↦ rw (lt→not_leb src dest (omega arith)) (copy_down_lem dest src count mem a (omega arith))
]

-- The blocks of `count` bytes at two addresses hold the same bytes.
abbrev pub Same : ℕ → ℕ → ℕ → (ℕ → ℕ) → Type 0
Same cs ct zero mem = Unit
Same cs ct (suc count) mem = (mem cs ≡ mem ct) × Same (suc cs) (suc ct) count mem

pub char_difference_zero : (a b : ℕ) → a < 256 → b < 256 → a ≢ b → char_difference a b ≢ pos 0
char_difference_zero a b h k ne = λ e. ground arith

-- On a memory of bytes memcmp answers 0 exactly if the two blocks hold the same bytes.
pub memcmp_zero :
    (cs ct count : ℕ) (mem : ℕ → ℕ)
    → ((a : ℕ) → mem a < 256)
    → (memcmp cs ct count mem ≡ pos 0) ↔ Same cs ct count mem
unfolding memcmp
memcmp_zero cs ct zero mem h = (λ _. tt, λ _. refl)
memcmp_zero cs ct (suc count) mem h = elim (ℕ_discrete (mem cs) (mem ct)) [
  | yes e ↦
      let (to, from) = memcmp_zero (suc cs) (suc ct) count mem h in
      rw (eq→== _ _ e) (λ z. (e, to z), λ (_, s). from s)
  | no d ↦ rw (ne→== _ _ d) (
    λ z. absurd (char_difference_zero (mem cs) (mem ct) (h cs) (h ct) d z),
    λ (e, _). absurd (d e),
  )
]

-- On a memory of bytes, for one byte that is below another, memcmp answers their negative
-- difference exactly if they lie at most 128 apart.
memcmp_sign :
    (cs ct : ℕ) (mem : ℕ → ℕ)
    → ((a : ℕ) → mem a < 256)
    → mem cs < mem ct
    → (memcmp cs ct 1 mem ≡ negsuc (mem ct - mem cs - 1)) ↔ (mem ct ≤ mem cs + 128)
unfolding memcmp
memcmp_sign cs ct mem h lt = let u = h cs in let v = h ct in (λ e. ground arith, λ le. ground arith)
