-- ===== src/Str/Strings.antt =====
-- The routines on strings (lib/string.c): lengths, comparison and copies of the strings that start at
-- two addresses, against the string up to its terminator.
use linda.Base.{
  inr, ℕ, zero, suc, ◌+◌, ◌≤◌, ◌<◌, ◌≡◌, ◌≢◌, ◌↔◌, ◌⊎◌, refl, sym, ◌∙◌, Option, none, some, arith,
  leb, if◌then◌else◌, ℤ, pos, dec_le, ℕ_discrete, eq→==, ne→==, ap, le→leb, lt→not_leb,
}
use linda.Str.{
  write_byte, memcpy, char_difference, end_of, strlen, strnlen, strcmp, strcpy, strncpy, strcat,
}
use linda.Str.Blocks.{Same, char_difference_zero}

-- A string of `len` bytes starts at `s`: its first zero byte is `len` bytes on.
abbrev pub IsString : ℕ → ℕ → (ℕ → ℕ) → Type 0
IsString s zero mem = mem s ≡ 0
IsString s (suc len) mem = (mem s ≢ 0) × IsString (suc s) len mem

end_of_lem :
    (s len fuel : ℕ) (mem : ℕ → ℕ)
    → IsString s len mem
    → len < fuel
    → end_of fuel s mem ≡ some (s + len)
unfolding end_of
end_of_lem s len zero mem h l = absurd (omega arith)
end_of_lem s zero (suc fuel) mem h l = rw (eq→== _ _ h) (ap some (omega arith))
end_of_lem s (suc len) (suc fuel) mem (h, t) l =
    rw (ne→== _ _ h) (end_of_lem (suc s) len fuel mem t (omega arith) ∙ ap some (omega arith))

strnlen_min :
    (s len count : ℕ) (mem : ℕ → ℕ)
    → IsString s len mem
    → strnlen s count mem ≡ (if leb len count then len else count)
unfolding strnlen
strnlen_min s len zero mem h = ground arith
strnlen_min s zero (suc count) mem h = rw (eq→== _ _ h) (ground arith)
strnlen_min s (suc len) (suc count) mem (h, t) =
    rw (ne→== _ _ h, strnlen_min (suc s) len count mem t) (ground arith)

-- For the string of `len` bytes at an address, strlen ends within any fuel above `len` and answers
-- `len`, and strnlen answers the lesser of `len` and its bound.
pub strlen-strnlen :
    (s len fuel count : ℕ) (mem : ℕ → ℕ)
    → IsString s len mem
    → len < fuel
    → (strlen fuel s mem ≡ some len)
      × (strnlen s count mem ≡ (if leb len count then len else count))
unfolding strlen
strlen-strnlen s len fuel count mem h l = (
  rw (strlen, end_of_lem s len fuel mem h l) (ap some (omega arith)),
  strnlen_min s len count mem h,
)

-- What strcmp may answer of two strings.
abbrev pub Verdict : ℕ → ℕ → ℕ → ℕ → (ℕ → ℕ) → Option ℤ → Type 0
Verdict cs ct len len' mem none = ⊥
Verdict cs ct len len' mem (some res) = (res ≡ pos 0) ↔ ((len ≡ len') × Same cs ct len mem)

-- One round: the bytes differ, or they are the same and the strings go on.
differ :
    (cs ct len len' : ℕ) (mem : ℕ → ℕ)
    → ((a : ℕ) → mem a < 256)
    → mem cs ≢ mem ct
    → ¬ ((len ≡ len') × Same cs ct len mem)
    → Verdict cs ct len len' mem (some (char_difference (mem cs) (mem ct)))
differ cs ct len len' mem b d diff =
    (λ z. absurd (char_difference_zero (mem cs) (mem ct) (b cs) (b ct) d z), λ y. absurd (diff y))

go_on :
    (cs ct len len' : ℕ) (mem : ℕ → ℕ) (r : Option ℤ)
    → mem cs ≡ mem ct
    → Verdict (suc cs) (suc ct) len len' mem r
    → Verdict cs ct (suc len) (suc len') mem r
go_on cs ct len len' mem none e v = v
go_on cs ct len len' mem (some res) e (to, from) =
    (λ z. let (q, s) = to z in (ap suc q, (e, s)), λ (q, (_, s)). from (omega arith, s))

-- On a memory of bytes, of two strings strcmp, given fuel above the length of the first, ends, and
-- it answers 0 exactly if they have the same length and the same bytes.
strcmp_zero :
    (cs ct len len' fuel : ℕ) (mem : ℕ → ℕ)
    → ((a : ℕ) → mem a < 256)
    → IsString cs len mem
    → IsString ct len' mem
    → len < fuel
    → Verdict cs ct len len' mem (strcmp fuel cs ct mem)
unfolding strcmp
strcmp_zero cs ct len len' zero mem b h k l = absurd (omega arith)
strcmp_zero cs ct zero zero (suc fuel) mem b h k l =
    rw (eq→== _ _ (h ∙ sym k), eq→== _ _ h) (λ _. (refl, tt), λ _. refl)
strcmp_zero cs ct zero (suc len') (suc fuel) mem b h (k, _) l =
    let d : mem cs ≢ mem ct = omega arith in
    rw (ne→== _ _ d) (differ cs ct zero (suc len') mem b d (λ (q, _). omega arith))
strcmp_zero cs ct (suc len) zero (suc fuel) mem b (h, _) k l =
    let d : mem cs ≢ mem ct = omega arith in
    rw (ne→== _ _ d) (differ cs ct (suc len) zero mem b d (λ (q, _). omega arith))
strcmp_zero cs ct (suc len) (suc len') (suc fuel) mem b (h, t) (k, u) l =
    elim (ℕ_discrete (mem cs) (mem ct)) [
      | yes e ↦
          rw (eq→== _ _ e, ne→== _ _ h)
            (go_on cs ct len len' mem (strcmp fuel (suc cs) (suc ct) mem) e
              (strcmp_zero (suc cs) (suc ct) len len' fuel mem b t u (omega arith)))
      | no d ↦ rw (ne→== _ _ d) (differ cs ct (suc len) (suc len') mem b d (λ (_, (e, _)). d e))
    ]

pub IsString-write :
    (s len at v : ℕ) (mem : ℕ → ℕ)
    → (at < s) ⊎ (s + len < at)
    → IsString s len mem
    → IsString s len (write_byte at v mem)
IsString-write s zero at v mem o h = ground arith
IsString-write s (suc len) at v mem o (h, t) =
    (ground arith, IsString-write (suc s) len at v mem (ground arith) t)

strcpy_copies :
    (dest src len fuel : ℕ) (mem : ℕ → ℕ)
    → IsString src len mem
    → (dest ≤ src) ⊎ (src + len < dest)
    → len < fuel
    → strcpy fuel dest src mem ≡ some (memcpy dest src (suc len) mem)
unfolding strcpy memcpy
strcpy_copies dest src len zero mem h o l = absurd (omega arith)
strcpy_copies dest src zero (suc fuel) mem h o l = rw (eq→== _ _ h) refl
strcpy_copies dest src (suc len) (suc fuel) mem (h, t) o l = rw (ne→== _ _ h) (
    strcpy_copies (suc dest) (suc src) len fuel (write_byte dest (mem src) mem)
      (IsString-write (suc src) len dest (mem src) mem (ground arith) t) (ground arith)
      (omega arith))

one_more :
    (dest src len count : ℕ) (mem : ℕ → ℕ)
    → memcpy
        (suc dest)
        (suc src)
        (if leb count len then count else suc len)
        (write_byte dest (mem src) mem)
      ≡ memcpy dest src (if leb (suc count) (suc len) then suc count else suc (suc len)) mem
unfolding memcpy
one_more dest src len count mem = elim (dec_le count len) [
  | yes h ↦ rw (le→leb _ _ h, le→leb (suc count) (suc len) (omega arith)) refl
  | no h ↦
      rw (lt→not_leb len count (omega arith), lt→not_leb (suc len) (suc count) (omega arith)) refl
]

strncpy_copies :
    (dest src len count : ℕ) (mem : ℕ → ℕ)
    → IsString src len mem
    → (dest ≤ src) ⊎ (src + len < dest)
    → strncpy dest src count mem ≡ memcpy dest src (if leb count len then count else suc len) mem
unfolding strncpy memcpy
strncpy_copies dest src len zero mem h o = rw (le→leb 0 len (omega arith)) refl
strncpy_copies dest src zero (suc count) mem h o =
    rw (lt→not_leb 0 (suc count) (omega arith), eq→== _ _ h) refl
strncpy_copies dest src (suc len) (suc count) mem (h, t) o = rw (ne→== _ _ h) (
    strncpy_copies (suc dest) (suc src) len count (write_byte dest (mem src) mem)
      (IsString-write (suc src) len dest (mem src) mem (ground arith) t) (ground arith)
    ∙ one_more dest src len count mem)

-- For a string of `len` bytes and a destination that does not lie within it behind its start, strcpy
-- ends within any fuel above `len` and does what memcpy does with the string and its terminator;
-- strncpy does what memcpy does with the lesser of that and its bound.
strcpy-strncpy_lem :
    (dest src len fuel count : ℕ) (mem : ℕ → ℕ)
    → IsString src len mem
    → (dest ≤ src) ⊎ (src + len < dest)
    → len < fuel
    → (strcpy fuel dest src mem ≡ some (memcpy dest src (suc len) mem))
      × (strncpy dest src count mem
          ≡ memcpy dest src (if leb count len then count else suc len) mem)
strcpy-strncpy_lem dest src len fuel count mem h o l =
    (strcpy_copies dest src len fuel mem h o l, strncpy_copies dest src len count mem h o)

-- For a string to append that ends before the end of the string at `dest`, strcat ends within any fuel
-- above the two lengths and moves the second string with its terminator to the end of the first one.
strcat-memcpy :
    (dest src len len' fuel : ℕ) (mem : ℕ → ℕ)
    → IsString dest len mem
    → IsString src len' mem
    → src + len' < dest + len
    → len < fuel
    → len' < fuel
    → strcat fuel dest src mem ≡ some (memcpy (dest + len) src (suc len') mem)
unfolding strcat
strcat-memcpy dest src len len' fuel mem h k o l m =
    rw (strcat, end_of_lem dest len fuel mem h l)
      (strcpy_copies (dest + len) src len' fuel mem k (inr o) m)
