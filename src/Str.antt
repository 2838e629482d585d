-- ===== src/Str.antt =====
-- lib/string.c: the routines on blocks of memory and on strings. `mem` is the memory, byte by byte,
-- each byte as its pattern 0..255; an address is a number, and a block does not run past the top of the
-- address space. A loop that a count bounds recurs on the count; one that only a zero byte ends recurs
-- on `fuel`, and `none` says that the fuel ran out.
pub mod Blocks
pub mod Strings
pub mod Search
pub mod Tokens
pub mod Cut
mod Tests
use linda.Base.{
  ℕ, zero, suc, ◌+◌, ◌-◌, ◌%◌, Bool, true, false, Option, none, some, ltb, leb, ◌==◌, if◌then◌else◌,
  ℤ, pos, negsuc, eq_ℤ,
}

abbrev pub write_byte : ℕ → ℕ → (ℕ → ℕ) → ℕ → ℕ
write_byte addr v mem a = if a == addr then v else mem a

unfoldable pub memset : ℕ → ℕ → ℕ → (ℕ → ℕ) → ℕ → ℕ
memset s c zero mem = mem
memset s c (suc count) mem = memset (suc s) c count (write_byte s c mem)

-- `while (count--) *tmp++ = *s++;`, the loop of memcpy, of bcopy and of the first branch of memmove.
unfoldable pub memcpy : ℕ → ℕ → ℕ → (ℕ → ℕ) → ℕ → ℕ
memcpy dest src zero mem = mem
memcpy dest src (suc count) mem = memcpy (suc dest) (suc src) count (write_byte dest (mem src) mem)

-- It takes the source first.
abbrev pub bcopy : ℕ → ℕ → ℕ → (ℕ → ℕ) → ℕ → ℕ
bcopy src dest count mem = memcpy dest src count mem

-- `while (count--) *--tmp = *--s;` from the ends of the blocks
unfoldable pub copy_down : ℕ → ℕ → ℕ → (ℕ → ℕ) → ℕ → ℕ
copy_down dest src zero mem = mem
copy_down dest src (suc count) mem =
    copy_down dest src count (write_byte (dest + count) (mem (src + count)) mem)

unfoldable pub memmove : ℕ → ℕ → ℕ → (ℕ → ℕ) → ℕ → ℕ
unfolding memcpy copy_down
memmove dest src count mem =
    if leb dest src then memcpy dest src count mem else copy_down dest src count mem

-- `res = *su1 - *su2` in a `signed char`, read as an int.
abbrev pub char_difference : ℕ → ℕ → ℤ
char_difference a b =
    let res = (a + 256 - b) % 256 in if ltb res 128 then pos res else negsuc (255 - res)

unfoldable pub memcmp : ℕ → ℕ → ℕ → (ℕ → ℕ) → ℤ
memcmp cs ct zero mem = pos 0
memcmp cs ct (suc count) mem =
    let rest = memcmp (suc cs) (suc ct) count mem in
    if mem cs == mem ct then rest else char_difference (mem cs) (mem ct)

unfoldable pub memscan : ℕ → ℕ → ℕ → (ℕ → ℕ) → ℕ
memscan addr c zero mem = addr
memscan addr c (suc size) mem =
    let rest = memscan (suc addr) c size mem in if mem addr == c then addr else rest

-- The address of the terminator, which strlen turns into a length.
unfoldable pub end_of : ℕ → ℕ → (ℕ → ℕ) → Option ℕ
end_of zero s mem = none
end_of (suc fuel) s mem = let rest = end_of fuel (suc s) mem in if mem s == 0 then some s else rest

unfoldable pub strlen : ℕ → ℕ → (ℕ → ℕ) → Option ℕ
unfolding end_of
strlen fuel s mem = elim (end_of fuel s mem) [ none ↦ none | some sc ↦ some (sc - s) ]

-- The count of the bytes before the terminator, `count` at most.
unfoldable pub strnlen : ℕ → ℕ → (ℕ → ℕ) → ℕ
strnlen s zero mem = 0
strnlen s (suc count) mem =
    let rest = strnlen (suc s) count mem in if mem s == 0 then 0 else suc rest

unfoldable pub strcmp : ℕ → ℕ → ℕ → (ℕ → ℕ) → Option ℤ
strcmp zero cs ct mem = none
strcmp (suc fuel) cs ct mem =
    let rest = strcmp fuel (suc cs) (suc ct) mem in
    if mem cs == mem ct
    then if mem cs == 0 then some (pos 0) else rest
    else some (char_difference (mem cs) (mem ct))

unfoldable pub strncmp : ℕ → ℕ → ℕ → (ℕ → ℕ) → ℤ
strncmp cs ct zero mem = pos 0
strncmp cs ct (suc count) mem =
    let rest = strncmp (suc cs) (suc ct) count mem in
    if mem cs == mem ct
    then if mem cs == 0 then pos 0 else rest
    else char_difference (mem cs) (mem ct)

unfoldable pub strcpy : ℕ → ℕ → ℕ → (ℕ → ℕ) → Option (ℕ → ℕ)
strcpy zero dest src mem = none
strcpy (suc fuel) dest src mem =
    let rest = strcpy fuel (suc dest) (suc src) (write_byte dest (mem src) mem) in
    if mem src == 0 then some (write_byte dest (mem src) mem) else rest

unfoldable pub strncpy : ℕ → ℕ → ℕ → (ℕ → ℕ) → ℕ → ℕ
strncpy dest src zero mem = mem
strncpy dest src (suc count) mem =
    let rest = strncpy (suc dest) (suc src) count (write_byte dest (mem src) mem) in
    if mem src == 0 then write_byte dest (mem src) mem else rest

unfoldable pub strcat : ℕ → ℕ → ℕ → (ℕ → ℕ) → Option (ℕ → ℕ)
unfolding end_of strcpy
strcat fuel dest src mem = elim (end_of fuel dest mem) [
  | none ↦ none
  | some tail ↦ strcpy fuel tail src mem
]

-- The second loop of strncat, `count` being at least 1.
unfoldable pub append_bounded : ℕ → ℕ → ℕ → (ℕ → ℕ) → ℕ → ℕ
append_bounded dest src zero mem = mem
append_bounded dest src (suc count) mem =
    let mem' = write_byte dest (mem src) mem in
    let rest = append_bounded (suc dest) (suc src) count mem' in
    if mem src == 0 then mem' else if count == 0 then write_byte (suc dest) 0 mem' else rest

unfoldable pub strncat : ℕ → ℕ → ℕ → ℕ → (ℕ → ℕ) → Option (ℕ → ℕ)
unfolding end_of append_bounded
strncat fuel dest src zero mem = some mem
strncat fuel dest src (suc count) mem = elim (end_of fuel dest mem) [
  | none ↦ none
  | some tail ↦ some (append_bounded tail src (suc count) mem)
]

-- `some none` is NULL.
unfoldable pub strchr : ℕ → ℕ → ℕ → (ℕ → ℕ) → Option (Option ℕ)
strchr zero s c mem = none
strchr (suc fuel) s c mem =
    let rest = strchr fuel (suc s) c mem in
    if mem s == c % 256 then some (some s) else if mem s == 0 then some none else rest

-- The inner loop of strspn and strpbrk: whether a character stands in the string at `a`.
unfoldable pub is_listed : ℕ → ℕ → ℕ → (ℕ → ℕ) → Option Bool
is_listed zero ch a mem = none
is_listed (suc fuel) ch a mem =
    let rest = is_listed fuel ch (suc a) mem in
    if mem a == 0 then some false else if ch == mem a then some true else rest

-- The string at `accept` is gone through with `bound` rounds of fuel.
unfoldable pub strspn : ℕ → ℕ → ℕ → ℕ → (ℕ → ℕ) → Option ℕ
unfolding is_listed
strspn zero bound s accept mem = none
strspn (suc fuel) bound s accept mem =
    let rest = strspn fuel bound (suc s) accept mem in
    if mem s == 0 then some 0 else elim (is_listed bound (mem s) accept mem) [
      | none ↦ none
      | some listed ↦ if listed then elim rest [ none ↦ none | some n ↦ some (suc n) ] else some 0
    ]

-- `some none` is NULL.
unfoldable pub strpbrk : ℕ → ℕ → ℕ → ℕ → (ℕ → ℕ) → Option (Option ℕ)
unfolding is_listed
strpbrk zero bound cs ct mem = none
strpbrk (suc fuel) bound cs ct mem =
    let rest = strpbrk fuel bound (suc cs) ct mem in
    if mem cs == 0 then some none else elim (is_listed bound (mem cs) ct mem) [
      | none ↦ none
      | some listed ↦ if listed then some (some cs) else rest
    ]

-- The loop of strrchr from `s + n` down to `s`. (`--p >= s` ends it, `s` not being 0.)
unfoldable pub last_match : ℕ → ℕ → ℕ → (ℕ → ℕ) → Option ℕ
last_match s c zero mem = if mem s == c then some s else none
last_match s c (suc n) mem =
    let rest = last_match s c n mem in if mem (s + suc n) == c then some (s + suc n) else rest

-- `some none` is NULL.
unfoldable pub strrchr : ℕ → ℕ → ℕ → (ℕ → ℕ) → Option (Option ℕ)
strrchr fuel s c mem = elim (strlen fuel s mem) [
  | none ↦ none
  | some len ↦ some (last_match s (c % 256) len mem)
]

-- The loop of strstr, with `l2` above 0.
unfoldable pub search : ℕ → ℕ → ℕ → ℕ → (ℕ → ℕ) → Option ℕ
search zero l2 s1 s2 mem = none
search (suc l1) l2 s1 s2 mem =
    let rest = search l1 l2 (suc s1) s2 mem in
    if leb l2 (suc l1) then if eq_ℤ (memcmp s1 s2 l2 mem) (pos 0) then some s1 else rest else none

-- `some none` is NULL.
unfoldable pub strstr : ℕ → ℕ → ℕ → (ℕ → ℕ) → Option (Option ℕ)
strstr fuel s1 s2 mem = elim (strlen fuel s2 mem) [
  | none ↦ none
  | some l2 ↦
      if l2 == 0 then some (some s1) else elim (strlen fuel s1 mem) as (λ _. Option (Option ℕ)) [
        | none ↦ none
        | some l1 ↦ some (search l1 l2 s1 s2 mem)
      ]
]

-- The state of strtok: the memory, and `___strtok`, 0 for NULL.
pub record Strtok : Type 0 where
  pub mem : ℕ → ℕ
  pub saved : ℕ

-- strtok from the answer of strpbrk on.
unfoldable pub cut_token : Option ℕ → Strtok → Strtok
cut_token none t = record t { saved = 0 }
cut_token (some send) t =
    if t.mem send == 0
    then record t { saved = send }
    else record { mem = write_byte send 0 t.mem; saved = suc send }

-- strtok from `sbegin` on: the token, or 0 for NULL.
unfoldable pub next_token : ℕ → ℕ → ℕ → ℕ → Strtok → Option (ℕ × Strtok)
next_token fuel bound sbegin ct t =
    if sbegin == 0 then some (0, t) else elim (strspn fuel bound sbegin ct t.mem) [
      | none ↦ none
      | some n ↦
          if t.mem (sbegin + n) == 0
          then some (0, record t { saved = 0 })
          else elim (strpbrk fuel bound (sbegin + n) ct t.mem) as (λ _. Option (ℕ × Strtok)) [
            | none ↦ none
            | some send ↦ some (sbegin + n, cut_token send t)
          ]
    ]

unfoldable pub strtok : ℕ → ℕ → ℕ → ℕ → Strtok → Option (ℕ × Strtok)
strtok fuel bound s ct t = next_token fuel bound (if s == 0 then t.saved else s) ct t
