-- ===== src/Str/Search.antt =====
-- The searches for a character and for a string (lib/string.c: strchr, strrchr, strstr).
use linda.Base.{
  ℕ, zero, suc, ◌+◌, ◌%◌, ◌≤◌, ◌<◌, ◌≡◌, ◌≢◌, ap, subst, ◌∙◌, Option, none, some, arith, eq_ℤ, ℤ,
  pos, negsuc, ℕ_discrete, dec_le, eq→==, ne→==, le→leb, lt→not_leb, Bool-cases, inl, inr, true,
  false,
}
use linda.Str.{memcmp, strchr, last_match, strrchr, search, strstr}
use linda.Str.Blocks.{Same, memcmp_zero}
use linda.Str.Strings.{IsString, strlen-strnlen}

-- `p` is the first place from `s` up to `s + len` with `c`.
abbrev pub First : ℕ → ℕ → ℕ → (ℕ → ℕ) → Option ℕ → Type 0
First s len c mem none = (a : ℕ) → s ≤ a → a ≤ s + len → mem a ≢ c
First s len c mem (some p) =
    (mem p ≡ c) × (s ≤ p) × (p ≤ s + len) × ((a : ℕ) → s ≤ a → a < p → mem a ≢ c)

-- `p` is the last such place.
abbrev pub Last : ℕ → ℕ → ℕ → (ℕ → ℕ) → Option ℕ → Type 0
Last s len c mem none = (a : ℕ) → s ≤ a → a ≤ s + len → mem a ≢ c
Last s len c mem (some p) =
    (mem p ≡ c) × (s ≤ p) × (p ≤ s + len) × ((a : ℕ) → p < a → a ≤ s + len → mem a ≢ c)

at_eq : {a b c : ℕ} (mem : ℕ → ℕ) → a ≡ b → mem a ≢ c → mem b ≢ c
at_eq mem e n z = n (ap mem e ∙ z)

Last-suc :
    (s n c : ℕ) (mem : ℕ → ℕ) (r : Option ℕ)
    → mem (s + suc n) ≢ c
    → Last s n c mem r
    → Last s (suc n) c mem r
Last-suc s n c mem none d l = λ a lo hi. elim (ℕ_discrete (s + suc n) a) [
  | yes e ↦ at_eq mem e d
  | no ne ↦ l a lo (omega arith)
]
Last-suc s n c mem (some p) d (e, lo, hi, l) = (
  e,
  lo,
  omega arith,
  λ a k m. elim (ℕ_discrete (s + suc n) a) [ yes e ↦ at_eq mem e d | no ne ↦ l a k (omega arith) ],
)

last_match-Last : (s c n : ℕ) (mem : ℕ → ℕ) → Last s n c mem (last_match s c n mem)
unfolding last_match
last_match-Last s c zero mem = elim (ℕ_discrete (mem s) c) [
  | yes e ↦ rw (eq→== (mem s) c e) (e, omega arith, omega arith, λ a k m. absurd (omega arith))
  | no d ↦ rw (ne→== (mem s) c d) (λ a lo hi. at_eq mem (omega arith) d)
]
last_match-Last s c (suc n) mem = elim (ℕ_discrete (mem (s + suc n)) c) [
  | yes e ↦
      rw (eq→== (mem (s + suc n)) c e) (e, omega arith, omega arith, λ a k m. absurd (omega arith))
  | no d ↦
      rw (ne→== (mem (s + suc n)) c d)
        (Last-suc s n c mem (last_match s c n mem) d (last_match-Last s c n mem))
]

First-suc :
    (s n c : ℕ) (mem : ℕ → ℕ) (r : Option ℕ)
    → mem s ≢ c
    → First (suc s) n c mem r
    → First s (suc n) c mem r
First-suc s n c mem none d f = λ a lo hi. elim (ℕ_discrete s a) [
  | yes e ↦ at_eq mem e d
  | no ne ↦ f a (omega arith) (omega arith)
]
First-suc s n c mem (some p) d (e, lo, hi, f) = (
  e,
  omega arith,
  omega arith,
  λ a k m. elim (ℕ_discrete s a) [ yes e ↦ at_eq mem e d | no ne ↦ f a (omega arith) m ],
)

-- What strchr may answer.
abbrev pub Answers : (Option ℕ → Type 0) → Option (Option ℕ) → Type 0
Answers P none = ⊥
Answers P (some r) = P r

First-here : (s len c : ℕ) (mem : ℕ → ℕ) → mem s ≡ c → First s len c mem (some s)
First-here s len c mem e = (e, omega arith, omega arith, λ a k m. absurd (omega arith))

strchr_step :
    (s len c : ℕ) (mem : ℕ → ℕ) (r : Option (Option ℕ))
    → mem s ≢ c
    → Answers (First (suc s) len c mem) r
    → Answers (First s (suc len) c mem) r
strchr_step s len c mem none d f = f
strchr_step s len c mem (some r) d f = First-suc s len c mem r d f

strchr-First :
    (s len c fuel : ℕ) (mem : ℕ → ℕ)
    → IsString s len mem
    → len < fuel
    → Answers (First s len (c % 256) mem) (strchr fuel s c mem)
unfolding strchr
strchr-First s len c zero mem h l = absurd (omega arith)
strchr-First s zero c (suc fuel) mem h l = elim (ℕ_discrete (mem s) (c % 256)) [
  | yes e ↦ rw (eq→== (mem s) (c % 256) e) (First-here s 0 (c % 256) mem e)
  | no d ↦
      rw (ne→== (mem s) (c % 256) d, eq→== (mem s) 0 h)
        (λ a lo hi. at_eq {a = s} {b = a} mem (omega arith) d)
]
strchr-First s (suc len) c (suc fuel) mem (h, t) l = elim (ℕ_discrete (mem s) (c % 256)) [
  | yes e ↦ rw (eq→== (mem s) (c % 256) e) (First-here s (suc len) (c % 256) mem e)
  | no d ↦
      rw (ne→== (mem s) (c % 256) d, ne→== (mem s) 0 h)
        (strchr_step s len (c % 256) mem (strchr fuel (suc s) c mem) d
          (strchr-First (suc s) len c fuel mem t (omega arith)))
]

-- In the string of `len` bytes at an address, its terminator included, strchr finds the first place of
-- a character and strrchr the last one, each NULL exactly if there is none, within any fuel above `len`.
strchr-strrchr :
    (s len c fuel : ℕ) (mem : ℕ → ℕ)
    → IsString s len mem
    → len < fuel
    → Answers (First s len (c % 256) mem) (strchr fuel s c mem)
      × Answers (Last s len (c % 256) mem) (strrchr fuel s c mem)
unfolding strrchr
strchr-strrchr s len c fuel mem h l = (
  strchr-First s len c fuel mem h l,
  rw (strrchr, (strlen-strnlen s len fuel 0 mem h l).0) (last_match-Last s (c % 256) len mem),
)

-- What a search for the string of `l2` bytes at `s2` among the `l1` bytes from `s1` on may answer: the
-- first place where it stands, or NULL if it stands nowhere.
abbrev pub Occurrence : ℕ → ℕ → ℕ → ℕ → (ℕ → ℕ) → Option ℕ → Type 0
Occurrence s1 l1 s2 l2 mem none = (a : ℕ) → s1 ≤ a → a + l2 ≤ s1 + l1 → ¬ Same a s2 l2 mem
Occurrence s1 l1 s2 l2 mem (some p) =
    Same p s2 l2 mem
    × (s1 ≤ p)
    × (p + l2 ≤ s1 + l1)
    × ((a : ℕ) → s1 ≤ a → a < p → ¬ Same a s2 l2 mem)

not_Same : {a b : ℕ} (s2 l2 : ℕ) (mem : ℕ → ℕ) → a ≡ b → ¬ Same a s2 l2 mem → ¬ Same b s2 l2 mem
not_Same s2 l2 mem e n = subst (λ (x : ℕ). ¬ Same x s2 l2 mem) e n

Occurrence-suc :
    (s1 l1 s2 l2 : ℕ) (mem : ℕ → ℕ) (r : Option ℕ)
    → ¬ Same s1 s2 l2 mem
    → Occurrence (suc s1) l1 s2 l2 mem r
    → Occurrence s1 (suc l1) s2 l2 mem r
Occurrence-suc s1 l1 s2 l2 mem none d o = λ a lo hi. elim (ℕ_discrete s1 a) [
  | yes e ↦ not_Same s2 l2 mem e d
  | no ne ↦ o a (omega arith) (omega arith)
]
Occurrence-suc s1 l1 s2 l2 mem (some p) d (is, lo, hi, o) = (
  is,
  omega arith,
  omega arith,
  λ a k m. elim (ℕ_discrete s1 a) [ yes e ↦ not_Same s2 l2 mem e d | no ne ↦ o a (omega arith) m ],
)

is_zero : (z : ℤ) → eq_ℤ z (pos 0) ≡ true → z ≡ pos 0
is_zero (pos n) e = ap pos (ground arith)
is_zero (negsuc n) e = absurd (ground arith)

not_zero : (z : ℤ) → eq_ℤ z (pos 0) ≡ false → z ≢ pos 0
not_zero z e q = let y = ap (λ (x : ℤ). eq_ℤ x (pos 0)) q in cc (e, y)

module _ (mem : ℕ → ℕ) (bytes : (a : ℕ) → mem a < 256) where
  search-Occurrence :
      (l1 l2 s1 s2 : ℕ) → 0 < l2 → Occurrence s1 l1 s2 l2 mem (search l1 l2 s1 s2 mem)
  unfolding search
  search-Occurrence zero l2 s1 s2 h = λ a lo hi. absurd (omega arith)
  search-Occurrence (suc l1) l2 s1 s2 h = elim (dec_le l2 (suc l1)) [
    | no n ↦ rw (lt→not_leb (suc l1) l2 (omega arith)) (λ a lo hi. absurd (omega arith))
    | yes k ↦ elim (Bool-cases (eq_ℤ (memcmp s1 s2 l2 mem) (pos 0))) [
      | inl r ↦
          rw (le→leb l2 (suc l1) k, r)
            (
              (memcmp_zero s1 s2 l2 mem bytes).0 (is_zero (memcmp s1 s2 l2 mem) r),
              omega arith,
              omega arith,
              λ a lo hi. absurd (omega arith),
            )
      | inr r ↦
          rw (le→leb l2 (suc l1) k, r)
            (Occurrence-suc s1 l1 s2 l2 mem (search l1 l2 (suc s1) s2 mem)
              (λ y. not_zero (memcmp s1 s2 l2 mem) r ((memcmp_zero s1 s2 l2 mem bytes).1 y))
              (search-Occurrence l1 l2 (suc s1) s2 h))
    ]
  ]

-- On a memory of bytes, for two strings within the fuel, strstr finds the first place in the string at
-- `s1` where the bytes of the string at `s2` stand, and answers NULL exactly if they stand nowhere in it.
pub strstr-Occurrence :
    (s1 s2 len len' fuel : ℕ) (mem : ℕ → ℕ)
    → ((a : ℕ) → mem a < 256)
    → IsString s1 len mem
    → IsString s2 len' mem
    → len < fuel
    → len' < fuel
    → Answers (Occurrence s1 len s2 len' mem) (strstr fuel s1 s2 mem)
unfolding strstr
strstr-Occurrence s1 s2 len zero fuel mem b h k l m =
    rw (strstr, (strlen-strnlen s2 0 fuel 0 mem k m).0)
      (tt, omega arith, omega arith, λ a lo hi. absurd (omega arith))
strstr-Occurrence s1 s2 len (suc n) fuel mem b h k l m =
    rw
      (
        strstr,
        (strlen-strnlen s2 (suc n) fuel 0 mem k m).0,
        ne→== (suc n) 0 (omega arith),
        (strlen-strnlen s1 len fuel 0 mem h l).0,
      )
      (search-Occurrence mem b len (suc n) s1 s2 (omega arith))
