-- ===== src/Str/Tokens.antt =====
-- The routines on sets of characters (lib/string.c: strspn, strpbrk, strtok) on a string of `len` bytes,
-- with the characters given as the string of `n` bytes at `ct`.
use linda.Base.{
  ℕ, zero, suc, ◌+◌, ◌-◌, ◌≤◌, ◌<◌, ◌≡◌, ◌≢◌, refl, ap, ◌∙◌, Bool, none, some, arith, ◌==◌,
  if◌then◌else◌, eq→==, ne→==, Bool-cases, inl, inr, true, false,
}
use linda.Str.{write_byte, is_listed, strspn, strpbrk}
use linda.Str.Strings.{IsString}

-- Whether a character is one of the `n` at `a`.
abbrev pub listed : ℕ → ℕ → ℕ → (ℕ → ℕ) → Bool
listed ch a zero mem = false
listed ch a (suc n) mem = if ch == mem a then true else listed ch (suc a) n mem

is_listed-listed :
    (ch a n bound : ℕ) (mem : ℕ → ℕ)
    → IsString a n mem
    → n < bound
    → is_listed bound ch a mem ≡ some (listed ch a n mem)
unfolding is_listed
is_listed-listed ch a n zero mem h l = absurd (omega arith)
is_listed-listed ch a zero (suc bound) mem h l = rw (eq→== (mem a) 0 h) refl
is_listed-listed ch a (suc n) (suc bound) mem (h, t) l =
    rw (ne→== (mem a) 0 h, is_listed-listed ch (suc a) n bound mem t (omega arith)) (ground arith)

module _ (ct n : ℕ) (mem : ℕ → ℕ) where
  abbrev pub in_set : ℕ → Bool
  in_set ch = listed ch ct n mem

  -- How many of the `len` bytes from `s` on are in the set before the first that is not.
  unfoldable pub span : ℕ → ℕ → ℕ
  span s zero = 0
  span s (suc len) = let rest = span (suc s) len in if in_set (mem s) then suc rest else 0

  -- How many are not in the set before the first that is.
  unfoldable pub until : ℕ → ℕ → ℕ
  until s zero = 0
  until s (suc len) = let rest = until (suc s) len in if in_set (mem s) then 0 else suc rest

  -- What the two counts tell.
  pub span_le : (s len : ℕ) → span s len ≤ len
  unfolding span
  span_le s zero = omega arith
  span_le s (suc len) = ground (arith, span_le (suc s) len)

  pub span_in : (s len i : ℕ) → i < span s len → in_set (mem (s + i)) ≡ true
  unfolding span
  span_in s zero i h = absurd (omega arith)
  span_in s (suc len) zero h = elim (Bool-cases (in_set (mem s))) [
    | inl r ↦ ap (λ (a : ℕ). in_set (mem a)) (omega arith) ∙ r
    | inr r ↦ absurd (omega (arith, rw r at h))
  ]
  span_in s (suc len) (suc i) h = elim (Bool-cases (in_set (mem s))) [
    | inl r ↦
        ap (λ (a : ℕ). in_set (mem a)) (omega arith)
        ∙ span_in (suc s) len i (omega (arith, rw r at h))
    | inr r ↦ absurd (omega (arith, rw r at h))
  ]

  pub span_stop : (s len : ℕ) → span s len ≢ len → in_set (mem (s + span s len)) ≡ false
  unfolding span
  span_stop s zero h = absurd (h refl)
  span_stop s (suc len) h = elim (Bool-cases (in_set (mem s))) [
    | inl r ↦ rw r (
        ap (λ (a : ℕ). in_set (mem a)) (omega arith)
        ∙ span_stop (suc s) len (λ e. (rw r at h) (ap suc e)))
    | inr r ↦ rw r (ap (λ (a : ℕ). in_set (mem a)) (omega arith) ∙ r)
  ]

  pub until_le : (s len : ℕ) → until s len ≤ len
  unfolding until
  until_le s zero = omega arith
  until_le s (suc len) = ground (arith, until_le (suc s) len)

  pub until_in : (s len i : ℕ) → i < until s len → in_set (mem (s + i)) ≡ false
  unfolding until
  until_in s zero i h = absurd (omega arith)
  until_in s (suc len) zero h = elim (Bool-cases (in_set (mem s))) [
    | inl r ↦ absurd (omega (arith, rw r at h))
    | inr r ↦ ap (λ (a : ℕ). in_set (mem a)) (omega arith) ∙ r
  ]
  until_in s (suc len) (suc i) h = elim (Bool-cases (in_set (mem s))) [
    | inl r ↦ absurd (omega (arith, rw r at h))
    | inr r ↦
        ap (λ (a : ℕ). in_set (mem a)) (omega arith)
        ∙ until_in (suc s) len i (omega (arith, rw r at h))
  ]

  pub until_stop : (s len : ℕ) → until s len ≢ len → in_set (mem (s + until s len)) ≡ true
  unfolding until
  until_stop s zero h = absurd (h refl)
  until_stop s (suc len) h = elim (Bool-cases (in_set (mem s))) [
    | inl r ↦ rw r (ap (λ (a : ℕ). in_set (mem a)) (omega arith) ∙ r)
    | inr r ↦ rw r (
        ap (λ (a : ℕ). in_set (mem a)) (omega arith)
        ∙ until_stop (suc s) len (λ e. (rw r at h) (ap suc e)))
  ]

  -- A token is not empty.
  pub until_positive : (s len : ℕ) → in_set (mem s) ≡ false → 0 < len → 0 < until s len
  unfolding until
  until_positive s zero r h = h
  until_positive s (suc len) r h = rw r (omega arith)

  module _ (bound : ℕ) (set : IsString ct n mem) (b : n < bound) where
    pub strspn_lem :
        (s len fuel : ℕ)
        → IsString s len mem
        → len < fuel
        → strspn fuel bound s ct mem ≡ some (span s len)
    unfolding strspn span
    strspn_lem s len zero h l = absurd (omega arith)
    strspn_lem s zero (suc fuel) h l = rw (eq→== (mem s) 0 h) refl
    strspn_lem s (suc len) (suc fuel) (h, t) l =
        rw
          (
            ne→== (mem s) 0 h,
            is_listed-listed (mem s) ct n bound mem set b,
            strspn_lem (suc s) len fuel t (omega arith),
          )
          (ground arith)

    pub strpbrk_lem :
        (s len fuel : ℕ)
        → IsString s len mem
        → len < fuel
        → strpbrk fuel bound s ct mem
          ≡ some (if until s len == len then none else some (s + until s len))
    unfolding strpbrk until
    strpbrk_lem s len zero h l = absurd (omega arith)
    strpbrk_lem s zero (suc fuel) h l = rw (eq→== (mem s) 0 h) refl
    strpbrk_lem s (suc len) (suc fuel) (h, t) l =
        rw
          (
            ne→== (mem s) 0 h,
            is_listed-listed (mem s) ct n bound mem set b,
            strpbrk_lem (suc s) len fuel t (omega arith),
          )
          (ground arith)

pub IsString-drop :
    (s len k : ℕ) (mem : ℕ → ℕ) → IsString s len mem → k ≤ len → IsString (s + k) (len - k) mem
IsString-drop s len zero mem h l =
    let a : s + 0 ≡ s = omega arith in let b : len - 0 ≡ len = omega arith in rw (a, b) h
IsString-drop s zero (suc k) mem h l = absurd (omega arith)
IsString-drop s (suc len) (suc k) mem (_, t) l =
    let a : s + suc k ≡ suc s + k = omega arith in
    let b : suc len - suc k ≡ len - k = omega arith in
    rw (a, b) (IsString-drop (suc s) len k mem t (omega arith))

pub IsString-cut :
    (s len k : ℕ) (mem : ℕ → ℕ)
    → IsString s len mem
    → k ≤ len
    → IsString s k (write_byte (s + k) 0 mem)
IsString-cut s len zero mem h l = ground arith
IsString-cut s zero (suc k) mem h l = absurd (omega arith)
IsString-cut s (suc len) (suc k) mem (nz, t) l =
    let a : s + suc k ≡ suc s + k = omega arith in
    rw a (ground arith, IsString-cut (suc s) len k mem t (omega arith))

pub IsString-nonzero : (s len k : ℕ) (mem : ℕ → ℕ) → IsString s len mem → k < len → mem (s + k) ≢ 0
IsString-nonzero s zero k mem h l = absurd (omega arith)
IsString-nonzero s (suc len) zero mem (nz, t) l = let a : s + 0 ≡ s = omega arith in rw a nz
IsString-nonzero s (suc len) (suc k) mem (_, t) l =
    let a : s + suc k ≡ suc s + k = omega arith in
    rw a (IsString-nonzero (suc s) len k mem t (omega arith))

pub IsString-end : (s len k : ℕ) (mem : ℕ → ℕ) → IsString s len mem → k ≡ len → mem (s + k) ≡ 0
IsString-end s len k mem h e =
    let l : len - k ≡ 0 = omega arith in
    let t : IsString (s + k) (len - k) mem = IsString-drop s len k mem h (omega arith) in rw l at t
