-- ===== src/Str/Cut.antt =====
-- What strtok (lib/string.c) makes of the string that it is called on, or goes on with.
use linda.Base.{
  ℕ, suc, ◌+◌, ◌-◌, ◌≤◌, ◌<◌, ◌≡◌, ◌≢◌, ◌⊎◌, refl, sym, subst, Option, none, some, arith, ◌==◌,
  if◌then◌else◌, ℕ_discrete, eq→==, ne→==, inl, inr, true, false,
}
use linda.Str.{strspn, strpbrk, Strtok, cut_token, next_token, strtok}
use linda.Str.Strings.{IsString, IsString-write}
use linda.Str.Tokens.{
  in_set, span, until, span_le, span_in, span_stop, until_le, until_in, until_stop, until_positive,
  strspn_lem, strpbrk_lem, IsString-drop, IsString-cut, IsString-nonzero, IsString-end,
}

-- The token of `k` bytes at `b` behind `skip` characters of the set: it is terminated in place, and the
-- next call goes on behind it, or finds that the string is used up.
pub record Token (s len ct n b : ℕ) (mem : ℕ → ℕ) (t : Strtok) : Type 0 where
  pub skip : ℕ
  pub k : ℕ
  pub start : b ≡ s + skip
  pub skipped : (i : ℕ) → i < skip → in_set ct n mem (mem (s + i)) ≡ true
  pub size : 0 < k
  pub fits : skip + k ≤ len
  pub bytes : (i : ℕ) → i < k → in_set ct n mem (mem (b + i)) ≡ false
  pub token : IsString b k t.mem
  pub kept : (a : ℕ) → a ≢ b + k → t.mem a ≡ mem a
  pub goes_on :
      ((skip + k ≡ len) × (t.saved ≡ 0))
      ⊎ ((skip + k < len)
          × (in_set ct n mem (mem (b + k)) ≡ true)
          × (t.saved ≡ suc (b + k))
          × IsString (suc (b + k)) (len - skip - k - 1) t.mem)

-- All that is left are characters of the set.
pub record NoToken (s len ct n : ℕ) (mem : ℕ → ℕ) (t : Strtok) : Type 0 where
  pub skipped : (i : ℕ) → i < len → in_set ct n mem (mem (s + i)) ≡ true
  pub saved : t.saved ≡ 0
  pub kept : t.mem ≡ mem

abbrev pub Tokens : ℕ → ℕ → ℕ → ℕ → (ℕ → ℕ) → Option (ℕ × Strtok) → Type 0
Tokens s len ct n mem none = ⊥
Tokens s len ct n mem (some (b, t)) =
    ((b ≡ 0) × NoToken s len ct n mem t) ⊎ ((b ≢ 0) × Token s len ct n b mem t)

module _ (s len ct n : ℕ) (t : Strtok) (h : IsString s len t.mem) (nz : s ≢ 0) where
  abbrev skip : ℕ
  skip = span ct n t.mem s len

  abbrev size : ℕ
  size = until ct n t.mem (s + skip) (len - skip)

  behind : skip + size < len → IsString (suc (s + skip + size)) (len - skip - size - 1) t.mem
  behind l =
      let a : s + (skip + size + 1) ≡ suc (s + skip + size) = omega arith in
      let b : len - (skip + size + 1) ≡ len - skip - size - 1 = omega arith in
      rw (← a, ← b) (IsString-drop s len (skip + size + 1) t.mem h (omega arith))

  -- The token reaches the end of the string.
  cut_end : skip < len → size ≡ len - skip → Token s len ct n (s + skip) t.mem (cut_token none t)
  unfolding cut_token
  cut_end l e = record {
    skip = skip;
    k = size;
    start = refl;
    skipped = λ i m. span_in ct n t.mem s len i m;
    size = omega arith;
    fits = omega arith;
    bytes = λ i m. until_in ct n t.mem (s + skip) (len - skip) i m;
    token = rw e (IsString-drop s len skip t.mem h (omega arith));
    kept = λ a d. refl;
    goes_on = inl (omega arith, refl);
  }

  -- It ends at a character of the set.
  cut_inside :
      skip < len
      → size < len - skip
      → Token s len ct n (s + skip) t.mem (cut_token (some (s + skip + size)) t)
  unfolding cut_token
  cut_inside l m =
      let dropped = IsString-drop s len skip t.mem h (omega arith) in
      let at : t.mem (s + skip + size) ≢ 0 =
        IsString-nonzero (s + skip) (len - skip) size t.mem dropped m in
      rw (ne→== (t.mem (s + skip + size)) 0 at) (record {
        skip = skip;
        k = size;
        start = refl;
        skipped = λ i m. span_in ct n t.mem s len i m;
        size =
            until_positive ct n t.mem (s + skip) (len - skip)
              (span_stop ct n t.mem s len (omega arith)) (omega arith);
        fits = omega arith;
        bytes = λ i m. until_in ct n t.mem (s + skip) (len - skip) i m;
        token = IsString-cut (s + skip) (len - skip) size t.mem dropped (omega arith);
        kept = λ a d. rw (ne→== a (s + skip + size) d) refl;
        goes_on = inr (
          omega arith,
          until_stop ct n t.mem (s + skip) (len - skip) (omega arith),
          refl,
          IsString-write (suc (s + skip + size)) (len - skip - size - 1) (s + skip + size) 0 t.mem
              (inl (omega arith)) (behind (omega arith)),
        );
      })

  module _ (fuel bound : ℕ) (set : IsString ct n t.mem) (f : len < fuel) (b : n < bound) where
    spans : strspn fuel bound s ct t.mem ≡ some skip
    spans = strspn_lem ct n t.mem bound set b s len fuel h f

    breaks :
        skip < len
        → strpbrk fuel bound (s + skip) ct t.mem
          ≡ some (if size == len - skip then none else some (s + skip + size))
    breaks l =
        strpbrk_lem ct n t.mem bound set b (s + skip) (len - skip) fuel
          (IsString-drop s len skip t.mem h (omega arith)) (omega arith)

    next_token_cut : skip < len → Tokens s len ct n t.mem (next_token fuel bound s ct t)
    unfolding next_token
    next_token_cut l =
        rw
          (
            ne→== s 0 nz,
            spans,
            ne→== (t.mem (s + skip)) 0 (IsString-nonzero s len skip t.mem h l),
            breaks l,
          )
          (elim (ℕ_discrete size (len - skip)) [
            | yes same ↦
                rw (eq→== size (len - skip) same) (inr (λ z. nz (omega arith), cut_end l same))
            | no d ↦ rw (ne→== size (len - skip) d) (
                inr (
                  λ z. nz (omega arith),
                  cut_inside l (omega (arith, until_le ct n t.mem (s + skip) (len - skip))),
                ))
          ])

    next_token_none : skip ≡ len → Tokens s len ct n t.mem (next_token fuel bound s ct t)
    unfolding next_token
    next_token_none e =
        rw (ne→== s 0 nz, spans, eq→== (t.mem (s + skip)) 0 (IsString-end s len skip t.mem h e))
          (inl (
            refl,
            record {
              skipped = λ i m. span_in ct n t.mem s len i (omega arith);
              saved = refl;
              kept = refl;
            },
          ))

-- For a call with the string of `len` bytes at `s`, given or left by the call before, and the set of the
-- `n` characters at `ct`, within enough fuel: if the string is made of characters of the set alone, strtok
-- answers NULL, changes nothing and is used up. Otherwise it answers the first run of other characters: it
-- begins behind characters of the set, is not empty, holds none of the set, and reaches the end of the
-- string or a character of the set. The answer is a string of just that run, no other byte has changed,
-- and the next call goes on with the string behind it, or finds none.
pub strtok-Tokens :
    (s s' len ct n fuel bound : ℕ) (t : Strtok)
    → (if s' == 0 then t.saved else s') ≡ s
    → s ≢ 0
    → IsString s len t.mem
    → IsString ct n t.mem
    → len < fuel
    → n < bound
    → Tokens s len ct n t.mem (strtok fuel bound s' ct t)
unfolding strtok
strtok-Tokens s s' len ct n fuel bound t e nz h set f b =
    subst (λ (x : ℕ). Tokens s len ct n t.mem (next_token fuel bound x ct t)) (sym e)
      (elim (ℕ_discrete (span ct n t.mem s len) len) [
        | yes all ↦ next_token_none s len ct n t h nz fuel bound set f b all
        | no d ↦
            next_token_cut s len ct n t h nz fuel bound set f b
              (omega (arith, span_le ct n t.mem s len))
      ])
