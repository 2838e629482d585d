-- ===== src/Kprintf/Clean.antt =====
-- number (lib/kprintf.c) never writes a backspace.
use linda.Base.{ℕ, zero, suc, ◌≢◌, Bool, true, false, List, [], ◌∷◌, ◌++◌, arith, ℤ, if◌then◌else◌}
use linda.Drivers.Console.Write.{NoBackspace}
use linda.Kprintf.{
  Flags, digits_of, digit_char, from_top, repeat, sign_of, prefix_of, layout, number_text,
}

pub NoBackspace-append : (xs ys : List ℕ) → NoBackspace xs → NoBackspace ys → NoBackspace (xs ++ ys)
NoBackspace-append [] ys h k = k
NoBackspace-append (a ∷ xs) ys (h, hs) k = (h, NoBackspace-append xs ys hs k)

NoBackspace-repeat : (c n : ℕ) → c ≢ 8 → NoBackspace (repeat c n)
unfolding repeat
NoBackspace-repeat c zero h = tt
NoBackspace-repeat c (suc n) h = (h, NoBackspace-repeat c n h)

digit_char-NoBackspace : (large : Bool) (d : ℕ) → digit_char large d ≢ 8
unfolding digit_char
digit_char-NoBackspace large d = ground arith

NoBackspace-from_top : (large : Bool) (ds : List ℕ) → NoBackspace (from_top large ds)
unfolding from_top
NoBackspace-from_top large [] = tt
NoBackspace-from_top large (d ∷ ds) =
    NoBackspace-append (from_top large ds) (digit_char large d ∷ []) (NoBackspace-from_top large ds)
      (digit_char-NoBackspace large d, tt)

NoBackspace-sign_of : (num : ℕ) (type : Flags) → NoBackspace (sign_of num type).0
unfolding sign_of
NoBackspace-sign_of num type = ground arith

NoBackspace-prefix_of : (base : ℕ) (type : Flags) → NoBackspace (prefix_of base type)
unfolding prefix_of
NoBackspace-prefix_of base type = ground arith

NoBackspace-if :
    (b : Bool) (xs ys : List ℕ)
    → NoBackspace xs
    → NoBackspace ys
    → NoBackspace (if b then xs else ys)
NoBackspace-if true xs ys h k = h
NoBackspace-if false xs ys h k = k

-- The pieces of a layout, in order.
NoBackspace-pieces :
    (a b c d e f g : List ℕ)
    → NoBackspace a
    → NoBackspace b
    → NoBackspace c
    → NoBackspace d
    → NoBackspace e
    → NoBackspace f
    → NoBackspace g
    → NoBackspace (a ++ b ++ c ++ d ++ e ++ f ++ g)
NoBackspace-pieces a b c d e f g ha hb hc hd he hf hg =
    NoBackspace-append (a ++ b ++ c ++ d ++ e ++ f) g
      (NoBackspace-append (a ++ b ++ c ++ d ++ e) f
        (NoBackspace-append (a ++ b ++ c ++ d) e
          (NoBackspace-append (a ++ b ++ c) d
            (NoBackspace-append (a ++ b) c (NoBackspace-append a b ha hb) hc) hd)
          he)
        hf)
      hg

NoBackspace-layout :
    (type : Flags) (size : ℤ) (precision : ℕ) (sign prefix digits : List ℕ)
    → NoBackspace sign
    → NoBackspace prefix
    → NoBackspace digits
    → NoBackspace (layout type size precision sign prefix digits)
unfolding layout
NoBackspace-layout type size precision sign prefix digits s p d =
    NoBackspace-pieces _ sign prefix _ _ digits _
      (NoBackspace-if _ _ [] (NoBackspace-repeat _ _ (omega arith)) tt) s p
      (NoBackspace-if _ [] _ tt (NoBackspace-repeat _ _ (ground arith)))
      (NoBackspace-repeat _ _ (omega arith)) d (NoBackspace-repeat _ _ (omega arith))

pub NoBackspace-number_text :
    (num base : ℕ) (size precision : ℤ) (type : Flags)
    → NoBackspace (number_text num base size precision type)
unfolding number_text
NoBackspace-number_text num base size precision type =
    NoBackspace-layout type _ _ _ _ _ (NoBackspace-sign_of num type)
      (NoBackspace-prefix_of base type)
      (NoBackspace-from_top type.large (digits_of base (sign_of num type).1))
