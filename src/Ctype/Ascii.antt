-- ===== src/Ctype/Ascii.antt =====
-- The table of lib/ctypes.c against the ranges of ASCII.
use linda.Base.{
  ℕ, ◌<◌, ◌≡◌, refl, Bool, true, ◌&&◌, ◌||◌, ltb, leb, ◌==◌, arith, tabulate, tabulate-at,
  if◌then◌else◌, not,
}
use linda.Ctype.{
  isalnum, isalpha, iscntrl, isdigit, isgraph, islower, isprint, ispunct, isspace, isupper, tolower,
  toupper,
}

abbrev pub between : ℕ → ℕ → ℕ → Bool
between lo hi c = leb lo c && leb c hi

-- Both are true, or neither is.
abbrev agree : Bool → Bool → Bool
agree b c = if b then c else not c

agree-eq : (b c : Bool) → agree b c ≡ true → b ≡ c
agree-eq b c h = ground arith

both : (b c : Bool) → (b && c) ≡ true → (b ≡ true) × (c ≡ true)
both b c h = (ground arith, ground arith)

simple_table : ℕ → Bool
simple_table c =
    agree (isdigit c) (between 48 57 c)
    && (agree (isupper c) (between 65 90 c)
        && (agree (islower c) (between 97 122 c)
            && (agree (isspace c) (between 9 13 c || (c == 32))
                && agree (iscntrl c) (ltb c 32 || (c == 127)))))

simple_all : tabulate simple_table 128 ≡ true
unfolding tabulate simple_table isdigit isupper islower isspace iscntrl
simple_all = refl

compound_table : ℕ → Bool
compound_table c =
    agree (isalpha c) (islower c || isupper c)
    && (agree (isalnum c) (isalpha c || isdigit c)
        && (agree (isgraph c) (isalnum c || ispunct c)
            && (agree (isprint c) (not (iscntrl c))
                && ((tolower (toupper c) == tolower c) && (toupper (tolower c) == toupper c)))))

compound_all : tabulate compound_table 128 ≡ true
unfolding tabulate compound_table isalpha islower isupper isalnum isdigit isgraph ispunct isprint
    iscntrl tolower toupper
compound_all = refl

-- What two evaluations over the table say of an ASCII character.
simple_parts :
    (c : ℕ)
    → simple_table c ≡ true
    → (isdigit c ≡ between 48 57 c)
      × (isupper c ≡ between 65 90 c)
      × (islower c ≡ between 97 122 c)
      × (isspace c ≡ (between 9 13 c || (c == 32)))
      × (iscntrl c ≡ (ltb c 32 || (c == 127)))
unfolding simple_table
simple_parts c t =
    let (a, r) = both _ _ t in
    let (b, r') = both _ _ r in
    let (d, r'') = both _ _ r' in
    let (e, f) = both _ _ r'' in
    (agree-eq _ _ a, agree-eq _ _ b, agree-eq _ _ d, agree-eq _ _ e, agree-eq _ _ f)

-- For every ASCII character the digits, the upper and the lower case letters, the white space and the
-- control characters of the table are the ranges that the standard gives them.
ctype_classes :
    (c : ℕ)
    → c < 128
    → (isdigit c ≡ between 48 57 c)
      × (isupper c ≡ between 65 90 c)
      × (islower c ≡ between 97 122 c)
      × (isspace c ≡ (between 9 13 c || (c == 32)))
      × (iscntrl c ≡ (ltb c 32 || (c == 127)))
ctype_classes c lt = simple_parts c (tabulate-at simple_table c lt simple_all)

compound_parts :
    (c : ℕ)
    → compound_table c ≡ true
    → (isalpha c ≡ (islower c || isupper c))
      × (isalnum c ≡ (isalpha c || isdigit c))
      × (isgraph c ≡ (isalnum c || ispunct c))
      × (isprint c ≡ not (iscntrl c))
      × (tolower (toupper c) ≡ tolower c)
      × (toupper (tolower c) ≡ toupper c)
unfolding compound_table
compound_parts c t =
    let (a, r) = both _ _ t in
    let (b, r') = both _ _ r in
    let (d, r'') = both _ _ r' in
    let (e, r₃) = both _ _ r'' in
    let (f, g) = both (tolower (toupper c) == tolower c) (toupper (tolower c) == toupper c) r₃ in
    (agree-eq _ _ a, agree-eq _ _ b, agree-eq _ _ d, agree-eq _ _ e, ground arith, ground arith)

-- For every ASCII character the compound classes are the unions that their names say, a character is
-- printable exactly if it is no control character, and tolower and toupper undo one another on the case
-- of letters.
toupper-tolower :
    (c : ℕ)
    → c < 128
    → (isalpha c ≡ (islower c || isupper c))
      × (isalnum c ≡ (isalpha c || isdigit c))
      × (isgraph c ≡ (isalnum c || ispunct c))
      × (isprint c ≡ not (iscntrl c))
      × (tolower (toupper c) ≡ tolower c)
      × (toupper (tolower c) ≡ toupper c)
toupper-tolower c lt = compound_parts c (tabulate-at compound_table c lt compound_all)
