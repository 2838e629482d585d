-- ===== src/Kprintf/Format/Literal.antt =====
-- What vsprintf (lib/kprintf.c) makes of the text between the conversions, and of an unsigned or
-- hexadecimal number among text.
use linda.Base.{
  ℕ, suc, ◌+◌, ◌≤◌, ◌<◌, ◌≡◌, ◌≢◌, refl, sym, ap, ◌∙◌, false, List, [], ◌∷◌, ◌++◌, some, arith,
  length, length-append, ne→==, negsuc,
}
use mathlib.Core.List.{append_assoc, append-nil}
use linda.Mach.{u32_mod}
use linda.Kprintf.{no_flags, number_text, simple_strtoul}
use linda.Kprintf.Number.{number-number_text}
use linda.Kprintf.RoundTrip.{Stops, simple_strtoul-number}
use linda.Kprintf.Convert.{Printer, emit}
use linda.Kprintf.Format.{format, conversion, vsprintf}

-- The printer before anything is printed.
abbrev pub fresh : (ℕ → ℕ) → Printer
fresh mem = record { out = []; arg = 0; mem = mem }

-- A text without a percent sign.
abbrev pub NoPercent : List ℕ → Type 0
NoPercent [] = Unit
NoPercent (c ∷ cs) = (c ≢ b'%') × NoPercent cs

format-plain :
    (fuel : ℕ) (words : ℕ → ℕ) (c : ℕ) (cs : List ℕ) (p : Printer)
    → c ≢ b'%'
    → format (suc fuel) words (c ∷ cs) p ≡ format fuel words cs (emit (c ∷ []) p)
unfolding format
format-plain fuel words c cs p h = rw (ne→== c b'%' h) refl

format-literal :
    (fuel : ℕ) (words : ℕ → ℕ) (text fmt : List ℕ) (p : Printer)
    → NoPercent text
    → format (length text + fuel) words (text ++ fmt) p ≡ format fuel words fmt (emit text p)
unfolding format
format-literal fuel words [] fmt p h =
    ap (λ (n : ℕ). format n words fmt p) (omega arith)
    ∙ ap (λ (o : List ℕ). format fuel words fmt (record p { out = o })) (sym (append-nil p.out))
format-literal fuel words (c ∷ cs) fmt p (h, t) =
    let at : suc (length cs) + fuel ≡ suc (length cs + fuel) = omega arith in
    ap (λ (n : ℕ). format n words (c ∷ (cs ++ fmt)) p) at
    ∙ format-plain (length cs + fuel) words c (cs ++ fmt) p h
    ∙ format-literal fuel words cs fmt (emit (c ∷ []) p) t
    ∙ ap (λ (o : List ℕ). format fuel words fmt (record p { out = o }))
        (append_assoc p.out (c ∷ []) cs)

-- vsprintf copies a format without a percent sign as it is, however long it is: nothing keeps it within
-- the 1024 characters of the buffers that kprintf and panic pass.
pub vsprintf-literal :
    (text : List ℕ) (words mem : ℕ → ℕ)
    → NoPercent text
    → vsprintf text words mem ≡ some (record { out = text; arg = 0; mem = mem })
unfolding vsprintf
vsprintf-literal text words mem h =
    let at : suc (length text) ≡ length text + 1 = omega arith in
    ap (λ (n : ℕ). format n words text (fresh mem)) at
    ∙ ap (λ (t : List ℕ). format (length text + 1) words t (fresh mem)) (sym (append-nil text))
    ∙ format-literal 1 words text [] (fresh mem) h
    ∙ unfold format in refl

-- The conversion character of a plain number, with its base.
pub data Plain : ℕ → ℕ → Type 0 where
  octal : Plain b'o' 8
  decimal : Plain b'u' 10
  hexadecimal : Plain b'x' 16

Plain-bounds : {c base : ℕ} → Plain c base → (2 ≤ base) × (base ≤ 16)
Plain-bounds octal = omega arith
Plain-bounds decimal = omega arith
Plain-bounds hexadecimal = omega arith

conversion-Plain :
    {c base : ℕ} (words : ℕ → ℕ) (rest : List ℕ) (p : Printer)
    → Plain c base
    → conversion words (c ∷ rest) p ≡ (
      emit
          (number_text (words p.arg) base (negsuc 0) (negsuc 0) no_flags)
          (record p { arg = p.arg + 1 }),
      rest,
    )
unfolding conversion
conversion-Plain words rest p octal = refl
conversion-Plain words rest p decimal = refl
conversion-Plain words rest p hexadecimal = refl

format-Plain :
    {c base : ℕ} (fuel : ℕ) (words : ℕ → ℕ) (rest : List ℕ) (p : Printer)
    → Plain c base
    → format (suc fuel) words (b'%' ∷ c ∷ rest) p
      ≡ format fuel words rest (
          emit
            (number_text (words p.arg) base (negsuc 0) (negsuc 0) no_flags)
            (record p { arg = p.arg + 1 }))
unfolding format
format-Plain fuel words rest p k =
    ap (λ (n : Printer × List ℕ). format fuel words n.1 n.0) (conversion-Plain words rest p k)

-- What vsprintf writes for one plain conversion among text.
vsprintf-Plain :
    {c base : ℕ} (pre post : List ℕ) (words mem : ℕ → ℕ)
    → Plain c base
    → NoPercent pre
    → NoPercent post
    → vsprintf (pre ++ b'%' ∷ c ∷ post) words mem
      ≡ some (record {
        out = pre ++ number_text (words 0) base (negsuc 0) (negsuc 0) no_flags ++ post;
        arg = 1;
        mem = mem;
      })
unfolding vsprintf
vsprintf-Plain {c} {base} pre post words mem k h g =
    let at : suc (length (pre ++ b'%' ∷ c ∷ post)) ≡ length pre + suc (length post + 2) =
      omega (arith, length-append {0} pre (b'%' ∷ c ∷ post)) in
    let printed : Printer =
      emit (number_text (words 0) base (negsuc 0) (negsuc 0) no_flags)
        (record (emit pre (fresh mem)) { arg = 1 }) in
    ap (λ (n : ℕ). format n words (pre ++ b'%' ∷ c ∷ post) (fresh mem)) at
    ∙ format-literal (suc (length post + 2)) words pre (b'%' ∷ c ∷ post) (fresh mem) h
    ∙ format-Plain (length post + 2) words post (emit pre (fresh mem)) k
    ∙ ap (λ (t : List ℕ). format (length post + 2) words t printed) (sym (append-nil post))
    ∙ format-literal 2 words post [] printed g
    ∙ unfold format in refl

-- A number below 2^32 that vsprintf prints by %u, %x or %o among text without percent signs is read back
-- by simple_strtoul in that base, up to the text that follows, if that text does not go on with a digit
-- of the base; the text in front and behind is copied as it is.
pub vsprintf-simple_strtoul :
    {c base : ℕ} (pre post : List ℕ) (words mem : ℕ → ℕ)
    → Plain c base
    → NoPercent pre
    → NoPercent post
    → words 0 < u32_mod
    → Stops base post
    → (text : List ℕ) × (vsprintf (pre ++ b'%' ∷ c ∷ post) words mem
        ≡ some (record { out = pre ++ text ++ post; arg = 1; mem = mem }))
      × (simple_strtoul (text ++ post) base ≡ (words 0, post))
vsprintf-simple_strtoul {c} {base} pre post words mem k h g l s =
    let (lo, hi) = Plain-bounds k in
    let (out, e, r) =
      simple_strtoul-number false (words 0) base (negsuc 0) post l lo hi (omega arith) s in
    let same : out ≡ number_text (words 0) base (negsuc 0) (negsuc 0) no_flags =
      cc (e, number-number_text (words 0) base (negsuc 0) (negsuc 0) no_flags lo (omega arith)) in
    (
      number_text (words 0) base (negsuc 0) (negsuc 0) no_flags,
      vsprintf-Plain pre post words mem k h g,
      ap (λ (t : List ℕ). simple_strtoul (t ++ post) base) (sym same) ∙ r,
    )
