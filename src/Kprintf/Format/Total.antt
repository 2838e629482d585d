-- ===== src/Kprintf/Format/Total.antt =====
-- vsprintf (lib/kprintf.c) reaches the end of every format: what is left of it behind a conversion is
-- never longer than what was there.
use linda.Base.{
  ℕ, ◌%◌, zero, suc, ◌+◌, ◌*◌, ◌-◌, ◌≤◌, ◌<◌, ◌≡◌, refl, Bool, true, false, List, [], ◌∷◌, Option,
  none, some, arith, ◌==◌, if◌then◌else◌, negsuc, length,
}
use linda.Kprintf.{Flags, no_flags, skip_atoi, tail}
use linda.Mach.{u32_mod}
use linda.Kprintf.Spec.{
  Spec, set_flag, take_flags, width_of, take_width, precision_of, take_precision, take_qualifier,
  read_spec,
}
use linda.Kprintf.Convert.{Printer, emit, convert}
use linda.Kprintf.Format.{conversion, format, vsprintf}

skip_atoi-shorter : (i : ℕ) (cs : List ℕ) → length (skip_atoi i cs).1 ≤ length cs
unfolding skip_atoi
skip_atoi-shorter i [] = omega arith
skip_atoi-shorter i (c ∷ cs) = ground (arith, skip_atoi-shorter ((i * 10 + c - b'0') % u32_mod) cs)

take_flags-shorter : (type : Flags) (cs : List ℕ) → length (take_flags type cs).1 ≤ length cs
unfolding take_flags
take_flags-shorter type [] = omega arith
take_flags-shorter type (c ∷ cs) =
    elim (set_flag c type)
      as (λ (o : Option Flags).
        length
          (elim o as (λ _. Flags × List ℕ) [
            | none ↦ (type, c ∷ cs)
            | some type' ↦ take_flags type' cs
          ]).1
        ≤ length (c ∷ cs)) [
          | none ↦ omega arith
          | some type' ↦ omega (arith, take_flags-shorter type' cs)
        ]

width_of-shorter :
    (words : ℕ → ℕ) (s : Spec) (cs : List ℕ) → length (width_of words s cs).fmt ≤ length cs
unfolding width_of
width_of-shorter words s [] = omega arith
width_of-shorter words s (c ∷ cs) = ground (arith, skip_atoi-shorter 0 (c ∷ cs))

take_width-shorter : (words : ℕ → ℕ) (s : Spec) → length (take_width words s).fmt ≤ length s.fmt
unfolding take_width
take_width-shorter words s = width_of-shorter words s s.fmt

precision_of-shorter :
    (words : ℕ → ℕ) (s : Spec) (cs : List ℕ) → length (precision_of words s cs).fmt ≤ length cs
unfolding precision_of
precision_of-shorter words s [] = omega arith
precision_of-shorter words s (c ∷ cs) = ground (arith, skip_atoi-shorter 0 (c ∷ cs))

take_precision-shorter :
    (words : ℕ → ℕ) (s : Spec) → length (take_precision words s).fmt ≤ length s.fmt
unfolding take_precision
take_precision-shorter words s = ground (arith, precision_of-shorter words s (tail s.fmt))

take_qualifier-shorter : (cs : List ℕ) → length (take_qualifier cs).1 ≤ length cs
unfolding take_qualifier
take_qualifier-shorter [] = omega arith
take_qualifier-shorter (c ∷ cs) = ground arith

length-tail : (cs : List ℕ) → length (tail cs) ≤ length cs
length-tail [] = omega arith
length-tail (c ∷ cs) = omega arith

read_spec-shorter :
    (words : ℕ → ℕ) (arg : ℕ) (fmt : List ℕ) → length (read_spec words arg fmt).fmt ≤ length fmt
unfolding read_spec
read_spec-shorter words arg fmt =
    let s : Spec = record {
      type = (take_flags no_flags fmt).0;
      width = negsuc 0;
      precision = negsuc 0;
      fmt = (take_flags no_flags fmt).1;
      arg = arg;
    } in
    omega (
      arith,
      take_precision-shorter words (take_width words s),
      take_width-shorter words s,
      take_flags-shorter no_flags fmt,
    )

conversion-shorter :
    (words : ℕ → ℕ) (fmt : List ℕ) (p : Printer) → length (conversion words fmt p).1 ≤ length fmt
unfolding conversion
conversion-shorter words fmt p =
    let s = read_spec words p.arg fmt in
    behind (take_qualifier s.fmt).1
      (omega (arith, take_qualifier-shorter s.fmt, read_spec-shorter words p.arg fmt))
  where
    behind :
        (cs : List ℕ)
        → length cs ≤ length fmt
        → length
            (elim cs as (λ _. Printer × List ℕ) [
              | [] ↦ (emit (b'%' ∷ []) (record p { arg = (read_spec words p.arg fmt).arg }), [])
              | c ∷ rest ↦ (
                convert words
                    (read_spec words p.arg fmt)
                    (take_qualifier (read_spec words p.arg fmt).fmt).0
                    c
                    p,
                rest,
              )
            ]).1
          ≤ length fmt
    behind [] h = omega arith
    behind (c ∷ cs) h = omega (arith, h)

format_total :
    (fuel : ℕ) (words : ℕ → ℕ) (fmt : List ℕ) (p : Printer)
    → length fmt < fuel
    → (p' : Printer) × (format fuel words fmt p ≡ some p')
unfolding format
format_total zero words fmt p h = elim h [ ]
format_total (suc fuel) words [] p h = (p, refl)
format_total (suc fuel) words (c ∷ cs) p h =
    elim (c == b'%')
      as (λ (b : Bool).
        (p' : Printer) × (format fuel words
            (if b then conversion words cs p else (emit (c ∷ []) p, cs)).1
            (if b then conversion words cs p else (emit (c ∷ []) p, cs)).0
          ≡ some p')) [
            | true ↦
                format_total fuel words (conversion words cs p).1 (conversion words cs p).0
                  (omega (arith, h, conversion-shorter words cs p))
            | false ↦ format_total fuel words cs (emit (c ∷ []) p) (omega (arith, h))
          ]

-- vsprintf returns for every format, whatever the arguments and the memory: its loop reaches the end of
-- the format.
pub vsprintf_total :
    (fmt : List ℕ) (words mem : ℕ → ℕ) → (p : Printer) × (vsprintf fmt words mem ≡ some p)
unfolding vsprintf
vsprintf_total fmt words mem =
    format_total (suc (length fmt)) words fmt (record { out = []; arg = 0; mem = mem })
      (omega arith)
