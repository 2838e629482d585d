-- ===== src/Kprintf/Boot/Texts.antt =====
-- What vsprintf makes of the messages of init/bootstrap.c.
use linda.Base.{
  length-append, length, ◌+◌, ◌<◌, ℕ, ◌≡◌, refl, true, List, [], ◌∷◌, ◌++◌, some, negsuc, arith,
}
use linda.Drivers.Console.Write.{NoBackspace}
use linda.Kprintf.{no_flags, number_text}
use linda.Kprintf.Convert.{integer_arg, integer_format, convert}
use linda.Kprintf.Spec.{read_spec, take_qualifier}
use linda.Kprintf.Number.{number_text_short}
use linda.Kprintf.Format.{buf_size, vsprintf, conversion, format}
use linda.Kprintf.Clean.{NoBackspace-append, NoBackspace-number_text}
use linda.Kprintf.Boot.{invalid_multiboot, hello, have_fun, kernel_info}

-- `text` behind what is in the buffer, one character at a time.
abbrev behind : List ℕ → List ℕ → List ℕ
behind out [] = out
behind out (c ∷ text) = behind (out ++ c ∷ []) text

length-behind : (out text : List ℕ) → length (behind out text) ≡ length out + length text
length-behind out [] = omega arith
length-behind out (c ∷ text) =
    omega (arith, length-behind (out ++ c ∷ []) text, length-append {0} out (c ∷ []))

NoBackspace-behind :
    (out text : List ℕ) → NoBackspace out → NoBackspace text → NoBackspace (behind out text)
NoBackspace-behind out [] h k = h
NoBackspace-behind out (c ∷ text) h (k, ks) =
    NoBackspace-behind (out ++ c ∷ []) text (NoBackspace-append out (c ∷ []) h (k, tt)) ks

abbrev pub magic_text : List ℕ
magic_text =
    b'I' ∷ b't' ∷ b'`' ∷ b's' ∷ b' ' ∷ b'n' ∷ b'o' ∷ b't' ∷ b' ' ∷ b'a' ∷ b' ' ∷ b'v' ∷ b'a' ∷ b'l'
    ∷ b'i' ∷ b'd' ∷ b' ' ∷ b'm' ∷ b'u' ∷ b'l' ∷ b't' ∷ b'i' ∷ b'b' ∷ b'o' ∷ b'o' ∷ b't' ∷ b'!'
    ∷ b' ' ∷ b'M' ∷ b'a' ∷ b'g' ∷ b'i' ∷ b'c' ∷ b' ' ∷ b'N' ∷ b'u' ∷ b'm' ∷ b'b' ∷ b'e' ∷ b'r'
    ∷ b'=' ∷ b' ' ∷ []

abbrev start_text : List ℕ
start_text =
    b'k' ∷ b'e' ∷ b'r' ∷ b'n' ∷ b'e' ∷ b'l' ∷ b'_' ∷ b's' ∷ b't' ∷ b'a' ∷ b'r' ∷ b't' ∷ b'_' ∷ b'a'
    ∷ b'd' ∷ b'd' ∷ b'r' ∷ b':' ∷ b'0' ∷ b'x' ∷ []

abbrev end_text : List ℕ
end_text =
    b',' ∷ b' ' ∷ b'k' ∷ b'e' ∷ b'r' ∷ b'n' ∷ b'e' ∷ b'l' ∷ b'_' ∷ b'e' ∷ b'n' ∷ b'd' ∷ b'_' ∷ b'a'
    ∷ b'd' ∷ b'd' ∷ b'r' ∷ b':' ∷ b'0' ∷ b'x' ∷ []

pub invalid_multiboot_lem :
    (words mem : ℕ → ℕ)
    → vsprintf invalid_multiboot words mem
      ≡ some (record {
        out =
            magic_text
            ++ number_text (words 0) 16 (negsuc 0) (negsuc 0) (record no_flags { special = true })
            ++ 10 ∷ [];
        arg = 1;
        mem = mem;
      })
unfolding vsprintf format conversion read_spec take_qualifier convert integer_arg integer_format
invalid_multiboot_lem words mem = refl

abbrev address_text : ℕ → List ℕ
address_text w = number_text w 16 (negsuc 0) (negsuc 0) (record no_flags { large = true })

pub kernel_info_lem :
    (words mem : ℕ → ℕ)
    → vsprintf kernel_info words mem
      ≡ some (record {
        out =
            behind
              (behind (start_text ++ address_text (words 0)) end_text ++ address_text (words 1))
              (10 ∷ []);
        arg = 2;
        mem = mem;
      })
unfolding vsprintf format conversion read_spec take_qualifier convert integer_arg integer_format
kernel_info_lem words mem = refl

pub hello_lem :
    (words mem : ℕ → ℕ)
    → (vsprintf hello words mem ≡ some (record { out = hello; arg = 0; mem = mem }))
      × (vsprintf have_fun words mem ≡ some (record { out = have_fun; arg = 0; mem = mem }))
unfolding vsprintf format
hello_lem words mem = (refl, refl)

pub literals :
    NoBackspace hello
    × NoBackspace have_fun
    × NoBackspace magic_text
    × NoBackspace start_text
    × NoBackspace end_text
literals = (ground arith, ground arith, ground arith, ground arith, ground arith)

address_text-NoBackspace : (w : ℕ) → NoBackspace (address_text w)
address_text-NoBackspace w = NoBackspace-number_text w 16 _ _ _

pub NoBackspace-addresses :
    (a b : ℕ)
    → NoBackspace
        (behind (behind (start_text ++ address_text a) end_text ++ address_text b) (10 ∷ []))
NoBackspace-addresses a b =
    let start =
      NoBackspace-append start_text (address_text a) literals.3 (address_text-NoBackspace a) in
    let between = behind (start_text ++ address_text a) end_text in
    let both =
      NoBackspace-append between (address_text b)
        (NoBackspace-behind (start_text ++ address_text a) end_text start literals.4)
        (address_text-NoBackspace b) in
    NoBackspace-behind (between ++ address_text b) (10 ∷ []) both (omega arith, tt)

-- The messages fit into the buffer of kprintf.
pub invalid_multiboot_fits :
    (w : ℕ)
    → length (
        magic_text
        ++ number_text w 16 (negsuc 0) (negsuc 0) (record no_flags { special = true })
        ++ 10 ∷ [])
      < buf_size
invalid_multiboot_fits w =
    let number = number_text w 16 (negsuc 0) (negsuc 0) (record no_flags { special = true }) in
    omega (
      arith,
      length-append {0} (magic_text ++ number) (10 ∷ []),
      length-append {0} magic_text number,
      number_text_short w 16 (record no_flags { special = true }),
    )

pub addresses_fit :
    (a b : ℕ)
    → length (behind (behind (start_text ++ address_text a) end_text ++ address_text b) (10 ∷ []))
      < buf_size
addresses_fit a b =
    let between = behind (start_text ++ address_text a) end_text in
    omega (
      arith,
      length-behind (between ++ address_text b) (10 ∷ []),
      length-append {0} between (address_text b),
      length-behind (start_text ++ address_text a) end_text,
      length-append {0} start_text (address_text a),
      number_text_short a 16 (record no_flags { large = true }),
      number_text_short b 16 (record no_flags { large = true }),
    )
