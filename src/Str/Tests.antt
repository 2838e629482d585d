-- ===== src/Str/Tests.antt =====
-- Runs of the routines of lib/string.c on overlapping blocks and on two strings.
use linda.Base.{ℕ, ◌<◌, ◌+◌, ◌≡◌, refl, Option, some, none, arith, ◌==◌, if◌then◌else◌, negsuc}
use linda.Str.{
  memmove, strcmp, strchr, strspn, strpbrk, strlen, end_of, last_match, strrchr, search, memcmp,
  strstr, is_listed, cut_token, next_token, strtok,
}
use linda.Str.Search.{Answers, Occurrence, strstr-Occurrence}
use linda.Str.Cut.{Tokens, strtok-Tokens}
use linda.Str.Blocks.{moved, memmove-moved}
use linda.Str.Strings.{IsString}

-- The string "hi" at 8 and the string "ho" at 16.
abbrev memory : ℕ → ℕ
memory a =
    if a == 8
    then 104
    else if a == 9
    then 105
    else if a == 16
    then 104
    else if a == 17
    then 111
    else 0

memory-IsByte : (a : ℕ) → memory a < 256
memory-IsByte a = ground arith

hi-IsString : IsString 8 2 memory
hi-IsString = (omega arith, (omega arith, refl))

ho-IsString : IsString 16 2 memory
ho-IsString = (omega arith, (omega arith, refl))

strcmp_run : strcmp 9 8 16 memory ≡ some (negsuc 5)
unfolding strcmp
strcmp_run = refl

memmove-moved_example : memmove 9 8 3 memory 10 ≡ moved 9 8 3 memory 10
memmove-moved_example = memmove-moved 9 8 3 memory 10

strchr_run : (strchr 9 8 105 memory ≡ some (some 9)) × (strchr 9 8 7 memory ≡ some none)
unfolding strchr
strchr_run = (refl, refl)

-- "hi" starts with one character of "ho", and has one of them at its start.
strspn_run : (strspn 9 9 8 16 memory ≡ some 1) × (strpbrk 9 9 9 16 memory ≡ some none)
unfolding strspn strpbrk
strspn_run = (refl, refl)

strrchr_run : strrchr 9 8 104 memory ≡ some (some 8)
unfolding strrchr strlen end_of last_match
strrchr_run = refl

-- "hello" at 20 and "lo" at 30.
abbrev hello : ℕ → ℕ
hello a =
    if a == 20
    then b'h'
    else if a == 21
    then b'e'
    else if a == 22
    then b'l'
    else if a == 23
    then b'l'
    else if a == 24
    then b'o'
    else if a == 30
    then b'l'
    else if a == 31
    then b'o'
    else 0

hello-IsByte : (a : ℕ) → hello a < 256
hello-IsByte a = ground arith

strstr_run : strstr 9 20 30 hello ≡ some (some 23)
unfolding strstr strlen end_of search memcmp
strstr_run = refl

strstr-Occurrence_example : Answers (Occurrence 20 5 30 2 hello) (strstr 9 20 30 hello)
strstr-Occurrence_example =
    strstr-Occurrence 20 30 5 2 9 hello hello-IsByte (omega arith) (omega arith) (omega arith)
      (omega arith)

-- The tokens of "hello" by the set "lo": only "he".
strtok_run :
    elim (strtok 9 9 20 30 (record { mem = hello; saved = 0 })) as (λ _. Option ℕ) [
      | none ↦ none
      | some (b, t) ↦ some (b + t.saved)
    ]
    ≡ some 43
unfolding strtok next_token cut_token strspn strpbrk is_listed
strtok_run = refl

strtok-Tokens_example :
    Tokens 20 5 30 2 hello (strtok 9 9 20 30 (record { mem = hello; saved = 0 }))
strtok-Tokens_example =
    strtok-Tokens 20 20 5 30 2 9 9 (record { mem = hello; saved = 0 }) refl (omega arith)
      (omega arith) (omega arith) (omega arith) (omega arith)
