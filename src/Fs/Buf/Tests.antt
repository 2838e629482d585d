-- ===== src/Fs/Buf/Tests.antt =====
-- A queue of two requests, and the theorems on it.
use linda.Base.{ℕ, ◌≡◌, refl, [], ◌∷◌, arith, ok, ◌==◌, if◌then◌else◌}
use linda.Fs.Buf.{Buf, BufQueue, put, buf_remove, buf_get}
use linda.Fs.Buf.Queue.{Holds, put-Holds}
use linda.Fs.Buf.Remove.{buf_remove-again}

abbrev linked : ℕ → ℕ → Buf
linked prev next = record { flags = 1; dev = 0; blockno = 7; prev = prev; next = next }

-- Requests at 100 and 200.
abbrev two : BufQueue
two = record {
  queue = 100;
  count = 2;
  buf = λ p. if p == 100 then linked 0 200 else if p == 200 then linked 100 0 else linked 0 0;
}

two-Holds : Holds two (100 ∷ 200 ∷ [])
two-Holds = record {
  head = refl;
  linked = (omega arith, refl, refl, (omega arith, refl, refl, tt));
  distinct = ((omega arith, tt), (tt, tt));
  count = refl;
}

put-Holds_example : (s' : BufQueue) × (put 2 300 two ≡ ok s') × Holds s' (100 ∷ 200 ∷ 300 ∷ [])
put-Holds_example =
    put-Holds (100 ∷ 200 ∷ []) 300 2 two two-Holds (omega arith, (omega arith, tt)) (omega arith)
      refl refl (omega arith)

buf_remove-again_example :
    (s' : BufQueue) × (buf_remove 1 (buf_get two) two ≡ ok s')
    × (buf_get s' ≡ 200)
    × ((s'' : BufQueue) × (buf_remove 1 (buf_get s') s' ≡ ok s'') × (buf_get s'' ≡ 200))
buf_remove-again_example = buf_remove-again 100 200 [] 0 two two-Holds
