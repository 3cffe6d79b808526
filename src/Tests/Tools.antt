-- ===== src/Tests/Tools.antt =====
-- `readn`, `treadn`, `timeout` and `buf_args` at concrete inputs.
use apue_2e.Base.{
  ℕ, ltb, ◌≡◌, ◌<◌, ◌≤◌, ◌⊎◌, ◌==◌, if◌then◌else◌, refl, [], ◌∷◌, ◌++◌, length, none, some, true,
  arith,
}
use apue_2e.Files.{Bytes}
use apue_2e.Reads.{bytes, failed, Reader, IsBounded, count, error, readn, Ready, ready, timed_out}
use apue_2e.Reads.Totals.{Receives, readn-Receives}
use apue_2e.Tools.Timeout.{Timespec, timeout, Lasts, timeout-Lasts}
use apue_2e.Tools.BufArgs.{words, leading, buf_args, buf_args-words}

-- A pipe that holds `n` bytes and gives at most two at a time.
abbrev pairs : Reader
pairs i n =
    if n == 0 then bytes 0 else if n == 1 then bytes 1 else if i == 2 then bytes 0 else bytes 2

pairs-IsBounded : IsBounded pairs
pairs-IsBounded i n k e = ground arith

readn-Receives_example :
    (r : ℕ) × Receives pairs 0 9 r
    × (r ≤ 9)
    × ((readn pairs 9 ≡ count r) ⊎ ((readn pairs 9 ≡ error) × (pairs 0 9 ≡ failed) × (0 < 9)))
readn-Receives_example = readn-Receives pairs 9 pairs-IsBounded

abbrev slow : ℕ → Ready
slow i = if i == 1 then timed_out else ready

abbrev target : Timespec
target = record { sec = 10; nsec = 5000 }

timeout-Lasts_example : Lasts target 8 999999 (timeout target 8 999999 true)
timeout-Lasts_example = timeout-Lasts target 8 999999 (omega arith) (omega arith)

abbrev request : Bytes
request = 32 ∷ 111 ∷ 112 ∷ 9 ∷ 120 ∷ 10 ∷ []

buf_args_example : buf_args request ≡ (
    if ltb (length {A = Bytes} ((120 ∷ []) ∷ [])) 49
    then some ((leading request ++ (111 ∷ 112 ∷ [])) ∷ (120 ∷ []) ∷ [])
    else none)
buf_args_example = buf_args-words request (111 ∷ 112 ∷ []) ((120 ∷ []) ∷ []) (unfold words in refl)
