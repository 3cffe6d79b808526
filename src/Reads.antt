-- ===== src/Reads.antt =====
-- The reads of an exact number of bytes: `readn` of lib/readn.c, `tread` and `treadn` of ipp/util.c.
-- What read(2) and select(2) do at each call is an argument. Proofs are in Reads/Totals.antt.
pub mod Totals
use apue_2e.Base.{ℕ, zero, suc, ◌+◌, ◌-◌, ◌≡◌, ◌≤◌, ◌==◌, if◌then◌else◌}

-- What read(2) returns: a count, 0 at the end of the file, or -1.
pub data Got : Type 0 where
  bytes : ℕ → Got
  failed : Got

-- The call number and the number of bytes asked for.
abbrev pub Reader : Type 0
Reader = ℕ → ℕ → Got

-- read(2) returns no more than was asked for.
abbrev pub IsBounded : Reader → Type 0
IsBounded read = (i n k : ℕ) → read i n ≡ bytes k → k ≤ n

-- What the loops return: a count, -1, or no result on too little fuel.
pub data Total : Type 0 where
  count : ℕ → Total
  error : Total
  unfinished : Total

unfoldable pub readn_loop : ℕ → Reader → ℕ → ℕ → ℕ → Total
readn_loop zero read n i nleft = unfinished
readn_loop (suc fuel) read n i nleft =
    if nleft == 0 then count (n - nleft) else elim (read i nleft) [
      | failed ↦ if nleft == n then error else count (n - nleft)
      | bytes nread ↦
          let rest = readn_loop fuel read n (i + 1) (nleft - nread) in
          if nread == 0 then count (n - nleft) else rest
    ]

-- `readn`: every round but the last takes at least one byte, so `n + 1` rounds are enough.
unfoldable pub readn : Reader → ℕ → Total
unfolding readn_loop
readn read n = readn_loop (suc n) read n 0 n

-- What select(2) returns: -1, 0 when the time ran out, or that `fd` can be read.
pub data Ready : Type 0 where
  broken timed_out ready : Ready

-- `tread`: the result and whether `errno` is set to `ETIME`.
unfoldable pub tread : Ready → Got → Got
tread broken got = failed
tread timed_out got = failed
tread ready got = got

unfoldable pub treadn_loop : ℕ → (ℕ → Ready) → Reader → ℕ → ℕ → ℕ → Total
unfolding tread
treadn_loop zero select read nbytes i nleft = unfinished
treadn_loop (suc fuel) select read nbytes i nleft =
    if nleft == 0 then count (nbytes - nleft) else elim (tread (select i) (read i nleft)) [
      | failed ↦ if nleft == nbytes then error else count (nbytes - nleft)
      | bytes nread ↦
          let rest = treadn_loop fuel select read nbytes (i + 1) (nleft - nread) in
          if nread == 0 then count (nbytes - nleft) else rest
    ]

-- `treadn`
unfoldable pub treadn : (ℕ → Ready) → Reader → ℕ → Total
unfolding treadn_loop
treadn select read nbytes = treadn_loop (suc nbytes) select read nbytes 0 nbytes
