-- ===== src/Tools/Timeout.antt =====
-- threadctl/timeout.c: how long the helper thread waits. The clock, and whether the memory and the
-- thread could be had, are arguments.
use apue_2e.Base.{
  ℕ, ◌+◌, ◌-◌, ◌*◌, ◌≤◌, ◌<◌, ◌≡◌, Bool, true, ◌&&◌, ◌||◌, ltb, leb, ◌==◌, if◌then◌else◌, arith,
}

pub record Timespec : Type 0 where
  pub sec : ℕ
  pub nsec : ℕ

abbrev pub sec_to_nsec : ℕ
sec_to_nsec = 1000000000

abbrev pub usec_to_nsec : ℕ
usec_to_nsec = 1000

-- What becomes of the call: it is made at once, or by a thread that first waits.
pub data Plan : Type 0 where
  call_now : Plan
  call_after : Timespec → Plan

-- `timeout`, at `tv_sec` and `tv_usec` of the clock.
unfoldable pub timeout : Timespec → ℕ → ℕ → Bool → Plan
timeout when tv_sec tv_usec can_make =
    let now_nsec = tv_usec * usec_to_nsec in
    if ltb tv_sec when.sec || ((when.sec == tv_sec) && ltb now_nsec when.nsec)
    then (if can_make
        then call_after (
            if leb now_nsec when.nsec
            then record { sec = when.sec - tv_sec; nsec = when.nsec - now_nsec }
            else record { sec = when.sec - tv_sec - 1; nsec = sec_to_nsec - now_nsec + when.nsec })
        else call_now)
    else call_now

-- A time on one scale.
abbrev pub nanos : ℕ → ℕ → ℕ
nanos sec nsec = sec * sec_to_nsec + nsec

-- A wait that ends at the target: from now on it lasts exactly until then, and its nanoseconds are fewer
-- than a second. The call is made at once only if the target is not ahead.
abbrev pub Lasts : Timespec → ℕ → ℕ → Plan → Type 0
Lasts when tv_sec tv_usec call_now =
    nanos when.sec when.nsec ≤ nanos tv_sec (tv_usec * usec_to_nsec)
Lasts when tv_sec tv_usec (call_after w) =
    (nanos tv_sec (tv_usec * usec_to_nsec) + nanos w.sec w.nsec ≡ nanos when.sec when.nsec)
    × (w.nsec < sec_to_nsec)

-- When memory and thread can be had, `timeout` calls the function at once only if the target time has
-- come, and else after exactly the time that is left to it, with fewer nanoseconds than a second.
pub timeout-Lasts :
    (when : Timespec) (tv_sec tv_usec : ℕ)
    → when.nsec < sec_to_nsec
    → tv_usec < 1000000
    → Lasts when tv_sec tv_usec (timeout when tv_sec tv_usec true)
unfolding timeout
timeout-Lasts when tv_sec tv_usec h k = ground arith
