-- ===== src/Tests/Getenv.antt =====
-- The lookups of threadctl in a small environment.
use apue_2e.Base.{
  ◌==◌, if◌then◌else◌, ◌≡◌, ◌≢◌, refl, true, none, some, List, [], ◌∷◌, All, inl, arith,
}
use apue_2e.CText.{codes}
use apue_2e.Base.{ℕ, str_eq}
use apue_2e.Files.{Bytes}
use apue_2e.CText.{cut_at}
use apue_2e.Threads.Getenv.{getenv_r, thread_getenv, pointer, Buffers}
use apue_2e.Threads.Getenv.Lookup.{value_of, Gave, getenv_r-Gave, thread_getenv-own}

-- `A=`, `HOME=/` and `HOME=`
abbrev environ : List Bytes
environ = codes "A=" ∷ codes "HOME=/" ∷ codes "HOME=" ∷ []

abbrev home : Bytes
home = codes "HOME"

plain : All (λ c. c ≢ b'=') home
plain = (omega arith, (omega arith, (omega arith, (omega arith, tt))))

getenv_r-Gave_example :
    Gave (codes "old") 2 (value_of home environ) (getenv_r environ home (codes "old") 2)
getenv_r-Gave_example = getenv_r-Gave home environ (codes "old") 2 plain

-- Thread 3 has a buffer, no other thread has one.
abbrev buffers : Buffers
buffers u = if u == 3 then some [] else none

thread_getenv-own_example :
    ((thread_getenv 100 environ home 5 true [] buffers).0 ≡ pointer)
    × ((thread_getenv 100 environ home 5 true [] buffers).1 5 ≡ some (b'/' ∷ []))
    × ((u : ℕ) → u ≢ 5 → (thread_getenv 100 environ home 5 true [] buffers).1 u ≡ buffers u)
thread_getenv-own_example =
    thread_getenv-own 100 environ home 5 true [] buffers (b'/' ∷ []) plain
      (unfold value_of cut_at str_eq in refl) (omega arith) (inl refl)
