-- ===== src/Tests/Popen.antt =====
-- Streams of `popen` beside an earlier one on descriptor 3.
use apue_2e.Base.{ℕ, ◌==◌, ◌≡◌, refl, true, if◌then◌else◌, some, List, [], ◌∷◌, pos, arith}
use apue_2e.Tools.Popen.{
  Table, Fds, reads, writes, in_parent, in_child, shell, popen, Waited, status, kind_of,
}
use apue_2e.Tools.Popen.Children.{
  interruptions, Reaped, child_at, without_children, piped_on, pclose-popen, popen-shell,
}

abbrev earlier : Table
earlier = some (λ fd. if fd == 3 then 90 else 0)

-- Each descriptor with itself behind it.
abbrev fds : ℕ → ℕ → Fds
fds pfd0 pfd1 k = some k

abbrev waits : ℕ → List Waited
waits pid = interruptions 2 (status (pos 0) ∷ [])

pclose-popen_example :
    Reaped 5 77
      (pos 0)
      (λ k. child_at k earlier)
      waits
      (popen (b'r' ∷ []) true (some (5, 6)) 20 true fds (in_parent 77) earlier)
unfolding kind_of
pclose-popen_example =
    pclose-popen (b'r' ∷ []) reads 5 6 20 77 2 fds earlier waits (pos 0) [] refl refl refl refl

popen-shell_example :
    (g : Fds) × ((popen (b'w' ∷ []) true (some (5, 6)) 20 true fds in_child earlier).0 ≡ shell g)
    × ((k : ℕ) → g k ≡ without_children 20 (λ i. child_at i earlier) (piped_on 5 6 0 (fds 5 6)) k)
unfolding kind_of
popen-shell_example = popen-shell (b'w' ∷ []) writes 5 6 20 true fds earlier refl (omega arith)
