-- ===== src/Tools/Popen.antt =====
-- lib/popen.c: `popen` and `pclose`, with their table of children. What the calls of the system return is an
-- argument. The table is a function from descriptors; 0 stands for no child.
pub mod Children
use apue_2e.Base.{
  ℕ, zero, suc, ◌+◌, ◌==◌, Bool, true, false, ltb, if◌then◌else◌, Option, none, some, List, [], ◌∷◌,
  ℤ, pos, negsuc,
}
use apue_2e.Files.{Bytes}

-- `childpid`, null before the first call.
abbrev pub Table : Type 0
Table = Option (ℕ → ℕ)

-- What stands behind the descriptors of a process.
abbrev pub Fds : Type 0
Fds = ℕ → Option ℕ

unfoldable pub set_child : ℕ → ℕ → (ℕ → ℕ) → ℕ → ℕ
set_child fd pid t k = if k == fd then pid else t k

unfoldable pub close : ℕ → Fds → Fds
close fd fds k = if k == fd then none else fds k

unfoldable pub dup2 : ℕ → ℕ → Fds → Fds
dup2 old new fds k = if k == new then fds old else fds k

-- `if (pfd[1] != STDOUT_FILENO)`, and the same for the other end
unfoldable pub moved : ℕ → ℕ → Fds → Fds
unfolding close dup2
moved fd std fds = if fd == std then fds else close fd (dup2 fd std fds)

-- `for (i = 0; i < maxfd; i++)`, `n` rounds from `i` on
unfoldable pub close_children : ℕ → ℕ → (ℕ → ℕ) → Fds → Fds
unfolding close
close_children zero i t fds = fds
close_children (suc n) i t fds = close_children n (i + 1) t (if t i == 0 then fds else close i fds)

-- `"r"`, `"w"`, or another type
pub data Kind : Type 0 where
  reads writes : Kind

unfoldable pub kind_of : Bytes → Option Kind
kind_of [] = none
kind_of (c ∷ d ∷ s) = none
kind_of (c ∷ []) = if c == b'r' then some reads else if c == b'w' then some writes else none

-- The descriptors of the child in front of `execl`
unfoldable pub child_fds : Kind → ℕ → ℕ → ℕ → (ℕ → ℕ) → Fds → Fds
unfolding close_children moved
child_fds reads pfd0 pfd1 maxfd t fds = close_children maxfd 0 t (moved pfd1 1 (close pfd0 fds))
child_fds writes pfd0 pfd1 maxfd t fds = close_children maxfd 0 t (moved pfd0 0 (close pfd1 fds))

-- What fork(2) returns: -1, 0 in the child, or the child.
pub data Fork : Type 0 where
  no_fork in_child : Fork
  in_parent : ℕ → Fork

-- What `popen` comes to: a null pointer, the stream on a descriptor, or the shell in the child.
pub data Opened : Type 0 where
  no_stream : Opened
  stream : ℕ → Opened
  shell : Fds → Opened

-- Behind fork(2); `fd` is the end that the parent keeps.
unfoldable pub forked : Kind → ℕ → ℕ → ℕ → Bool → (ℕ → ℕ) → Fds → Fork → Opened × Table
unfolding set_child child_fds
forked kind pfd0 pfd1 maxfd fdopens t fds no_fork = (no_stream, some t)
forked kind pfd0 pfd1 maxfd fdopens t fds in_child =
    (shell (child_fds kind pfd0 pfd1 maxfd t fds), some t)
forked kind pfd0 pfd1 maxfd fdopens t fds (in_parent pid) =
    let fd = elim kind as (λ k. ℕ) [ reads ↦ pfd0 | writes ↦ pfd1 ] in
    if fdopens then (stream fd, some (set_child fd pid t)) else (no_stream, some t)

-- Behind the allocation of the table; `none` is a pipe(2) that fails.
unfoldable pub piped :
    Kind → Option (ℕ × ℕ) → ℕ → Bool → (ℕ → ℕ) → (ℕ → ℕ → Fds) → Fork → Opened × Table
unfolding forked
piped kind none maxfd fdopens t fds f = (no_stream, some t)
piped kind (some (pfd0, pfd1)) maxfd fdopens t fds f =
    forked kind pfd0 pfd1 maxfd fdopens t (fds pfd0 pfd1) f

-- `popen`; `fds` are the descriptors behind pipe(2), and `calloc` says whether there is memory for the table.
unfoldable pub popen :
    Bytes → Bool → Option (ℕ × ℕ) → ℕ → Bool → (ℕ → ℕ → Fds) → Fork → Table → Opened × Table
unfolding piped kind_of
popen type calloc pipe maxfd fdopens fds f table = elim (kind_of type) [
  | none ↦ (no_stream, table)
  | some kind ↦ elim table [
    | some t ↦ piped kind pipe maxfd fdopens t fds f
    | none ↦ if calloc then piped kind pipe maxfd fdopens (λ k. 0) fds f else (no_stream, none)
  ]
]

-- What waitpid(2) returns: the status, or -1 with `EINTR` or with another error.
pub data Waited : Type 0 where
  status : ℤ → Waited
  interrupted broken : Waited

-- The loop over waitpid(2), on what its calls return: the value, `none` where the list has no more calls
unfoldable pub wait_loop : List Waited → Option ℤ
wait_loop [] = none
wait_loop (status n ∷ ws) = some n
wait_loop (broken ∷ ws) = some (negsuc 0)
wait_loop (interrupted ∷ ws) = wait_loop ws

-- The value, the child that was waited for, and the table.
pub record Closed : Type 0 where
  pub ret : Option ℤ
  pub waited : Option ℕ
  pub table : Table

-- `pclose` of a stream on `fd`; `waits` is what waitpid(2) returns for each child.
unfoldable pub pclose : ℕ → Bool → (ℕ → List Waited) → Table → Closed
unfolding set_child wait_loop
pclose fd fcloses waits none = record { ret = some (negsuc 0); waited = none; table = none }
pclose fd fcloses waits (some t) =
    if t fd == 0
    then record { ret = some (negsuc 0); waited = none; table = some t }
    else if fcloses
    then record {
      ret = wait_loop (waits (t fd));
      waited = some (t fd);
      table = some (set_child fd 0 t);
    }
    else record { ret = some (negsuc 0); waited = none; table = some (set_child fd 0 t) }
