-- ===== src/Threads/Getenv.antt =====
-- threadctl/getenv1.c, getenv2.c and getenv3.c: three versions of `getenv`. The environment is the list of its
-- strings; each function runs under its lock, the first one alone.
pub mod Lookup
use apue_2e.Base.{
  ℕ, suc, ◌+◌, ◌==◌, Bool, true, false, ltb, leb, if◌then◌else◌, Option, none, some, List, [], ◌∷◌,
  length,
}
use apue_2e.Files.{Bytes}

-- `strncmp(name, s, len) == 0`: what stands in `s` behind the name.
unfoldable pub after_name : Bytes → Bytes → Option Bytes
after_name [] s = some s
after_name (n ∷ name) [] = none
after_name (n ∷ name) (c ∷ s) = let rest = after_name name s in if n == c then rest else none

-- `&& environ[i][len] == '='`: what stands behind that.
unfoldable pub behind_equals : Option Bytes → Option Bytes
behind_equals none = none
behind_equals (some []) = none
behind_equals (some (c ∷ v)) = if c == b'=' then some v else none

-- `for (i = 0; environ[i] != NULL; i++)`: the value of the first string that the test accepts.
unfoldable pub search : Bytes → List Bytes → Option Bytes
unfolding after_name behind_equals
search name [] = none
search name (e ∷ environ) =
    let rest = search name environ in
    elim (behind_equals (after_name name e)) [ none ↦ rest | some v ↦ some v ]

-- The null pointer, the buffer, or a write behind its end.
pub data Got : Type 0 where
  null pointer overrun : Got

-- `strcpy` of a value into a buffer of `size` bytes that holds `old`
unfoldable pub copied : ℕ → Bytes → Bytes → Got × Bytes
copied size v old = if ltb (length v) size then (pointer, v) else (overrun, old)

-- `getenv` of getenv1.c: the result, and the string in `envbuf`.
unfoldable pub getenv : ℕ → List Bytes → Bytes → Bytes → Got × Bytes
unfolding search copied
getenv arg_max environ name envbuf = elim (search name environ) [
  | none ↦ (null, envbuf)
  | some v ↦ copied arg_max v envbuf
]

-- What `getenv_r` returns.
pub data Code : Type 0 where
  zero_code enospc enoent : Code

-- `getenv_r` of getenv2.c: the string in `buf`.
unfoldable pub getenv_r : List Bytes → Bytes → Bytes → ℕ → Code × Bytes
unfolding search
getenv_r environ name buf buflen = elim (search name environ) [
  | none ↦ (enoent, buf)
  | some v ↦ if leb buflen (length v) then (enospc, buf) else (zero_code, v)
]

-- The buffer of each thread, `none` before its first call.
abbrev pub Buffers : Type 0
Buffers = ℕ → Option Bytes

-- `pthread_setspecific`, or what is written to the buffer
unfoldable pub set_buffer : ℕ → Bytes → Buffers → Buffers
set_buffer t text bufs u = if u == t then some text else bufs u

-- The result of the search in getenv3.c, and the buffer of the thread `t` behind it
unfoldable pub stored_in : ℕ → ℕ → Bytes → Buffers → Option Bytes → Got × Buffers
unfolding copied set_buffer
stored_in arg_max t envbuf bufs none = (null, set_buffer t envbuf bufs)
stored_in arg_max t envbuf bufs (some v) =
    let (r, text) = copied arg_max v envbuf in (r, set_buffer t text bufs)

-- The search with the buffer of the thread, or a new one. `room` says whether `malloc` finds memory, and `junk`
-- is what it leaves in the buffer.
unfoldable pub with_buffer :
    ℕ → ℕ → Bool → Bytes → Buffers → Option Bytes → Option Bytes → Got × Buffers
unfolding stored_in
with_buffer arg_max t room junk bufs found none =
    if room then stored_in arg_max t junk bufs found else (null, bufs)
with_buffer arg_max t room junk bufs found (some envbuf) = stored_in arg_max t envbuf bufs found

-- `getenv` of getenv3.c in the thread `t`
unfoldable pub thread_getenv : ℕ → List Bytes → Bytes → ℕ → Bool → Bytes → Buffers → Got × Buffers
unfolding with_buffer search
thread_getenv arg_max environ name t room junk bufs =
    with_buffer arg_max t room junk bufs (search name environ) (bufs t)
