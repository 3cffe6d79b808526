-- ===== src/Threads/Getenv/Lookup.antt =====
-- What the three versions return, against the environment as a list of names with values.
use apue_2e.Base.{
  ℕ, ◌+◌, ◌==◌, ◌≡◌, ◌≢◌, ◌⊎◌, ◌<◌, ◌≤◌, refl, ap₂, sym, ◌∙◌, subst, Bool, true, false, ltb, leb,
  if◌then◌else◌, Option, none, some, List, [], ◌∷◌, length, All, str_eq, arith, Bool-cases, inl,
  inr, ne_eq,
}
use apue_2e.Files.{Bytes}
use apue_2e.CText.{cut_at}
use apue_2e.Threads.Getenv.{
  after_name, behind_equals, search, Got, pointer, copied, Code, zero_code, enospc, enoent,
  getenv_r, Buffers, set_buffer, stored_in, with_buffer, thread_getenv,
}

-- A string of the environment, cut at its first `=`: the value if the name is the one asked for.
abbrev binding : Bytes → Option (Bytes × Bytes) → Option Bytes
binding name none = none
binding name (some (k, v)) = if str_eq k name then some v else none

-- The value of the first string with the name.
unfoldable pub value_of : Bytes → List Bytes → Option Bytes
value_of name [] = none
value_of name (e ∷ environ) =
    let rest = value_of name environ in
    elim (binding name (cut_at b'=' e)) [ none ↦ rest | some v ↦ some v ]

abbrev push : ℕ → Option (Bytes × Bytes) → Option (Bytes × Bytes)
push c r = elim r [ none ↦ none | some (a, b) ↦ some (c ∷ a, b) ]

cut_at-here : (c : ℕ) (e : Bytes) → (c == b'=') ≡ true → cut_at b'=' (c ∷ e) ≡ some ([], e)
unfolding cut_at
cut_at-here c e h = rw h refl

cut_at-later :
    (c : ℕ) (e : Bytes) → (c == b'=') ≡ false → cut_at b'=' (c ∷ e) ≡ push c (cut_at b'=' e)
unfolding cut_at
cut_at-later c e h = rw h refl

binding-none : (c : ℕ) (r : Option (Bytes × Bytes)) → binding [] (push c r) ≡ none
unfolding str_eq
binding-none c none = refl
binding-none c (some (k, v)) = refl

binding-push :
    (n c : ℕ) (name : Bytes) (r : Option (Bytes × Bytes))
    → binding (n ∷ name) (push c r) ≡ (if n == c then binding name r else none)
unfolding str_eq
binding-push n c name none = elim (Bool-cases (n == c)) [ inl e ↦ rw e refl | inr e ↦ rw e refl ]
binding-push n c name (some (k, v)) = elim (Bool-cases (n == c)) [
  | inl e ↦ let e' : (c == n) ≡ true = ground arith in rw (e, e') refl
  | inr e ↦ let e' : (c == n) ≡ false = ground arith in rw (e, e') refl
]

binding_lem :
    (name e : Bytes)
    → All (λ c. c ≢ b'=') name
    → behind_equals (after_name name e) ≡ binding name (cut_at b'=' e)
unfolding behind_equals after_name str_eq cut_at
binding_lem [] [] h = refl
binding_lem (n ∷ name) [] h = refl
binding_lem [] (c ∷ e) h = elim (Bool-cases (c == b'=')) [
  | inl q ↦ rw (cut_at-here c e q, q) refl
  | inr q ↦ rw (cut_at-later c e q, binding-none c (cut_at b'=' e), q) refl
]
binding_lem (n ∷ name) (c ∷ e) h = elim (Bool-cases (c == b'=')) [
  | inl q ↦ let other : (n == c) ≡ false = ground (arith, h.0) in rw (cut_at-here c e q, other) refl
  | inr q ↦
      rw (cut_at-later c e q, binding-push n c name (cut_at b'=' e))
        (elim (Bool-cases (n == c)) [
          | inl same ↦ rw same (binding_lem name e h.1)
          | inr other ↦ rw other refl
        ])
]

abbrev or_else : Option Bytes → Option Bytes → Option Bytes
or_else a b = elim a [ none ↦ b | some v ↦ some v ]

search-value_of :
    (name : Bytes) (environ : List Bytes)
    → All (λ c. c ≢ b'=') name
    → search name environ ≡ value_of name environ
unfolding search value_of
search-value_of name [] h = refl
search-value_of name (e ∷ environ) h =
    ap₂ or_else (binding_lem name e h) (search-value_of name environ h)

-- The result of `getenv_r` by the value: what it returns and what is in the buffer.
pub data Gave (buf : Bytes) (buflen : ℕ) : Option Bytes → Code × Bytes → Type 0 where
  gave : (v : Bytes) → length v + 1 ≤ buflen → Gave buf buflen (some v) (zero_code, v)
  no_space : (v : Bytes) → buflen < length v + 1 → Gave buf buflen (some v) (enospc, buf)
  no_entry : Gave buf buflen none (enoent, buf)

Gave-by :
    (buf : Bytes) (buflen : ℕ) (r : Option Bytes)
    → Gave buf buflen r (elim r [
      | none ↦ (enoent, buf)
      | some v ↦ if leb buflen (length v) then (enospc, buf) else (zero_code, v)
    ])
Gave-by buf buflen none = no_entry
Gave-by buf buflen (some v) = elim (Bool-cases (leb buflen (length v))) [
  | inl e ↦ rw e (no_space v (ground arith))
  | inr e ↦ rw e (gave v (ground arith))
]

-- For a name without `=`, `getenv_r` finds the value of the first string with that name. It puts the value in
-- the buffer and returns 0 when the value and its null fit. It leaves the buffer as it is and returns `ENOSPC`
-- for a value that does not fit, and `ENOENT` for a name that no string has.
pub getenv_r-Gave :
    (name : Bytes) (environ : List Bytes) (buf : Bytes) (buflen : ℕ)
    → All (λ c. c ≢ b'=') name
    → Gave buf buflen (value_of name environ) (getenv_r environ name buf buflen)
unfolding getenv_r
getenv_r-Gave name environ buf buflen h =
    subst (λ r. Gave buf buflen r (getenv_r environ name buf buflen))
      (search-value_of name environ h) (Gave-by buf buflen (search name environ))

set_buffer_same : (t : ℕ) (text : Bytes) (bufs : Buffers) → set_buffer t text bufs t ≡ some text
unfolding set_buffer
set_buffer_same t text bufs = let same : (t == t) ≡ true = ground arith in rw same refl

set_buffer-other :
    (t : ℕ) (text : Bytes) (bufs : Buffers) (u : ℕ) → u ≢ t → set_buffer t text bufs u ≡ bufs u
unfolding set_buffer
set_buffer-other t text bufs u ne = rw (ne_eq u t ne) refl

-- The thread `t` has `v` in its buffer, and nothing else has changed.
HoldsOwn : ℕ → Bytes → Buffers → Got × Buffers → Type 0
HoldsOwn t v bufs (r, after) =
    (r ≡ pointer) × (after t ≡ some v) × ((u : ℕ) → u ≢ t → after u ≡ bufs u)

stored_in-own :
    (arg_max t : ℕ) (v envbuf : Bytes) (bufs : Buffers)
    → length v < arg_max
    → HoldsOwn t v bufs (stored_in arg_max t envbuf bufs (some v))
unfolding HoldsOwn stored_in copied
stored_in-own arg_max t v envbuf bufs h =
    let fits : ltb (length v) arg_max ≡ true = ground arith in
    rw fits (refl, set_buffer_same t v bufs, set_buffer-other t v bufs)

with_buffer-own :
    (arg_max t : ℕ) (room : Bool) (junk v : Bytes) (bufs : Buffers) (own : Option Bytes)
    → length v < arg_max
    → (room ≡ true) ⊎ (own ≢ none)
    → HoldsOwn t v bufs (with_buffer arg_max t room junk bufs (some v) own)
unfolding with_buffer
with_buffer-own arg_max t room junk v bufs (some envbuf) h ready =
    stored_in-own arg_max t v envbuf bufs h
with_buffer-own arg_max t true junk v bufs none h ready = stored_in-own arg_max t v junk bufs h
with_buffer-own arg_max t false junk v bufs none h (inl e) = absurd (cc e)
with_buffer-own arg_max t false junk v bufs none h (inr e) = absurd (e refl)

-- For a name without `=` whose value fits a buffer, when the thread has a buffer or there is memory for one,
-- the third version returns the buffer of its own thread, which then holds the value of the first string with
-- that name. The buffers of all other threads stay as they are.
pub thread_getenv-own :
    (arg_max : ℕ) (environ : List Bytes) (name : Bytes) (t : ℕ) (room : Bool) (junk : Bytes)
    (bufs : Buffers) (v : Bytes)
    → All (λ c. c ≢ b'=') name
    → value_of name environ ≡ some v
    → length v < arg_max
    → (room ≡ true) ⊎ (bufs t ≢ none)
    → ((thread_getenv arg_max environ name t room junk bufs).0 ≡ pointer)
      × ((thread_getenv arg_max environ name t room junk bufs).1 t ≡ some v)
      × ((u : ℕ) → u ≢ t → (thread_getenv arg_max environ name t room junk bufs).1 u ≡ bufs u)
unfolding thread_getenv HoldsOwn
thread_getenv-own arg_max environ name t room junk bufs v h e fits ready =
    subst (λ f. HoldsOwn t v bufs (with_buffer arg_max t room junk bufs f (bufs t)))
      (sym (search-value_of name environ h ∙ e))
      (with_buffer-own arg_max t room junk v bufs (bufs t) fits ready)
