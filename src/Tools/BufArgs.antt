-- ===== src/Tools/BufArgs.antt =====
-- lib/bufargs.c: a buffer cut into arguments. `words` is what the calls of `strtok` return in turn.
use apue_2e.Base.{
  ℕ, ◌+◌, ◌-◌, ◌≤◌, ◌<◌, ◌≡◌, refl, ap, ◌∙◌, sym, Bool, false, ◌||◌, ltb, leb, ◌==◌, if◌then◌else◌,
  List, [], ◌∷◌, ◌++◌, append_assoc, append-nil, length, Option, none, some, arith, Bool-cases, inl,
  inr,
}
use apue_2e.Files.{Bytes}

abbrev pub max_argc : ℕ
max_argc = 50

-- WHITE
unfoldable pub is_white : ℕ → Bool
is_white c = (c == 32) || (c == 9) || (c == 10)

unfoldable pub flush : Bytes → List Bytes
flush [] = []
flush (c ∷ w) = (c ∷ w) ∷ []

-- The tokens of a text behind the unfinished token `w`.
unfoldable pub words_from : Bytes → Bytes → List Bytes
unfolding is_white flush
words_from w [] = flush w
words_from w (c ∷ s) =
    let cut = flush w ++ words_from [] s in
    let go = words_from (w ++ c ∷ []) s in if is_white c then cut else go

unfoldable pub words : Bytes → List Bytes
unfolding words_from
words buf = words_from [] buf

-- The white space in front, which `strtok` steps over.
unfoldable pub leading : Bytes → Bytes
unfolding is_white
leading [] = []
leading (c ∷ s) = let rest = leading s in if is_white c then c ∷ rest else []

-- `while ((ptr = strtok(NULL, WHITE)) != NULL)`
unfoldable pub args_loop : ℕ → List Bytes → List Bytes → Option (List Bytes)
args_loop argc argv [] = some argv
args_loop argc argv (ptr ∷ ptrs) =
    let rest = args_loop (argc + 1) (argv ++ ptr ∷ []) ptrs in
    if leb (max_argc - 1) (argc + 1) then none else rest

-- `buf_args`: the arguments handed to `optfunc`, `none` for a return of -1. The first one points to the
-- start of the buffer, and ends where its token ends.
unfoldable pub buf_args : Bytes → Option (List Bytes)
unfolding words leading args_loop
buf_args buf = elim (words buf) [ [] ↦ none | w ∷ ws ↦ args_loop 0 ((leading buf ++ w) ∷ []) ws ]

below : (argc : ℕ) → argc + 1 < max_argc - 1 → leb (max_argc - 1) (argc + 1) ≡ false
below argc h = ground arith

args_loop_fits :
    (argc : ℕ) (argv ws : List Bytes)
    → argc + length ws < max_argc - 1
    → args_loop argc argv ws ≡ some (argv ++ ws)
unfolding args_loop
args_loop_fits argc argv [] h = ap some (sym (append-nil argv))
args_loop_fits argc argv (w ∷ ws) h = rw (below argc (omega arith)) (
    args_loop_fits (argc + 1) (argv ++ w ∷ []) ws (omega arith)
    ∙ ap some (append_assoc argv (w ∷ []) ws))

args_loop_full :
    (argc : ℕ) (argv ws : List Bytes)
    → argc < max_argc - 1
    → max_argc - 1 ≤ argc + length ws
    → args_loop argc argv ws ≡ none
unfolding args_loop
args_loop_full argc argv [] h k = absurd (omega arith)
args_loop_full argc argv (w ∷ ws) h k = elim (Bool-cases (leb (max_argc - 1) (argc + 1))) [
  | inl full ↦ rw full
  | inr room ↦ rw room (args_loop_full (argc + 1) (argv ++ w ∷ []) ws (ground arith) (omega arith))
]

buf_args_at :
    (buf w : Bytes) (ws : List Bytes)
    → words buf ≡ w ∷ ws
    → buf_args buf ≡ args_loop 0 ((leading buf ++ w) ∷ []) ws
unfolding buf_args
buf_args_at buf w ws e = rw (e, buf_args) refl

-- On a buffer with at least one word, `buf_args` hands on its words when they are at most 49, the first
-- one with the white space in front of it, and fails when they are more.
pub buf_args-words :
    (buf w : Bytes) (ws : List Bytes)
    → words buf ≡ w ∷ ws
    → buf_args buf ≡ (if ltb (length ws) 49 then some ((leading buf ++ w) ∷ ws) else none)
buf_args-words buf w ws e = elim (Bool-cases (ltb (length ws) 49)) [
  | inl few ↦
      rw few (buf_args_at buf w ws e ∙ args_loop_fits 0 ((leading buf ++ w) ∷ []) ws (ground arith))
  | inr many ↦ rw many (
      buf_args_at buf w ws e
      ∙ args_loop_full 0 ((leading buf ++ w) ∷ []) ws (omega arith) (ground arith))
]
