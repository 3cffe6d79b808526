-- ===== src/Tools/Popen/Children.antt =====
-- A stream of `popen` is closed with the child that it was opened with, and a child has none of the streams
-- of others.
use apue_2e.Base.{
  ℕ, zero, suc, ◌+◌, ◌≤◌, ◌<◌, ◌==◌, ◌≡◌, ◌≢◌, refl, ap, sym, ◌∙◌, subst, Bool, true, false,
  if◌then◌else◌, ltb, ◌&&◌, ◌||◌, not, Option, none, some, List, ◌∷◌, ℤ, arith, Bool-cases, inl,
  inr,
}
use apue_2e.Files.{Bytes}
use apue_2e.Tools.Popen.{
  Table, Fds, set_child, close, dup2, moved, close_children, Kind, reads, writes, kind_of,
  child_fds, Fork, in_child, in_parent, Opened, stream, shell, piped, popen, Waited, status,
  interrupted, wait_loop, pclose,
}

-- A list of results behind interrupted calls.
pub interruptions : ℕ → List Waited → List Waited
interruptions zero ws = ws
interruptions (suc n) ws = interrupted ∷ interruptions n ws

wait_loop-interruptions :
    (n : ℕ) (code : ℤ) (ws : List Waited)
    → wait_loop (interruptions n (status code ∷ ws)) ≡ some code
unfolding wait_loop interruptions
wait_loop-interruptions zero code ws = refl
wait_loop-interruptions (suc n) code ws = wait_loop-interruptions n code ws

set_child-twice :
    (fd pid : ℕ) (t : ℕ → ℕ) (k : ℕ) → t fd ≡ 0 → set_child fd 0 (set_child fd pid t) k ≡ t k
unfolding set_child
set_child-twice fd pid t k h = elim (Bool-cases (k == fd)) [
  | inl e ↦ let same : k ≡ fd = ground arith in rw e (sym (rw same h))
  | inr e ↦ rw e refl
]

-- One round of the loop over the table.
abbrev round : ℕ → (ℕ → ℕ) → Fds → Fds
round i t fds = if t i == 0 then fds else close i fds

round-other : (i : ℕ) (t : ℕ → ℕ) (fds : Fds) (k : ℕ) → t k ≡ 0 → round i t fds k ≡ fds k
unfolding close
round-other i t fds k h = elim (Bool-cases (t i == 0)) [
  | inl e ↦ rw e refl
  | inr e ↦ elim (Bool-cases (k == i)) [
    | inl e' ↦
        let same : i ≡ k = ground arith in
        let no_child : (t i == 0) ≡ true = rw (same, h) refl in absurd (cc (e, no_child))
    | inr e' ↦ rw (e, e') refl
  ]
]

round-none : (i : ℕ) (t : ℕ → ℕ) (fds : Fds) (k : ℕ) → fds k ≡ none → round i t fds k ≡ none
unfolding close
round-none i t fds k h = elim (Bool-cases (t i == 0)) [
  | inl e ↦ rw e h
  | inr e ↦ elim (Bool-cases (k == i)) [ inl e' ↦ rw (e, e') refl | inr e' ↦ rw (e, e') h ]
]

-- The loop leaves what is no child's, and closes each descriptor of a child in its range.
close_children-other :
    (n i : ℕ) (t : ℕ → ℕ) (fds : Fds) (k : ℕ) → t k ≡ 0 → close_children n i t fds k ≡ fds k
unfolding close_children
close_children-other zero i t fds k h = refl
close_children-other (suc n) i t fds k h =
    close_children-other n (i + 1) t (round i t fds) k h ∙ round-other i t fds k h

close_children-none :
    (n i : ℕ) (t : ℕ → ℕ) (fds : Fds) (k : ℕ) → fds k ≡ none → close_children n i t fds k ≡ none
unfolding close_children
close_children-none zero i t fds k h = h
close_children-none (suc n) i t fds k h =
    close_children-none n (i + 1) t (round i t fds) k (round-none i t fds k h)

close_children-child :
    (n i : ℕ) (t : ℕ → ℕ) (fds : Fds) (k : ℕ)
    → i ≤ k
    → k < i + n
    → (t k == 0) ≡ false
    → close_children n i t fds k ≡ none
unfolding close_children close
close_children-child zero i t fds k above below h = absurd (omega (arith, above, below))
close_children-child (suc n) i t fds k above below h = elim (Bool-cases (k == i)) [
  | inl e ↦
      let same : i ≡ k = ground arith in
      let self : (k == k) ≡ true = ground arith in
      close_children-none n (i + 1) t (round i t fds) k (rw same (rw (h, self) refl))
  | inr e ↦
      let later : i + 1 ≤ k = ground (arith, above) in
      close_children-child n (i + 1) t (round i t fds) k later (omega (arith, below)) h
]

moved-std : (fd std : ℕ) (fds : Fds) → moved fd std fds std ≡ fds fd
unfolding moved dup2 close
moved-std fd std fds = elim (Bool-cases (fd == std)) [
  | inl e ↦ let same : fd ≡ std = ground arith in rw e (ap fds (sym same))
  | inr e ↦
      let other : (std == fd) ≡ false = ground arith in
      let self : (std == std) ≡ true = ground arith in rw (e, other, self) refl
]

close-other : (fd k : ℕ) (fds : Fds) → k ≢ fd → close fd fds k ≡ fds k
unfolding close
close-other fd k fds h = let other : (k == fd) ≡ false = ground (arith, h) in rw other refl

-- The entry of a descriptor, 0 where there is no table.
abbrev pub child_at : ℕ → Table → ℕ
child_at k none = 0
child_at k (some t) = t k

-- The end of the pipe that the parent keeps, the end of the child, and the descriptor that the child has it on.
abbrev pub kept_end : Kind → ℕ → ℕ → ℕ
kept_end reads pfd0 pfd1 = pfd0
kept_end writes pfd0 pfd1 = pfd1

abbrev pub child_end : Kind → ℕ → ℕ → ℕ
child_end reads pfd0 pfd1 = pfd1
child_end writes pfd0 pfd1 = pfd0

abbrev pub standard : Kind → ℕ
standard reads = 1
standard writes = 0

-- With memory for the table, `popen` does the same with or without one.
popen-piped :
    (type : Bytes) (kind : Kind) (pipe : Option (ℕ × ℕ)) (maxfd : ℕ) (fdopens : Bool)
    (fds : ℕ → ℕ → Fds) (f : Fork) (table : Table)
    → kind_of type ≡ some kind
    → popen type true pipe maxfd fdopens fds f table
      ≡ piped kind pipe maxfd fdopens (λ k. child_at k table) fds f
unfolding popen
popen-piped type kind pipe maxfd fdopens fds f none h = rw (popen, h) refl
popen-piped type kind pipe maxfd fdopens fds f (some t) h = rw (popen, h) refl

self_at : (fd pid : ℕ) (t : ℕ → ℕ) → set_child fd pid t fd ≡ pid
unfolding set_child
self_at fd pid t = let same : (fd == fd) ≡ true = ground arith in rw same refl

-- The stream is open, and closing it gives back its child and leaves the table `t`.
pub record Reaped (fd pid : ℕ) (code : ℤ) (t : ℕ → ℕ) (waits : ℕ → List Waited) (o : Opened × Table)
    : Type 0 where
  pub opened : o.0 ≡ stream fd
  pub waited : (pclose fd true waits o.1).waited ≡ some pid
  pub ret : (pclose fd true waits o.1).ret ≡ some code
  pub restored : (k : ℕ) → child_at k (pclose fd true waits o.1).table ≡ t k

piped-Reaped :
    (kind : Kind) (pfd0 pfd1 maxfd pid n : ℕ) (fds : ℕ → ℕ → Fds) (t : ℕ → ℕ)
    (waits : ℕ → List Waited) (code : ℤ) (ws : List Waited)
    → (pid == 0) ≡ false
    → t (kept_end kind pfd0 pfd1) ≡ 0
    → waits pid ≡ interruptions n (status code ∷ ws)
    → Reaped
        (kept_end kind pfd0 pfd1)
        pid
        code
        t
        waits
        (piped kind (some (pfd0, pfd1)) maxfd true t fds (in_parent pid))
unfolding piped pclose
piped-Reaped reads pfd0 pfd1 maxfd pid n fds t waits code ws ne free w = record {
  opened = refl;
  waited = rw (self_at pfd0 pid t, ne) refl;
  ret = rw (self_at pfd0 pid t, ne, w) (wait_loop-interruptions n code ws);
  restored = λ k. rw (self_at pfd0 pid t, ne) (set_child-twice pfd0 pid t k free);
}
piped-Reaped writes pfd0 pfd1 maxfd pid n fds t waits code ws ne free w = record {
  opened = refl;
  waited = rw (self_at pfd1 pid t, ne) refl;
  ret = rw (self_at pfd1 pid t, ne, w) (wait_loop-interruptions n code ws);
  restored = λ k. rw (self_at pfd1 pid t, ne) (set_child-twice pfd1 pid t k free);
}

-- A stream that `popen` opens for reading or writing, on a descriptor that is none of an earlier stream: when
-- `pclose` closes it, that waits for the very child of this call, however often a signal interrupts the wait,
-- and returns its status. The table of children is then the one in front of `popen`, so that other streams
-- keep their children.
pub pclose-popen :
    (type : Bytes) (kind : Kind) (pfd0 pfd1 maxfd pid n : ℕ) (fds : ℕ → ℕ → Fds) (table : Table)
    (waits : ℕ → List Waited) (code : ℤ) (ws : List Waited)
    → kind_of type ≡ some kind
    → (pid == 0) ≡ false
    → child_at (kept_end kind pfd0 pfd1) table ≡ 0
    → waits pid ≡ interruptions n (status code ∷ ws)
    → Reaped
        (kept_end kind pfd0 pfd1)
        pid
        code
        (λ k. child_at k table)
        waits
        (popen type true (some (pfd0, pfd1)) maxfd true fds (in_parent pid) table)
pclose-popen type kind pfd0 pfd1 maxfd pid n fds table waits code ws h ne free w =
    subst (Reaped (kept_end kind pfd0 pfd1) pid code (λ k. child_at k table) waits)
      (sym (popen-piped type kind (some (pfd0, pfd1)) maxfd true fds (in_parent pid) table h))
      (piped-Reaped kind pfd0 pfd1 maxfd pid n fds (λ k. child_at k table) waits code ws ne free w)

close_children-behind :
    (n i : ℕ) (t : ℕ → ℕ) (fds : Fds) (k : ℕ) → i + n ≤ k → close_children n i t fds k ≡ fds k
unfolding close_children close
close_children-behind zero i t fds k h = refl
close_children-behind (suc n) i t fds k h =
    let other : (k == i) ≡ false = ground (arith, h) in
    let same : round i t fds k ≡ fds k = elim (Bool-cases (t i == 0)) [
      | inl e ↦ rw e refl
      | inr e ↦ rw (e, other) refl
    ] in
    close_children-behind n (i + 1) t (round i t fds) k (omega (arith, h)) ∙ same

-- The descriptors that the loop leaves, for a table of `maxfd` entries.
pub without_children : ℕ → (ℕ → ℕ) → Fds → Fds
without_children maxfd t fds k = if ltb k maxfd && not (t k == 0) then none else fds k

close_children_lem :
    (maxfd : ℕ) (t : ℕ → ℕ) (fds : Fds) (k : ℕ)
    → close_children maxfd 0 t fds k ≡ without_children maxfd t fds k
unfolding without_children
close_children_lem maxfd t fds k = elim (Bool-cases (ltb k maxfd)) [
  | inr e ↦ rw e (close_children-behind maxfd 0 t fds k (ground arith))
  | inl e ↦ elim (Bool-cases (t k == 0)) [
    | inl e' ↦ rw (e, e') (close_children-other maxfd 0 t fds k (ground arith))
    | inr e' ↦ rw (e, e') (close_children-child maxfd 0 t fds k (omega arith) (ground arith) e')
  ]
]

-- One end of a pipe on `std`, in place of both ends of the pipe.
pub piped_on : ℕ → ℕ → ℕ → Fds → Fds
piped_on mine other std fds k =
    if k == std then fds mine else if (k == mine) || (k == other) then none else fds k

moved-behind :
    (mine other std : ℕ) (fds : Fds) (k : ℕ)
    → (k == std) ≡ false
    → moved mine std (close other fds) k ≡ (if (k == mine) || (k == other) then none else fds k)
unfolding moved dup2 close
moved-behind mine other std fds k e = elim (Bool-cases (mine == std)) [
  | inl a ↦ let no : (k == mine) ≡ false = ground arith in rw (a, no) refl
  | inr a ↦ elim (Bool-cases (k == mine)) [ inl b ↦ rw (a, b) refl | inr b ↦ rw (a, b, e) refl ]
]

moved-close :
    (mine other std : ℕ) (fds : Fds) (k : ℕ)
    → mine ≢ other
    → moved mine std (close other fds) k ≡ piped_on mine other std fds k
unfolding piped_on
moved-close mine other std fds k ne = elim (Bool-cases (k == std)) [
  | inl e ↦
      let same : k ≡ std = ground arith in
      rw e (
        ap (moved mine std (close other fds)) same
        ∙ moved-std mine std (close other fds)
        ∙ close-other other mine fds ne)
  | inr e ↦ rw e (moved-behind mine other std fds k e)
]

child_fds_lem :
    (kind : Kind) (pfd0 pfd1 maxfd : ℕ) (t : ℕ → ℕ) (fds : Fds) (k : ℕ)
    → pfd0 ≢ pfd1
    → child_fds kind pfd0 pfd1 maxfd t fds k
      ≡ without_children maxfd t
          (piped_on (child_end kind pfd0 pfd1) (kept_end kind pfd0 pfd1) (standard kind) fds)
          k
unfolding child_fds without_children
child_fds_lem reads pfd0 pfd1 maxfd t fds k ne =
    close_children_lem maxfd t _ k
    ∙ ap (λ b. if ltb k maxfd && not (t k == 0) then none else b)
        (moved-close pfd1 pfd0 1 fds k (λ e. ne (sym e)))
child_fds_lem writes pfd0 pfd1 maxfd t fds k ne =
    close_children_lem maxfd t _ k
    ∙ ap (λ b. if ltb k maxfd && not (t k == 0) then none else b) (moved-close pfd0 pfd1 0 fds k ne)

-- The descriptors of the shell that `popen` starts for the type `r` or `w`, with memory for the table and a pipe(2)
-- that gives two different descriptors, each of them, with earlier streams or without: one of an earlier stream is
-- closed; else standard output, or standard input, is the child's end of the pipe, both ends
-- of the pipe are closed elsewhere, and all others are as they were behind pipe(2).
pub popen-shell :
    (type : Bytes) (kind : Kind) (pfd0 pfd1 maxfd : ℕ) (fdopens : Bool) (fds : ℕ → ℕ → Fds)
    (table : Table)
    → kind_of type ≡ some kind
    → pfd0 ≢ pfd1
    → (g : Fds) × ((popen type true (some (pfd0, pfd1)) maxfd fdopens fds in_child table).0
        ≡ shell g)
      × ((k : ℕ)
          → g k
            ≡ without_children maxfd
                (λ i. child_at i table)
                (piped_on
                  (child_end kind pfd0 pfd1)
                  (kept_end kind pfd0 pfd1)
                  (standard kind)
                  (fds pfd0 pfd1))
                k)
unfolding piped
popen-shell type kind pfd0 pfd1 maxfd fdopens fds table h ne =
    let t : ℕ → ℕ = λ i. child_at i table in
    (
      child_fds kind pfd0 pfd1 maxfd t (fds pfd0 pfd1),
      ap (λ o. o.0) (popen-piped type kind (some (pfd0, pfd1)) maxfd fdopens fds in_child table h),
      λ k. child_fds_lem kind pfd0 pfd1 maxfd t (fds pfd0 pfd1) k ne,
    )
