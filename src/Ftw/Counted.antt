-- ===== src/Ftw/Counted.antt =====
-- What the counters of file/ftw4.c hold at the end: how many files of each kind the tree has.
use apue_2e.Base.{
  ℕ, ◌+◌, ◌≡◌, ◌<◌, refl, ap, sym, ◌∙◌, Bool, true, false, if◌then◌else◌, List, [], ◌∷◌, ◌++◌,
  length, pos, arith, Bool-cases, inl, inr,
}
use apue_2e.Files.{Bytes}
use apue_2e.Ftw.{
  Kind, regular, block, char_special, fifo, symlink, socket, unknown, Tree, no_stat, leaf,
  unreadable, dir, Names, end, name, TypeOf, ftw_f, ftw_d, ftw_dnr, ftw_ns, slash, Walked, walked,
  myftw, Counts, myfunc,
}
use apue_2e.Ftw.Free.{is_hidden, go_on, visits, inside, run}
use apue_2e.Ftw.Visits.{longest, myftw-run}

abbrev one : Bool → ℕ
one true = 1
one false = 0

-- How many visits a class has in a tree: a directory that cannot be opened is visited twice.
unfoldable mutual
  pub number : (TypeOf → Bool) → Tree → ℕ
  number p no_stat = one (p ftw_ns)
  number p (leaf k) = one (p (ftw_f k))
  number p unreadable = one (p ftw_d) + one (p ftw_dnr)
  number p (dir es) = one (p ftw_d) + number_inside p es

  number_inside : (TypeOf → Bool) → Names → ℕ
  number_inside p end = 0
  number_inside p (name n child es) =
      let rest = number_inside p es in
      let mine = number p child in if is_hidden n then rest else mine + rest

tally : (TypeOf → Bool) → List (Bytes × TypeOf) → ℕ
tally p [] = 0
tally p ((path, t) ∷ vs) = one (p t) + tally p vs

tally-append :
    (p : TypeOf → Bool) (vs ws : List (Bytes × TypeOf))
    → tally p (vs ++ ws) ≡ tally p vs + tally p ws
unfolding tally
tally-append p [] ws = omega arith
tally-append p ((path, t) ∷ vs) ws = omega (arith, tally-append p vs ws)

mutual
  unfolding visits number tally

  tally-visits :
      (p : TypeOf → Bool) (tree : Tree) (path : Bytes) → tally p (visits tree path) ≡ number p tree
  tally-visits p no_stat path = omega arith
  tally-visits p (leaf k) path = omega arith
  tally-visits p unreadable path = omega arith
  tally-visits p (dir es) path = omega (arith, tally-inside p es (path ++ slash ∷ []))

  tally-inside :
      (p : TypeOf → Bool) (es : Names) (front : Bytes)
      → tally p (inside es front) ≡ number_inside p es
  tally-inside p end front = refl
  tally-inside p (name n child es) front = elim (Bool-cases (is_hidden n)) [
    | inl e ↦ rw e (tally-inside p es front)
    | inr e ↦ rw e (
        omega (
          arith,
          tally-append p (visits child (front ++ n)) (inside es front),
          tally-visits p child (front ++ n),
          tally-inside p es front,
        ))
  ]

unfoldable pub is_dir : TypeOf → Bool
is_dir ftw_d = true
is_dir (ftw_f k) = false
is_dir ftw_dnr = false
is_dir ftw_ns = false

-- A file of one kind.
unfoldable pub is_kind : (Kind → Bool) → TypeOf → Bool
is_kind q (ftw_f k) = q k
is_kind q ftw_d = false
is_kind q ftw_dnr = false
is_kind q ftw_ns = false

abbrev pub is_regular : Kind → Bool
is_regular k = elim k [ regular ↦ true | _ ↦ false ]

abbrev pub is_block : Kind → Bool
is_block k = elim k [ block ↦ true | _ ↦ false ]

abbrev pub is_char : Kind → Bool
is_char k = elim k [ char_special ↦ true | _ ↦ false ]

abbrev pub is_fifo : Kind → Bool
is_fifo k = elim k [ fifo ↦ true | _ ↦ false ]

abbrev pub is_symlink : Kind → Bool
is_symlink k = elim k [ symlink ↦ true | _ ↦ false ]

abbrev pub is_socket : Kind → Bool
is_socket k = elim k [ socket ↦ true | _ ↦ false ]

-- Each counter grown by the number of the class that it counts.
unfoldable pub grown : Counts → ((TypeOf → Bool) → ℕ) → Counts
grown c of = record {
  nreg = c.nreg + of (is_kind is_regular);
  ndir = c.ndir + of is_dir;
  nblk = c.nblk + of (is_kind is_block);
  nchr = c.nchr + of (is_kind is_char);
  nfifo = c.nfifo + of (is_kind is_fifo);
  nslink = c.nslink + of (is_kind is_symlink);
  nsock = c.nsock + of (is_kind is_socket);
}

add_zero : (n : ℕ) → n + 0 ≡ n
add_zero n = omega arith

add_assoc : (a b c : ℕ) → (a + b) + c ≡ a + (b + c)
add_assoc a b c = omega arith

-- A walk of no visits, and one visit.
grown-zero : (c : Counts) → grown c (λ p. 0) ≡ c
unfolding grown
grown-zero c = simp add_zero

myfunc-grown :
    (path : Bytes) (t : TypeOf) (c : Counts) → myfunc path t c ≡ (pos 0, grown c (λ p. one (p t)))
unfolding myfunc is_dir is_kind grown
myfunc-grown path ftw_d c = simp add_zero
myfunc-grown path ftw_dnr c = simp add_zero
myfunc-grown path ftw_ns c = simp add_zero
myfunc-grown path (ftw_f regular) c = simp add_zero
myfunc-grown path (ftw_f block) c = simp add_zero
myfunc-grown path (ftw_f char_special) c = simp add_zero
myfunc-grown path (ftw_f fifo) c = simp add_zero
myfunc-grown path (ftw_f symlink) c = simp add_zero
myfunc-grown path (ftw_f socket) c = simp add_zero
myfunc-grown path (ftw_f unknown) c = simp add_zero

-- Grown twice.
grown-grown :
    (c : Counts) (a b : (TypeOf → Bool) → ℕ) → grown (grown c a) b ≡ grown c (λ p. a p + b p)
unfolding grown
grown-grown c a b = simp add_assoc

run-grown :
    (vs : List (Bytes × TypeOf)) (c : Counts) → run myfunc vs c ≡ (pos 0, grown c (λ p. tally p vs))
unfolding run tally go_on
run-grown [] c = ap (λ d. (pos 0, d)) (sym (grown-zero c))
run-grown ((path, t) ∷ vs) c = rw (myfunc-grown path t c) (
    run-grown vs (grown c (λ p. one (p t)))
    ∙ ap (λ d. (pos 0, d)) (grown-grown c (λ p. one (p t)) (λ p. tally p vs)))

-- Where every path of the tree, with the slash behind a directory, fits the buffer with its null, the walk of the
-- program returns 0 and adds to each counter the number of files of its class in the tree.
pub myftw-grown :
    (len : ℕ) (tree : Tree) (pathname : Bytes) (c : Counts)
    → longest tree (length pathname) < len
    → (w : Walked Counts) × (myftw myfunc len tree pathname c ≡ walked w)
      × (w.ret ≡ pos 0)
      × (w.state ≡ grown c (λ p. number p tree))
myftw-grown len tree pathname c h =
    let (w, ran, result, back) = myftw-run myfunc len tree pathname c h in
    let e =
      result
      ∙ run-grown (visits tree pathname) c
      ∙ ap (λ f. (pos 0, grown c f)) (λ i p. tally-visits p tree pathname i) in
    (w, ran, ap (λ r. r.0) e, ap (λ r. r.1) e)
