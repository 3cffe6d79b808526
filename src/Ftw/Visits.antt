-- ===== src/Ftw/Visits.antt =====
-- `myftw` with a buffer that the paths fit, against the list of visits.
use apue_2e.Base.{
  ℕ, zero, suc, ◌+◌, ◌-◌, ◌==◌, ◌≤◌, ◌<◌, ◌≡◌, refl, ap, sym, ◌∙◌, subst, true, false, leb, ltb,
  if◌then◌else◌, [], ◌∷◌, ◌++◌, length, length-append, take, take_all, pos, Bool-cases, inl, inr,
  arith,
}
use apue_2e.Files.{Bytes}
use apue_2e.Ftw.{
  Tree, no_stat, leaf, unreadable, dir, Names, end, name, ftw_d, Func, is_zero, slash, is_dots,
  Walked, walked, restored, dopath, entries, myftw,
}
use apue_2e.Ftw.Free.{
  is_hidden, is_dots-is_hidden, visits, run, walk, walk_names, is_zero_lem, shorter, walk-Follows,
}

abbrev larger : ℕ → ℕ → ℕ
larger a b = if leb a b then b else a

-- The length of the longest string that a walk puts into the buffer, where the path has the length `p`.
unfoldable mutual
  pub longest : Tree → ℕ → ℕ
  longest no_stat p = p
  longest (leaf k) p = p
  longest unreadable p = p + 1
  longest (dir es) p = longest_inside es (p + 1)

  pub longest_inside : Names → ℕ → ℕ
  longest_inside end p = p
  longest_inside (name n child es) p =
      let rest = longest_inside es p in
      let mine = larger (longest child (p + length n)) rest in if is_hidden n then rest else mine

mutual
  unfolding longest

  longest-le : (tree : Tree) (p : ℕ) → p ≤ longest tree p
  longest-le no_stat p = omega arith
  longest-le (leaf k) p = omega arith
  longest-le unreadable p = omega arith
  longest-le (dir es) p = omega (arith, longest_inside-le es (p + 1))

  longest_inside-le : (es : Names) (p : ℕ) → p ≤ longest_inside es p
  longest_inside-le end p = omega arith
  longest_inside-le (name n child es) p = ground (arith, longest_inside-le es p)

take_long : (n : ℕ) (xs : Bytes) → length xs ≤ n → take n xs ≡ xs
take_long zero [] h = refl
take_long zero (x ∷ xs) h = absurd (omega (arith, h))
take_long (suc n) [] h = refl
take_long (suc n) (x ∷ xs) h = ap (λ t. x ∷ t) (take_long n xs (omega (arith, h)))

module _ {S : Type 0} (func : Func S) (len : ℕ) where
  mutual
    unfolding dopath walk longest restored

    dopath-walk :
        (tree : Tree) (path : Bytes) (s : S)
        → longest tree (length path) < len
        → dopath func len tree path s ≡ walked (walk func tree path s)
    dopath-walk no_stat path s h = refl
    dopath-walk (leaf k) path s h = refl
    dopath-walk unreadable path s h =
        let room : ltb (length path + 1) len ≡ true = ground (arith, h) in
        elim (Bool-cases (is_zero (func path ftw_d s).0)) [
          | inl e ↦ rw (e, room) refl
          | inr e ↦ rw e refl
        ]
    dopath-walk (dir es) path s h =
        let room : ltb (length path + 1) len ≡ true =
          ground (arith, h, longest_inside-le es (length path + 1)) in
        elim (Bool-cases (is_zero (func path ftw_d s).0)) [
          | inr e ↦ rw e refl
          | inl e ↦
              let front = path ++ slash ∷ [] in
              let count : length front ≡ length path + 1 = length-append path (slash ∷ []) in
              let w : Walked S = record {
                ret = (func path ftw_d s).0;
                path = front;
                state = (func path ftw_d s).1;
              } in
              let below : longest_inside es (length front) < len =
                subst (λ n. longest_inside es n < len) (sym count) h in
              let g =
                subst (λ n. entries func len es n w ≡ walked (walk_names func es n w)) count
                  (entries-walk es front w (is_zero_lem func w.ret e) (take_all front) below) in
              rw (e, room) (ap (restored (length path)) g)
        ]

    entries-walk :
        (es : Names) (front : Bytes) (w : Walked S)
        → w.ret ≡ pos 0
        → take (length front) w.path ≡ front
        → longest_inside es (length front) < len
        → entries func len es (length front) w ≡ walked (walk_names func es (length front) w)
    entries-walk end front w z b h = refl
    entries-walk (name n child es) front w z b h = elim (Bool-cases (is_dots n)) [
      | inl e ↦
          let e' : is_hidden n ≡ true = sym (is_dots-is_hidden n) ∙ e in
          rw e (entries-walk es front w z b (ground (arith, h, e')))
      | inr e ↦
          let e' : is_hidden n ≡ false = sym (is_dots-is_hidden n) ∙ e in
          let size : length (front ++ n) ≡ length front + length n = length-append front n in
          let child_fits : longest child (length (front ++ n)) < len =
            subst (λ k. longest child k < len) (sym size) (ground (arith, h, e')) in
          let rest_fits : longest_inside es (length front) < len = ground (arith, h, e') in
          let room : ltb (length (front ++ n)) len ≡ true =
            ground (arith, child_fits, longest-le child (length (front ++ n))) in
          let v = walk func child (front ++ n) w.state in
          let kept =
            shorter func front n v.path (walk-Follows func child (front ++ n) w.state).back in
          rw (e, b, room, dopath-walk child (front ++ n) w.state child_fits)
            (elim (Bool-cases (is_zero v.ret)) [
              | inl zero_ret ↦
                  rw zero_ret
                    (entries-walk es front v (is_zero_lem func v.ret zero_ret) kept rest_fits)
              | inr other ↦ rw other refl
            ])
    ]

  -- Where every path of the tree, with the slash behind a directory, fits the buffer with its null: `myftw` with
  -- any `func` returns what the visits return, and leaves the state that they leave, and writes nothing behind
  -- the buffer. It visits a directory before what is in it, dot and dot-dot not at all, a directory that cannot be
  -- opened twice, with `FTW_D` and then `FTW_DNR`, and each other file once, and stops at the first visit that
  -- returns something other than 0. At the end `fullpath` begins with the path it began with.
  pub myftw-run :
      (tree : Tree) (pathname : Bytes) (s : S)
      → longest tree (length pathname) < len
      → (w : Walked S) × (myftw func len tree pathname s ≡ walked w)
        × ((w.ret, w.state) ≡ run func (visits tree pathname) s)
        × (take (length pathname) w.path ≡ pathname)
  unfolding myftw
  myftw-run tree pathname s h =
      let low = longest-le tree (length pathname) in
      let size : (len == 0) ≡ false = ground (arith, h) in
      let whole = take_long (len - 1) pathname (omega (arith, h, low)) in
      let f = walk-Follows func tree pathname s in
      (
        walk func tree pathname s,
        rw (size, whole) (dopath-walk tree pathname s h),
        f.result,
        f.back,
      )
