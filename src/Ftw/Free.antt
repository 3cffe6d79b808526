-- ===== src/Ftw/Free.antt =====
-- A walk with a buffer that has room for every path, and the list of visits that it makes: a directory before
-- what is in it.
use apue_2e.Base.{
  ℕ, zero, suc, ◌+◌, ◌≡◌, refl, ap, ap₂, sym, ◌∙◌, subst, Bool, true, false, ◌&&◌, ◌==◌, str_eq,
  arith, if◌then◌else◌, List, [], ◌∷◌, ◌++◌, length, length-append, take, take-append, take_all,
  drop, ℤ, pos, negsuc, Bool-cases, inl, inr,
}
use apue_2e.Files.{Bytes}
use apue_2e.Ftw.{
  Tree, no_stat, leaf, unreadable, dir, Names, end, name, TypeOf, ftw_f, ftw_d, ftw_dnr, ftw_ns,
  Func, is_zero, slash, is_dots, Walked, visited,
}

-- One dot or two.
unfoldable pub is_hidden : Bytes → Bool
is_hidden [] = false
is_hidden (c ∷ []) = c == b'.'
is_hidden (c ∷ d ∷ []) = (c == b'.') && (d == b'.')
is_hidden (c ∷ d ∷ e ∷ n) = false

pub is_dots-is_hidden : (n : Bytes) → is_dots n ≡ is_hidden n
unfolding is_dots is_hidden str_eq
is_dots-is_hidden [] = refl
is_dots-is_hidden (c ∷ []) = ground arith
is_dots-is_hidden (c ∷ d ∷ []) = ground arith
is_dots-is_hidden (c ∷ d ∷ e ∷ n) = ground arith

-- The value that lets the walk go on.
unfoldable pub go_on : ℤ → Bool
go_on (pos n) = n == 0
go_on (negsuc n) = false

is_zero-go_on : (r : ℤ) → is_zero r ≡ go_on r
unfolding is_zero go_on
is_zero-go_on (pos zero) = refl
is_zero-go_on (pos (suc n)) = ground arith
is_zero-go_on (negsuc n) = refl

unfoldable mutual
  pub visits : Tree → Bytes → List (Bytes × TypeOf)
  visits no_stat path = (path, ftw_ns) ∷ []
  visits (leaf k) path = (path, ftw_f k) ∷ []
  visits unreadable path = (path, ftw_d) ∷ (path ++ slash ∷ [], ftw_dnr) ∷ []
  visits (dir es) path = (path, ftw_d) ∷ inside es (path ++ slash ∷ [])

  pub inside : Names → Bytes → List (Bytes × TypeOf)
  inside end front = []
  inside (name n child es) front =
      let rest = inside es front in
      let mine = visits child (front ++ n) in if is_hidden n then rest else mine ++ rest

module _ {S : Type 0} (func : Func S) where
  unfoldable mutual
    -- A tree
    pub walk : Tree → Bytes → S → Walked S
    walk no_stat path s = visited path (func path ftw_ns s)
    walk (leaf k) path s = visited path (func path (ftw_f k) s)
    walk unreadable path s =
        let (ret, t) = func path ftw_d s in
        if is_zero ret
        then visited (path ++ slash ∷ []) (func (path ++ slash ∷ []) ftw_dnr t)
        else visited path (ret, t)
    walk (dir es) path s =
        let (ret, t) = func path ftw_d s in
        let w =
          walk_names es (length path + 1)
            (record { ret = ret; path = path ++ slash ∷ []; state = t }) in
        if is_zero ret then record w { path = take (length path) w.path } else visited path (ret, t)

    -- The names of a directory
    pub walk_names : Names → ℕ → Walked S → Walked S
    walk_names end ptr w = w
    walk_names (name n child es) ptr w =
        let v = walk child (take ptr w.path ++ n) w.state in
        let next = walk_names es ptr v in
        let skip = walk_names es ptr w in
        if is_dots n then skip else if is_zero v.ret then next else v

  -- Visits until one returns something other than 0.
  unfoldable pub run : List (Bytes × TypeOf) → S → ℤ × S
  run [] s = (pos 0, s)
  run ((path, t) ∷ vs) s =
      let (ret, s') = func path t s in let rest = run vs s' in if go_on ret then rest else (ret, s')

  pub is_zero_lem : (r : ℤ) → is_zero r ≡ true → r ≡ pos 0
  unfolding is_zero
  is_zero_lem (pos zero) h = refl
  is_zero_lem (pos (suc n)) h = absurd (cc h)
  is_zero_lem (negsuc n) h = absurd (cc h)

  go_on_lem : (r : ℤ) → go_on r ≡ true → r ≡ pos 0
  go_on_lem r h = is_zero_lem r (is_zero-go_on r ∙ h)

  run-append :
      (vs ws : List (Bytes × TypeOf)) (s : S)
      → run (vs ++ ws) s ≡ (if go_on (run vs s).0 then run ws (run vs s).1 else run vs s)
  unfolding run go_on
  run-append [] ws s = refl
  run-append ((path, t) ∷ vs) ws s = elim (Bool-cases (go_on (func path t s).0)) [
    | inl e ↦ rw e (run-append vs ws (func path t s).1)
    | inr e ↦ rw (e, e) refl
  ]

  -- The result of a walk, and the path it began with, are as the visits say.
  pub record Follows (vs : List (Bytes × TypeOf)) (path : Bytes) (s : S) (w : Walked S)
      : Type 0 where
    pub result : (w.ret, w.state) ≡ run vs s
    pub back : take (length path) w.path ≡ path

  -- The string in front of the end of another.
  front_of : (front tail : Bytes) → take (length front) (front ++ tail) ≡ front
  front_of front tail = take-append front tail

  last_visit : (path : Bytes) (t : TypeOf) (s : S) → func path t s ≡ run ((path, t) ∷ []) s
  unfolding run
  last_visit path t s = elim (Bool-cases (go_on (func path t s).0)) [
    | inl e ↦ rw e (ap (λ r. (r, (func path t s).1)) (go_on_lem (func path t s).0 e))
    | inr e ↦ rw e refl
  ]

  visited-Follows :
      (path : Bytes) (t : TypeOf) (s : S)
      → Follows ((path, t) ∷ []) path s (visited path (func path t s))
  unfolding visited
  visited-Follows path t s = record { result = last_visit path t s; back = take_all path }

  pub shorter :
      (path tail w : Bytes)
      → take (length (path ++ tail)) w ≡ path ++ tail
      → take (length path) w ≡ path
  shorter [] tail w h = refl
  shorter (c ∷ path) tail [] h = absurd (cc h)
  shorter (c ∷ path) tail (d ∷ w) h =
      ap₂ (λ a b. a ++ b) (ap (take 1) h) (shorter path tail w (ap (drop 1) h))

  -- The visits of one name, and of the names behind it.
  join_runs :
      (vs ws : List (Bytes × TypeOf)) (s : S) (v : Walked S)
      → (v.ret, v.state) ≡ run vs s
      → run (vs ++ ws) s ≡ (if is_zero v.ret then run ws v.state else (v.ret, v.state))
  join_runs vs ws s v h =
      run-append vs ws s
      ∙ ap (λ r. if go_on r.0 then run ws r.1 else r) (sym h)
      ∙ ap (λ b. if b then run ws v.state else (v.ret, v.state)) (sym (is_zero-go_on v.ret))

  run-next :
      (path : Bytes) (t : TypeOf) (vs : List (Bytes × TypeOf)) (s : S)
      → is_zero (func path t s).0 ≡ true
      → run ((path, t) ∷ vs) s ≡ run vs (func path t s).1
  unfolding run
  run-next path t vs s e =
      let e' : go_on (func path t s).0 ≡ true = sym (is_zero-go_on _) ∙ e in rw e' refl

  run-stop :
      (path : Bytes) (t : TypeOf) (vs : List (Bytes × TypeOf)) (s : S)
      → is_zero (func path t s).0 ≡ false
      → run ((path, t) ∷ vs) s ≡ func path t s
  unfolding run
  run-stop path t vs s e =
      let e' : go_on (func path t s).0 ≡ false = sym (is_zero-go_on _) ∙ e in rw e' refl

  mutual
    unfolding walk visits run visited

    pub walk-Follows :
        (tree : Tree) (path : Bytes) (s : S) → Follows (visits tree path) path s (walk tree path s)
    walk-Follows no_stat path s = visited-Follows path ftw_ns s
    walk-Follows (leaf k) path s = visited-Follows path (ftw_f k) s
    walk-Follows unreadable path s = elim (Bool-cases (is_zero (func path ftw_d s).0)) [
      | inl e ↦ rw e (record {
        result =
            last_visit (path ++ slash ∷ []) ftw_dnr (func path ftw_d s).1
            ∙ sym (run-next path ftw_d ((path ++ slash ∷ [], ftw_dnr) ∷ []) s e);
        back = front_of path (slash ∷ []);
      })
      | inr e ↦ rw e (record {
        result = sym (run-stop path ftw_d ((path ++ slash ∷ [], ftw_dnr) ∷ []) s e);
        back = take_all path;
      })
    ]
    walk-Follows (dir es) path s =
        let front = path ++ slash ∷ [] in
        elim (Bool-cases (is_zero (func path ftw_d s).0)) [
          | inl e ↦
              let count : length front ≡ length path + 1 = length-append path (slash ∷ []) in
              let w : Walked S = record {
                ret = (func path ftw_d s).0;
                path = front;
                state = (func path ftw_d s).1;
              } in
              let f =
                subst (λ n. Follows (inside es front) front w.state (walk_names es n w)) count
                  (walk_names-Follows es front w (is_zero_lem w.ret e) (take_all front)) in
              rw e (record {
                result = f.result ∙ sym (run-next path ftw_d (inside es front) s e);
                back = ap (take (length path)) (shorter path (slash ∷ []) _ f.back) ∙ take_all path;
              })
          | inr e ↦ rw e (record {
            result = sym (run-stop path ftw_d (inside es front) s e);
            back = take_all path;
          })
        ]

    pub walk_names-Follows :
        (es : Names) (front : Bytes) (w : Walked S)
        → w.ret ≡ pos 0
        → take (length front) w.path ≡ front
        → Follows (inside es front) front w.state (walk_names es (length front) w)
    walk_names-Follows end front w z b = record { result = ap (λ r. (r, w.state)) z; back = b }
    walk_names-Follows (name n child es) front w z b = elim (Bool-cases (is_dots n)) [
      | inl e ↦
          let e' : is_hidden n ≡ true = sym (is_dots-is_hidden n) ∙ e in
          rw (e, e') (walk_names-Follows es front w z b)
      | inr e ↦
          let v = walk child (front ++ n) w.state in
          let f = walk-Follows child (front ++ n) w.state in
          let joined = join_runs (visits child (front ++ n)) (inside es front) w.state v f.result in
          let kept = shorter front n v.path f.back in
          let e' : is_hidden n ≡ false = sym (is_dots-is_hidden n) ∙ e in
          rw (e, e', b)
            (elim (Bool-cases (is_zero v.ret)) [
              | inl zero_ret ↦
                  let g = walk_names-Follows es front v (is_zero_lem v.ret zero_ret) kept in
                  rw zero_ret
                    (record { result = g.result ∙ sym (joined ∙ rw zero_ret refl); back = g.back })
              | inr other ↦ rw other (record { result = sym (joined ∙ rw other refl); back = kept })
            ])
    ]
