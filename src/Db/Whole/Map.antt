-- ===== src/Db/Whole/Map.antt =====
-- The database as a map from keys to data, and the invariant that makes it one.
use apue_2e.Base.{
  ℕ, zero, suc, ◌+◌, ◌%◌, ◌<◌, ◌≡◌, ◌≢◌, refl, ap, sym, ◌∙◌, subst, List, [], ◌∷◌, ◌++◌, arith, All,
  length, str_eq, eq_of_str_eq, Bool-cases, inl, inr, if◌then◌else◌, Option, ◌==◌, All-take_out,
  All-put_in,
}
use apue_2e.Files.{Bytes}
use apue_2e.Db.State.{Db, hash_off}
use apue_2e.Db.Fields.{hash, hash_loop}
use apue_2e.Db.Layout.{Entry, lookup}
use apue_2e.Db.Chain.Walk.{Misses, ne_of_miss}
use apue_2e.Db.Whole.{Holds}

-- The chain that a key belongs to, of `n`.
abbrev pub home : ℕ → Bytes → ℕ
home n key = hash_loop 1 0 key % n

pub hash-home : (s : Db) (key : Bytes) → hash s key ≡ home s.nhash key
unfolding hash
hash-home s key = refl

-- No key is in a chain twice.
abbrev pub Unique : List Entry → Type 0
Unique [] = Unit
Unique (e ∷ es) = All (λ d. d.key ≢ e.key) es × Unique es

-- Chain `i` and the ones behind it hold keys that belong there.
abbrev pub Placed : ℕ → ℕ → List (List Entry) → Type 0
Placed n i [] = Unit
Placed n i (l ∷ ls) = All (λ e. home n e.key ≡ i) l × (Unique l × Placed n (i + 1) ls)

-- A database with the free records `frees` and the hash chains `chains`.
pub record IsDb (s : Db) (frees : List Entry) (chains : List (List Entry)) : Type 0 where
  pub holds : Holds s.disk.idx s.disk.dat (frees ∷ chains)
  pub placed : Placed s.nhash 0 chains
  pub count : length chains ≡ s.nhash
  pub base : s.hashoff ≡ hash_off
  pub some_chain : 0 < s.nhash

unfoldable pub chain_at : ℕ → List (List Entry) → List Entry
chain_at h [] = []
chain_at zero (l ∷ ls) = l
chain_at (suc h) (l ∷ ls) = chain_at h ls

-- What the database holds under a key.
unfoldable pub stored_at : ℕ → List (List Entry) → Bytes → Option Bytes
unfolding chain_at lookup
stored_at n chains key = lookup key (chain_at (home n key) chains)

-- A map with one key set, or removed.
unfoldable pub update : (Bytes → Option Bytes) → Bytes → Option Bytes → Bytes → Option Bytes
update m key v key' = if str_eq key' key then v else m key'

pub update_same :
    (m : Bytes → Option Bytes) (key : Bytes) (v : Option Bytes)
    → m key ≡ v
    → (k : Bytes) → update m key v k ≡ m k
unfolding update
update_same m key v h k = elim (Bool-cases (str_eq k key)) [
  | inl same ↦ rw same (sym h ∙ ap m (sym (eq_of_str_eq k key same)))
  | inr other ↦ rw other
]

pub chain_at-middle :
    (cs : List (List Entry)) (l : List Entry) (bs : List (List Entry))
    → chain_at (length cs) (cs ++ l ∷ bs) ≡ l
unfolding chain_at
chain_at-middle [] l bs = refl
chain_at-middle (c ∷ cs) l bs = chain_at-middle cs l bs

chain_at-other :
    (h : ℕ) (cs : List (List Entry)) (l m : List Entry) (bs : List (List Entry))
    → h ≢ length cs
    → chain_at h (cs ++ l ∷ bs) ≡ chain_at h (cs ++ m ∷ bs)
unfolding chain_at
chain_at-other zero [] l m bs ne = absurd (ne refl)
chain_at-other (suc h) [] l m bs ne = refl
chain_at-other zero (c ∷ cs) l m bs ne = refl
chain_at-other (suc h) (c ∷ cs) l m bs ne = chain_at-other h cs l m bs (λ e. ne (ap suc e))

-- The lists before and behind the chain of a hash.
pub chain_split :
    (h : ℕ) (ls : List (List Entry))
    → h < length ls
    → (cs : List (List Entry)) × (l : List Entry) × (bs : List (List Entry)) × (ls ≡ cs ++ l ∷ bs)
      × (length cs ≡ h)
chain_split h [] k = absurd (omega arith)
chain_split zero (l ∷ ls) k = ([], l, ls, refl, refl)
chain_split (suc h) (l ∷ ls) k =
    let (cs, m, bs, e, n) = chain_split h ls (omega arith) in
    (l ∷ cs, m, bs, ap (λ t. l ∷ t) e, ap suc n)

pub Placed-split :
    (n i : ℕ) (cs : List (List Entry)) (l : List Entry) (bs : List (List Entry))
    → Placed n i (cs ++ l ∷ bs)
    → All (λ e. home n e.key ≡ i + length cs) l × Unique l
Placed-split n i [] l bs (h, (u, rest)) =
    let e : i ≡ i + 0 = omega arith in (subst (λ k. All (λ d. home n d.key ≡ k) l) e h, u)
Placed-split n i (c ∷ cs) l bs (h, (u, rest)) =
    let (home_l, u_l) = Placed-split n (i + 1) cs l bs rest in
    let e : i + 1 + length cs ≡ i + length (c ∷ cs) = omega arith in
    (subst (λ k. All (λ d. home n d.key ≡ k) l) e home_l, u_l)

pub Placed-swap :
    (n i : ℕ) (cs : List (List Entry)) (l m : List Entry) (bs : List (List Entry))
    → Placed n i (cs ++ l ∷ bs)
    → All (λ e. home n e.key ≡ i + length cs) m
    → Unique m
    → Placed n i (cs ++ m ∷ bs)
Placed-swap n i [] l m bs (h, (u, rest)) hm um =
    let e : i + 0 ≡ i = omega arith in (subst (λ k. All (λ d. home n d.key ≡ k) m) e hm, (um, rest))
Placed-swap n i (c ∷ cs) l m bs (h, (u, rest)) hm um =
    let e : i + length (c ∷ cs) ≡ i + 1 + length cs = omega arith in
    (
      h,
      (
        u,
        Placed-swap n (i + 1) cs l m bs rest (subst (λ k. All (λ d. home n d.key ≡ k) m) e hm) um,
      ),
    )

-- A change of one chain that sets one key of it.
pub update-stored_at :
    (n : ℕ) (key : Bytes) (v : Option Bytes) (cs : List (List Entry)) (l m : List Entry)
    (bs : List (List Entry))
    → home n key ≡ length cs
    → lookup key m ≡ v
    → ((k : Bytes) → k ≢ key → lookup k m ≡ lookup k l)
    → (k : Bytes) → stored_at n (cs ++ m ∷ bs) k ≡ update (stored_at n (cs ++ l ∷ bs)) key v k
unfolding stored_at update
update-stored_at n key v cs l m bs h here others k = elim (Bool-cases (str_eq k key)) [
  | inl same ↦
      let e = eq_of_str_eq k key same in
      rw same (
        ap (λ q. lookup q (chain_at (home n q) (cs ++ m ∷ bs))) e
        ∙ ap (λ i. lookup key (chain_at i (cs ++ m ∷ bs))) h
        ∙ ap (lookup key) (chain_at-middle cs m bs)
        ∙ here)
  | inr other ↦ rw other (elim (Bool-cases (home n k == length cs)) [
    | inl mine ↦
        let e : home n k ≡ length cs = ground arith in
        ap (λ i. lookup k (chain_at i (cs ++ m ∷ bs))) e
        ∙ ap (lookup k) (chain_at-middle cs m bs)
        ∙ others k (ne_of_miss k key other)
        ∙ sym (ap (lookup k) (chain_at-middle cs l bs))
        ∙ sym (ap (λ i. lookup k (chain_at i (cs ++ l ∷ bs))) e)
    | inr away ↦
        let ne : home n k ≢ length cs = ground arith in
        ap (lookup k) (chain_at-other (home n k) cs m l bs ne)
  ])
]

pub stored_at-middle :
    (n : ℕ) (key : Bytes) (cs : List (List Entry)) (l : List Entry) (bs : List (List Entry))
    → home n key ≡ length cs
    → stored_at n (cs ++ l ∷ bs) key ≡ lookup key l
unfolding stored_at
stored_at-middle n key cs l bs h =
    ap (λ i. lookup key (chain_at i (cs ++ l ∷ bs))) h ∙ ap (lookup key) (chain_at-middle cs l bs)

-- A record that is put into a chain, or taken out of it, is seen under its own key alone.
pub lookup-put_in :
    (k : Bytes) (xs : List Entry) (e : Entry) (ys : List Entry)
    → e.key ≢ k
    → lookup k (xs ++ e ∷ ys) ≡ lookup k (xs ++ ys)
unfolding lookup
lookup-put_in k [] e ys ne = elim (Bool-cases (str_eq e.key k)) [
  | inl same ↦ absurd (ne (eq_of_str_eq e.key k same))
  | inr other ↦ rw other
]
lookup-put_in k (x ∷ xs) e ys ne = rw (lookup-put_in k xs e ys ne)

pub Unique-take_out :
    (xs : List Entry) (e : Entry) (ys : List Entry)
    → Unique (xs ++ e ∷ ys)
    → Misses e.key (xs ++ ys) × Unique (xs ++ ys)
Unique-take_out [] e ys (o, u) = (o, u)
Unique-take_out (x ∷ xs) e ys (o, u) =
    let (mine, rest) = All-take_out (λ d. d.key ≢ x.key) xs e ys o in
    let (out, others) = Unique-take_out xs e ys u in (((λ i. mine (sym i)), out), (rest, others))

-- The keys of a chain stay when the data of a record change.
pub Unique-same_key :
    (xs : List Entry) (e d : Entry) (ys : List Entry)
    → e.key ≡ d.key
    → Unique (xs ++ e ∷ ys)
    → Unique (xs ++ d ∷ ys)
Unique-same_key [] e d ys h (o, u) = (subst (λ k. All (λ c. c.key ≢ k) ys) h o, u)
Unique-same_key (x ∷ xs) e d ys h (o, u) =
    let (mine, rest) = All-take_out (λ c. c.key ≢ x.key) xs e ys o in
    (
      All-put_in (λ c. c.key ≢ x.key) xs d ys (subst (λ k. k ≢ x.key) h mine) rest,
      Unique-same_key xs e d ys h u,
    )
