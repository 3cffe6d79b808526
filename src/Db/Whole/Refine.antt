-- ===== src/Db/Whole/Refine.antt =====
-- `db_fetch` and `db_delete` on a whole database: what they do to the map that it represents.
use apue_2e.Base.{
  ℕ, ◌+◌, ◌*◌, ◌<◌, ◌≤◌, ◌≡◌, ◌≢◌, refl, ap, sym, ◌∙◌, subst, subst₂, List, ◌∷◌, ◌++◌, arith, All,
  length-append, Bool, true, false, Option, none, some, length, if◌then◌else◌, str_eq,
}
use native.Mathlib.Nat.{mod-lt}
use apue_2e.Files.{Bytes}
use apue_2e.Db.State.{Db, ptr_sz}
use apue_2e.Db.Fields.{hash}
use apue_2e.Db.Layout.{Entry, PtrAt, DataAt, head_of, Links, AllData, lookup}
use apue_2e.Db.Returns
use apue_2e.Db.Returns.{Returns, returns}
use apue_2e.Db.Calls.{fetch}
use apue_2e.Db.Calls.Fetch.{fetch-lookup}
use apue_2e.Db.Whole.{records, Holds}
use apue_2e.Db.Whole.Lists.{records-append, length_lists, Trails-split}
use apue_2e.Db.Whole.Moves.{slot, spread}
use apue_2e.Db.Whole.Map.{
  home, hash-home, Unique, Placed, IsDb, stored_at, update, chain_split, Placed-split, Placed-swap,
  update-stored_at, stored_at-middle,
}

-- The database holds exactly what the map says.
pub record Represents (s : Db) (m : Bytes → Option Bytes) : Type 0 where
  pub frees : List Entry
  pub chains : List (List Entry)
  pub db : IsDb s frees chains
  pub reads : (k : Bytes) → stored_at s.nhash chains k ≡ m k

-- The number of its records, the free ones too.
abbrev pub size : {s : Db} {m : Bytes → Option Bytes} → Represents s m → ℕ
size r = length (records (r.frees ∷ r.chains))

unfoldable pub is_there : {A : Type 0} → Option A → Bool
is_there none = false
is_there (some a) = true

pub IsDb-same :
    {s t : Db} {frees : List Entry} {chains : List (List Entry)}
    → IsDb s frees chains
    → t.disk.idx ≡ s.disk.idx
    → t.disk.dat ≡ s.disk.dat
    → t.hashoff ≡ s.hashoff
    → t.nhash ≡ s.nhash
    → IsDb t frees chains
IsDb-same {s} {t} {frees} {chains} db i d o n = record {
  holds = subst₂ (λ f g. Holds f g (frees ∷ chains)) (sym i) (sym d) db.holds;
  placed = subst (λ k. Placed k 0 chains) (sym n) db.placed;
  count = db.count ∙ sym n;
  base = o ∙ db.base;
  some_chain = omega (arith, n, db.some_chain);
}

module _ (s : Db) (frees : List Entry) (cs : List (List Entry)) (l : List Entry)
    (bs : List (List Entry)) (db : IsDb s frees (cs ++ l ∷ bs)) (key : Bytes)
    (here : home s.nhash key ≡ length cs) where
  pub off_slot : hash s key * ptr_sz + s.hashoff ≡ slot (frees ∷ cs)
  off_slot = omega (arith, hash-home s key, here, db.base)

  pub trail : PtrAt s.disk.idx (slot (frees ∷ cs)) (head_of l) × Links s.disk.idx l
  trail =
      let (_, back) = Trails-split s.disk.idx 0 (frees ∷ cs) (l ∷ bs) db.holds.trails in
      (back.0, back.1)

  pub chain_head : PtrAt s.disk.idx (hash s key * ptr_sz + s.hashoff) (head_of l)
  chain_head = subst (λ o. PtrAt s.disk.idx o (head_of l)) (sym off_slot) trail.0

  pub chain-Links : Links s.disk.idx l
  chain-Links = trail.1

  pub chain_data : AllData s.disk.dat l
  chain_data = (spread (DataAt s.disk.dat) (frees ∷ cs) l bs db.holds.data_records).1.0

  pub chain_short : length l ≤ length (records (frees ∷ (cs ++ l ∷ bs)))
  chain_short = omega (
    arith,
    ap length (records-append (frees ∷ cs) (l ∷ bs)),
    length-append {0} (records (frees ∷ cs)) (l ++ records bs),
    length-append {0} l (records bs),
  )

  pub chain_Unique : Unique l
  chain_Unique = (Placed-split s.nhash 0 cs l bs db.placed).1

pub Represents-same :
    {s t : Db} {m : Bytes → Option Bytes} (r : Represents s m)
    → t.disk.idx ≡ s.disk.idx
    → t.disk.dat ≡ s.disk.dat
    → t.hashoff ≡ s.hashoff
    → t.nhash ≡ s.nhash
    → (r' : Represents t m) × (size r' ≡ size r)
Represents-same r i d o n = (
  record {
    frees = r.frees;
    chains = r.chains;
    db = IsDb-same r.db i d o n;
    reads = λ k. ap (λ q. stored_at q r.chains k) n ∙ r.reads k;
  },
  refl,
)

-- A statement about the lists, at the place of the chain of a key.
pub with_chain :
    (s : Db) (frees : List Entry) (chains : List (List Entry)) (key : Bytes)
    (P : List (List Entry) → Type 0)
    → IsDb s frees chains
    → ((cs : List (List Entry)) (l : List Entry) (bs : List (List Entry))
        → home s.nhash key ≡ length cs
        → IsDb s frees (cs ++ l ∷ bs)
        → P (cs ++ l ∷ bs))
    → P chains
with_chain s frees chains key P db at =
    let low : home s.nhash key < length chains = omega (arith, mod-lt, db.some_chain, db.count) in
    let (cs, l, bs, e, n) = chain_split (home s.nhash key) chains low in
    subst P (sym e) (at cs l bs (sym n) (subst (IsDb s frees) e db))

-- On a database that represents a map, with fuel above the number of its records, `db_fetch` of a key
-- returns what the map says, stops on no error, and leaves a database that represents the same map
-- with as many records.
pub fetch-Represents :
    (fuel : ℕ) (key : Bytes) (s : Db) (m : Bytes → Option Bytes) (r : Represents s m)
    → size r < fuel
    → Returns (λ v t. (v ≡ m key) × ((r' : Represents t m) × (size r' ≡ size r))) (fetch fuel key s)
fetch-Represents fuel key s m r h =
    with_chain s r.frees r.chains key
      (λ ls.
        ((k : Bytes) → stored_at s.nhash ls k ≡ m k)
        → length (records (r.frees ∷ ls)) < fuel
        → Returns
            (λ v t.
              (v ≡ m key) × ((r' : Represents t m) × (size r' ≡ length (records (r.frees ∷ ls)))))
            (fetch fuel key s))
      r.db
      (λ cs l bs here db reads k.
        Returns.mono
          (fetch-lookup fuel key s l (omega (arith, chain_short s r.frees cs l bs db key here))
            (chain_head s r.frees cs l bs db key here) (chain-Links s r.frees cs l bs db key here)
            (chain_data s r.frees cs l bs db key here))
          (λ v t (e, f). (
            e ∙ sym (stored_at-middle s.nhash key cs l bs here) ∙ reads key,
            (
              record {
                frees = r.frees;
                chains = cs ++ l ∷ bs;
                db = IsDb-same db f.idx f.dat f.hashoff f.nhash;
                reads = λ q. ap (λ n. stored_at n (cs ++ l ∷ bs) q) f.nhash ∙ reads q;
              },
              refl,
            ),
          )))
      r.reads h

module _ (s : Db) (frees : List Entry) (cs : List (List Entry)) (l : List Entry)
    (bs : List (List Entry)) (db : IsDb s frees (cs ++ l ∷ bs)) (key : Bytes)
    (here : home s.nhash key ≡ length cs) (m : Bytes → Option Bytes)
    (reads : (k : Bytes) → stored_at s.nhash (cs ++ l ∷ bs) k ≡ m k) where
  -- The keys of the chain belong there.
  abbrev pub Homely : List Entry → Type 0
  Homely c = All (λ e. home s.nhash e.key ≡ 0 + length cs) c

  pub at_key : m key ≡ lookup key l
  at_key = sym (reads key) ∙ stored_at-middle s.nhash key cs l bs here

  pub chain_Homely : Homely l
  chain_Homely = (Placed-split s.nhash 0 cs l bs db.placed).0

  -- The chain of the key becomes `c`, which differs in what it holds under the key.
  pub set_chain-Represents :
      (u : Db) (frees' c : List Entry) (v : Option Bytes)
      → Holds u.disk.idx u.disk.dat (frees' ∷ (cs ++ c ∷ bs))
      → u.hashoff ≡ s.hashoff
      → u.nhash ≡ s.nhash
      → Homely c
      → Unique c
      → lookup key c ≡ v
      → ((k : Bytes) → k ≢ key → lookup k c ≡ lookup k l)
      → (r : Represents u (update m key v)) × (size r ≡ length (records (frees' ∷ (cs ++ c ∷ bs))))
  unfolding update
  set_chain-Represents u frees' c v h o n homes uniq mine others = (
    record {
      frees = frees';
      chains = cs ++ c ∷ bs;
      db = record {
        holds = h;
        placed =
            subst (λ k. Placed k 0 (cs ++ c ∷ bs)) (sym n)
              (Placed-swap s.nhash 0 cs l c bs db.placed homes uniq);
        count = length_lists cs c l bs ∙ db.count ∙ sym n;
        base = o ∙ db.base;
        some_chain = omega (arith, n, db.some_chain);
      };
      reads = λ k.
          ap (λ q. stored_at q (cs ++ c ∷ bs) k) n
          ∙ update-stored_at s.nhash key v cs l c bs here mine others k
          ∙ ap (λ w. if str_eq k key then v else w) (reads k);
    },
    refl,
  )
