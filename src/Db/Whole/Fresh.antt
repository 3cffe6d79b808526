-- ===== src/Db/Whole/Fresh.antt =====
-- What `db_open` makes of an empty index file: a database that represents the empty map.
use apue_2e.Base.{
  ℕ, zero, suc, ◌+◌, ◌*◌, ◌≤◌, ◌≡◌, refl, ap, sym, subst, List, [], ◌∷◌, All, true, none, some,
  length, arith,
}
use apue_2e.Files.{Bytes}
use apue_2e.Db.State.{Db, ptr_sz, nhash_def}
use apue_2e.Db.Layout.{Entry, DataAt, lookup}
use apue_2e.Db.Layout.Front.{Pairwise}
use apue_2e.Db.Calls.{open_db}
use apue_2e.Db.Calls.Open.{whole, slot, made, made-idx}
use apue_2e.Db.Whole.{records, Trails, IsWhole}
use apue_2e.Db.Whole.Map.{home, Placed, chain_at, stored_at}
use apue_2e.Db.Whole.Refine.{Represents, size}

abbrev empties : ℕ → List (List Entry)
empties zero = []
empties (suc n) = [] ∷ empties n

records-empties : (n : ℕ) → records (empties n) ≡ []
records-empties zero = refl
records-empties (suc n) = records-empties n

length-empties : (n : ℕ) → length (empties n) ≡ n
length-empties zero = refl
length-empties (suc n) = ap suc (length-empties n)

empties-Trails : (n i : ℕ) → i + n ≤ 138 → Trails whole (i * 6) (empties n)
empties-Trails zero i h = tt
empties-Trails (suc n) i h =
    let next : suc i * 6 ≡ i * 6 + ptr_sz = omega arith in
    (
      slot i (omega arith),
      tt,
      subst (λ p. Trails whole p (empties n)) next (empties-Trails n (suc i) (omega arith)),
    )

empties-Placed : (k n i : ℕ) → Placed k i (empties n)
empties-Placed k zero i = tt
empties-Placed k (suc n) i = (tt, (tt, empties-Placed k n (i + 1)))

chain_at-empties : (h n : ℕ) → chain_at h (empties n) ≡ []
unfolding chain_at
chain_at-empties h zero = refl
chain_at-empties zero (suc n) = refl
chain_at-empties (suc h) (suc n) = chain_at-empties h n

stored_at-empties : (k n : ℕ) (key : Bytes) → stored_at k (empties n) key ≡ none
unfolding stored_at lookup
stored_at-empties k n key = ap (lookup key) (chain_at-empties (home k key) n)

-- On an index file that is empty `db_open` with `O_CREAT` and `O_TRUNC` returns a database that represents
-- the map without keys and has no record, whatever the data file holds.
pub open_db-Represents :
    (dat : Bytes)
    → (db : Db) × (open_db true (some []) (some dat) ≡ some db)
      × ((r : Represents db (λ k. none)) × (size r ≡ 0))
unfolding open_db made
open_db-Represents dat =
    let none_there = sym (records-empties nhash_def) in
    (
      made dat,
      refl,
      (
        record {
          frees = [];
          chains = empties nhash_def;
          db = record {
            holds = record {
              trails =
                  subst (λ f. Trails f 0 (empties 138)) (sym (made-idx dat))
                    (empties-Trails 138 0 (omega arith));
              behind = subst (All (λ e. length (empties 138) * ptr_sz ≤ e.off)) none_there tt;
              data_records = subst (All (DataAt (made dat).disk.dat)) none_there tt;
              whole = subst (All IsWhole) none_there tt;
              apart = subst Pairwise none_there tt;
            };
            placed = empties-Placed nhash_def nhash_def 0;
            count = length-empties nhash_def;
            base = refl;
            some_chain = omega arith;
          };
          reads = stored_at-empties nhash_def nhash_def;
        },
        ap length (records-empties nhash_def),
      ),
    )
