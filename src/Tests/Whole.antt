-- ===== src/Tests/Whole.antt =====
-- db/db.c as a map, at a new database and at one with a record.
use apue_2e.Base.{suc, ap, ◌≤◌, ◌≡◌, refl, sym, subst, true, Option, none, some, [], inl, arith}
use apue_2e.Files.{Bytes}
use apue_2e.CText.{codes}
use apue_2e.Db.State.{Db, alloc}
use apue_2e.Db.Returns.{Returns, returns}
use apue_2e.Db.Calls.{open_db, fetch, store, delete, db_insert, Stored, stored}
use apue_2e.Db.Whole.Map.{update}
use apue_2e.Db.Whole.Refine.{Represents, size, is_there, fetch-Represents}
use apue_2e.Db.Whole.Remove.{delete-Represents}
use apue_2e.Db.Whole.Insert.{Storable}
use apue_2e.Db.Whole.Put.{answer, after, store-Represents}
use apue_2e.Db.Whole.Fresh.{open_db-Represents}
use apue_2e.Tests.Db.{fresh, session, one, fits}

abbrev empty : Bytes → Option Bytes
empty k = none

fresh-Represents : (r : Represents fresh empty) × (size r ≡ 0)
unfolding fresh
fresh-Represents =
    let (db, made, r) = open_db-Represents [] in
    subst (λ d. (r : Represents d empty) × (size r ≡ 0))
      (sym (ap (λ o. elim o [ none ↦ alloc [] [] | some db ↦ db ]) made)) r

alpha-Storable : Storable fresh (codes "alpha") (codes "data1")
unfolding session fresh
alpha-Storable = record {
  fits = fits;
  in_range = omega arith;
  not_empty = omega arith;
  clean = (omega arith, (omega arith, (omega arith, (omega arith, (omega arith, tt)))));
}

store-Represents_example :
    Returns
      (λ rc t.
        (rc ≡ answer db_insert (is_there (empty (codes "alpha"))))
        × ((r' : Represents t (after rc (codes "alpha") (codes "data1") empty)) × (size r'
              ≤ suc (size (fresh-Represents.0)))))
      (store 9 (codes "alpha") (codes "data1") db_insert fresh)
store-Represents_example =
    store-Represents 9 (codes "alpha") (codes "data1") db_insert fresh empty fresh-Represents.0
      (omega (arith, fresh-Represents.1)) alpha-Storable (inl refl)

-- The database behind the insertion.
inserted :
    {P : Stored → Db → Type 0}
    → Returns P (store 9 (codes "alpha") (codes "data1") db_insert fresh)
    → P stored one
unfolding session fresh one
inserted (returns p) = p

open_db-Represents_example :
    (db : Db) × (open_db true (some []) (some (codes "data1")) ≡ some db)
    × ((r : Represents db (λ k. none)) × (size r ≡ 0))
open_db-Represents_example = open_db-Represents (codes "data1")

abbrev alpha_map : Bytes → Option Bytes
alpha_map = after stored (codes "alpha") (codes "data1") empty

one-Represents : (r : Represents one alpha_map) × (size r ≤ 1)
one-Represents =
    let (_, (r, n)) = inserted (
      store-Represents 9 (codes "alpha") (codes "data1") db_insert fresh empty (fresh-Represents.0)
        (omega (arith, fresh-Represents.1)) alpha-Storable (inl refl)) in
    (r, omega (arith, n, fresh-Represents.1))

fetch-Represents_example :
    Returns
      (λ v t.
        (v ≡ alpha_map (codes "alpha"))
        × ((r' : Represents t alpha_map) × (size r' ≡ size (one-Represents.0))))
      (fetch 9 (codes "alpha") one)
fetch-Represents_example =
    fetch-Represents 9 (codes "alpha") one alpha_map (one-Represents.0)
      (omega (arith, one-Represents.1))

delete-Represents_example :
    Returns
      (λ b t.
        (b ≡ is_there (alpha_map (codes "alpha")))
        × ((r' : Represents t (update alpha_map (codes "alpha") none)) × (size r'
              ≡ size (one-Represents.0))))
      (delete 9 (codes "alpha") one)
delete-Represents_example =
    delete-Represents 9 (codes "alpha") one alpha_map (one-Represents.0)
      (omega (arith, one-Represents.1))
