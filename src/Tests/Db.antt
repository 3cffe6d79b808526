-- ===== src/Tests/Db.antt =====
-- db/db.c at a new database.
use apue_2e.Base.{◌+◌, ◌*◌, ◌≡◌, refl, true, false, Option, none, some, [], ◌∷◌, str_eq, pos, arith}
use apue_2e.Files.{Bytes, read_at, write_at}
use apue_2e.CText.{cstr, cut_at, atol, padded, decimal, codes}
use apue_2e.Db.State.{Db, Cmd, Run, ok, stop, ◌>>◌, alloc, ptr_sz}
use apue_2e.Db.Fields.{hash, readptr, writeptr, readdat, writedat, seek_set}
use apue_2e.Db.Fields.RoundTrip.{put_data, with_datbuf}
use apue_2e.Db.Index.{readidx, writeidx, print_record}
use apue_2e.Db.Index.RoundTrip.{Fits, entry, loaded, put_entry, readidx-writeidx}
use apue_2e.Db.Layout.{Entry, PtrAt, Links, AllData, lookup}
use apue_2e.Db.Returns.{Returns}
use apue_2e.Db.Chain.{find_and_lock, findfree, dodelete}
use apue_2e.Db.Chain.Walk.{Same, Outcome, entered, find_and_lock-Outcome}
use apue_2e.Db.Calls.{
  open_db, fetch, fetch_found, store, store_found, store_new, store_over, delete, delete_found,
  db_insert, db_store, db_replace,
}
use apue_2e.Db.Calls.Insert.{IsChain}
use apue_2e.Db.Calls.StoreNew.{CanAppend}

-- What `db_open` makes of two empty files.
unfoldable pub fresh : Db
unfolding open_db
fresh = elim (open_db true (some []) (some [])) [ none ↦ alloc [] [] | some db ↦ db ]

answer : {A : Type 0} → Run A → Option A
answer (ok a s) = some a
answer (stop e) = none

unfoldable pub session : Cmd (Option Bytes)
unfolding read_at write_at cstr cut_at atol padded str_eq hash readptr writeptr readdat writedat
    readidx writeidx print_record find_and_lock findfree dodelete open_db fetch fetch_found delete
    delete_found store store_found store_new store_over
session = do
  store 9 (codes "alpha") (codes "data1") db_insert
  store 9 (codes "beta") (codes "Data for beta") db_store
  store 9 (codes "alpha") (codes "record1") db_replace
  delete 9 (codes "beta")
  store 9 (codes "beta") (codes "data for Beta") db_insert
  fetch 9 (codes "beta")

-- Insert, replace by a longer record, delete, insert into the freed record, fetch.
answer-session : answer (session fresh) ≡ some (some (codes "data for Beta"))
unfolding answer session fresh
answer-session = refl

pub fits : Fits (codes "alpha") 0 6
unfolding print_record decimal
fits = record {
  is_key = omega arith;
  data_low = omega arith;
  data_high = omega arith;
  low = omega arith;
  high = omega arith;
}

no_chain : CanAppend (codes "alpha") (codes "data1") [] [] fresh
unfolding session fresh
no_chain = record {
  chain = record {
    head = record { inside = omega arith; value = refl };
    links = tt;
    data_records = tt;
    behind = tt;
  };
  misses = tt;
  free = record { inside = omega arith; value = refl };
  free_links = tt;
  none_fits = tt;
  in_range = omega arith;
  fits = fits;
  not_empty = omega arith;
  clean = omega arith;
}

-- The files behind the insertion of one record.
unfoldable pub one : Db
unfolding session
one = elim (store 9 (codes "alpha") (codes "data1") db_insert fresh) [ ok r t ↦ t | stop e ↦ fresh ]

abbrev alpha : Entry
alpha = record {
  off = 829;
  idxlen = 10;
  key = codes "alpha";
  datoff = 0;
  datlen = 6;
  text = codes "data1";
}

alpha_head : PtrAt one.disk.idx (hash one (codes "alpha") * ptr_sz + one.hashoff) 829
unfolding session fresh one
alpha_head = record { inside = omega arith; value = refl }

alpha-Links : Links one.disk.idx (alpha ∷ [])
unfolding session fresh one
alpha-Links = (
  omega arith,
  record {
    inside = omega arith;
    len = refl;
    min = omega arith;
    max = omega arith;
    ends = refl;
    fields = refl;
  },
  record { inside = omega arith; value = refl },
  tt,
)

alpha_data : AllData one.disk.dat (alpha ∷ [])
unfolding session fresh one
alpha_data = (record { inside = omega arith; ends = refl; text = refl }, tt)

find_and_lock_example :
    Returns
      (λ b t.
        Same (entered one (codes "alpha") false) t
        × Outcome
            (codes "alpha")
            (hash one (codes "alpha") * ptr_sz + one.hashoff)
            (alpha ∷ [])
            t
            b)
      (find_and_lock 2 (codes "alpha") false one)
find_and_lock_example =
    find_and_lock-Outcome 2 (codes "alpha") false one (alpha ∷ []) (omega arith) alpha_head
      alpha-Links

-- A cursor with the data of one record.
abbrev ready : Db
ready = with_datbuf (put_data fresh (codes "data1") 0) []

readidx-writeidx_example :
    (writeidx (codes "alpha") (seek_set 829) (pos 0) >> readidx 829) ready
    ≡ ok
        (pos 0)
        (loaded (put_entry ready 829 0 (codes "alpha")) (entry 829 (codes "alpha") 0 6 []) 0)
readidx-writeidx_example =
    readidx-writeidx ready 829 0 (codes "alpha") (omega arith) (omega arith) fits

beta_slot : IsChain fresh (hash fresh (codes "beta") * ptr_sz + fresh.hashoff) []
unfolding session fresh one
beta_slot = record {
  head = record { inside = omega arith; value = refl };
  links = tt;
  data_records = tt;
  behind = tt;
}

ab-Fits : Fits (codes "ab") 0 6
unfolding print_record decimal
ab-Fits = record {
  is_key = omega arith;
  data_low = omega arith;
  data_high = omega arith;
  low = omega arith;
  high = omega arith;
}

ab_new : CanAppend (codes "ab") (codes "data1") [] [] fresh
unfolding session fresh one
ab_new = record {
  chain = record {
    head = record { inside = omega arith; value = refl };
    links = tt;
    data_records = tt;
    behind = tt;
  };
  misses = tt;
  free = record { inside = omega arith; value = refl };
  free_links = tt;
  none_fits = tt;
  in_range = omega arith;
  fits = ab-Fits;
  not_empty = omega arith;
  clean = omega arith;
}

alpha_there : lookup (codes "alpha") (alpha ∷ []) ≡ some (codes "data1")
unfolding session lookup
alpha_there = refl
