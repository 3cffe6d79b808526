-- ===== src/Db/Calls.antt =====
-- db/db.c: the calls of the library.
pub mod Fetch
pub mod Insert
pub mod Open
pub mod Others
pub mod Refuse
pub mod StoreNew
use apue_2e.Base.{
  ℕ, zero, suc, ◌+◌, ◌*◌, [], ◌∷◌, ◌++◌, Bool, true, false, not, ◌&&◌, ◌||◌, ltb, ◌==◌,
  if◌then◌else◌, Option, none, some, ℤ, pos, negsuc, length,
}
use apue_2e.Files.{Bytes, write_at}
use apue_2e.CText.{padded}
use apue_2e.Db.State.{
  index_file, readw_lock, writew_lock, un_lock, Db, err_dump, spinning, Cmd, pure, die, ◌>>=◌, ◌>>◌,
  get, modify_disk, modify_cur, modify_counts, fail_if, lock, bump, ptr_sz, nhash_def, free_off,
  hash_off, datlen_min, datlen_max, space, newline, alloc,
}
use apue_2e.Db.Fields.{readptr, writeptr, readdat, writedat, seek_set, seek_end}
use apue_2e.Db.Index.{readidx, writeidx}
use apue_2e.Db.Chain.{find_and_lock, dodelete, findfree}

-- `db_rewind`
unfoldable pub rewind : Db → Db
rewind db =
    let offset = (db.nhash + 1) * ptr_sz + 1 in
    record db { disk = record (db.disk) { at = offset }; cur = record (db.cur) { idxoff = offset } }

-- `n` chain pointers with the value 0
unfoldable pub zero_ptrs : ℕ → Bytes
zero_ptrs zero = []
zero_ptrs (suc n) = padded ptr_sz 0 ++ zero_ptrs n

-- The part of `db_open` for `O_CREAT | O_TRUNC`: the whole index file is locked around it.
unfoldable pub init_index : Db → Db
unfolding zero_ptrs
init_index db =
    let whole : Bytes = zero_ptrs (nhash_def + 1) ++ newline ∷ [] in
    record db {
      disk = record (db.disk) {
        idx = if length db.disk.idx == 0 then write_at db.disk.idx 0 whole else db.disk.idx;
        at = if length db.disk.idx == 0 then length whole else db.disk.at;
        locks = un_lock index_file 0 0 ∷ writew_lock index_file 0 0 ∷ db.disk.locks;
      };
    }

-- `db_open`, given the bytes behind each descriptor that `open` returned, `none` if it returned -1.
-- The flag says whether `oflag` has both `O_CREAT` and `O_TRUNC`.
unfoldable pub open_db : Bool → Option Bytes → Option Bytes → Option Db
unfolding rewind init_index alloc
open_db create (some idx) (some dat) =
    let db = record (alloc idx dat) { nhash = nhash_def; hashoff = hash_off } in
    some (rewind (if create then init_index db else db))
open_db create idx dat = none

unfoldable pub unlock_chain : Cmd (Unit {0})
unlock_chain = do db ← get; lock (un_lock index_file db.cur.chainoff 1)

-- What `db_fetch` does when `_db_find_and_lock` has returned; `none` is the null pointer.
unfoldable pub fetch_found : Bool → Cmd (Option Bytes)
fetch_found true = do
  text ← readdat
  modify_counts (λ c. record c { fetchok = bump c.fetchok })
  pure (some text)
fetch_found false = do modify_counts (λ c. record c { fetcherr = bump c.fetcherr }); pure none

-- `db_fetch`
unfoldable pub fetch : ℕ → Bytes → Cmd (Option Bytes)
unfolding unlock_chain
fetch fuel key = do
  found ← find_and_lock fuel key false
  ptr ← fetch_found found
  unlock_chain
  pure ptr

-- What `db_delete` does when `_db_find_and_lock` has returned.
unfoldable pub delete_found : Bool → Cmd (Unit {0})
delete_found true = do dodelete; modify_counts (λ c. record c { delok = bump c.delok })
delete_found false = modify_counts (λ c. record c { delerr = bump c.delerr })

-- `db_delete`; `true` for a return of 0.
unfoldable pub delete : ℕ → Bytes → Cmd Bool
unfolding unlock_chain
delete fuel key = do
  found ← find_and_lock fuel key true
  delete_found found
  unlock_chain
  pure found

abbrev pub db_insert : ℕ
db_insert = 1

abbrev pub db_replace : ℕ
db_replace = 2

abbrev pub db_store : ℕ
db_store = 3

-- What `db_store` returns: -1 with `EINVAL`, 0, -1 with `ENOENT`, 1.
pub data Stored : Type 0 where
  invalid stored missing exists : Stored

-- The record goes to the ends of both files, and to the front of its chain.
unfoldable pub append_record : Bytes → Bytes → Cmd (Unit {0})
append_record key text = do
  db ← get
  ptrval ← readptr db.cur.chainoff
  writedat text seek_end
  writeidx key seek_end ptrval
  db ← get
  writeptr db.cur.chainoff (pos db.cur.idxoff)

-- `db_store` when the key is not found and the flag is not `DB_REPLACE`.
unfoldable pub store_new : ℕ → Bytes → Bytes → Cmd (Unit {0})
store_new fuel key text = do
  db ← get
  ptrval ← readptr db.cur.chainoff
  reuse ← findfree fuel (length key) (length text + 1)
  db ← get
  writedat text (if reuse then seek_set db.cur.datoff else seek_end)
  writeidx key (if reuse then seek_set db.cur.idxoff else seek_end) ptrval
  db ← get
  writeptr db.cur.chainoff (pos db.cur.idxoff)
  modify_counts
      (λ c. if reuse then record c { stor2 = bump c.stor2 } else record c { stor1 = bump c.stor1 })

-- `db_store` when the key is found and the flag is not `DB_INSERT`.
unfoldable pub store_over : Bytes → Bytes → Cmd (Unit {0})
unfolding append_record
store_over key text = do
  db ← get
  if length text + 1 == db.cur.datlen
      then (do
        writedat text (seek_set db.cur.datoff)
        modify_counts (λ c. record c { stor4 = bump c.stor4 }))
      else (do
        dodelete
        append_record key text
        modify_counts (λ c. record c { stor3 = bump c.stor3 }))

unfoldable pub store_error : Stored → Cmd Stored
store_error rc = do modify_counts (λ c. record c { storerr = bump c.storerr }); pure rc

unfoldable pub store_found : ℕ → Bytes → Bytes → ℕ → Bool → Cmd Stored
unfolding store_new store_over store_error
store_found fuel key text flag false =
    if flag == db_replace then store_error missing else (do store_new fuel key text; pure stored)
store_found fuel key text flag true =
    if flag == db_insert then store_error exists else (do store_over key text; pure stored)

-- `db_store`
unfoldable pub store : ℕ → Bytes → Bytes → ℕ → Cmd Stored
unfolding store_found unlock_chain
store fuel key text flag =
    if not ((flag == db_insert) || (flag == db_replace) || (flag == db_store))
    then pure invalid
    else do
      fail_if (ltb (length text + 1) datlen_min || ltb datlen_max (length text + 1)) err_dump
      found ← find_and_lock fuel key true
      rc ← store_found fuel key text flag found
      unlock_chain
      pure rc

-- A key with nothing but blanks is that of a deleted record.
unfoldable pub all_blank : Bytes → Bool
all_blank [] = true
all_blank (c ∷ s) = (c == space) && all_blank s

-- The loop of `db_nextrec`: `false` at the end of the file.
unfoldable pub nextrec_loop : ℕ → Cmd Bool
unfolding all_blank
nextrec_loop zero = die spinning
nextrec_loop (suc fuel) = do
  next ← readidx 0
  db ← get
  elim next [
    | negsuc n ↦ pure false
    | pos n ↦ if all_blank db.cur.idxbuf then nextrec_loop fuel else pure true
  ]

-- `db_nextrec`: the key and the data, `none` at the end of the file.
unfoldable pub nextrec : ℕ → Cmd (Option (Bytes × Bytes))
unfolding nextrec_loop
nextrec fuel = do
  lock (readw_lock index_file free_off 1)
  more ← nextrec_loop fuel
  out ←
      (if more
        then (do
          db ← get
          text ← readdat
          modify_counts (λ c. record c { nextrec = bump c.nextrec })
          pure (some (db.cur.idxbuf, text)))
        else pure none)
  lock (un_lock index_file free_off 1)
  pure out
