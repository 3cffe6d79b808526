-- ===== src/Db/Chain.antt =====
-- db/db.c: walking a hash chain and the free list. Each walk runs on fuel: a chain with an end is
-- walked to it on any fuel above its length, and the source runs for ever on one without.
pub mod Walk
pub mod Fit
pub mod Free
use apue_2e.Base.{
  ℕ, zero, suc, ◌+◌, ◌*◌, ◌-◌, Bool, true, false, ◌&&◌, ◌==◌, if◌then◌else◌, str_eq, Option, none,
  some, ℤ, pos, negsuc, length, replicate,
}
use apue_2e.Files.{Bytes}
use apue_2e.Db.State.{
  index_file, readw_lock, writew_lock, un_lock, Db, err_dump, spinning, Cmd, pure, die, ◌>>=◌, ◌>>◌,
  get, modify_cur, lock, ptr_sz, free_off, space,
}
use apue_2e.Db.Fields.{hash, readptr, writeptr, writedat, seek_set}
use apue_2e.Db.Index.{readidx, writeidx}

-- The loop of `_db_find_and_lock`; `lseek` refuses an offset that is negative.
unfoldable pub find_loop : ℕ → Bytes → ℤ → Cmd Bool
find_loop zero key offset = die spinning
find_loop (suc fuel) key (negsuc n) = die err_dump
find_loop (suc fuel) key (pos zero) = pure false
find_loop (suc fuel) key (pos (suc n)) = do
  nextoffset ← readidx (suc n)
  db ← get
  if str_eq db.cur.idxbuf key
      then pure true
      else do modify_cur (λ c. record c { ptroff = suc n }); find_loop fuel key nextoffset

-- `_db_find_and_lock`; `true` for a return of 0.
unfoldable pub find_and_lock : ℕ → Bytes → Bool → Cmd Bool
unfolding find_loop
find_and_lock fuel key writelock = do
  db ← get
  let chainoff = hash db key * ptr_sz + db.hashoff
  modify_cur (λ c. record c { chainoff = chainoff; ptroff = chainoff })
  lock (if writelock then writew_lock index_file chainoff 1 else readw_lock index_file chainoff 1)
  offset ← readptr chainoff
  find_loop fuel key offset

-- `_db_dodelete`
unfoldable pub dodelete : Cmd (Unit {0})
dodelete = do
  db ← get
  let datbuf = replicate (db.cur.datlen - 1) space
  let idxbuf = replicate (length db.cur.idxbuf) space
  modify_cur (λ c. record c { datbuf = datbuf; idxbuf = idxbuf })
  lock (writew_lock index_file free_off 1)
  writedat datbuf (seek_set db.cur.datoff)
  freeptr ← readptr free_off
  writeidx idxbuf (seek_set db.cur.idxoff) freeptr
  writeptr free_off (pos db.cur.idxoff)
  writeptr db.cur.ptroff db.cur.ptrval
  lock (un_lock index_file free_off 1)

-- The loop of `_db_findfree`: the offset of the chain pointer to the record found.
unfoldable pub findfree_loop : ℕ → ℕ → ℕ → ℕ → ℤ → Cmd (Option ℕ)
findfree_loop zero keylen datlen saveoffset offset = die spinning
findfree_loop (suc fuel) keylen datlen saveoffset (negsuc n) = die err_dump
findfree_loop (suc fuel) keylen datlen saveoffset (pos zero) = pure none
findfree_loop (suc fuel) keylen datlen saveoffset (pos (suc n)) = do
  nextoffset ← readidx (suc n)
  db ← get
  if (length db.cur.idxbuf == keylen) && (db.cur.datlen == datlen)
      then pure (some saveoffset)
      else findfree_loop fuel keylen datlen (suc n) nextoffset

-- The record that was found leaves the free list.
unfoldable pub unlink_free : Option ℕ → Cmd Bool
unlink_free none = pure false
unlink_free (some saveoffset) = do db ← get; writeptr saveoffset db.cur.ptrval; pure true

-- `_db_findfree`; `true` for a return of 0.
unfoldable pub findfree : ℕ → ℕ → ℕ → Cmd Bool
unfolding findfree_loop unlink_free
findfree fuel keylen datlen = do
  lock (writew_lock index_file free_off 1)
  offset ← readptr free_off
  hit ← findfree_loop fuel keylen datlen free_off offset
  found ← unlink_free hit
  lock (un_lock index_file free_off 1)
  pure found
