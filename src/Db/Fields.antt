-- ===== src/Db/Fields.antt =====
-- db/db.c: the hash of a key, the chain pointer fields of the index file, and the data records.
pub mod RoundTrip
use apue_2e.Base.{
  ℕ, zero, suc, ◌+◌, ◌-◌, ◌*◌, ◌%◌, ◌^◌, [], ◌∷◌, ◌++◌, not, ltb, ◌==◌, if◌then◌else◌, ℤ, pos,
  negsuc, length, take,
}
use apue_2e.Files.{Bytes, read_at, write_at}
use apue_2e.CText.{cstr, atol, padded}
use apue_2e.Db.State.{
  data_file, writew_lock, un_lock, Db, err_dump, err_quit, Cmd, pure, die, ◌>>=◌, ◌>>◌, get,
  modify_disk, modify_cur, fail_if, lock, ptr_sz, ptr_max, newline,
}

-- `hval += c * i` in `unsigned long`, for a `char` that is signed.
unfoldable pub hash_step : ℕ → ℕ → ℕ → ℕ
hash_step hval c i =
    if ltb c 128 then (hval + c * i) % 2 ^ 64 else (hval + 2 ^ 64 - (256 - c) * i % 2 ^ 64) % 2 ^ 64

unfoldable pub hash_loop : ℕ → ℕ → Bytes → ℕ
unfolding hash_step
hash_loop i hval [] = hval
hash_loop i hval (c ∷ key) = hash_loop (i + 1) (hash_step hval c i) key

-- `_db_hash`
unfoldable pub hash : Db → Bytes → ℕ
unfolding hash_loop
hash db key = hash_loop 1 0 key % db.nhash

-- `_db_readptr` at an offset that is not negative.
unfoldable pub readptr : ℕ → Cmd ℤ
readptr offset = do
  db ← get
  let field = read_at db.disk.idx offset ptr_sz
  modify_disk (λ d. record d { at = offset + length field })
  fail_if (not (length field == ptr_sz)) err_dump
  pure (atol (cstr field))

-- `_db_writeptr`
unfoldable pub writeptr : ℕ → ℤ → Cmd (Unit {0})
writeptr offset (negsuc n) = die err_quit
writeptr offset (pos p) = do
  fail_if (ltb ptr_max p) err_quit
  modify_disk (λ d. record d {
    idx = write_at d.idx offset (take ptr_sz (padded ptr_sz p));
    at = offset + ptr_sz;
  })

-- the byte at an index of a buffer
unfoldable pub byte_at : Bytes → ℕ → ℕ
byte_at [] i = 0
byte_at (c ∷ s) zero = c
byte_at (c ∷ s) (suc i) = byte_at s i

-- `_db_readdat`: the buffer that is returned is `datbuf`.
unfoldable pub readdat : Cmd Bytes
unfolding byte_at
readdat = do
  db ← get
  let line = read_at db.disk.dat db.cur.datoff db.cur.datlen
  fail_if (not (length line == db.cur.datlen)) err_dump
  fail_if (not (byte_at line (db.cur.datlen - 1) == newline)) err_dump
  let text = cstr (take (db.cur.datlen - 1) line)
  modify_cur (λ c. record c { datbuf = text })
  pure text

-- The two values of `whence`, with the offset that `SEEK_SET` goes to.
pub data Whence : Type 0 where
  seek_set : ℕ → Whence
  seek_end : Whence

-- `_db_writedat`; the last byte of the record is the newline.
unfoldable pub writedat : Bytes → Whence → Cmd (Unit {0})
writedat text (seek_set offset) = do
  modify_cur (λ c. record c { datoff = offset; datlen = length text + 1 })
  modify_disk (λ d. record d { dat = write_at d.dat offset (text ++ newline ∷ []) })
writedat text seek_end = do
  lock (writew_lock data_file 0 0)
  db ← get
  let offset = length db.disk.dat
  modify_cur (λ c. record c { datoff = offset; datlen = length text + 1 })
  modify_disk (λ d. record d { dat = write_at d.dat offset (text ++ newline ∷ []) })
  lock (un_lock data_file 0 0)
