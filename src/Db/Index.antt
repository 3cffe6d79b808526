-- ===== src/Db/Index.antt =====
-- db/db.c: reading and writing an index record.
pub mod RoundTrip
use apue_2e.Base.{
  ℕ, ◌+◌, ◌*◌, ◌-◌, List, [], ◌∷◌, ◌++◌, not, ◌&&◌, ◌||◌, ltb, ◌==◌, if◌then◌else◌, Option, none,
  some, ℤ, pos, negsuc, length, take, drop,
}
use apue_2e.Files.{Bytes, read_at, write_at}
use apue_2e.CText.{cstr, cut_at, atol, decimal, padded}
use apue_2e.Db.State.{
  index_file, writew_lock, un_lock, Db, err_dump, err_quit, Cmd, pure, die, ◌>>=◌, ◌>>◌, get,
  modify_disk, modify_cur, fail_if, lock, ptr_sz, ptr_max, idxlen_sz, idxlen_min, idxlen_max,
  datlen_max, sep, newline,
}
use apue_2e.Db.Fields.{byte_at, Whence, seek_set, seek_end}

-- `atol` into an `off_t` or a `size_t` that must not be negative.
unfoldable pub nonnegative : ℤ → Option ℕ
nonnegative (pos n) = some n
nonnegative (negsuc n) = none

-- What the three separators and the two numbers of an index record must be; the key comes first.
-- A `datlen` that is negative is huge as a `size_t`, and refused like one that is too large.
unfoldable pub check_numbers : Bytes → Option ℕ → Option ℕ → Option (Bytes × ℕ × ℕ)
check_numbers key (some datoff) (some datlen) =
    if (datlen == 0) || ltb datlen_max datlen then none else some (key, datoff, datlen)
check_numbers key datoff datlen = none

unfoldable pub parse_lengths : Bytes → Option (Bytes × Bytes) → Option (Bytes × ℕ × ℕ)
unfolding nonnegative check_numbers
parse_lengths key none = none
parse_lengths key (some (datoff, datlen)) = elim (cut_at sep datlen) [
  | none ↦ check_numbers key (nonnegative (atol datoff)) (nonnegative (atol datlen))
  | some _ ↦ none
]

unfoldable pub parse_record : Bytes → Option (Bytes × ℕ × ℕ)
unfolding parse_lengths
parse_record s = elim (cut_at sep s) [
  | none ↦ none
  | some (key, rest) ↦ parse_lengths key (cut_at sep rest)
]

-- The end of `_db_readidx`, once the separators are found.
unfoldable pub set_record : Option (Bytes × ℕ × ℕ) → Cmd (Unit {0})
set_record none = die err_dump
set_record (some (key, datoff, datlen)) =
    modify_cur (λ c. record c { idxbuf = key; datoff = datoff; datlen = datlen })

-- `_db_readidx` behind the chain pointer: the length, and the record of that length.
unfoldable pub read_record : Option ℕ → Cmd (Unit {0})
unfolding parse_record set_record byte_at
read_record none = die err_dump
read_record (some idxlen) = do
  fail_if (ltb idxlen idxlen_min || ltb idxlen_max idxlen) err_dump
  db ← get
  let line = read_at db.disk.idx db.disk.at idxlen
  fail_if (not (length line == idxlen)) err_dump
  fail_if (not (byte_at line (idxlen - 1) == newline)) err_dump
  modify_cur (λ c. record c { idxlen = idxlen })
  modify_disk (λ d. record d { at = d.at + idxlen })
  set_record (parse_record (cstr (take (idxlen - 1) line)))

-- `_db_readidx` once the ten bytes in front of the record are read.
unfoldable pub read_header : Bytes → Cmd ℤ
unfolding read_record nonnegative
read_header head = do
  modify_cur (λ c. record c { ptrval = atol (cstr (take ptr_sz head)) })
  read_record (nonnegative (atol (cstr (drop ptr_sz head))))
  db ← get
  pure db.cur.ptrval

-- `_db_readidx`: `negsuc 0`, C's -1, at the end of the file when `offset` is 0.
unfoldable pub readidx : ℕ → Cmd ℤ
unfolding read_header
readidx offset = do
  db ← get
  let start = if offset == 0 then db.disk.at else offset
  let head = read_at db.disk.idx start (ptr_sz + idxlen_sz)
  modify_cur (λ c. record c { idxoff = start })
  modify_disk (λ d. record d { at = start + length head })
  if length head == ptr_sz + idxlen_sz
      then read_header head
      else if (length head == 0) && (offset == 0)
      then pure (negsuc 0)
      else die err_dump

-- What `sprintf` puts into `idxbuf`.
unfoldable pub print_record : Bytes → ℕ → ℕ → Bytes
print_record key datoff datlen =
    key ++ (sep ∷ (decimal datoff ++ (sep ∷ (decimal datlen ++ newline ∷ []))))

-- The chain pointer and the length in front of an index record.
unfoldable pub print_header : ℕ → ℕ → Bytes
print_header ptrval len = take (ptr_sz + idxlen_sz) (padded ptr_sz ptrval ++ padded idxlen_sz len)

-- The positioned `writev` at the end of `_db_writeidx`.
unfoldable pub put_record : ℕ → ℕ → Bytes → Cmd (Unit {0})
unfolding print_header
put_record offset ptrval line = do
  modify_cur (λ c. record c { idxoff = offset })
  modify_disk (λ d. record d {
    idx = write_at d.idx offset (print_header ptrval (length line) ++ line);
    at = offset + (ptr_sz + idxlen_sz) + length line;
  })

unfoldable pub place_record : Whence → ℕ → Bytes → Cmd (Unit {0})
unfolding put_record
place_record (seek_set offset) ptrval line = put_record offset ptrval line
place_record seek_end ptrval line = do
  db ← get
  lock (writew_lock index_file ((db.nhash + 1) * ptr_sz + 1) 0)
  put_record (length db.disk.idx) ptrval line
  lock (un_lock index_file ((db.nhash + 1) * ptr_sz + 1) 0)

-- `_db_writeidx`
unfoldable pub writeidx : Bytes → Whence → ℤ → Cmd (Unit {0})
unfolding print_record place_record
writeidx key whence (negsuc n) = die err_quit
writeidx key whence (pos ptrval) = do
  fail_if (ltb ptr_max ptrval) err_quit
  db ← get
  let line = print_record key db.cur.datoff db.cur.datlen
  modify_cur (λ c. record c { ptrval = pos ptrval; idxbuf = line })
  fail_if (ltb (length line) idxlen_min || ltb idxlen_max (length line)) err_dump
  place_record whence ptrval line
