-- ===== src/Db/Fields/RoundTrip.antt =====
-- Chain pointers and data records are read back as they were written; the hash is in range.
use native.Mathlib.Nat.{mod-lt}
use apue_2e.Base.{
  ℕ, ◌+◌, ◌-◌, ◌≤◌, ◌<◌, ◌≡◌, ◌≢◌, refl, ap, ◌∙◌, sym, [], append-nil, ltb_ge, eq_refl, ◌∷◌, ◌++◌,
  arith, suc, zero, pos, length, take, All, replicate, length-append, take-append, take_all,
}
use apue_2e.Files.{Bytes, read_at, write_at}
use apue_2e.Files.Frame.{read_at-write_at, le-length-write_at, length-read_at}
use apue_2e.CText.{cstr, atol, padded, decimal}
use apue_2e.CText.RoundTrip.{
  IsDigit, All-append, atol-padded, length-padded, decimal-IsDigit, cstr-All,
}
use apue_2e.Db.State.{Db, ok, ◌>>◌, ptr_sz, ptr_max, newline, data_file, un_lock, writew_lock}
use apue_2e.Db.Fields.{hash, readptr, writeptr, byte_at, readdat, writedat, seek_set, seek_end}
use apue_2e.Db.Layout.{Entry, PtrAt, DataAt}

-- A C string holds no null byte.
abbrev pub NoNull : Bytes → Type 0
NoNull s = All (λ c. c ≢ 0) s

digits-NoNull : (s : Bytes) → All IsDigit s → NoNull s
digits-NoNull [] h = tt
digits-NoNull (c ∷ s) (p, h) = (omega arith, digits-NoNull s h)

pub blanks-NoNull : (n : ℕ) → NoNull (replicate n b' ')
blanks-NoNull zero = tt
blanks-NoNull (suc n) = (omega arith, blanks-NoNull n)

pub decimal-NoNull : (n : ℕ) → NoNull (decimal n)
decimal-NoNull n = digits-NoNull (decimal n) (decimal-IsDigit n)

pub padded-NoNull : (w n : ℕ) → NoNull (padded w n)
unfolding padded
padded-NoNull w n =
    All-append (λ c. c ≢ 0) (replicate (w - length (decimal n)) b' ') _ (blanks-NoNull _)
      (decimal-NoNull n)

-- The state with `idxfd` positioned.
abbrev pub seek : Db → ℕ → Db
seek s off = record s { disk = record (s.disk) { at = off } }

-- The state after a write to the index file.
abbrev pub put_index : Db → ℕ → Bytes → Db
put_index s off bs = record s {
  disk = record (s.disk) { idx = write_at s.disk.idx off bs; at = off + length bs };
}

pub readptr_lem :
    (s : Db) {off v : ℕ}
    → PtrAt s.disk.idx off v
    → readptr off s ≡ ok (pos v) (seek s (off + ptr_sz))
unfolding readptr
readptr_lem s {off} h = rw (length-read_at s.disk.idx off ptr_sz h.inside, h.value)

pub PtrAt-padded :
    (f : Bytes) (off p : ℕ) → p ≤ ptr_max → PtrAt (write_at f off (padded ptr_sz p)) off p
PtrAt-padded f off p h =
    let size = length-padded 5 p (omega arith) in
    record {
      inside = omega (arith, size, le-length-write_at f off (padded ptr_sz p));
      value =
          ap (λ n. atol (cstr (read_at (write_at f off (padded ptr_sz p)) off n))) (sym size)
          ∙ ap (λ t. atol (cstr t)) (read_at-write_at f off (padded ptr_sz p))
          ∙ ap atol (cstr-All (padded ptr_sz p) (padded-NoNull ptr_sz p))
          ∙ ap atol (sym (append-nil (padded ptr_sz p)))
          ∙ atol-padded ptr_sz p [] tt;
    }

take-padded : (w p : ℕ) → length (padded w p) ≡ w → take w (padded w p) ≡ padded w p
take-padded w p size = ap (λ n. take n (padded w p)) (sym size) ∙ take_all (padded w p)

pub writeptr_lem :
    (s : Db) (off p : ℕ)
    → p ≤ ptr_max
    → writeptr off (pos p) s ≡ ok tt (put_index s off (padded ptr_sz p))
unfolding writeptr
writeptr_lem s off p h =
    let size = length-padded 5 p (omega arith) in
    rw (ltb_ge ptr_max p h, take-padded ptr_sz p size, size)

-- A chain pointer up to `PTR_MAX` is written, and read back as it was; nothing else of the file is touched.
pub readptr-writeptr :
    (s : Db) (off p : ℕ)
    → p ≤ ptr_max
    → (writeptr off (pos p) >> readptr off) s ≡ ok (pos p) (put_index s off (padded ptr_sz p))
readptr-writeptr s off p h =
    let size = length-padded 5 p (omega arith) in
    rw (
      writeptr_lem s off p h,
      readptr_lem (put_index s off (padded ptr_sz p)) (PtrAt-padded s.disk.idx off p h),
      size,
    )

-- The hash of a key is an index of the hash table.
pub hash-lt : (s : Db) (key : Bytes) → 0 < s.nhash → hash s key < s.nhash
unfolding hash
hash-lt s key h = grind (arith, mod-lt)

byte_at-append : (s : Bytes) (c : ℕ) (t : Bytes) → byte_at (s ++ c ∷ t) (length s) ≡ c
unfolding byte_at
byte_at-append [] c t = refl
byte_at-append (x ∷ s) c t = byte_at-append s c t

-- A line is what stands before its newline, if that has no null byte.
pub line_text : (s : Bytes) → NoNull s → cstr (take (length s) (s ++ newline ∷ [])) ≡ s
line_text s h = rw (take-append s (newline ∷ [])) (cstr-All s h)

pub line_ends : (s : Bytes) → byte_at (s ++ newline ∷ []) (length s) ≡ newline
line_ends s = byte_at-append s newline []

pub length-line : (s : Bytes) → length (s ++ newline ∷ []) ≡ length s + 1
length-line s = length-append s (newline ∷ [])

-- The state behind `_db_readdat`.
abbrev pub with_datbuf : Db → Bytes → Db
with_datbuf s text = record s { cur = record (s.cur) { datbuf = text } }

pub readdat_lem :
    (s : Db) (e : Entry)
    → DataAt s.disk.dat e
    → s.cur.datoff ≡ e.datoff
    → s.cur.datlen ≡ e.datlen
    → readdat s ≡ ok e.text (with_datbuf s e.text)
unfolding readdat
readdat_lem s e h o l =
    rw (o, l)
      (rw (length-read_at s.disk.dat e.datoff e.datlen h.inside, eq_refl e.datlen, h.ends, h.text))

-- The state behind `_db_writedat` without its locks.
abbrev pub put_data : Db → Bytes → ℕ → Db
put_data s text offset = record s {
  disk = record (s.disk) { dat = write_at s.disk.dat offset (text ++ newline ∷ []) };
  cur = record (s.cur) { datoff = offset; datlen = length text + 1 };
}

pub DataAt-line :
    (g : Bytes) (e : Entry)
    → NoNull e.text
    → e.datlen ≡ length e.text + 1
    → DataAt (write_at g e.datoff (e.text ++ newline ∷ [])) e
DataAt-line g e h l =
    let size = l ∙ sym (length-line e.text) in
    let line =
      ap (λ n. read_at (write_at g e.datoff (e.text ++ newline ∷ [])) e.datoff n) size
      ∙ read_at-write_at g e.datoff (e.text ++ newline ∷ []) in
    let short : e.datlen - 1 ≡ length e.text = omega arith in
    record {
      inside = omega (arith, size, le-length-write_at g e.datoff (e.text ++ newline ∷ []));
      ends = rw (line, short) (line_ends e.text);
      text = rw (line, short) (line_text e.text h);
    }

-- What `_db_writedat` writes over a record, `_db_readdat` returns, at any offset.
pub readdat-writedat :
    (s : Db) (text : Bytes) (offset : ℕ)
    → NoNull text
    → (writedat text (seek_set offset) >> readdat) s
      ≡ ok text (with_datbuf (put_data s text offset) text)
unfolding writedat
readdat-writedat s text offset h =
    let e : Entry = record {
      off = 0;
      idxlen = 0;
      key = [];
      datoff = offset;
      datlen = length text + 1;
      text = text;
    } in
    readdat_lem (put_data s text offset) e (DataAt-line s.disk.dat e h refl) refl refl

-- The state behind `_db_writedat` at the end of the file, with its locks.
abbrev pub append_data : Db → Bytes → Db
append_data s text = record s {
  disk = record (s.disk) {
    dat = write_at s.disk.dat (length s.disk.dat) (text ++ newline ∷ []);
    locks = un_lock data_file 0 0 ∷ writew_lock data_file 0 0 ∷ s.disk.locks;
  };
  cur = record (s.cur) { datoff = length s.disk.dat; datlen = length text + 1 };
}

pub writedat_end : (s : Db) (text : Bytes) → writedat text seek_end s ≡ ok tt (append_data s text)
unfolding writedat
writedat_end s text = refl
