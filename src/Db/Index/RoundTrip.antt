-- ===== src/Db/Index/RoundTrip.antt =====
-- An index record is read back as it was written.
use apue_2e.Base.{
  ℕ, ◌+◌, ◌-◌, ◌*◌, ◌≤◌, ◌≡◌, ◌≢◌, ap, ◌∙◌, sym, [], append-nil, append_assoc, ltb_ge, eq_refl,
  ne_eq, ◌∷◌, ◌++◌, arith, some, ◌==◌, if◌then◌else◌, pos, length, take, drop, All, length-append,
  take_all, take_front, drop_front,
}
use mathlib.Core.Path.{ap₂}
use apue_2e.Files.{Bytes, read_at, write_at}
use apue_2e.Files.Frame.{
  read_front, read_back, le-length-write_at, length-read_at, take-read_at, drop-read_at,
}
use apue_2e.CText.{cstr, atol, padded, decimal}
use apue_2e.CText.RoundTrip.{
  IsDigit, All-append, atol-padded, atol-decimal, length-padded, decimal-IsDigit, cstr-All,
  cut_at-append, cut_at-none,
}
use apue_2e.Db.State.{
  Db, ok, ◌>>◌, ptr_sz, ptr_max, idxlen_sz, idxlen_min, idxlen_max, datlen_max, sep, newline,
  index_file, un_lock, writew_lock,
}
use apue_2e.Db.Fields.{byte_at, seek_set, seek_end}
use apue_2e.Db.Fields.RoundTrip.{
  NoNull, decimal-NoNull, padded-NoNull, line_ends, line_text, length-line,
}
use apue_2e.Db.Index.{parse_record, parse_lengths, readidx, print_record, print_header, writeidx}
use apue_2e.Db.Layout.{Entry, PtrAt, BodyAt}

-- The state behind `_db_readidx` of the record `e` with the chain pointer `next`.
abbrev pub loaded : Db → Entry → ℕ → Db
loaded s e next = record s {
  disk = record (s.disk) { at = e.off + (ptr_sz + idxlen_sz) + e.idxlen };
  cur = record (s.cur) {
    idxbuf = e.key;
    idxoff = e.off;
    idxlen = e.idxlen;
    datoff = e.datoff;
    datlen = e.datlen;
    ptrval = pos next;
  };
}

pub readidx_at :
    (s : Db) (offset : ℕ) (e : Entry) {next : ℕ}
    → (if offset == 0 then s.disk.at else offset) ≡ e.off
    → BodyAt s.disk.idx e
    → PtrAt s.disk.idx e.off next
    → readidx offset s ≡ ok (pos next) (loaded s e next)
unfolding readidx
readidx_at s offset e start body ptr =
    let f = s.disk.idx in
    rw (start, length-read_at f e.off (ptr_sz + idxlen_sz) (omega (arith, body.inside)))
      (rw
        (
          take-read_at f e.off ptr_sz (ptr_sz + idxlen_sz) (omega arith),
          drop-read_at f e.off ptr_sz idxlen_sz,
          ptr.value,
          body.len,
        )
        (rw
          (
            ltb_ge e.idxlen idxlen_min body.min,
            ltb_ge idxlen_max e.idxlen body.max,
            length-read_at f (e.off + (ptr_sz + idxlen_sz)) e.idxlen body.inside,
            eq_refl e.idxlen,
          )
          (rw (body.ends, body.fields))))

-- `_db_readidx` of a record that stands in the file.
pub readidx_lem :
    (s : Db) (e : Entry) {next : ℕ}
    → e.off ≢ 0
    → BodyAt s.disk.idx e
    → PtrAt s.disk.idx e.off next
    → readidx e.off s ≡ ok (pos next) (loaded s e next)
readidx_lem s e ne = readidx_at s e.off e (rw (ne_eq e.off 0 ne))

-- A key that an index record can hold: no separator in it.
abbrev pub IsKey : Bytes → Type 0
IsKey key = NoNull key × All (λ c. c ≢ sep) key

digits_no_sep : (s : Bytes) → All IsDigit s → All (λ c. c ≢ sep) s
digits_no_sep [] h = tt
digits_no_sep (c ∷ s) (p, h) = (omega arith, digits_no_sep s h)

decimal_no_sep : (n : ℕ) → All (λ c. c ≢ sep) (decimal n)
decimal_no_sep n = digits_no_sep (decimal n) (decimal-IsDigit n)

atol-decimal_whole : (n : ℕ) → atol (decimal n) ≡ pos n
atol-decimal_whole n = ap atol (sym (append-nil (decimal n))) ∙ atol-decimal n [] tt

-- An index record without its newline.
abbrev record_text : Bytes → ℕ → ℕ → Bytes
record_text key datoff datlen = key ++ (sep ∷ (decimal datoff ++ (sep ∷ decimal datlen)))

parse_record-text :
    (key : Bytes) (datoff datlen : ℕ)
    → All (λ c. c ≢ sep) key
    → 1 ≤ datlen
    → datlen ≤ datlen_max
    → parse_record (record_text key datoff datlen) ≡ some (key, datoff, datlen)
unfolding parse_record
parse_record-text key datoff datlen h low high =
    rw (cut_at-append sep key (decimal datoff ++ (sep ∷ decimal datlen)) h, parse_record)
      (rw (cut_at-append sep (decimal datoff) (decimal datlen) (decimal_no_sep datoff)) (
        rw (cut_at-none sep (decimal datlen) (decimal_no_sep datlen), parse_lengths)
          (rw (atol-decimal_whole datoff, atol-decimal_whole datlen)
            (rw (ne_eq datlen 0 (λ z. absurd (omega arith)), ltb_ge datlen_max datlen high)))))

record_text-NoNull :
    (key : Bytes) (datoff datlen : ℕ) → NoNull key → NoNull (record_text key datoff datlen)
record_text-NoNull key datoff datlen h = All-append _ key _ h (
  omega arith,
  All-append _ (decimal datoff) _ (decimal-NoNull datoff) (omega arith, decimal-NoNull datlen),
)

print_record_lem :
    (key : Bytes) (datoff datlen : ℕ)
    → print_record key datoff datlen ≡ record_text key datoff datlen ++ newline ∷ []
unfolding print_record
print_record_lem key datoff datlen = simp append_assoc

pub atol-cstr-padded : (w n : ℕ) → atol (cstr (padded w n)) ≡ pos n
atol-cstr-padded w n =
    ap atol (cstr-All (padded w n) (padded-NoNull w n) ∙ sym (append-nil (padded w n)))
    ∙ atol-padded w n [] tt

-- What `_db_writeidx` accepts, besides the pointer: the record's length and the data's.
pub record Fits (key : Bytes) (datoff datlen : ℕ) : Type 0 where
  pub is_key : IsKey key
  pub data_low : 1 ≤ datlen
  pub data_high : datlen ≤ datlen_max
  pub low : idxlen_min ≤ length (print_record key datoff datlen)
  pub high : length (print_record key datoff datlen) ≤ idxlen_max

header_size :
    (p n : ℕ)
    → p ≤ ptr_max
    → n ≤ idxlen_max
    → print_header p n ≡ padded ptr_sz p ++ padded idxlen_sz n
unfolding print_header
header_size p n hp hn =
    let size : length (padded ptr_sz p ++ padded idxlen_sz n) ≡ 10 = omega (
      arith,
      length-append {0} (padded ptr_sz p) (padded idxlen_sz n),
      length-padded 5 p (omega arith),
      length-padded 3 n (omega arith),
    ) in
    ap (λ k. take k (padded ptr_sz p ++ padded idxlen_sz n)) (sym size) ∙ take_all _

pub length-print_header : (p n : ℕ) → p ≤ ptr_max → n ≤ idxlen_max → length (print_header p n) ≡ 10
length-print_header p n hp hn =
    ap length (header_size p n hp hn)
    ∙ omega (
      arith,
      length-append {0} (padded ptr_sz p) (padded idxlen_sz n),
      length-padded 5 p (omega arith),
      length-padded 3 n (omega arith),
    )

-- The record that `_db_writeidx` puts at an offset.
abbrev pub entry : ℕ → Bytes → ℕ → ℕ → Bytes → Entry
entry off key datoff datlen text = record {
  off = off;
  idxlen = length (print_record key datoff datlen);
  key = key;
  datoff = datoff;
  datlen = datlen;
  text = text;
}

-- What a `_db_writeidx` puts into the file.
abbrev pub image : ℕ → Bytes → ℕ → ℕ → Bytes
image p key datoff datlen =
    print_header p (length (print_record key datoff datlen)) ++ print_record key datoff datlen

module _ (f : Bytes) (off p : ℕ) (key : Bytes) (datoff datlen : ℕ) (text : Bytes) (hp : p ≤ ptr_max)
    (fits : Fits key datoff datlen) where
  size : length (print_header p (length (print_record key datoff datlen))) ≡ 10
  size = length-print_header p (length (print_record key datoff datlen)) hp fits.high

  after : Bytes
  after = write_at f off (image p key datoff datlen)

  head_read : read_at after off 10 ≡ print_header p (length (print_record key datoff datlen))
  unfolding after
  head_read = ap (read_at after off) (sym size) ∙ read_front f off _ _

  line_read :
      read_at after (off + 10) (length (print_record key datoff datlen))
      ≡ print_record key datoff datlen
  unfolding after
  line_read =
      ap (λ n. read_at after (off + n) (length (print_record key datoff datlen))) (sym size)
      ∙ read_back f off _ _

  inside_after : off + 10 + length (print_record key datoff datlen) ≤ length after
  unfolding after
  inside_after = omega (
    arith,
    size,
    le-length-write_at f off (image p key datoff datlen),
    length-append {0} (print_header p (length (print_record key datoff datlen)))
        (print_record key datoff datlen),
  )

  ptr_read : read_at after off ptr_sz ≡ padded ptr_sz p
  ptr_read =
      sym (take-read_at after off 6 10 (omega arith))
      ∙ ap (take 6) (head_read ∙ header_size p _ hp fits.high)
      ∙ take_front 6 (padded ptr_sz p) _ (length-padded 5 p (omega arith))

  len_read :
      read_at after (off + ptr_sz) idxlen_sz
      ≡ padded idxlen_sz (length (print_record key datoff datlen))
  len_read =
      sym (drop-read_at after off 6 4)
      ∙ ap (drop 6) (head_read ∙ header_size p _ hp fits.high)
      ∙ drop_front 6 (padded ptr_sz p) _ (length-padded 5 p (omega arith))

  pub PtrAt-image : PtrAt (write_at f off (image p key datoff datlen)) off p
  unfolding after
  PtrAt-image = record {
    inside = omega (arith, inside_after);
    value = ap (λ t. atol (cstr t)) ptr_read ∙ atol-cstr-padded ptr_sz p;
  }

  short : length (print_record key datoff datlen) - 1 ≡ length (record_text key datoff datlen)
  short = omega (
    arith,
    ap length (print_record_lem key datoff datlen),
    length-line (record_text key datoff datlen),
  )

  pub BodyAt-image :
      BodyAt (write_at f off (image p key datoff datlen)) (entry off key datoff datlen text)
  unfolding after
  BodyAt-image = record {
    inside = inside_after;
    len = ap (λ t. atol (cstr t)) len_read ∙ atol-cstr-padded idxlen_sz _;
    min = fits.low;
    max = fits.high;
    ends =
        ap₂ byte_at (line_read ∙ print_record_lem key datoff datlen) short
        ∙ line_ends (record_text key datoff datlen);
    fields =
        ap (λ t. parse_record (cstr t))
          (ap₂ take short (line_read ∙ print_record_lem key datoff datlen))
        ∙ ap parse_record (
            line_text (record_text key datoff datlen)
              (record_text-NoNull key datoff datlen fits.is_key.0))
        ∙ parse_record-text key datoff datlen fits.is_key.1 fits.data_low fits.data_high;
  }

-- The state behind the positioned `writev` of `_db_writeidx`.
abbrev pub put_entry : Db → ℕ → ℕ → Bytes → Db
put_entry s off p key = record s {
  disk = record (s.disk) {
    idx = write_at s.disk.idx off (image p key s.cur.datoff s.cur.datlen);
    at = off + (ptr_sz + idxlen_sz) + length (print_record key s.cur.datoff s.cur.datlen);
  };
  cur = record (s.cur) {
    ptrval = pos p;
    idxbuf = print_record key s.cur.datoff s.cur.datlen;
    idxoff = off;
  };
}

-- `_db_writeidx` over a record.
pub writeidx_lem :
    (s : Db) (off p : ℕ) (key : Bytes)
    → p ≤ ptr_max
    → Fits key s.cur.datoff s.cur.datlen
    → writeidx key (seek_set off) (pos p) s ≡ ok tt (put_entry s off p key)
unfolding writeidx
writeidx_lem s off p key hp fits =
    rw (ltb_ge ptr_max p hp, ltb_ge _ idxlen_min fits.low, ltb_ge idxlen_max _ fits.high)

-- For a key without separators and nulls, data of a length that the library allows, a chain pointer of at
-- most `PTR_MAX`, and a record of a length within `IDXLEN_MIN` and `IDXLEN_MAX`: what `_db_writeidx` puts at an
-- offset other than 0 is what `_db_readidx` finds there, the chain pointer, the key, and the offset and the length
-- of the data.
pub readidx-writeidx :
    (s : Db) (off p : ℕ) (key : Bytes)
    → off ≢ 0
    → p ≤ ptr_max
    → Fits key s.cur.datoff s.cur.datlen
    → (writeidx key (seek_set off) (pos p) >> readidx off) s
      ≡ ok (pos p) (loaded (put_entry s off p key) (entry off key s.cur.datoff s.cur.datlen []) p)
readidx-writeidx s off p key ne hp fits = rw (writeidx_lem s off p key hp fits) (
    readidx_lem (put_entry s off p key) (entry off key s.cur.datoff s.cur.datlen []) ne
      (BodyAt-image s.disk.idx off p key s.cur.datoff s.cur.datlen [] hp fits)
      (PtrAt-image s.disk.idx off p key s.cur.datoff s.cur.datlen [] hp fits))

-- The state behind `_db_writeidx` at the end of the file, with its locks.
abbrev pub append_entry : Db → ℕ → Bytes → Db
append_entry s p key =
    let t = put_entry s (length s.disk.idx) p key in
    record t {
      disk = record (t.disk) {
        locks =
            un_lock index_file ((s.nhash + 1) * ptr_sz + 1) 0
            ∷ writew_lock index_file ((s.nhash + 1) * ptr_sz + 1) 0
            ∷ s.disk.locks;
      };
    }

pub writeidx_end :
    (s : Db) (p : ℕ) (key : Bytes)
    → p ≤ ptr_max
    → Fits key s.cur.datoff s.cur.datlen
    → writeidx key seek_end (pos p) s ≡ ok tt (append_entry s p key)
unfolding writeidx
writeidx_end s p key hp fits =
    rw (ltb_ge ptr_max p hp, ltb_ge _ idxlen_min fits.low, ltb_ge idxlen_max _ fits.high)
