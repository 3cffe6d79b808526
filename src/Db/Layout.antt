-- ===== src/Db/Layout.antt =====
-- What the two files of db/db.c hold at an offset, said without the code that reads and writes them.
pub mod Frame
pub mod Front
use apue_2e.Base.{
  ℕ, ◌+◌, ◌-◌, ◌*◌, ◌≤◌, ◌≡◌, ◌≢◌, List, [], ◌∷◌, ◌++◌, Bool, str_eq, if◌then◌else◌, Option, none,
  some, ℤ, pos, All, length, take,
}
use apue_2e.Files.{Bytes, read_at}
use apue_2e.CText.{cstr, atol}
use apue_2e.Db.State.{ptr_sz, idxlen_sz, idxlen_min, idxlen_max, newline}
use apue_2e.Db.Fields.{byte_at}
use apue_2e.Db.Index.{parse_record}

-- A record of the database: where it stands in both files, its key and its data.
pub record Entry : Type 0 where
  pub off : ℕ
  pub idxlen : ℕ
  pub key : Bytes
  pub datoff : ℕ
  pub datlen : ℕ
  pub text : Bytes

-- The six bytes at an offset are the chain pointer `v`.
pub record PtrAt (f : Bytes) (off v : ℕ) : Type 0 where
  pub inside : off + ptr_sz ≤ length f
  pub value : atol (cstr (read_at f off ptr_sz)) ≡ pos v

-- Behind its chain pointer the index record of `e` stands whole.
pub record BodyAt (f : Bytes) (e : Entry) : Type 0 where
  pub inside : e.off + (ptr_sz + idxlen_sz) + e.idxlen ≤ length f
  pub len : atol (cstr (read_at f (e.off + ptr_sz) idxlen_sz)) ≡ pos e.idxlen
  pub min : idxlen_min ≤ e.idxlen
  pub max : e.idxlen ≤ idxlen_max
  pub ends : byte_at (read_at f (e.off + (ptr_sz + idxlen_sz)) e.idxlen) (e.idxlen - 1) ≡ newline
  pub fields :
      parse_record (cstr (take (e.idxlen - 1) (read_at f (e.off + (ptr_sz + idxlen_sz)) e.idxlen)))
      ≡ some (e.key, e.datoff, e.datlen)

-- The data record of `e` stands whole.
pub record DataAt (g : Bytes) (e : Entry) : Type 0 where
  pub inside : e.datoff + e.datlen ≤ length g
  pub ends : byte_at (read_at g e.datoff e.datlen) (e.datlen - 1) ≡ newline
  pub text : cstr (take (e.datlen - 1) (read_at g e.datoff e.datlen)) ≡ e.text

-- The offset that points to a list of records; 0 ends a chain.
abbrev pub head_of : List Entry → ℕ
head_of [] = 0
head_of (e ∷ es) = e.off

-- The records of a chain, each with the pointer to the next one.
abbrev pub Links : Bytes → List Entry → Type 0
Links f [] = Unit
Links f (e ∷ es) = (e.off ≢ 0) × BodyAt f e × PtrAt f e.off (head_of es) × Links f es

abbrev pub AllData : Bytes → List Entry → Type 0
AllData g es = All (DataAt g) es

-- What a chain holds under a key: its first record counts.
unfoldable pub lookup : Bytes → List Entry → Option Bytes
lookup key [] = none
lookup key (e ∷ es) = if str_eq e.key key then some e.text else lookup key es
