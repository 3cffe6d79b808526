-- ===== src/Db/State.antt =====
-- The `DB` structure of db/db.c with the two files behind its descriptors, and the commands on it.
-- `disk.at` is the offset of `idxfd`; `datfd` is always positioned before it is used. A buffer is the
-- C string that it holds. Locks are recorded in the order of the calls; a call that blocks is granted.
use apue_2e.Base.{ℕ, ◌+◌, ◌%◌, ◌^◌, Bool, true, false, List, [], ◌∷◌, ℤ, pos}
use apue_2e.Files.{Bytes}

pub data File : Type 0 where
  index_file data_file : File

-- `read_lock`, `write_lock` and `un_lock` with their offset and length; length 0 is the whole rest.
pub data LockCall : Type 0 where
  readw_lock : File → ℕ → ℕ → LockCall
  writew_lock : File → ℕ → ℕ → LockCall
  un_lock : File → ℕ → ℕ → LockCall

pub record Disk : Type 0 where
  pub idx : Bytes
  pub dat : Bytes
  pub at : ℕ
  pub locks : List LockCall

-- The part of `DB` that describes the record at hand.
pub record Cursor : Type 0 where
  pub idxbuf : Bytes
  pub datbuf : Bytes
  pub idxoff : ℕ
  pub idxlen : ℕ
  pub datoff : ℕ
  pub datlen : ℕ
  pub ptrval : ℤ
  pub ptroff : ℕ
  pub chainoff : ℕ

pub record Counts : Type 0 where
  pub delok : ℕ
  pub delerr : ℕ
  pub fetchok : ℕ
  pub fetcherr : ℕ
  pub nextrec : ℕ
  pub stor1 : ℕ
  pub stor2 : ℕ
  pub stor3 : ℕ
  pub stor4 : ℕ
  pub storerr : ℕ

pub record Db : Type 0 where
  pub disk : Disk
  pub cur : Cursor
  pub counts : Counts
  pub hashoff : ℕ
  pub nhash : ℕ

-- `err_dump` aborts and `err_quit` exits; `spinning` is a loop over a chain that has no end.
pub data Stop : Type 0 where
  err_dump err_quit spinning : Stop

pub data Run (A : Type 0) : Type 0 where
  ok : A → Db → Run A
  stop : Stop → Run A

abbrev pub Cmd : Type 0 → Type 0
Cmd A = Db → Run A

abbrev pub pure : {A : Type 0} → A → Cmd A
pure = ok

abbrev pub die : {A : Type 0} → Stop → Cmd A
die e s = stop e

module _ {A B : Type 0} where
  abbrev pub and_then : Run A → (A → Cmd B) → Run B
  and_then (ok a s) k = k a s
  and_then (stop e) k = stop e

  infixl 5 ◌>>=◌ ◌>>◌
  abbrev pub ◌>>=◌ : Cmd A → (A → Cmd B) → Cmd B
  m >>= k = λ s. and_then (m s) k

  abbrev pub ◌>>◌ : Cmd A → Cmd B → Cmd B
  m >> n = m >>= λ _. n

abbrev pub get : Cmd Db
get s = ok s s

abbrev pub modify_disk : (Disk → Disk) → Cmd (Unit {0})
modify_disk f s = ok tt (record s { disk = f s.disk })

abbrev pub modify_cur : (Cursor → Cursor) → Cmd (Unit {0})
modify_cur f s = ok tt (record s { cur = f s.cur })

abbrev pub modify_counts : (Counts → Counts) → Cmd (Unit {0})
modify_counts f s = ok tt (record s { counts = f s.counts })

-- if (test) err_…
abbrev pub fail_if : Bool → Stop → Cmd (Unit {0})
fail_if true e s = stop e
fail_if false e s = ok tt s

abbrev pub lock : LockCall → Cmd (Unit {0})
lock c = modify_disk (λ d. record d { locks = c ∷ d.locks })

-- `COUNT` is `unsigned long`.
abbrev pub bump : ℕ → ℕ
bump n = (n + 1) % 2 ^ 64

abbrev pub ptr_sz : ℕ
ptr_sz = 6

abbrev pub ptr_max : ℕ
ptr_max = 999999

abbrev pub idxlen_sz : ℕ
idxlen_sz = 4

abbrev pub nhash_def : ℕ
nhash_def = 137

abbrev pub free_off : ℕ
free_off = 0

abbrev pub hash_off : ℕ
hash_off = ptr_sz

abbrev pub idxlen_min : ℕ
idxlen_min = 6

abbrev pub idxlen_max : ℕ
idxlen_max = 1024

abbrev pub datlen_min : ℕ
datlen_min = 2

abbrev pub datlen_max : ℕ
datlen_max = 1024

abbrev pub sep : ℕ
sep = b':'

abbrev pub space : ℕ
space = b' '

abbrev pub newline : ℕ
newline = 10

-- `_db_alloc`: `calloc` clears the structure; the two files are those behind the descriptors.
unfoldable pub alloc : Bytes → Bytes → Db
alloc idx dat = record {
  disk = record { idx = idx; dat = dat; at = 0; locks = [] };
  cur = record {
    idxbuf = [];
    datbuf = [];
    idxoff = 0;
    idxlen = 0;
    datoff = 0;
    datlen = 0;
    ptrval = pos 0;
    ptroff = 0;
    chainoff = 0;
  };
  counts = record {
    delok = 0;
    delerr = 0;
    fetchok = 0;
    fetcherr = 0;
    nextrec = 0;
    stor1 = 0;
    stor2 = 0;
    stor3 = 0;
    stor4 = 0;
    storerr = 0;
  };
  hashoff = 0;
  nhash = 0;
}
