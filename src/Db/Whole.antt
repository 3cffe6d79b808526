-- ===== src/Db/Whole.antt =====
-- The two files of db/db.c as a whole: the free list and the hash chains, which share no byte. List 0
-- is the free list and list `h + 1` the chain of hash `h`; the pointer to list `i` is the `i`th of the
-- index file.
pub mod Lists
pub mod Moves
pub mod Enter
pub mod Map
pub mod Delete
pub mod Append
pub mod Writes
pub mod Refine
pub mod Remove
pub mod Insert
pub mod Replace
pub mod Put
pub mod Fresh
use apue_2e.Base.{ℕ, ◌+◌, ◌*◌, ◌≤◌, ◌≡◌, List, [], ◌∷◌, ◌++◌, All, length}
use apue_2e.Files.{Bytes}
use apue_2e.Db.State.{ptr_sz, ptr_max}
use apue_2e.Db.Fields.RoundTrip.{NoNull}
use apue_2e.Db.Index.{print_record}
use apue_2e.Db.Index.RoundTrip.{Fits}
use apue_2e.Db.Layout.{Entry, PtrAt, head_of, Links, AllData}
use apue_2e.Db.Layout.Front.{SeparateAll, Pairwise}

-- All records, in the order of the lists.
abbrev pub records : List (List Entry) → List Entry
records [] = []
records (l ∷ ls) = l ++ records ls

-- The pointers from `p` on lead through the lists.
abbrev pub Trails : Bytes → ℕ → List (List Entry) → Type 0
Trails f p [] = Unit
Trails f p (l ∷ ls) = PtrAt f p (head_of l) × Links f l × Trails f (p + ptr_sz) ls

-- What the library wrote: the lengths are those of the key and the data, and within its limits.
pub record IsWhole (e : Entry) : Type 0 where
  pub fits : Fits e.key e.datoff e.datlen
  pub size : e.idxlen ≡ length (print_record e.key e.datoff e.datlen)
  pub line : e.datlen ≡ length e.text + 1
  pub clean : NoNull e.text
  pub near : e.off ≤ ptr_max

pub record Holds (f g : Bytes) (ls : List (List Entry)) : Type 0 where
  pub trails : Trails f 0 ls
  pub behind : All (λ e. length ls * ptr_sz ≤ e.off) (records ls)
  pub data_records : AllData g (records ls)
  pub whole : All IsWhole (records ls)
  pub apart : Pairwise (records ls)

-- Room for a record that stands in no list.
pub record Room (ls : List (List Entry)) (e : Entry) : Type 0 where
  pub apart : SeparateAll e (records ls)
  pub behind : length ls * ptr_sz ≤ e.off
