-- ===== src/Db/Calls/Open.antt =====
-- The files that `db_open` makes hold an empty free list and 137 empty chains.
use apue_2e.Base.{
  ℕ, zero, suc, ◌+◌, ◌*◌, ◌<◌, ◌≡◌, refl, ap, sym, ◌∙◌, subst, subst₂, [], ◌∷◌, ◌++◌, append_assoc,
  true, some, none, length, take, drop, arith, length-append, take_front, drop_front,
}
use apue_2e.Files.{Bytes, read_at, write_at}
use apue_2e.CText.{cstr, atol, padded}
use apue_2e.CText.RoundTrip.{length-padded}
use apue_2e.Db.State.{Db, ptr_sz, nhash_def, free_off, hash_off, newline, alloc}
use apue_2e.Db.Fields.{hash}
use apue_2e.Db.Fields.RoundTrip.{hash-lt}
use apue_2e.Db.Index.RoundTrip.{atol-cstr-padded}
use apue_2e.Db.Layout.{PtrAt, lookup}
use apue_2e.Db.Returns
use apue_2e.Db.Returns.{Returns}
use apue_2e.Db.Calls.{zero_ptrs, init_index, rewind, open_db, fetch}
use apue_2e.Db.Calls.Fetch.{fetch-lookup}

blank_size : length (padded ptr_sz 0) ≡ 6
blank_size = length-padded 5 0 (omega arith)

length-zero_ptrs : (n : ℕ) → length (zero_ptrs n) ≡ n * 6
unfolding zero_ptrs
length-zero_ptrs zero = refl
length-zero_ptrs (suc n) =
    omega (arith, length-append {0} (padded ptr_sz 0) (zero_ptrs n), blank_size, length-zero_ptrs n)

drop-nil : (m : ℕ) → drop {A = ℕ} m [] ≡ []
drop-nil zero = refl
drop-nil (suc m) = refl

drop_more : (n m : ℕ) (f : Bytes) → drop (n + m) f ≡ drop m (drop n f)
drop_more zero m f = ap (λ k. drop k f) (omega arith)
drop_more (suc n) m [] = drop-nil (suc n + m) ∙ sym (drop-nil m)
drop_more (suc n) m (c ∷ f) =
    let e : suc n + m ≡ suc (n + m) = omega arith in ap (λ k. drop k (c ∷ f)) e ∙ drop_more n m f

read_at-zero_ptrs :
    (n i : ℕ) (r : Bytes) → i < n → read_at (zero_ptrs n ++ r) (i * 6) 6 ≡ padded ptr_sz 0
unfolding zero_ptrs read_at
read_at-zero_ptrs zero i r h = absurd (omega arith)
read_at-zero_ptrs (suc n) zero r h =
    ap (take 6) (append_assoc (padded ptr_sz 0) (zero_ptrs n) r)
    ∙ take_front 6 (padded ptr_sz 0) (zero_ptrs n ++ r) blank_size
read_at-zero_ptrs (suc n) (suc i) r h =
    let far : suc i * 6 ≡ 6 + i * 6 = omega arith in
    ap (λ k. take 6 (drop k ((padded ptr_sz 0 ++ zero_ptrs n) ++ r))) far
    ∙ ap (take 6) (drop_more 6 (i * 6) _)
    ∙ ap (λ f. take 6 (drop (i * 6) (drop 6 f))) (append_assoc (padded ptr_sz 0) (zero_ptrs n) r)
    ∙ ap (λ f. take 6 (drop (i * 6) f))
        (drop_front 6 (padded ptr_sz 0) (zero_ptrs n ++ r) blank_size)
    ∙ read_at-zero_ptrs n i r (omega arith)

-- The index file of a new database.
abbrev pub whole : Bytes
whole = zero_ptrs (nhash_def + 1) ++ newline ∷ []

pub slot : (i : ℕ) → i < 138 → PtrAt whole (i * 6) 0
slot i h = record {
  inside = omega (
    arith,
    length-append {0} (zero_ptrs (nhash_def + 1)) (newline ∷ []),
    length-zero_ptrs (nhash_def + 1),
  );
  value =
      ap (λ t. atol (cstr t)) (read_at-zero_ptrs (nhash_def + 1) i (newline ∷ []) h)
      ∙ atol-cstr-padded ptr_sz 0;
}

unfoldable pub made : Bytes → Db
unfolding alloc init_index rewind
made dat = rewind (init_index (record (alloc [] dat) { nhash = nhash_def; hashoff = hash_off }))

pub made-idx : (dat : Bytes) → (made dat).disk.idx ≡ whole
unfolding made write_at
made-idx dat = refl

head_slot :
    (db : Db) (key : Bytes)
    → db.disk.idx ≡ whole
    → db.hashoff ≡ hash_off
    → db.nhash ≡ nhash_def
    → PtrAt db.disk.idx (hash db key * ptr_sz + db.hashoff) 0
head_slot db key e o n =
    let below : hash db key < db.nhash = hash-lt db key (omega (arith, n)) in
    let i = hash db key in
    let at : (i + 1) * 6 ≡ i * ptr_sz + db.hashoff = omega (arith, o) in
    subst₂ (λ f off. PtrAt f off 0) (sym e) at (slot (i + 1) (omega (arith, below, n)))

-- On an index file that is empty `db_open` with `O_CREAT` and `O_TRUNC` returns a database whose free list
-- is empty and in which `db_fetch` finds no key, whatever the data file holds.
pub fetch-open_db :
    (fuel : ℕ) (key dat : Bytes)
    → 0 < fuel
    → (db : Db) × (open_db true (some []) (some dat) ≡ some db)
      × PtrAt db.disk.idx free_off 0
      × Returns (λ r t. r ≡ none) (fetch fuel key db)
unfolding open_db made lookup
fetch-open_db fuel key dat h = (
  made dat,
  refl,
  subst (λ f. PtrAt f 0 0) (sym (made-idx dat)) (slot 0 (omega arith)),
  Returns.mono
      (fetch-lookup fuel key (made dat) [] h (head_slot (made dat) key (made-idx dat) refl refl) tt
        tt)
      λ r t (f, _). f,
)
