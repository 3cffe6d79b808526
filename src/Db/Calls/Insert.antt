-- ===== src/Db/Calls/Insert.antt =====
-- `db_store` of a key that is not there, when no free record fits: both files grow at their ends.
use apue_2e.Base.{
  ℕ, ◌+◌, ◌*◌, ◌<◌, ◌≤◌, ◌≡◌, inl, inr, refl, sym, subst, List, [], ◌∷◌, ◌++◌, length, arith,
}
use apue_2e.Files.{Bytes, write_at}
use apue_2e.CText.{padded}
use apue_2e.CText.RoundTrip.{length-padded}
use apue_2e.Db.State.{
  Db, index_file, data_file, writew_lock, un_lock, ptr_sz, ptr_max, free_off, bump, newline,
}
use apue_2e.Db.Fields.RoundTrip.{
  NoNull, seek, put_index, readptr_lem, writeptr_lem, PtrAt-padded, append_data, writedat_end,
  DataAt-line,
}
use apue_2e.Db.Index.RoundTrip.{
  Fits, entry, image, append_entry, writeidx_end, PtrAt-image, BodyAt-image,
}
use apue_2e.Db.Layout.{Entry, PtrAt, BodyAt, DataAt, head_of, Links, AllData}
use apue_2e.Db.Layout.Frame.{
  Apart, IndexApart, PtrAt-write_at, BodyAt-write_at, Links-write_at, AllData-write_at,
  Links-IndexApart, AllData-DataApart,
}
use apue_2e.Db.Returns
use apue_2e.Db.Returns.{Returns, returns}
use apue_2e.Db.Chain.Walk.{Same}
use apue_2e.Db.Chain.Free.{NoneFits, findfree-none}
use apue_2e.Db.Calls.{store_new}

-- The record that `db_store` appends.
abbrev pub new_entry : Db → Bytes → Bytes → Entry
new_entry s key text = entry (length s.disk.idx) key (length s.disk.dat) (length text + 1) text

-- The index file with the new record at its end and its offset in the chain pointer at `off`.
abbrev pub grown_index : Db → ℕ → ℕ → Bytes → Bytes → Bytes
grown_index s off head key text =
    write_at
      (write_at s.disk.idx (length s.disk.idx)
        (image head key (length s.disk.dat) (length text + 1)))
      off (padded ptr_sz (length s.disk.idx))

abbrev pub grown_data : Db → Bytes → Bytes
grown_data s text = write_at s.disk.dat (length s.disk.dat) (text ++ newline ∷ [])

-- Every file, lock and counter that `store_new` changes.
pub record Grown (off head : ℕ) (key text : Bytes) (s t : Db) : Type 0 where
  pub idx : t.disk.idx ≡ grown_index s off head key text
  pub dat : t.disk.dat ≡ grown_data s text
  pub locks :
      t.disk.locks
      ≡ un_lock index_file ((s.nhash + 1) * ptr_sz + 1) 0
        ∷ writew_lock index_file ((s.nhash + 1) * ptr_sz + 1) 0
        ∷ un_lock data_file 0 0
        ∷ writew_lock data_file 0 0
        ∷ un_lock index_file free_off 1
        ∷ writew_lock index_file free_off 1
        ∷ s.disk.locks
  pub chainoff : t.cur.chainoff ≡ s.cur.chainoff
  pub counts : t.counts ≡ record (s.counts) { stor1 = bump s.counts.stor1 }
  pub hashoff : t.hashoff ≡ s.hashoff
  pub nhash : t.nhash ≡ s.nhash

-- The last state of `store_new`, reached from the state `t` behind `_db_findfree`.
abbrev last_state : Db → ℕ → Bytes → Bytes → Db
last_state t head key text =
    let u =
      put_index (append_entry (append_data t text) head key) t.cur.chainoff
        (padded ptr_sz (length t.disk.idx)) in
    record u { counts = record (u.counts) { stor1 = bump u.counts.stor1 } }

Grown-from :
    (s t : Db) (head : ℕ) (key text : Bytes)
    → Same
        (record s {
          disk = record (s.disk) {
            at = s.cur.chainoff + ptr_sz;
            locks =
                un_lock index_file free_off 1 ∷ writew_lock index_file free_off 1 ∷ s.disk.locks;
          };
        })
        t
    → Grown s.cur.chainoff head key text s (last_state t head key text)
Grown-from s t head key text same = record {
  idx = simp (same.idx, same.dat, same.chainoff);
  dat = simp (same.dat);
  locks = simp (same.locks, same.nhash);
  chainoff = same.chainoff;
  counts = simp (same.counts);
  hashoff = same.hashoff;
  nhash = same.nhash;
}

module _ (fuel head : ℕ) (key text : Bytes) (frees : List Entry) where
  pub store_new-Grown :
      (s : Db)
      → length frees < fuel
      → PtrAt s.disk.idx s.cur.chainoff head
      → PtrAt s.disk.idx free_off (head_of frees)
      → Links s.disk.idx frees
      → NoneFits (length key) (length text + 1) frees
      → head ≤ ptr_max
      → length s.disk.idx ≤ ptr_max
      → Fits key (length s.disk.dat) (length text + 1)
      → Returns (λ _ t. Grown s.cur.chainoff head key text s t) (store_new fuel key text s)
  unfolding store_new
  store_new-Grown s h ptr free links none_fit low high fits =
      let at_ptr = seek s (s.cur.chainoff + ptr_sz) in
      rw (readptr_lem s ptr) (
        Returns.bind
          (findfree-none fuel (length key) (length text + 1) at_ptr frees h free links none_fit)
          λ b t (no_room, same).
            let fits' = subst (λ g. Fits key (length g) (length text + 1)) (sym same.dat) fits in
            let high' = subst (λ f. length f ≤ ptr_max) (sym same.idx) high in
            rw no_room (
              rw
                (
                  writedat_end t text,
                  writeidx_end (append_data t text) head key low fits',
                  writeptr_lem (append_entry (append_data t text) head key) t.cur.chainoff
                      (length t.disk.idx) high',
                )
                (returns (Grown-from s t head key text same))))

-- A chain of the database: the pointer at `off` leads through the records `es`, whose data are stored,
-- and stands in none of them.
pub record IsChain (s : Db) (off : ℕ) (es : List Entry) : Type 0 where
  pub head : PtrAt s.disk.idx off (head_of es)
  pub links : Links s.disk.idx es
  pub data_records : AllData s.disk.dat es
  pub behind : IndexApart off ptr_sz es

pub head_le : (f : Bytes) (es : List Entry) → Links f es → head_of es ≤ length f
head_le f [] h = omega arith
head_le f (e ∷ es) (ne, body, ptr, rest) = omega (arith, body.inside)

module _ (s : Db) (off head : ℕ) (key text : Bytes) (low : head ≤ ptr_max)
    (high : length s.disk.idx ≤ ptr_max)
    (fits : Fits key (length s.disk.dat) (length text + 1)) where
  size : length (padded ptr_sz (length s.disk.idx)) ≡ ptr_sz
  size = length-padded 5 (length s.disk.idx) (omega arith)

  -- A chain that does not meet the pointer at `off` is left as it was.
  pub kept :
      (t : Db) (o : ℕ) (fs : List Entry)
      → t.disk.idx ≡ grown_index s off head key text
      → t.disk.dat ≡ grown_data s text
      → IsChain s o fs
      → Apart o ptr_sz off ptr_sz
      → IndexApart off ptr_sz fs
      → IsChain t o fs
  kept t o fs i d c apart out = record {
    head =
        subst (λ f. PtrAt f o (head_of fs)) (sym i)
          (PtrAt-write_at _ off _ (PtrAt-write_at _ _ _ c.head (inl c.head.inside))
            (subst (λ n. Apart o ptr_sz off n) (sym size) apart));
    links =
        subst (λ f. Links f fs) (sym i)
          (Links-write_at _ off _ fs
            (Links-write_at _ _ _ fs c.links (Links-IndexApart _ _ fs c.links))
            (subst (λ n. IndexApart off n fs) (sym size) out));
    data_records =
        subst (λ g. AllData g fs) (sym d)
          (AllData-write_at _ _ _ fs c.data_records (AllData-DataApart _ _ fs c.data_records));
    behind = c.behind;
  }

  -- The chain at `off` has the new record in front.
  pub fronted :
      (t : Db) (es : List Entry)
      → t.disk.idx ≡ grown_index s off head key text
      → t.disk.dat ≡ grown_data s text
      → head ≡ head_of es
      → NoNull text
      → IsChain s off es
      → IsChain t off (new_entry s key text ∷ es)
  fronted t es i d e clean c =
      let room : off + ptr_sz ≤ length s.disk.idx = c.head.inside in
      let longer : Bytes =
        write_at s.disk.idx (length s.disk.idx)
          (image head key (length s.disk.dat) (length text + 1)) in
      record {
        head =
            subst (λ f. PtrAt f off (length s.disk.idx)) (sym i)
              (PtrAt-padded _ off (length s.disk.idx) high);
        links = (
          (λ z. absurd (omega (arith, z))),
          subst (λ f. BodyAt f (new_entry s key text)) (sym i)
              (BodyAt-write_at _ off _
                (BodyAt-image s.disk.idx (length s.disk.idx) head key (length s.disk.dat)
                  (length text + 1) text low fits)
                (inr (omega (arith, size)))),
          subst (λ f. PtrAt f (length s.disk.idx) (head_of es)) (sym i)
              (PtrAt-write_at _ off _
                (subst (λ h. PtrAt longer (length s.disk.idx) h) e
                  (PtrAt-image s.disk.idx (length s.disk.idx) head key (length s.disk.dat)
                    (length text + 1) text low fits))
                (inr (omega (arith, size)))),
          subst (λ f. Links f es) (sym i)
              (Links-write_at _ off _ es
                (Links-write_at _ _ _ es c.links (Links-IndexApart _ _ es c.links))
                (subst (λ n. IndexApart off n es) (sym size) c.behind)),
        );
        data_records = (
          subst (λ g. DataAt g (new_entry s key text)) (sym d)
              (DataAt-line s.disk.dat (new_entry s key text) clean refl),
          subst (λ g. AllData g es) (sym d)
              (AllData-write_at _ _ _ es c.data_records (AllData-DataApart _ _ es c.data_records)),
        );
        behind = (inr (omega arith), c.behind);
      }
