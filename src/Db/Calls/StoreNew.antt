-- ===== src/Db/Calls/StoreNew.antt =====
-- What `db_store` of a new key does to the chains, and what `db_fetch` returns behind it.
use apue_2e.Base.{
  ℕ, suc, ◌+◌, ◌*◌, ◌<◌, ◌≤◌, ◌≡◌, ◌≢◌, ◌⊎◌, refl, ap₂, ◌∙◌, sym, subst, subst₂, List, [], ◌∷◌,
  ◌++◌, Bool, true, false, ◌||◌, ltb_ge, ◌==◌, some, length, arith,
}
use apue_2e.Files.{Bytes}
use apue_2e.Db.State.{
  Db, pure, ◌>>=◌, ◌>>◌, ptr_sz, ptr_max, free_off, datlen_min, datlen_max, bump,
}
use apue_2e.Db.Fields.{hash}
use apue_2e.Db.Fields.RoundTrip.{NoNull}
use apue_2e.Db.Index.RoundTrip.{Fits}
use apue_2e.Db.Layout.{Entry, PtrAt, head_of, Links}
use apue_2e.Db.Layout.Frame.{Apart, IndexApart}
use apue_2e.Db.Returns
use apue_2e.Db.Returns.{Returns, returns}
use apue_2e.Db.Chain.Walk.{Same, Outcome, found, missed, Misses, entered, find_and_lock-Outcome}
use apue_2e.Db.Chain.Free.{NoneFits}
use apue_2e.Db.Calls.{
  store_found, store, fetch, unlock_chain, db_insert, db_replace, db_store, stored,
}
use apue_2e.Db.Calls.Insert.{
  IsChain, new_entry, grown_index, grown_data, Grown, store_new-Grown, kept, fronted, head_le,
}
use apue_2e.Db.Calls.Fetch.{fetch-lookup, lookup-found}

-- What `db_store` of the new key `key` is given: the chain `es` of the key without the key in it, a
-- free list `frees` with no record of the right sizes, and limits that it would stop at.
pub record CanAppend (key text : Bytes) (es frees : List Entry) (s : Db) : Type 0 where
  pub chain : IsChain s (hash s key * ptr_sz + s.hashoff) es
  pub misses : Misses key es
  pub free : PtrAt s.disk.idx free_off (head_of frees)
  pub free_links : Links s.disk.idx frees
  pub none_fits : NoneFits (length key) (length text + 1) frees
  pub in_range : length s.disk.idx ≤ ptr_max
  pub fits : Fits key (length s.disk.dat) (length text + 1)
  pub not_empty : 1 ≤ length text
  pub clean : NoNull text

-- The chain of the key has the new record in front; the counter of appended records is one up.
pub record Appended (off : ℕ) (key text : Bytes) (es : List Entry) (s t : Db) : Type 0 where
  pub chain : IsChain t off (new_entry s key text ∷ es)
  pub counts : t.counts ≡ record (s.counts) { stor1 = bump s.counts.stor1 }
  pub hashoff : t.hashoff ≡ s.hashoff
  pub nhash : t.nhash ≡ s.nhash

-- Besides, any chain that the pointer to the new record does not meet is as it was.
record Pushed (off : ℕ) (key text : Bytes) (es : List Entry) (s t : Db) : Type 0 where
  appended : Appended off key text es s t
  others :
      (o : ℕ) (fs : List Entry)
      → IsChain s o fs
      → Apart o ptr_sz off ptr_sz
      → IndexApart off ptr_sz fs
      → IsChain t o fs

Misses-at :
    {key : Bytes} (before : List Entry) (e : Entry) (behind : List Entry)
    → Misses key (before ++ e ∷ behind)
    → e.key ≢ key
Misses-at [] e behind h = h.0
Misses-at (a ∷ before) e behind h = Misses-at before e behind h.1

pub hash_same : (key : Bytes) (s t : Db) → t.nhash ≡ s.nhash → hash t key ≡ hash s key
unfolding hash
hash_same key s t e = rw e

module _ (fuel : ℕ) (key text : Bytes) (es frees : List Entry) (s : Db)
    (can : CanAppend key text es frees s) where
  off : ℕ
  off = hash s key * ptr_sz + s.hashoff

  pushed :
      (t u : Db)
      → Same (entered s key true) t
      → Grown t.cur.chainoff (head_of es) key text t u
      → (locks : _)
      → Pushed off key text es s (record u { disk = record (u.disk) { locks = locks } })
  unfolding off
  pushed t u same grown locks =
      let low : head_of es ≤ ptr_max =
        omega (arith, head_le s.disk.idx es can.chain.links, can.in_range) in
      let idx : u.disk.idx ≡ grown_index s off (head_of es) key text =
        grown.idx ∙ simp (same.idx, same.dat, same.chainoff) in
      let dat : u.disk.dat ≡ grown_data s text = grown.dat ∙ simp (same.dat) in
      let v : Db = record u { disk = record (u.disk) { locks = locks } } in
      record {
        appended = record {
          chain =
              fronted s off (head_of es) key text low can.in_range can.fits v es idx dat refl
                can.clean can.chain;
          counts = grown.counts ∙ simp (same.counts);
          hashoff = grown.hashoff ∙ same.hashoff;
          nhash = grown.nhash ∙ same.nhash;
        };
        others = λ o fs. kept s off (head_of es) key text low can.in_range can.fits v o fs idx dat;
      }

  finish :
      {b : Bool} {t : Db} (flag : ℕ)
      → (flag == db_replace) ≡ false
      → length frees < fuel
      → Same (entered s key true) t
      → Outcome key off es t b
      → Returns
          (λ rc u. (rc ≡ stored) × Pushed off key text es s u)
          ((do rc ← store_found fuel key text flag b; unlock_chain; pure rc) t)
  unfolding store_found unlock_chain off
  finish flag wrong h same (found r) =
      absurd (Misses-at r.before r.here r.behind (subst (Misses key) r.split can.misses) r.hit)
  finish {t = t} flag wrong h same (missed m) =
      let low : head_of es ≤ ptr_max =
        omega (arith, head_le s.disk.idx es can.chain.links, can.in_range) in
      rw wrong (
        Returns.bind
          (Returns.bind {Q = λ rc u. (rc ≡ stored) × Grown t.cur.chainoff (head_of es) key text t u}
            (store_new-Grown fuel (head_of es) key text frees t h
              (subst₂ (λ f o. PtrAt f o (head_of es)) (sym same.idx) (sym same.chainoff)
                can.chain.head)
              (subst (λ f. PtrAt f free_off (head_of frees)) (sym same.idx) can.free)
              (subst (λ f. Links f frees) (sym same.idx) can.free_links) can.none_fits low
              (subst (λ f. length f ≤ ptr_max) (sym same.idx) can.in_range)
              (subst (λ g. Fits key (length g) (length text + 1)) (sym same.dat) can.fits))
            λ _ u grown. returns (refl, grown))
          λ rc u (ok_rc, grown). returns (ok_rc, pushed t u same grown _))

  store_pushed :
      (flag : ℕ)
      → (flag ≡ db_insert) ⊎ (flag ≡ db_store)
      → length es < fuel
      → length frees < fuel
      → Returns
          (λ rc t. (rc ≡ stored) × Pushed (hash s key * ptr_sz + s.hashoff) key text es s t)
          (store fuel key text flag s)
  unfolding store off
  store_pushed flag valid h h' =
      let known : ((flag == db_insert) || (flag == db_replace) || (flag == db_store)) ≡ true =
        ground arith in
      let wrong : (flag == db_replace) ≡ false = ground arith in
      rw
        (
          known,
          ltb_ge (length text + 1) datlen_min (omega (arith, can.not_empty)),
          ltb_ge datlen_max (length text + 1) can.fits.data_high,
        )
        (Returns.bind (find_and_lock-Outcome fuel key true s es h can.chain.head can.chain.links)
          λ b t (same, out). finish flag wrong h' same out)

  -- Where `CanAppend` holds, `db_store` with `DB_INSERT` or `DB_STORE` returns 0. The record then stands
  -- in front of the chain of its key, which keeps the others, and the counter of appended records is one
  -- up. It stops on no error.
  pub store-Appended :
      (flag : ℕ)
      → (flag ≡ db_insert) ⊎ (flag ≡ db_store)
      → length es < fuel
      → length frees < fuel
      → Returns
          (λ rc t. (rc ≡ stored) × Appended (hash s key * ptr_sz + s.hashoff) key text es s t)
          (store fuel key text flag s)
  store-Appended flag valid h h' =
      Returns.mono (store_pushed flag valid h h') λ rc t (e, p). (e, p.appended)

  -- Where `CanAppend` holds, `db_store` with `DB_INSERT` or `DB_STORE` leaves any other chain of the index file as it was, with all its records and their
  -- data, when neither the pointer to that chain nor a record of it overlaps the pointer to the chain of
  -- the key. The size and the place of the hash table stay.
  pub store-IsChain_other :
      (flag o : ℕ) (fs : List Entry)
      → (flag ≡ db_insert) ⊎ (flag ≡ db_store)
      → length es < fuel
      → length frees < fuel
      → IsChain s o fs
      → Apart o ptr_sz (hash s key * ptr_sz + s.hashoff) ptr_sz
      → IndexApart (hash s key * ptr_sz + s.hashoff) ptr_sz fs
      → Returns
          (λ rc t. IsChain t o fs × (t.nhash ≡ s.nhash) × (t.hashoff ≡ s.hashoff))
          (store fuel key text flag s)
  store-IsChain_other flag o fs valid h h' chain apart inside =
      Returns.mono (store_pushed flag valid h h')
        λ rc t (e, p). (p.others o fs chain apart inside, p.appended.nhash, p.appended.hashoff)

  -- Where `CanAppend` holds and the fuel exceeds both lists, `db_fetch` of a key behind a `db_store` of it
  -- with `DB_INSERT` or `DB_STORE` returns the data that was stored, and neither call stops on an error.
  -- `CanAppend` says that the chain of the key stands in the files without the key, that no free record
  -- has the sizes asked for, and that key, data and index file are within the limits of the library.
  pub fetch-store :
      (flag : ℕ)
      → (flag ≡ db_insert) ⊎ (flag ≡ db_store)
      → suc (length es) < fuel
      → length frees < fuel
      → Returns (λ r t. r ≡ some text) ((store fuel key text flag >> fetch fuel key) s)
  fetch-store flag valid h h' =
      Returns.bind (store-Appended flag valid (omega arith) h') λ rc t (_, a).
        Returns.mono
          (fetch-lookup fuel key t (new_entry s key text ∷ es) h
            (subst (λ o. PtrAt t.disk.idx o (length s.disk.idx))
              (sym (ap₂ (λ h o. h * ptr_sz + o) (hash_same key s t a.nhash) a.hashoff))
              a.chain.head)
            a.chain.links a.chain.data_records)
          λ r u (e, _). e ∙ lookup-found key [] es (new_entry s key text) tt refl
