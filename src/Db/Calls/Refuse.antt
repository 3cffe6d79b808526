-- ===== src/Db/Calls/Refuse.antt =====
-- `db_store` refuses to insert a key that is there, and to replace one that is not.
use apue_2e.Base.{
  ℕ, ◌+◌, ◌*◌, ◌<◌, ◌≤◌, ◌≡◌, refl, ap, ap₂, sym, ◌∙◌, List, ◌∷◌, Bool, true, ltb_ge, none, some,
  length, arith,
}
use apue_2e.Files.{Bytes}
use apue_2e.Db.State.{
  Db, Counts, Cmd, pure, ◌>>=◌, ◌>>◌, index_file, writew_lock, un_lock, ptr_sz, datlen_min,
  datlen_max, bump,
}
use apue_2e.Db.Fields.{hash}
use apue_2e.Db.Layout.{Entry, PtrAt, head_of, Links, lookup}
use apue_2e.Db.Returns
use apue_2e.Db.Returns.{Returns, returns}
use apue_2e.Db.Chain.Walk.{Same, Outcome, found, missed, entered, find_and_lock-Outcome}
use apue_2e.Db.Calls.{
  store, store_found, store_error, unlock_chain, db_insert, db_replace, Stored, exists, missing,
}
use apue_2e.Db.Calls.Fetch.{lookup-found, lookup-missed}

abbrev erred : Counts → Counts
erred c = record c { storerr = bump c.storerr }

-- Nothing is written: the chain at `off` was locked and unlocked, and the error counted.
pub record Refused (off : ℕ) (s t : Db) : Type 0 where
  pub idx : t.disk.idx ≡ s.disk.idx
  pub dat : t.disk.dat ≡ s.disk.dat
  pub locks : t.disk.locks ≡ un_lock index_file off 1 ∷ writew_lock index_file off 1 ∷ s.disk.locks
  pub counts : t.counts ≡ record (s.counts) { storerr = bump s.counts.storerr }

module _ (fuel : ℕ) (key text : Bytes) (s : Db) (es : List Entry) (h : length es < fuel)
    (head : PtrAt s.disk.idx (hash s key * ptr_sz + s.hashoff) (head_of es))
    (links : Links s.disk.idx es) (low : 1 ≤ length text)
    (high : length text + 1 ≤ datlen_max) where
  abbrev ends : (flag : ℕ) → Bool → Cmd Stored
  ends flag b = do rc ← store_found fuel key text flag b; unlock_chain; pure rc

  refused :
      {t : Db} (rc : Stored)
      → Same (entered s key true) t
      → Returns
          (λ r u. (r ≡ rc) × Refused (hash s key * ptr_sz + s.hashoff) s u)
          ((do r ← store_error rc; unlock_chain; pure r) t)
  unfolding store_error unlock_chain
  refused rc same = returns (
    refl,
    record {
      idx = same.idx;
      dat = same.dat;
      locks = ap₂ (λ c l. un_lock index_file c 1 ∷ l) same.chainoff same.locks;
      counts = ap erred same.counts;
    },
  )

  -- With `DB_INSERT`, `db_store` of a key that its chain holds returns 1. It writes neither file, counts
  -- an error, and gives up the lock that it took on the chain.
  pub store-exists :
      (old : Bytes)
      → lookup key es ≡ some old
      → Returns
          (λ rc t. (rc ≡ exists) × Refused (hash s key * ptr_sz + s.hashoff) s t)
          (store fuel key text db_insert s)
  unfolding store store_found
  store-exists old there =
      rw
        (
          ltb_ge (length text + 1) datlen_min (omega arith),
          ltb_ge datlen_max (length text + 1) high,
        )
        (Returns.bind (find_and_lock-Outcome fuel key true s es h head links)
          λ b t (same, out). answer same out)
    where
      answer :
          {b : Bool} {t : Db}
          → Same (entered s key true) t
          → Outcome key (hash s key * ptr_sz + s.hashoff) es t b
          → Returns
              (λ rc u. (rc ≡ exists) × Refused (hash s key * ptr_sz + s.hashoff) s u)
              (ends db_insert b t)
      answer same (found r) = refused exists same
      answer same (missed m) = absurd (cc (sym (lookup-missed key es m) ∙ there))

  -- With `DB_REPLACE`, `db_store` of a key that its chain does not hold returns -1. It writes neither
  -- file, counts an error, and gives up the lock that it took on the chain.
  pub store-missing :
      lookup key es ≡ none
      → Returns
          (λ rc t. (rc ≡ missing) × Refused (hash s key * ptr_sz + s.hashoff) s t)
          (store fuel key text db_replace s)
  unfolding store store_found
  store-missing gone =
      rw
        (
          ltb_ge (length text + 1) datlen_min (omega arith),
          ltb_ge datlen_max (length text + 1) high,
        )
        (Returns.bind (find_and_lock-Outcome fuel key true s es h head links)
          λ b t (same, out). answer same out)
    where
      answer :
          {b : Bool} {t : Db}
          → Same (entered s key true) t
          → Outcome key (hash s key * ptr_sz + s.hashoff) es t b
          → Returns
              (λ rc u. (rc ≡ missing) × Refused (hash s key * ptr_sz + s.hashoff) s u)
              (ends db_replace b t)
      answer same (found r) = absurd (
          cc (
            sym gone
            ∙ ap (lookup key) r.split
            ∙ lookup-found key r.before r.behind r.here r.misses r.hit))
      answer same (missed m) = refused missing same
