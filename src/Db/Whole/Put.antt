-- ===== src/Db/Whole/Put.antt =====
-- `db_store` on a whole database: what each flag does to the map that it represents.
use apue_2e.Base.{
  ℕ, suc, ◌+◌, ◌*◌, ◌<◌, ◌≤◌, ◌≡◌, ◌⊎◌, refl, ap, sym, ◌∙◌, subst, List, ◌∷◌, ◌++◌, arith, length,
  Bool, true, false, ◌||◌, ltb_ge, ◌==◌, Option, none, some, inl, inr, Bool-cases, if◌then◌else◌,
}
use apue_2e.Files.{Bytes}
use apue_2e.Db.State.{Db, ◌>>=◌, ◌>>◌, pure, ptr_sz, datlen_min, datlen_max, bump}
use apue_2e.Db.Fields.{hash}
use apue_2e.Db.Layout.{Entry, lookup}
use apue_2e.Db.Returns
use apue_2e.Db.Returns.{Returns, returns}
use apue_2e.Db.Chain.{find_and_lock}
use apue_2e.Db.Chain.Walk.{Same, Outcome, found, missed, entered, find_and_lock-Outcome}
use apue_2e.Db.Calls.{
  store, store_found, store_error, unlock_chain, db_insert, db_replace, db_store, Stored, stored,
  exists, missing, invalid,
}
use apue_2e.Db.Calls.Fetch.{lookup-found, lookup-missed}
use apue_2e.Db.Whole.{records}
use apue_2e.Db.Whole.Map.{home, IsDb, stored_at, update}
use apue_2e.Db.Whole.Refine.{
  Represents, Represents-same, IsDb-same, size, is_there, with_chain, chain_head, chain-Links,
  chain_short, at_key,
}
use apue_2e.Db.Whole.Insert.{Storable, store_new-Represents}
use apue_2e.Db.Whole.Replace.{store_over-Represents}

-- The answer to `db_store` with a valid flag, by whether the key is there.
unfoldable pub answer : ℕ → Bool → Stored
answer flag false = if flag == db_replace then missing else stored
answer flag true = if flag == db_insert then exists else stored

-- The map behind the answer.
unfoldable pub after : Stored → Bytes → Bytes → (Bytes → Option Bytes) → Bytes → Option Bytes
after stored key text m = update m key (some text)
after invalid key text m = m
after missing key text m = m
after exists key text m = m

module _ (s : Db) (frees : List Entry) (cs : List (List Entry)) (l : List Entry)
    (bs : List (List Entry)) (db : IsDb s frees (cs ++ l ∷ bs)) (key : Bytes)
    (here : home s.nhash key ≡ length cs) (m : Bytes → Option Bytes)
    (reads : (k : Bytes) → stored_at s.nhash (cs ++ l ∷ bs) k ≡ m k) (text : Bytes)
    (can : Storable s key text) where
  Put : Stored → Db → Type 0
  Put rc u =
      (r : Represents u (after rc key text m)) × (size r
        ≤ suc (length (records (frees ∷ (cs ++ l ∷ bs)))))

  unlocked :
      (rc : Stored) (t : Db)
      → Put rc t
      → Returns (λ v u. (v ≡ rc) × Put v u) ((do unlock_chain; pure rc) t)
  unfolding Put unlock_chain
  unlocked rc t (r, n) =
      let (r', e) = Represents-same {t = _} r refl refl refl refl in
      returns (refl, (r', omega (arith, e, n)))

  untouched :
      (t : Db)
      → Same (entered s key true) t
      → (rc : Stored) → after rc key text m ≡ m
      → Returns (λ v u. (v ≡ rc) × Put v u) ((do rc ← store_error rc; unlock_chain; pure rc) t)
  unfolding store_error Put
  untouched t same rc e =
      let r : Represents t m = record {
        frees = frees;
        chains = cs ++ l ∷ bs;
        db = IsDb-same db same.idx same.dat same.hashoff same.nhash;
        reads = λ k. ap (λ n. stored_at n (cs ++ l ∷ bs) k) same.nhash ∙ reads k;
      } in
      let v : Db = record t { counts = record (t.counts) { storerr = bump t.counts.storerr } } in
      let (r', n) = Represents-same {t = v} r refl refl refl refl in
      unlocked rc v (
        subst
          (λ n. (q : Represents v n) × (size q ≤ suc (length (records (frees ∷ (cs ++ l ∷ bs))))))
          (sym e) (r', omega (arith, n)))

  -- `db_store` behind its search of the chain.
  searched :
      {b : Bool} {t : Db} (fuel flag : ℕ)
      → length (records (frees ∷ (cs ++ l ∷ bs))) < fuel
      → Same (entered s key true) t
      → Outcome key (hash s key * ptr_sz + s.hashoff) l t b
      → Returns
          (λ v u. (v ≡ answer flag (is_there (m key))) × Put v u)
          ((do rc ← store_found fuel key text flag b; unlock_chain; pure rc) t)
  unfolding store_found answer is_there after Put
  searched {t} fuel flag h same (found r) =
      let there : m key ≡ some r.here.text =
        at_key s frees cs l bs db key here m reads
        ∙ ap (lookup key) r.split
        ∙ lookup-found key r.before r.behind r.here r.misses r.hit in
      rw there (elim (Bool-cases (flag == db_insert)) [
        | inl e ↦ rw e (untouched t same exists refl)
        | inr e ↦ rw e (
            Returns.bind
              (Returns.bind {Q = λ v u. (v ≡ stored) × Put stored u}
                (store_over-Represents s frees cs l bs db key here m reads text can t same r)
                λ _ u p. returns (refl, p))
              λ v u (a, p). rw a (unlocked stored u p))
      ])
  searched {t} fuel flag h same (missed q) =
      let gone : m key ≡ none =
        at_key s frees cs l bs db key here m reads ∙ lookup-missed key l q in
      rw gone (elim (Bool-cases (flag == db_replace)) [
        | inl e ↦ rw e (untouched t same missing refl)
        | inr e ↦ rw e (
            Returns.bind
              (Returns.bind {Q = λ v u. (v ≡ stored) × Put stored u}
                (store_new-Represents s frees cs l bs db key here m reads text can t same q fuel h)
                λ _ u p. returns (refl, p))
              λ v u (a, p). rw a (unlocked stored u p))
      ])

-- On a database that represents a map, with fuel above the number of its records, `db_store` with a
-- valid flag and a key and data within the limits of the library stops on no error. `DB_INSERT` of a
-- key that is there returns 1, `DB_REPLACE` of one that is not returns -1, and the database still
-- represents the map; any other call returns 0, and the map has the data under the key. No more than
-- one record is new.
pub store-Represents :
    (fuel : ℕ) (key text : Bytes) (flag : ℕ) (s : Db) (m : Bytes → Option Bytes)
    (r : Represents s m)
    → size r < fuel
    → Storable s key text
    → (flag ≡ db_insert) ⊎ ((flag ≡ db_replace) ⊎ (flag ≡ db_store))
    → Returns
        (λ rc t.
          (rc ≡ answer flag (is_there (m key)))
          × ((r' : Represents t (after rc key text m)) × (size r' ≤ suc (size r))))
        (store fuel key text flag s)
unfolding store Put
store-Represents fuel key text flag s m r h can valid =
    let known : ((flag == db_insert) || (flag == db_replace) || (flag == db_store)) ≡ true =
      ground arith in
    rw
      (
        known,
        ltb_ge (length text + 1) datlen_min (omega (arith, can.not_empty)),
        ltb_ge datlen_max (length text + 1) can.fits.data_high,
      )
      (with_chain s r.frees r.chains key
        (λ ls.
          ((k : Bytes) → stored_at s.nhash ls k ≡ m k)
          → length (records (r.frees ∷ ls)) < fuel
          → Returns
              (λ rc t.
                (rc ≡ answer flag (is_there (m key)))
                × ((r' : Represents t (after rc key text m)) × (size r'
                      ≤ suc (length (records (r.frees ∷ ls))))))
              ((do
                b ← find_and_lock fuel key true
                rc ← store_found fuel key text flag b
                unlock_chain
                pure rc)
                s))
        r.db
        (λ cs l bs here db reads k.
          Returns.bind
            (find_and_lock-Outcome fuel key true s l
              (omega (arith, k, chain_short s r.frees cs l bs db key here))
              (chain_head s r.frees cs l bs db key here)
              (chain-Links s r.frees cs l bs db key here))
            λ b t (same, out).
              searched s r.frees cs l bs db key here m reads text can fuel flag k same out)
        r.reads h)
