-- ===== src/Db/Calls/Others.antt =====
-- `db_store` of one key leaves what `db_fetch` returns for the other keys.
use apue_2e.Base.{
  ℕ, suc, ◌+◌, ◌*◌, ◌<◌, ◌≡◌, ◌≢◌, ◌⊎◌, inl, inr, ap₂, sym, ◌∙◌, subst, List, ◌∷◌, length, arith,
  str_eq, Bool-cases, eq_of_str_eq,
}
use apue_2e.Files.{Bytes}
use apue_2e.Db.State.{Db, ◌>>◌, ptr_sz}
use apue_2e.Db.Fields.{hash}
use apue_2e.Db.Layout.{Entry, PtrAt, head_of, lookup}
use apue_2e.Db.Layout.Frame.{Apart, IndexApart}
use apue_2e.Db.Returns
use apue_2e.Db.Returns.{Returns}
use apue_2e.Db.Calls.{store, fetch, db_insert, db_store}
use apue_2e.Db.Calls.Insert.{IsChain, new_entry}
use apue_2e.Db.Calls.Fetch.{fetch-lookup}
use apue_2e.Db.Calls.StoreNew.{CanAppend, hash_same, store-Appended, store-IsChain_other}

lookup_other :
    (key : Bytes) (e : Entry) (es : List Entry) → e.key ≢ key → lookup key (e ∷ es) ≡ lookup key es
unfolding lookup
lookup_other key e es ne = elim (Bool-cases (str_eq e.key key)) [
  | inl same ↦ absurd (ne (eq_of_str_eq e.key key same))
  | inr other ↦ rw other
]

slots-Apart : (h i base : ℕ) → h ≢ i → Apart (h * ptr_sz + base) ptr_sz (i * ptr_sz + base) ptr_sz
slots-Apart h i base ne = ground arith

-- A chain that stands at the same slot in a state with the same hash table.
fetch_at :
    (fuel : ℕ) (key : Bytes) (s t : Db) (es : List Entry)
    → length es < fuel
    → IsChain t (hash s key * ptr_sz + s.hashoff) es
    → t.nhash ≡ s.nhash
    → t.hashoff ≡ s.hashoff
    → Returns (λ r u. r ≡ lookup key es) (fetch fuel key t)
fetch_at fuel key s t es h chain n o =
    Returns.mono
      (fetch-lookup fuel key t es h
        (subst (λ off. PtrAt t.disk.idx off (head_of es))
          (sym (ap₂ (λ h o. h * ptr_sz + o) (hash_same key s t n) o)) chain.head)
        chain.links chain.data_records)
      λ r u (e, _). e

module _ (fuel : ℕ) (key text : Bytes) (es frees : List Entry) (s : Db)
    (can : CanAppend key text es frees s) (flag : ℕ)
    (valid : (flag ≡ db_insert) ⊎ (flag ≡ db_store)) (h : suc (length es) < fuel)
    (h' : length frees < fuel) (key' : Bytes) where
  -- Behind a `db_store` of a new key where `CanAppend` holds, `db_fetch` of another key of the same chain returns what
  -- the chain held under it before.
  pub fetch-store_same_chain :
      hash s key' ≡ hash s key
      → key ≢ key'
      → Returns (λ r t. r ≡ lookup key' es) ((store fuel key text flag >> fetch fuel key') s)
  fetch-store_same_chain same ne =
      Returns.bind (store-Appended fuel key text es frees s can flag valid (omega arith) h')
        λ rc t (_, a).
          Returns.mono
            (fetch_at fuel key' s t (new_entry s key text ∷ es) h
              (subst (λ n. IsChain t (n * ptr_sz + s.hashoff) (new_entry s key text ∷ es))
                (sym same) a.chain)
              a.nhash a.hashoff)
            λ r u e. e ∙ lookup_other key' (new_entry s key text) es ne

  -- Behind a `db_store` of a new key where `CanAppend` holds, `db_fetch` of a key with another hash returns what its
  -- chain `fs` held under it before, when the records of that chain do not overlap the pointer that was
  -- written.
  pub fetch-store_other_chain :
      (fs : List Entry)
      → hash s key' ≢ hash s key
      → IsChain s (hash s key' * ptr_sz + s.hashoff) fs
      → IndexApart (hash s key * ptr_sz + s.hashoff) ptr_sz fs
      → length fs < fuel
      → Returns (λ r t. r ≡ lookup key' fs) ((store fuel key text flag >> fetch fuel key') s)
  fetch-store_other_chain fs ne chain inside k =
      Returns.bind
        (store-IsChain_other fuel key text es frees s can flag (hash s key' * ptr_sz + s.hashoff) fs
          valid (omega arith) h' chain (slots-Apart (hash s key') (hash s key) s.hashoff ne) inside)
        λ rc t (kept, n, o). fetch_at fuel key' s t fs k kept n o
