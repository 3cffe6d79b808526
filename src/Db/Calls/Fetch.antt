-- ===== src/Db/Calls/Fetch.antt =====
-- `db_fetch` returns what the chain of a key holds under it.
use apue_2e.Base.{
  ℕ, ◌+◌, ◌*◌, ◌<◌, ◌≡◌, refl, ap, ◌∙◌, sym, List, [], ◌∷◌, ◌++◌, Bool, false, str_eq, str_eq_refl,
  Option, none, some, length, subst, ap₂, Bool-cases, inl, inr, eq_of_str_eq,
}
use apue_2e.Files.{Bytes}
use apue_2e.Db.State.{Db, Counts, pure, ◌>>=◌, ◌>>◌, index_file, readw_lock, un_lock, ptr_sz, bump}
use apue_2e.Db.Fields.{hash}
use apue_2e.Db.Fields.RoundTrip.{readdat_lem}
use apue_2e.Db.Layout.{Entry, PtrAt, DataAt, head_of, Links, AllData, lookup}
use apue_2e.Db.Returns
use apue_2e.Db.Returns.{Returns, returns}
use apue_2e.Db.Chain.Walk.{Same, Outcome, found, missed, Misses, entered, find_and_lock-Outcome}
use apue_2e.Db.Calls.{fetch_found, fetch, unlock_chain}

pub lookup-found :
    (key : Bytes) (before behind : List Entry) (e : Entry)
    → Misses key before
    → e.key ≡ key
    → lookup key (before ++ e ∷ behind) ≡ some e.text
unfolding lookup
lookup-found key [] behind e m hit = rw (hit, str_eq_refl key)
lookup-found key (a ∷ before) behind e (ne, m) hit = elim (Bool-cases (str_eq a.key key)) [
  | inl same ↦ absurd (ne (eq_of_str_eq a.key key same))
  | inr other ↦ rw other (lookup-found key before behind e m hit)
]

pub lookup-missed : (key : Bytes) (es : List Entry) → Misses key es → lookup key es ≡ none
unfolding lookup
lookup-missed key [] m = refl
lookup-missed key (a ∷ es) (ne, m) = elim (Bool-cases (str_eq a.key key)) [
  | inl same ↦ absurd (ne (eq_of_str_eq a.key key same))
  | inr other ↦ rw other (lookup-missed key es m)
]

pub AllData-at :
    {g : Bytes} (before : List Entry) {e : Entry} (behind : List Entry)
    → AllData g (before ++ e ∷ behind)
    → DataAt g e
AllData-at [] behind h = h.0
AllData-at (a ∷ before) behind h = AllData-at before behind h.1

-- The counter that `db_fetch` steps.
unfoldable pub fetch_counts : Option Bytes → Counts → Counts
fetch_counts none c = record c { fetcherr = bump c.fetcherr }
fetch_counts (some text) c = record c { fetchok = bump c.fetchok }

-- `db_fetch` locks and unlocks the chain at `off`, steps a counter and writes nothing.
pub record Fetched (off : ℕ) (r : Option Bytes) (s t : Db) : Type 0 where
  pub idx : t.disk.idx ≡ s.disk.idx
  pub dat : t.disk.dat ≡ s.disk.dat
  pub locks : t.disk.locks ≡ un_lock index_file off 1 ∷ readw_lock index_file off 1 ∷ s.disk.locks
  pub counts : t.counts ≡ fetch_counts r s.counts
  pub hashoff : t.hashoff ≡ s.hashoff
  pub nhash : t.nhash ≡ s.nhash

module _ (key : Bytes) (s : Db) (es : List Entry) (stored : AllData s.disk.dat es) where
  chain : ℕ
  chain = hash s key * ptr_sz + s.hashoff

  finish :
      {b : Bool} {t : Db}
      → Same (entered s key false) t
      → Outcome key chain es t b
      → Returns
          (λ r u. (r ≡ lookup key es) × Fetched chain r s u)
          ((do ptr ← fetch_found b; unlock_chain; pure ptr) t)
  unfolding fetch_found fetch_counts unlock_chain chain
  finish {t} same (found r) =
      let here = AllData-at r.before r.behind (subst (AllData s.disk.dat) r.split stored) in
      rw
        (readdat_lem t r.here (subst (λ g. DataAt g r.here) (sym same.dat) here) r.current.datoff
          r.current.datlen)
        (returns (
          sym (ap (lookup key) r.split ∙ lookup-found key r.before r.behind r.here r.misses r.hit),
          record {
            idx = same.idx;
            dat = same.dat;
            locks = ap₂ (λ c l. un_lock index_file c 1 ∷ l) same.chainoff same.locks;
            counts = ap (fetch_counts (some r.here.text)) same.counts;
            hashoff = same.hashoff;
            nhash = same.nhash;
          },
        ))
  finish same (missed m) = returns (
    sym (lookup-missed key es m),
    record {
      idx = same.idx;
      dat = same.dat;
      locks = ap₂ (λ c l. un_lock index_file c 1 ∷ l) same.chainoff same.locks;
      counts = ap (fetch_counts none) same.counts;
      hashoff = same.hashoff;
      nhash = same.nhash;
    },
  )

-- On files whose chain for the key holds the records `es`, `db_fetch` returns the data of the first one
-- with the key, or null if there is none. It returns: it stops on no error, on fuel above the length of
-- the chain. It writes neither file, steps one counter, and gives up the lock that it took on the chain.
pub fetch-lookup :
    (fuel : ℕ) (key : Bytes) (s : Db) (es : List Entry)
    → length es < fuel
    → PtrAt s.disk.idx (hash s key * ptr_sz + s.hashoff) (head_of es)
    → Links s.disk.idx es
    → AllData s.disk.dat es
    → Returns
        (λ r t. (r ≡ lookup key es) × Fetched (hash s key * ptr_sz + s.hashoff) r s t)
        (fetch fuel key s)
unfolding fetch chain
fetch-lookup fuel key s es h head links stored =
    Returns.bind (find_and_lock-Outcome fuel key false s es h head links)
      λ b t (same, out). finish key s es stored same out
