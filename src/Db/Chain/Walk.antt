-- ===== src/Db/Chain/Walk.antt =====
-- `_db_find_and_lock` finds the first record of a chain with the key, and where its pointer stands.
use apue_2e.Base.{
  ℕ, zero, suc, ◌+◌, ◌*◌, ◌<◌, ◌≡◌, ◌≢◌, refl, ap, List, [], ◌∷◌, ◌++◌, Bool, true, false, arith,
  str_eq, str_eq_refl, eq_of_str_eq, Bool-cases, inl, inr, if◌then◌else◌, pos, length, All,
}
use apue_2e.Files.{Bytes}
use apue_2e.Db.State.{
  Db, pure, and_then, ◌>>=◌, ◌>>◌, get, modify_cur, index_file, readw_lock, writew_lock, ptr_sz,
}
use apue_2e.Db.Fields.{hash}
use apue_2e.Db.Fields.RoundTrip.{readptr_lem}
use apue_2e.Db.Index.{readidx}
use apue_2e.Db.Index.RoundTrip.{loaded, readidx_lem}
use apue_2e.Db.Layout.{Entry, PtrAt, head_of, Links}
use apue_2e.Db.Returns
use apue_2e.Db.Returns.{Returns, returns}
use apue_2e.Db.Chain.{find_loop, find_and_lock}

-- What a walk along a chain leaves as it was.
pub record Same (s t : Db) : Type 0 where
  pub idx : t.disk.idx ≡ s.disk.idx
  pub dat : t.disk.dat ≡ s.disk.dat
  pub locks : t.disk.locks ≡ s.disk.locks
  pub chainoff : t.cur.chainoff ≡ s.cur.chainoff
  pub counts : t.counts ≡ s.counts
  pub hashoff : t.hashoff ≡ s.hashoff
  pub nhash : t.nhash ≡ s.nhash

-- The offset of the pointer behind the records `es`, the first of which `prev` points to.
abbrev pub last_off : ℕ → List Entry → ℕ
last_off prev [] = prev
last_off prev (e ∷ es) = last_off e.off es

abbrev pub Misses : Bytes → List Entry → Type 0
Misses key es = All (λ e. e.key ≢ key) es

-- The record `e` was read in, and `ptroff` is where its offset stands.
pub record Current (e : Entry) (next pointer : ℕ) (t : Db) : Type 0 where
  pub idxbuf : t.cur.idxbuf ≡ e.key
  pub idxoff : t.cur.idxoff ≡ e.off
  pub datoff : t.cur.datoff ≡ e.datoff
  pub datlen : t.cur.datlen ≡ e.datlen
  pub ptrval : t.cur.ptrval ≡ pos next
  pub ptroff : t.cur.ptroff ≡ pointer

pub record Found (key : Bytes) (prev : ℕ) (es : List Entry) (t : Db) : Type 0 where
  pub before : List Entry
  pub here : Entry
  pub behind : List Entry
  pub split : es ≡ before ++ here ∷ behind
  pub misses : Misses key before
  pub hit : here.key ≡ key
  pub current : Current here (head_of behind) (last_off prev before) t

pub data Outcome (key : Bytes) (prev : ℕ) (es : List Entry) (t : Db) : Bool → Type 0 where
  found : Found key prev es t → Outcome key prev es t true
  missed : Misses key es → Outcome key prev es t false

-- The state in which the loop goes on behind the record `e`.
abbrev passed : Db → Entry → ℕ → Db
passed s e next = record s {
  disk = (loaded s e next).disk;
  cur = record ((loaded s e next).cur) { ptroff = e.off };
}

pub ne_of_miss : (a b : Bytes) → str_eq a b ≡ false → a ≢ b
ne_of_miss a b h e = cc (h, str_eq_refl a, ap (str_eq a) e)

find_step :
    (f off : ℕ) (key : Bytes) (s : Db)
    → off ≢ 0
    → find_loop (suc f) key (pos off) s
      ≡ and_then (readidx off s) (λ next. get >>= λ db.
          if str_eq db.cur.idxbuf key
          then pure true
          else (modify_cur (λ c. record c { ptroff = off }) >> find_loop f key next))
unfolding find_loop
find_step f zero key s ne = absurd (ne refl)
find_step f (suc n) key s ne = refl

Outcome-cons :
    {key : Bytes} {prev : ℕ} {t : Db} {b : Bool} (e : Entry) (es : List Entry)
    → e.key ≢ key
    → Outcome key e.off es t b
    → Outcome key prev (e ∷ es) t b
Outcome-cons e es ne (found r) = found (record {
  before = e ∷ r.before;
  here = r.here;
  behind = r.behind;
  split = ap (λ l. e ∷ l) r.split;
  misses = (ne, r.misses);
  hit = r.hit;
  current = r.current;
})
Outcome-cons e es ne (missed h) = missed (ne, h)

pub find_loop-Outcome :
    (fuel : ℕ) (key : Bytes) (s : Db) (es : List Entry)
    → length es < fuel
    → Links s.disk.idx es
    → Returns
        (λ b t. Same s t × Outcome key s.cur.ptroff es t b)
        (find_loop fuel key (pos (head_of es)) s)
find_loop-Outcome zero key s es h l = absurd (omega arith)
find_loop-Outcome (suc fuel) key s [] h l =
    unfold find_loop in
    returns (
      record {
        idx = refl;
        dat = refl;
        locks = refl;
        chainoff = refl;
        counts = refl;
        hashoff = refl;
        nhash = refl;
      },
      missed tt,
    )
find_loop-Outcome (suc fuel) key s (e ∷ es) h (ne, body, ptr, rest) =
    rw (find_step fuel e.off key s ne, readidx_lem s e ne body ptr)
      (elim (Bool-cases (str_eq e.key key)) [
        | inl hit ↦ rw hit (
            returns (
              record {
                idx = refl;
                dat = refl;
                locks = refl;
                chainoff = refl;
                counts = refl;
                hashoff = refl;
                nhash = refl;
              },
              found (record {
                before = [];
                here = e;
                behind = es;
                split = refl;
                misses = tt;
                hit = eq_of_str_eq e.key key hit;
                current = record {
                  idxbuf = refl;
                  idxoff = refl;
                  datoff = refl;
                  datlen = refl;
                  ptrval = refl;
                  ptroff = refl;
                };
              }),
            ))
        | inr miss ↦ rw miss (
            Returns.mono
              (find_loop-Outcome fuel key (passed s e (head_of es)) es (omega arith) rest)
              λ b t (same, out). (
                record {
                  idx = same.idx;
                  dat = same.dat;
                  locks = same.locks;
                  chainoff = same.chainoff;
                  counts = same.counts;
                  hashoff = same.hashoff;
                  nhash = same.nhash;
                },
                Outcome-cons e es (ne_of_miss e.key key miss) out,
              ))
      ])

-- The state in which `_db_find_and_lock` starts its walk.
abbrev pub entered : Db → Bytes → Bool → Db
entered s key writelock =
    let chainoff = hash s key * ptr_sz + s.hashoff in
    record s {
      disk = record (s.disk) {
        at = chainoff + ptr_sz;
        locks =
            (if writelock
              then writew_lock index_file chainoff 1
              else readw_lock index_file chainoff 1)
            ∷ s.disk.locks;
      };
      cur = record (s.cur) { chainoff = chainoff; ptroff = chainoff };
    }

-- On the chain of a key `_db_find_and_lock` returns with the chain locked and nothing written. It finds
-- the first record with the key, if there is one, reads it in, and leaves in `ptroff` the offset of the
-- pointer to it; else no record of the chain has the key.
pub find_and_lock-Outcome :
    (fuel : ℕ) (key : Bytes) (writelock : Bool) (s : Db) (es : List Entry)
    → length es < fuel
    → PtrAt s.disk.idx (hash s key * ptr_sz + s.hashoff) (head_of es)
    → Links s.disk.idx es
    → Returns
        (λ b t.
          Same (entered s key writelock) t × Outcome key (hash s key * ptr_sz + s.hashoff) es t b)
        (find_and_lock fuel key writelock s)
unfolding find_and_lock
find_and_lock-Outcome fuel key writelock s es h head links =
    let locked = record (entered s key writelock) {
      disk = record ((entered s key writelock).disk) { at = s.disk.at };
    } in
    rw (readptr_lem locked head) (find_loop-Outcome fuel key (entered s key writelock) es h links)
