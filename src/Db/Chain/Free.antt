-- ===== src/Db/Chain/Free.antt =====
-- `_db_findfree` looks for the first free record of both sizes, and takes it off the free list.
use apue_2e.Base.{
  ℕ, zero, suc, ◌+◌, ◌<◌, ◌≡◌, ◌≢◌, refl, ap, List, [], ◌∷◌, Bool, false, ◌&&◌, ◌==◌, arith,
  if◌then◌else◌, none, some, pos, length, All,
}
use apue_2e.Db.State.{
  Db, pure, and_then, ◌>>=◌, get, index_file, writew_lock, un_lock, free_off, ptr_sz,
}
use apue_2e.Db.Fields.RoundTrip.{seek, readptr_lem}
use apue_2e.Db.Index.{readidx}
use apue_2e.Db.Index.RoundTrip.{loaded, readidx_lem}
use apue_2e.Db.Layout.{Entry, PtrAt, head_of, Links}
use apue_2e.Db.Returns
use apue_2e.Db.Returns.{Returns, returns}
use apue_2e.Db.Chain.{findfree_loop, findfree}
use apue_2e.Db.Chain.Walk.{Same}

-- A free record is reused only if the key and the data have exactly its lengths.
unfoldable pub same_size : ℕ → ℕ → Entry → Bool
same_size keylen datlen e = (length e.key == keylen) && (e.datlen == datlen)

abbrev pub NoneFits : ℕ → ℕ → List Entry → Type 0
NoneFits keylen datlen es = All (λ e. same_size keylen datlen e ≡ false) es

pub step :
    (f keylen datlen save off : ℕ) (s : Db)
    → off ≢ 0
    → findfree_loop (suc f) keylen datlen save (pos off) s
      ≡ and_then (readidx off s) (λ next. get >>= λ db.
          if (length db.cur.idxbuf == keylen) && (db.cur.datlen == datlen)
          then pure (some save)
          else findfree_loop f keylen datlen off next)
unfolding findfree_loop
step f keylen datlen save zero s ne = absurd (ne refl)
step f keylen datlen save (suc n) s ne = refl

pub findfree_loop-none :
    (fuel keylen datlen save : ℕ) (s : Db) (es : List Entry)
    → length es < fuel
    → Links s.disk.idx es
    → NoneFits keylen datlen es
    → Returns
        (λ r t. (r ≡ none) × Same s t)
        (findfree_loop fuel keylen datlen save (pos (head_of es)) s)
unfolding same_size
findfree_loop-none zero keylen datlen save s es h l n = absurd (omega arith)
findfree_loop-none (suc fuel) keylen datlen save s [] h l n =
    unfold findfree_loop in
    returns (
      refl,
      record {
        idx = refl;
        dat = refl;
        locks = refl;
        chainoff = refl;
        counts = refl;
        hashoff = refl;
        nhash = refl;
      },
    )
findfree_loop-none (suc fuel) keylen datlen save s (e ∷ es) h (ne, body, ptr, rest) (out, n) =
    rw (step fuel keylen datlen save e.off s ne, readidx_lem s e ne body ptr)
      (rw out (
        Returns.mono
          (findfree_loop-none fuel keylen datlen e.off (loaded s e (head_of es)) es (omega arith)
            rest n)
          λ r t (none_found, same). (
            none_found,
            record {
              idx = same.idx;
              dat = same.dat;
              locks = same.locks;
              chainoff = same.chainoff;
              counts = same.counts;
              hashoff = same.hashoff;
              nhash = same.nhash;
            },
          )))

-- Where no record of the free list fits, `_db_findfree` says so and writes nothing.
pub findfree-none :
    (fuel keylen datlen : ℕ) (s : Db) (es : List Entry)
    → length es < fuel
    → PtrAt s.disk.idx free_off (head_of es)
    → Links s.disk.idx es
    → NoneFits keylen datlen es
    → Returns
        (λ r t.
          (r ≡ false)
          × Same
              (record s {
                disk = record (s.disk) {
                  locks =
                      un_lock index_file free_off 1
                      ∷ writew_lock index_file free_off 1
                      ∷ s.disk.locks;
                };
              })
              t)
        (findfree fuel keylen datlen s)
unfolding findfree
findfree-none fuel keylen datlen s es h head links n =
    let locked = record s {
      disk = record (s.disk) { locks = writew_lock index_file free_off 1 ∷ s.disk.locks };
    } in
    rw (readptr_lem locked head) (
      Returns.bind
        (findfree_loop-none fuel keylen datlen free_off (seek locked (free_off + ptr_sz)) es h links
          n)
        λ r t (none_found, same). rw none_found (
          returns (
            refl,
            record {
              idx = same.idx;
              dat = same.dat;
              locks = ap (λ l. un_lock index_file free_off 1 ∷ l) same.locks;
              chainoff = same.chainoff;
              counts = same.counts;
              hashoff = same.hashoff;
              nhash = same.nhash;
            },
          )))
