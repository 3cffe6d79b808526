-- ===== src/Db/Chain/Fit.antt =====
-- `_db_findfree` where a free record has the right sizes: the first one leaves the free list.
use apue_2e.Base.{
  ℕ, zero, suc, ◌+◌, ◌<◌, ◌≤◌, ◌≡◌, refl, ap, ◌∙◌, List, [], ◌∷◌, ◌++◌, true, ◌⊎◌, inl, inr, arith,
  some, pos, length, Bool-cases,
}
use apue_2e.Files.{write_at}
use apue_2e.CText.{padded}
use apue_2e.Db.State.{Db, index_file, writew_lock, un_lock, free_off, ptr_sz, ptr_max}
use apue_2e.Db.Fields.{writeptr}
use apue_2e.Db.Fields.RoundTrip.{seek, readptr_lem, writeptr_lem}
use apue_2e.Db.Index.RoundTrip.{loaded, readidx_lem}
use apue_2e.Db.Layout.{Entry, PtrAt, head_of, Links}
use apue_2e.Db.Returns
use apue_2e.Db.Returns.{Returns, returns}
use apue_2e.Db.Chain.{findfree_loop, findfree, unlink_free}
use apue_2e.Db.Chain.Walk.{Same, last_off}
use apue_2e.Db.Chain.Free.{same_size, NoneFits, step}

-- The first record of a list with the sizes asked for.
pub record FirstFit (keylen datlen : ℕ) (es : List Entry) : Type 0 where
  pub before : List Entry
  pub here : Entry
  pub behind : List Entry
  pub split : es ≡ before ++ here ∷ behind
  pub misses : NoneFits keylen datlen before
  pub hit : same_size keylen datlen here ≡ true

pub NoneFits-FirstFit :
    (keylen datlen : ℕ) (es : List Entry) → NoneFits keylen datlen es ⊎ FirstFit keylen datlen es
NoneFits-FirstFit keylen datlen [] = inl tt
NoneFits-FirstFit keylen datlen (e ∷ es) = elim (Bool-cases (same_size keylen datlen e)) [
  | inl hit ↦
      inr (record { before = []; here = e; behind = es; split = refl; misses = tt; hit = hit })
  | inr miss ↦ elim (NoneFits-FirstFit keylen datlen es) [
    | inl h ↦ inl (miss, h)
    | inr r ↦ inr (record {
      before = e ∷ r.before;
      here = r.here;
      behind = r.behind;
      split = ap (λ t. e ∷ t) r.split;
      misses = (miss, r.misses);
      hit = r.hit;
    })
  ]
]

-- The record that was read in last.
pub record Picked (e : Entry) (next : ℕ) (t : Db) : Type 0 where
  pub idxoff : t.cur.idxoff ≡ e.off
  pub datoff : t.cur.datoff ≡ e.datoff
  pub ptrval : t.cur.ptrval ≡ pos next

pub findfree_loop-Picked :
    (fuel keylen datlen save : ℕ) (s : Db) (xs : List Entry) (e : Entry) (ys : List Entry)
    → length xs < fuel
    → Links s.disk.idx (xs ++ e ∷ ys)
    → NoneFits keylen datlen xs
    → same_size keylen datlen e ≡ true
    → Returns
        (λ r t. (r ≡ some (last_off save xs)) × (Same s t × Picked e (head_of ys) t))
        (findfree_loop fuel keylen datlen save (pos (head_of (xs ++ e ∷ ys))) s)
unfolding same_size
findfree_loop-Picked zero keylen datlen save s xs e ys h l n hit = absurd (omega arith)
findfree_loop-Picked (suc fuel) keylen datlen save s [] e ys h (ne, body, ptr, rest) n hit =
    rw (step fuel keylen datlen save e.off s ne, readidx_lem s e ne body ptr)
      (rw hit (
        returns (
          refl,
          (
            record {
              idx = refl;
              dat = refl;
              locks = refl;
              chainoff = refl;
              counts = refl;
              hashoff = refl;
              nhash = refl;
            },
            record { idxoff = refl; datoff = refl; ptrval = refl },
          ),
        )))
findfree_loop-Picked (suc fuel) keylen datlen save s (x ∷ xs) e ys h (ne, body, ptr, rest) (out, n)
      hit =
    rw (step fuel keylen datlen save x.off s ne, readidx_lem s x ne body ptr)
      (rw out (
        Returns.mono
          (findfree_loop-Picked fuel keylen datlen x.off (loaded s x (head_of (xs ++ e ∷ ys))) xs e
            ys (omega arith) rest n hit)
          λ r t (found, (same, p)). (
            found,
            (
              record {
                idx = same.idx;
                dat = same.dat;
                locks = same.locks;
                chainoff = same.chainoff;
                counts = same.counts;
                hashoff = same.hashoff;
                nhash = same.nhash;
              },
              p,
            ),
          )))

-- The state behind a `_db_findfree` that found `e`, the free records `xs` before it.
pub record Reused (xs : List Entry) (e : Entry) (next : ℕ) (s t : Db) : Type 0 where
  pub idx : t.disk.idx ≡ write_at s.disk.idx (last_off free_off xs) (padded ptr_sz next)
  pub dat : t.disk.dat ≡ s.disk.dat
  pub locks :
      t.disk.locks
      ≡ un_lock index_file free_off 1 ∷ writew_lock index_file free_off 1 ∷ s.disk.locks
  pub chainoff : t.cur.chainoff ≡ s.cur.chainoff
  pub counts : t.counts ≡ s.counts
  pub hashoff : t.hashoff ≡ s.hashoff
  pub nhash : t.nhash ≡ s.nhash
  pub picked : Picked e next t

-- The first record of the free list that has both sizes is taken off it: the pointer to it is set to the
-- record behind it.
pub findfree-Reused :
    (fuel keylen datlen : ℕ) (s : Db) (xs : List Entry) (e : Entry) (ys : List Entry)
    → length xs < fuel
    → PtrAt s.disk.idx free_off (head_of (xs ++ e ∷ ys))
    → Links s.disk.idx (xs ++ e ∷ ys)
    → NoneFits keylen datlen xs
    → same_size keylen datlen e ≡ true
    → head_of ys ≤ ptr_max
    → Returns (λ r t. (r ≡ true) × Reused xs e (head_of ys) s t) (findfree fuel keylen datlen s)
unfolding findfree unlink_free
findfree-Reused fuel keylen datlen s xs e ys h head links n hit low =
    let locked = record s {
      disk = record (s.disk) { locks = writew_lock index_file free_off 1 ∷ s.disk.locks };
    } in
    rw (readptr_lem locked head) (
      Returns.bind
        (findfree_loop-Picked fuel keylen datlen free_off (seek locked (free_off + ptr_sz)) xs e ys
          h links n hit)
        λ r t (found, (same, p)).
          let write =
            ap (λ v. writeptr (last_off free_off xs) v t) p.ptrval
            ∙ writeptr_lem t (last_off free_off xs) (head_of ys) low in
          rw (found, write)
            (returns (
              refl,
              record {
                idx =
                    ap (λ f. write_at f (last_off free_off xs) (padded ptr_sz (head_of ys)))
                      same.idx;
                dat = same.dat;
                locks = ap (λ l. un_lock index_file free_off 1 ∷ l) same.locks;
                chainoff = same.chainoff;
                counts = same.counts;
                hashoff = same.hashoff;
                nhash = same.nhash;
                picked = record { idxoff = p.idxoff; datoff = p.datoff; ptrval = p.ptrval };
              },
            )))
