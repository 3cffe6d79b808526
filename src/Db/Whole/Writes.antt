-- ===== src/Db/Whole/Writes.antt =====
-- What `db_store` writes behind its searches: the file contents of its four ways.
use apue_2e.Base.{ℕ, ◌+◌, ◌<◌, ◌≤◌, ◌≡◌, refl, sym, subst, List, [], ◌∷◌, ◌++◌, arith, length, true}
use apue_2e.Files.{Bytes, write_at}
use apue_2e.CText.{padded}
use apue_2e.Db.State.{Db, ptr_sz, ptr_max, free_off, bump, newline}
use apue_2e.Db.Fields.{writedat}
use apue_2e.Db.Fields.RoundTrip.{
  seek, put_data, readptr_lem, writeptr_lem, append_data, writedat_end,
}
use apue_2e.Db.Index.RoundTrip.{Fits, image, put_entry, writeidx_lem, append_entry, writeidx_end}
use apue_2e.Db.Layout.{Entry, PtrAt, head_of, Links}
use apue_2e.Db.Returns
use apue_2e.Db.Returns.{Returns, returns}
use apue_2e.Db.Chain.Walk.{last_off}
use apue_2e.Db.Chain.Free.{same_size, NoneFits}
use apue_2e.Db.Chain.Fit.{findfree-Reused}
use apue_2e.Db.Calls.{store_new, append_record}

-- Both files with given contents, and the rest of the state that the calls keep.
pub record Files (f g : Bytes) (s t : Db) : Type 0 where
  pub idx : t.disk.idx ≡ f
  pub dat : t.disk.dat ≡ g
  pub hashoff : t.hashoff ≡ s.hashoff
  pub nhash : t.nhash ≡ s.nhash

-- The index file with a record at `off` and the pointer to it at `slot`.
abbrev pub linked : Bytes → ℕ → ℕ → ℕ → Bytes → ℕ → ℕ → Bytes
linked f off slot head key datoff datlen =
    write_at (write_at f off (image head key datoff datlen)) slot (padded ptr_sz off)

-- `append_record`: both files grow, and the pointer of the chain is set to the new record.
pub append_record-Files :
    (s : Db) (head : ℕ) (key text : Bytes)
    → PtrAt s.disk.idx s.cur.chainoff head
    → head ≤ ptr_max
    → length s.disk.idx ≤ ptr_max
    → Fits key (length s.disk.dat) (length text + 1)
    → Returns
        (λ _ t.
          Files
            (linked s.disk.idx
              (length s.disk.idx)
              s.cur.chainoff
              head
              key
              (length s.disk.dat)
              (length text + 1))
            (write_at s.disk.dat (length s.disk.dat) (text ++ newline ∷ []))
            s
            t)
        (append_record key text s)
unfolding append_record
append_record-Files s head key text ptr low high fits =
    let at_ptr = seek s (s.cur.chainoff + ptr_sz) in
    rw
      (
        readptr_lem s ptr,
        writedat_end at_ptr text,
        writeidx_end (append_data at_ptr text) head key low fits,
        writeptr_lem (append_entry (append_data at_ptr text) head key) s.cur.chainoff
            (length s.disk.idx) high,
      )
      (returns (record { idx = refl; dat = refl; hashoff = refl; nhash = refl }))

-- `store_new` where a free record is reused.
pub store_new-Files :
    (fuel : ℕ) (s : Db) (head : ℕ) (key text : Bytes) (xs : List Entry) (e : Entry)
    (ys : List Entry)
    → length xs < fuel
    → PtrAt s.disk.idx s.cur.chainoff head
    → head ≤ ptr_max
    → PtrAt s.disk.idx free_off (head_of (xs ++ e ∷ ys))
    → Links s.disk.idx (xs ++ e ∷ ys)
    → NoneFits (length key) (length text + 1) xs
    → same_size (length key) (length text + 1) e ≡ true
    → head_of ys ≤ ptr_max
    → e.off ≤ ptr_max
    → Fits key e.datoff (length text + 1)
    → Returns
        (λ _ t.
          Files
            (linked
              (write_at s.disk.idx (last_off free_off xs) (padded ptr_sz (head_of ys)))
              e.off
              s.cur.chainoff
              head
              key
              e.datoff
              (length text + 1))
            (write_at s.disk.dat e.datoff (text ++ newline ∷ []))
            s
            t
          × (t.counts ≡ record (s.counts) { stor2 = bump s.counts.stor2 }))
        (store_new fuel key text s)
unfolding store_new writedat
store_new-Files fuel s head key text xs e ys h ptr low free links n hit low' near fits =
    let at_ptr = seek s (s.cur.chainoff + ptr_sz) in
    rw (readptr_lem s ptr) (
      Returns.bind
        (findfree-Reused fuel (length key) (length text + 1) at_ptr xs e ys h free links n hit low')
        λ r t (hit', u).
          let fits' = subst (λ o. Fits key o (length text + 1)) (sym u.picked.datoff) fits in
          let written = put_data t text t.cur.datoff in
          rw hit' (
            rw
              (
                writeidx_lem written t.cur.idxoff head key low fits',
                writeptr_lem (put_entry written t.cur.idxoff head key) t.cur.chainoff t.cur.idxoff
                    (omega (arith, near, u.picked.idxoff)),
              )
              (returns (
                record {
                  idx = simp (u.idx, u.picked.idxoff, u.picked.datoff, u.chainoff);
                  dat = simp (u.dat, u.picked.datoff);
                  hashoff = u.hashoff;
                  nhash = u.nhash;
                },
                simp (u.counts),
              ))))
