-- ===== src/Db/Whole/Delete.antt =====
-- `_db_dodelete` moves a record to the front of the free list, with blanks for its key and its data.
use apue_2e.Base.{
  ℕ, zero, suc, ◌≢◌, ◌+◌, ◌-◌, ◌≤◌, ◌≡◌, refl, ap, sym, ◌∙◌, subst₂, inl, All-split, List, [], ◌∷◌,
  ◌++◌, arith, All, length, replicate, length-replicate, pos,
}
use apue_2e.Files.{Bytes, write_at}
use apue_2e.CText.{padded}
use apue_2e.CText.RoundTrip.{length-padded}
use apue_2e.Files.Commute.{write_at-Apart}
use apue_2e.Db.State.{
  Db, ok, index_file, writew_lock, un_lock, free_off, space, newline, sep, ptr_sz, ptr_max,
}
use apue_2e.Db.Fields.{writedat}
use apue_2e.Db.Fields.RoundTrip.{
  seek, put_index, put_data, readptr_lem, writeptr_lem, blanks-NoNull, length-line,
}
use apue_2e.Db.Index.RoundTrip.{Fits, image, put_entry, writeidx_lem}
use apue_2e.Db.Layout.{Entry, PtrAt, DataAt, head_of}
use apue_2e.Db.Chain.{dodelete}
use apue_2e.Db.Returns.{Returns, returns}
use apue_2e.Db.Chain.Walk.{Current}
use apue_2e.Db.Whole.{IsWhole, Holds}
use apue_2e.Files.Frame.{length-write_at_inside}
use apue_2e.Db.Layout.Front.{Front-Links, Front-inside}
use apue_2e.Db.Whole.Lists.{Trails-split}
use apue_2e.Db.Whole.Moves.{
  slot, pointer, unlink-Holds, unlink-Room, pointer-Apart, all_others, spread, head_near,
}
use apue_2e.Db.Whole.Enter.{length-print_record, enter-Holds, length-image}

abbrev pub blank : Bytes → Bytes
blank key = replicate (length key) space

-- The state behind `_db_dodelete`, with `fh` the head of the free list and `nx` the record behind.
abbrev pub erased : Db → ℕ → ℕ → Db
erased s fh nx =
    let datbuf : Bytes = replicate (s.cur.datlen - 1) space in
    let locked : Db = record s {
      disk = record (s.disk) { locks = writew_lock index_file free_off 1 ∷ s.disk.locks };
      cur = record (s.cur) { datbuf = datbuf; idxbuf = blank s.cur.idxbuf };
    } in
    let moved : Db =
      put_index
        (put_index
          (put_entry (seek (put_data locked datbuf s.cur.datoff) 6) s.cur.idxoff fh
            (blank s.cur.idxbuf))
          free_off (padded ptr_sz s.cur.idxoff))
        s.cur.ptroff (padded ptr_sz nx) in
    record moved {
      disk = record (moved.disk) { locks = un_lock index_file free_off 1 ∷ moved.disk.locks };
    }

pub dodelete_lem :
    (s : Db) (fh nx : ℕ)
    → PtrAt s.disk.idx free_off fh
    → Fits (blank s.cur.idxbuf) s.cur.datoff (length (replicate (s.cur.datlen - 1) space) + 1)
    → fh ≤ ptr_max
    → s.cur.idxoff ≤ ptr_max
    → s.cur.ptrval ≡ pos nx
    → nx ≤ ptr_max
    → dodelete s ≡ ok tt (erased s fh nx)
unfolding dodelete writedat
dodelete_lem s fh nx free fits low near next low' =
    let datbuf : Bytes = replicate (s.cur.datlen - 1) space in
    let locked : Db = record s {
      disk = record (s.disk) { locks = writew_lock index_file free_off 1 ∷ s.disk.locks };
      cur = record (s.cur) { datbuf = datbuf; idxbuf = blank s.cur.idxbuf };
    } in
    let s2 = put_data locked datbuf s.cur.datoff in
    let s4 = put_entry (seek s2 6) s.cur.idxoff fh (blank s.cur.idxbuf) in
    rw
      (
        readptr_lem s2 free,
        writeidx_lem (seek s2 6) s.cur.idxoff fh (blank s.cur.idxbuf) low fits,
        writeptr_lem s4 free_off s.cur.idxoff near,
        next,
        writeptr_lem (put_index s4 free_off (padded ptr_sz s.cur.idxoff)) s.cur.ptroff nx low',
      )
      refl

-- The record on the free list: the same room, filled with blanks.
abbrev pub gone : Entry → Entry
gone e = record e { key = blank e.key; text = replicate (e.datlen - 1) space }

blanks_no_sep : (n : ℕ) → All (λ c. c ≢ sep) (replicate n space)
blanks_no_sep zero = tt
blanks_no_sep (suc n) = (omega arith, blanks_no_sep n)

gone-IsWhole : (e : Entry) → IsWhole e → IsWhole (gone e)
gone-IsWhole e w =
    let same =
      length-print_record (blank e.key) e.key e.datoff e.datlen
        (length-replicate (length e.key) space) in
    let wide : 1 ≤ e.datlen = omega (arith, w.line) in
    record {
      fits = record {
        is_key = (blanks-NoNull (length e.key), blanks_no_sep (length e.key));
        data_low = w.fits.data_low;
        data_high = w.fits.data_high;
        low = omega (arith, w.fits.low, same);
        high = omega (arith, w.fits.high, same);
      };
      size = w.size ∙ sym same;
      line = omega (arith, wide, length-replicate {0} (e.datlen - 1) space);
      clean = blanks-NoNull (e.datlen - 1);
      near = w.near;
    }

module _ (s : Db) (frees : List Entry) (cs : List (List Entry)) (xs : List Entry) (e : Entry)
    (ys : List Entry) (bs : List (List Entry))
    (h : Holds s.disk.idx s.disk.dat (frees ∷ cs ++ (xs ++ e ∷ ys) ∷ bs))
    (c : Current e (head_of ys) (pointer (frees ∷ cs) xs) s) where
  w : IsWhole e
  w = (all_others s.disk.idx s.disk.dat (frees ∷ cs) xs e ys bs IsWhole h.whole).0

  low_ys : head_of ys ≤ ptr_max
  low_ys =
      let (_, (here, _)) =
        spread IsWhole (frees ∷ cs) (xs ++ ys) bs
          (all_others s.disk.idx s.disk.dat (frees ∷ cs) xs e ys bs IsWhole h.whole).1 in
      head_near ys (All-split IsWhole xs ys here).1

  low_frees : head_of frees ≤ ptr_max
  low_frees = head_near frees (spread IsWhole [] frees (cs ++ (xs ++ e ∷ ys) ∷ bs) h.whole).1.0

  width : length (replicate (s.cur.datlen - 1) space) + 1 ≡ e.datlen
  width = omega (arith, length-replicate {0} (s.cur.datlen - 1) space, c.datlen, w.line)

  kept-Fits :
      Fits (blank s.cur.idxbuf) s.cur.datoff (length (replicate (s.cur.datlen - 1) space) + 1)
  kept-Fits = rw (width, c.idxbuf, c.datoff) (gone-IsWhole e w).fits

  -- The index file, with the writes in the order of the moves.
  index_moved :
      (erased s (head_of frees) (head_of ys)).disk.idx
      ≡ write_at
          (write_at
            (write_at s.disk.idx (pointer (frees ∷ cs) xs) (padded ptr_sz (head_of ys)))
            e.off
            (image (head_of frees) (blank e.key) e.datoff e.datlen))
          0
          (padded ptr_sz e.off)
  index_moved =
      let p = pointer (frees ∷ cs) xs in
      let img = image (head_of frees) (blank e.key) e.datoff e.datlen in
      let to_ys = padded ptr_sz (head_of ys) in
      let size : length to_ys ≡ ptr_sz = length-padded 5 (head_of ys) (omega (arith, low_ys)) in
      let size' : length (padded ptr_sz e.off) ≡ ptr_sz =
        length-padded 5 e.off (omega (arith, w.near)) in
      let wide = length-image (gone e) (gone-IsWhole e w) (head_of frees) low_frees in
      let (out, far) = pointer-Apart s.disk.idx s.disk.dat (frees ∷ cs) xs e ys bs h in
      let own : (erased s (head_of frees) (head_of ys)).disk.idx
          ≡ write_at (write_at (write_at s.disk.idx e.off img) 0 (padded ptr_sz e.off)) p to_ys =
        rw (width, c.idxoff, c.idxbuf, c.datoff, c.ptroff) refl in
      own
      ∙ write_at-Apart (write_at s.disk.idx e.off img) 0 (padded ptr_sz e.off) p to_ys
          (inl (omega (arith, size', far)))
      ∙ ap (λ f. write_at f 0 (padded ptr_sz e.off))
          (write_at-Apart s.disk.idx e.off img p to_ys (omega (arith, size, wide, out)))

  data_moved :
      (erased s (head_of frees) (head_of ys)).disk.dat
      ≡ write_at s.disk.dat e.datoff (replicate (e.datlen - 1) space ++ newline ∷ [])
  data_moved = rw (c.datoff, c.datlen) refl

  moved :
      Holds
        (erased s (head_of frees) (head_of ys)).disk.idx
        (erased s (head_of frees) (head_of ys)).disk.dat
        ((gone e ∷ frees) ∷ cs ++ (xs ++ ys) ∷ bs)
  moved =
      let r = unlink-Room s.disk.idx s.disk.dat (frees ∷ cs) xs e ys bs h in
      subst₂ (λ f g. Holds f g ((gone e ∷ frees) ∷ cs ++ (xs ++ ys) ∷ bs)) (sym index_moved)
        (sym data_moved)
        (enter-Holds (gone e) (gone-IsWhole e w) _ s.disk.dat [] frees (cs ++ (xs ++ ys) ∷ bs)
          (unlink-Holds s.disk.idx s.disk.dat (frees ∷ cs) xs e ys bs h)
          (record { apart = r.apart; behind = r.behind }))

  -- All of it is written inside the files.
  lengths :
      (length (erased s (head_of frees) (head_of ys)).disk.idx ≡ length s.disk.idx)
      × (length (erased s (head_of frees) (head_of ys)).disk.dat ≡ length s.disk.dat)
  lengths =
      let p = pointer (frees ∷ cs) xs in
      let f1 = write_at s.disk.idx p (padded ptr_sz (head_of ys)) in
      let img = image (head_of frees) (blank e.key) e.datoff e.datlen in
      let size : length (padded ptr_sz (head_of ys)) ≡ ptr_sz =
        length-padded 5 (head_of ys) (omega (arith, low_ys)) in
      let size' : length (padded ptr_sz e.off) ≡ ptr_sz =
        length-padded 5 e.off (omega (arith, w.near)) in
      let wide = length-image (gone e) (gone-IsWhole e w) (head_of frees) low_frees in
      let (_, back) = Trails-split s.disk.idx 0 (frees ∷ cs) ((xs ++ e ∷ ys) ∷ bs) h.trails in
      let (front, tail) = Front-Links s.disk.idx (slot (frees ∷ cs)) xs (e ∷ ys) back.0 back.1 in
      let here =
        (all_others s.disk.idx s.disk.dat (frees ∷ cs) xs e ys bs (DataAt s.disk.dat)
          h.data_records).0 in
      let in_p = Front-inside s.disk.idx (slot (frees ∷ cs)) xs e.off front in
      let e1 =
        length-write_at_inside s.disk.idx p (padded ptr_sz (head_of ys))
          (omega (arith, size, in_p)) in
      let e2 = length-write_at_inside f1 e.off img (omega (arith, wide, e1, tail.1.inside)) in
      let e3 =
        length-write_at_inside (write_at f1 e.off img) 0 (padded ptr_sz e.off)
          (omega (arith, size', e1, e2, h.trails.0.inside)) in
      (
        ap length index_moved ∙ e3 ∙ e2 ∙ e1,
        ap length data_moved
            ∙ length-write_at_inside s.disk.dat e.datoff _ (
                omega (
                  arith,
                  length-line (replicate (e.datlen - 1) space),
                  (gone-IsWhole e w).line,
                  here.inside,
                )),
      )

  -- Where the two files hold the free list and the chains, `_db_dodelete` of the record that was just found
  -- moves it from its chain to the front of the free list: its key and data become blanks, and both files
  -- hold the lists that result. The lengths of the files and the state of the search stay, and the free
  -- list is locked and unlocked.
  pub dodelete-Holds :
      Returns
        (λ _ t.
          Holds t.disk.idx t.disk.dat ((gone e ∷ frees) ∷ cs ++ (xs ++ ys) ∷ bs)
          × (t.cur.chainoff ≡ s.cur.chainoff)
          × (t.counts ≡ s.counts)
          × (t.hashoff ≡ s.hashoff)
          × (t.nhash ≡ s.nhash)
          × (t.disk.locks
              ≡ un_lock index_file free_off 1 ∷ writew_lock index_file free_off 1 ∷ s.disk.locks)
          × (length t.disk.idx ≡ length s.disk.idx)
          × (length t.disk.dat ≡ length s.disk.dat))
        (dodelete s)
  dodelete-Holds =
      rw
        (dodelete_lem s (head_of frees) (head_of ys) h.trails.0 kept-Fits low_frees
          (rw c.idxoff w.near) c.ptrval low_ys)
        (returns (moved, refl, refl, refl, refl, refl, lengths.0, lengths.1))
