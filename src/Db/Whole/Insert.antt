-- ===== src/Db/Whole/Insert.antt =====
-- `db_store` of a key that is not there: at the ends of the files, or in the room of a free record.
use apue_2e.Base.{
  ℕ, suc, ◌+◌, ◌<◌, ◌≤◌, ◌≡◌, refl, ap, ap₂, sym, ◌∙◌, subst, subst₂, List, [], ◌∷◌, ◌++◌, arith,
  All, length, length-append, true, Option, some, inl, inr, All-split,
}
use apue_2e.Files.{Bytes, write_at}
use apue_2e.CText.{padded}
use apue_2e.Db.State.{Db, ptr_sz, ptr_max, free_off, newline}
use apue_2e.Db.Fields.RoundTrip.{NoNull}
use apue_2e.Db.Index.RoundTrip.{Fits, entry}
use apue_2e.Db.Layout.{Entry, PtrAt, head_of}
use apue_2e.Db.Returns
use apue_2e.Db.Returns.{Returns, returns}
use apue_2e.Db.Chain.Walk.{Same, last_off, Misses, entered}
use apue_2e.Db.Chain.Free.{same_size, NoneFits}
use apue_2e.Db.Chain.Fit.{FirstFit, NoneFits-FirstFit}
use apue_2e.Db.Calls.{store_new}
use apue_2e.Db.Calls.Insert.{store_new-Grown}
use apue_2e.Db.Calls.Fetch.{lookup-found}
use apue_2e.Db.Whole.{records, IsWhole, Holds}
use apue_2e.Db.Whole.Lists.{length-records}
use apue_2e.Db.Whole.Moves.{slot, spread, head_near, unlink-Holds, unlink-Room, all_others}
use apue_2e.Db.Whole.Enter.{length-print_record, enter-Holds}
use apue_2e.Db.Whole.Append.{append-Holds}
use apue_2e.Db.Whole.Writes.{Files, linked, store_new-Files}
use apue_2e.Db.Whole.Map.{home, IsDb, stored_at, update, lookup-put_in}
use apue_2e.Db.Whole.Refine.{
  Represents, size, off_slot, trail, chain_Unique, chain_Homely, set_chain-Represents,
}

-- What `db_store` can take: a key and data within the limits, and an end of the index file that a pointer
-- can name.
pub record Storable (s : Db) (key text : Bytes) : Type 0 where
  pub fits : Fits key (length s.disk.dat) (length text + 1)
  pub in_range : length s.disk.idx ≤ ptr_max
  pub not_empty : 1 ≤ length text
  pub clean : NoNull text

-- The record in the room of a free one.
abbrev pub reused : Entry → Bytes → Bytes → Entry
reused e key text = record e { key = key; text = text }

same_size-both :
    (keylen datlen : ℕ) (e : Entry)
    → same_size keylen datlen e ≡ true
    → (length e.key ≡ keylen) × (e.datlen ≡ datlen)
unfolding same_size
same_size-both keylen datlen e h = (ground arith, ground arith)

reused-IsWhole :
    (e : Entry) (key text : Bytes)
    → IsWhole e
    → Fits key e.datoff (length text + 1)
    → NoNull text
    → length key ≡ length e.key
    → e.datlen ≡ length text + 1
    → IsWhole (reused e key text)
reused-IsWhole e key text w f clean k d = record {
  fits = subst (Fits key e.datoff) (sym d) f;
  size = w.size ∙ sym (length-print_record key e.key e.datoff e.datlen k);
  line = d;
  clean = clean;
  near = w.near;
}

-- The lengths of a record fit where those of the free one did.
refits :
    (e : Entry) (key : Bytes) (n datoff : ℕ)
    → IsWhole e
    → Fits key datoff n
    → length key ≡ length e.key
    → e.datlen ≡ n
    → Fits key e.datoff n
refits e key n datoff w f k d =
    let same = length-print_record key e.key e.datoff e.datlen k in
    subst (Fits key e.datoff) d (record {
      is_key = f.is_key;
      data_low = omega (arith, f.data_low);
      data_high = omega (arith, f.data_high);
      low = omega (arith, w.fits.low, same);
      high = omega (arith, w.fits.high, same);
    })

module _ (s : Db) (frees : List Entry) (cs : List (List Entry)) (l : List Entry)
    (bs : List (List Entry)) (db : IsDb s frees (cs ++ l ∷ bs)) (key : Bytes)
    (here : home s.nhash key ≡ length cs) (m : Bytes → Option Bytes)
    (reads : (k : Bytes) → stored_at s.nhash (cs ++ l ∷ bs) k ≡ m k) (text : Bytes) where
  total : ℕ
  total = length (records (frees ∷ (cs ++ l ∷ bs)))

  -- A record with the key in front of its chain.
  pub fronted-Represents :
      (u : Db) (frees' : List Entry) (e : Entry)
      → Misses key l
      → e.key ≡ key
      → e.text ≡ text
      → Holds u.disk.idx u.disk.dat (frees' ∷ (cs ++ (e ∷ l) ∷ bs))
      → u.hashoff ≡ s.hashoff
      → u.nhash ≡ s.nhash
      → (r : Represents u (update m key (some text))) × (size r
          ≡ length (records (frees' ∷ (cs ++ (e ∷ l) ∷ bs))))
  fronted-Represents u frees' e q k x h o n =
      set_chain-Represents s frees cs l bs db key here m reads u frees' (e ∷ l) (some text) h o n
        (ap (home s.nhash) k ∙ here ∙ omega arith, chain_Homely s frees cs l bs db key here m reads)
        (subst (λ c. Misses c l) (sym k) q, chain_Unique s frees cs l bs db key here)
        (lookup-found key [] l e tt k ∙ ap some x)
        (λ c ne. lookup-put_in c [] e l (λ i. ne (sym i ∙ k)))

  module _ (can : Storable s key text) (t : Db) (same : Same (entered s key true) t)
      (q : Misses key l) (fuel : ℕ) (h : length (records (frees ∷ (cs ++ l ∷ bs))) < fuel) where
    holds : Holds t.disk.idx t.disk.dat (frees ∷ (cs ++ l ∷ bs))
    holds =
        subst₂ (λ f g. Holds f g (frees ∷ (cs ++ l ∷ bs))) (sym same.idx) (sym same.dat) db.holds

    at_slot : t.cur.chainoff ≡ slot (frees ∷ cs)
    at_slot = same.chainoff ∙ off_slot s frees cs l bs db key here

    low : head_of l ≤ ptr_max
    low = head_near l (spread IsWhole (frees ∷ cs) l bs db.holds.whole).1.0

    ptr : PtrAt t.disk.idx t.cur.chainoff (head_of l)
    ptr =
        subst₂ (λ f o. PtrAt f o (head_of l)) (sym same.idx) (sym at_slot)
          (trail s frees cs l bs db key here).0

    few : length frees < fuel
    few = omega (arith, h, length-records [] frees (cs ++ l ∷ bs))

    near : length t.disk.idx ≤ ptr_max
    near = subst (λ f. length f ≤ ptr_max) (sym same.idx) can.in_range

    fits : Fits key (length t.disk.dat) (length text + 1)
    fits = subst (λ g. Fits key (length g) (length text + 1)) (sym same.dat) can.fits

    at_end :
        NoneFits (length key) (length text + 1) frees
        → Returns
            (λ _ u.
              (r : Represents u (update m key (some text))) × (size r
                ≤ suc (length (records (frees ∷ (cs ++ l ∷ bs))))))
            (store_new fuel key text t)
    at_end none_fit =
        Returns.mono
          (store_new-Grown fuel (head_of l) key text frees t few ptr holds.trails.0 holds.trails.1
            none_fit low near fits)
          λ _ u g.
            let new = entry (length t.disk.idx) key (length t.disk.dat) (length text + 1) text in
            let (r, n) =
              fronted-Represents u frees new q refl refl
                (subst₂ (λ f d. Holds f d (frees ∷ (cs ++ (new ∷ l) ∷ bs)))
                  (sym (
                    g.idx
                    ∙ ap
                        (λ o.
                          linked t.disk.idx (length t.disk.idx) o (head_of l) key
                            (length t.disk.dat) (length text + 1))
                        at_slot))
                  (sym g.dat)
                  (append-Holds t.disk.idx t.disk.dat (frees ∷ cs) l bs key text holds fits
                    can.clean near))
                (g.hashoff ∙ same.hashoff) (g.nhash ∙ same.nhash) in
            (
              r,
              omega (
                arith,
                n,
                length-records (frees ∷ cs) l bs,
                length-records (frees ∷ cs) (new ∷ l) bs,
              ),
            )

    module _ (p : FirstFit (length key) (length text + 1) frees) where
      held : Holds t.disk.idx t.disk.dat ((p.before ++ p.here ∷ p.behind) ∷ (cs ++ l ∷ bs))
      held = subst (λ fs. Holds t.disk.idx t.disk.dat (fs ∷ (cs ++ l ∷ bs))) p.split holds

      free_one :
          IsWhole p.here × All IsWhole (records ([] ++ (p.before ++ p.behind) ∷ (cs ++ l ∷ bs)))
      free_one =
          all_others t.disk.idx t.disk.dat [] p.before p.here p.behind (cs ++ l ∷ bs) IsWhole
            held.whole

      low_behind : head_of p.behind ≤ ptr_max
      low_behind =
          let (_, (free, _)) = spread IsWhole [] (p.before ++ p.behind) (cs ++ l ∷ bs) free_one.1 in
          head_near p.behind (All-split IsWhole p.before p.behind free).1

      sizes : (length p.here.key ≡ length key) × (p.here.datlen ≡ length text + 1)
      sizes = same_size-both (length key) (length text + 1) p.here p.hit

      room-Fits : Fits key p.here.datoff (length text + 1)
      room-Fits =
          refits p.here key (length text + 1) (length t.disk.dat) free_one.0 fits (sym sizes.0)
            sizes.1

      placed_there :
          (u : Db)
          → Files
              (linked
                (write_at t.disk.idx
                  (last_off free_off p.before)
                  (padded ptr_sz (head_of p.behind)))
                p.here.off
                t.cur.chainoff
                (head_of l)
                key
                p.here.datoff
                (length text + 1))
              (write_at t.disk.dat p.here.datoff (text ++ newline ∷ []))
              t
              u
          → Holds u.disk.idx u.disk.dat
              ((p.before ++ p.behind) ∷ (cs ++ (reused p.here key text ∷ l) ∷ bs))
      placed_there u d =
          let new = reused p.here key text in
          let r =
            unlink-Room t.disk.idx t.disk.dat [] p.before p.here p.behind (cs ++ l ∷ bs) held in
          let freed =
            write_at t.disk.idx (last_off free_off p.before) (padded ptr_sz (head_of p.behind)) in
          subst₂ (λ f g. Holds f g ((p.before ++ p.behind) ∷ (cs ++ (new ∷ l) ∷ bs)))
            (sym (
              d.idx
              ∙ ap₂ (λ o n. linked freed p.here.off o (head_of l) key p.here.datoff n) at_slot
                  (sym sizes.1)))
            (sym d.dat)
            (enter-Holds new
              (reused-IsWhole p.here key text free_one.0 room-Fits can.clean (sym sizes.0) sizes.1)
              freed t.disk.dat ((p.before ++ p.behind) ∷ cs) l bs
              (unlink-Holds t.disk.idx t.disk.dat [] p.before p.here p.behind (cs ++ l ∷ bs) held)
              (record { apart = r.apart; behind = r.behind }))

      in_room :
          Returns
            (λ _ u.
              (r : Represents u (update m key (some text))) × (size r
                ≤ suc (length (records (frees ∷ (cs ++ l ∷ bs))))))
            (store_new fuel key text t)
      in_room =
          Returns.mono
            (store_new-Files fuel t (head_of l) key text p.before p.here p.behind
              (omega
                (arith, few, ap length p.split, length-append {0} p.before (p.here ∷ p.behind)))
              ptr low held.trails.0 held.trails.1 p.misses p.hit low_behind free_one.0.near
              room-Fits)
            λ _ u (d, _).
              let (r, n) =
                fronted-Represents u (p.before ++ p.behind) (reused p.here key text) q refl refl
                  (placed_there u d) (d.hashoff ∙ same.hashoff) (d.nhash ∙ same.nhash) in
              (
                r,
                omega (
                  arith,
                  n,
                  length-records (frees ∷ cs) l bs,
                  length-records ((p.before ++ p.behind) ∷ cs) (reused p.here key text ∷ l) bs,
                  ap length p.split,
                  length-append {0} p.before (p.here ∷ p.behind),
                  length-append {0} p.before p.behind,
                  length-append {0} frees (records cs),
                  length-append {0} (p.before ++ p.behind) (records cs),
                ),
              )

    pub store_new-Represents :
        Returns
          (λ _ u.
            (r : Represents u (update m key (some text))) × (size r
              ≤ suc (length (records (frees ∷ (cs ++ l ∷ bs))))))
          (store_new fuel key text t)
    store_new-Represents = elim (NoneFits-FirstFit (length key) (length text + 1) frees) [
      | inl none_fit ↦ at_end none_fit
      | inr p ↦ in_room p
    ]
