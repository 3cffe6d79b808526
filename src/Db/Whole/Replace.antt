-- ===== src/Db/Whole/Replace.antt =====
-- `db_store` of a key that is there: over the data of the same length, or in place of the whole record.
use apue_2e.Base.{
  suc, ◌+◌, ◌*◌, ◌≤◌, ◌≡◌, refl, ap, sym, ◌∙◌, subst, subst₂, List, [], ◌∷◌, ◌++◌, arith, length,
  length-append, true, Option, some, ◌==◌, inl, inr, Bool-cases, All-take_out, All-put_in,
}
use apue_2e.Files.{Bytes, write_at}
use apue_2e.Db.State.{Db, ptr_sz, ptr_max, newline}
use apue_2e.Db.Fields.{hash, writedat}
use apue_2e.Db.Index.RoundTrip.{Fits, entry}
use apue_2e.Db.Layout.{Entry, PtrAt, head_of, lookup}
use apue_2e.Db.Returns
use apue_2e.Db.Returns.{Returns, returns}
use apue_2e.Db.Chain.Walk.{Same, Misses, Found, Current, entered, last_off}
use apue_2e.Db.Calls.{store_over, append_record}
use apue_2e.Db.Calls.Fetch.{lookup-found}
use apue_2e.Db.Whole.{records, IsWhole, Holds}
use apue_2e.Db.Whole.Lists.{length-records, Trails-split}
use apue_2e.Db.Whole.Moves.{slot, pointer, spread, head_near}
use apue_2e.Db.Whole.Delete.{gone, dodelete-Holds}
use apue_2e.Db.Whole.Append.{append-Holds, retext, retext-Holds}
use apue_2e.Db.Whole.Writes.{Files, linked, append_record-Files}
use apue_2e.Db.Whole.Map.{
  home, Unique, IsDb, stored_at, update, lookup-put_in, Unique-take_out, Unique-same_key,
}
use apue_2e.Db.Whole.Refine.{
  Represents, size, off_slot, chain_Unique, chain_Homely, Homely, set_chain-Represents,
  Represents-same,
}
use apue_2e.Db.Whole.Insert.{Storable}

module _ (s : Db) (frees : List Entry) (cs : List (List Entry)) (l : List Entry)
    (bs : List (List Entry)) (db : IsDb s frees (cs ++ l ∷ bs)) (key : Bytes)
    (here : home s.nhash key ≡ length cs) (m : Bytes → Option Bytes)
    (reads : (k : Bytes) → stored_at s.nhash (cs ++ l ∷ bs) k ≡ m k) (text : Bytes)
    (can : Storable s key text) (t : Db) (same : Same (entered s key true) t)
    (r : Found key (hash s key * ptr_sz + s.hashoff) l t) where
  Stores : Db → Type 0
  Stores u =
      (r' : Represents u (update m key (some text))) × (size r'
        ≤ suc (length (records (frees ∷ (cs ++ l ∷ bs)))))

  holds : Holds t.disk.idx t.disk.dat (frees ∷ (cs ++ (r.before ++ r.here ∷ r.behind) ∷ bs))
  holds =
      subst₂ (λ f g. Holds f g (frees ∷ (cs ++ (r.before ++ r.here ∷ r.behind) ∷ bs)))
        (sym same.idx) (sym same.dat)
        (subst (λ q. Holds s.disk.idx s.disk.dat (frees ∷ (cs ++ q ∷ bs))) r.split db.holds)

  cur : Current r.here (head_of r.behind) (pointer (frees ∷ cs) r.before) t
  cur =
      subst (λ o. Current r.here (head_of r.behind) (last_off o r.before) t)
        (off_slot s frees cs l bs db key here) r.current

  homes : Homely s frees cs l bs db key here m reads (r.before ++ r.here ∷ r.behind)
  homes =
      subst (Homely s frees cs l bs db key here m reads) r.split
        (chain_Homely s frees cs l bs db key here m reads)

  uniq : Unique (r.before ++ r.here ∷ r.behind)
  uniq = subst Unique r.split (chain_Unique s frees cs l bs db key here)

  count : length l ≡ length r.before + suc (length r.behind)
  count = ap length r.split ∙ length-append r.before (r.here ∷ r.behind)

  -- Data of the same length are overwritten.
  overwritten :
      (u : Db)
      → r.here.datlen ≡ length text + 1
      → u.disk.idx ≡ t.disk.idx
      → u.disk.dat ≡ write_at t.disk.dat r.here.datoff (text ++ newline ∷ [])
      → u.hashoff ≡ s.hashoff
      → u.nhash ≡ s.nhash
      → Stores u
  unfolding Stores
  overwritten u e i d o n =
      let new = retext r.here text in
      let (mine, rest) =
        All-take_out (λ c. home s.nhash c.key ≡ 0 + length cs) r.before r.here r.behind homes in
      let (r', total) =
        set_chain-Represents s frees cs l bs db key here m reads u frees
          (r.before ++ new ∷ r.behind) (some text)
          (subst₂ (λ f g. Holds f g (frees ∷ (cs ++ (r.before ++ new ∷ r.behind) ∷ bs))) (sym i)
            (sym d)
            (retext-Holds t.disk.idx t.disk.dat (frees ∷ cs) r.before r.here r.behind bs text holds
              can.clean e))
          o n (All-put_in (λ c. home s.nhash c.key ≡ 0 + length cs) r.before new r.behind mine rest)
          (Unique-same_key r.before r.here new r.behind refl uniq)
          (lookup-found key r.before r.behind new r.misses r.hit)
          (λ k ne.
            lookup-put_in k r.before new r.behind (λ c. ne (sym c ∙ r.hit))
            ∙ sym (lookup-put_in k r.before r.here r.behind (λ c. ne (sym c ∙ r.hit)))
            ∙ ap (lookup k) (sym r.split)) in
      (
        r',
        omega (
          arith,
          total,
          count,
          length-records (frees ∷ cs) l bs,
          length-records (frees ∷ cs) (r.before ++ new ∷ r.behind) bs,
          length-append {0} r.before (new ∷ r.behind),
        ),
      )

  -- The record goes to the free list, and a new one to the ends of the files.
  replaced :
      (v u : Db)
      → Holds v.disk.idx v.disk.dat ((gone r.here ∷ frees) ∷ cs ++ (r.before ++ r.behind) ∷ bs)
      → v.cur.chainoff ≡ slot (frees ∷ cs)
      → Fits key (length v.disk.dat) (length text + 1)
      → length v.disk.idx ≤ ptr_max
      → Files
          (linked v.disk.idx
            (length v.disk.idx)
            v.cur.chainoff
            (head_of (r.before ++ r.behind))
            key
            (length v.disk.dat)
            (length text + 1))
          (write_at v.disk.dat (length v.disk.dat) (text ++ newline ∷ []))
          s
          u
      → Stores u
  unfolding Stores
  replaced v u h at fits near d =
      let rest = r.before ++ r.behind in
      let new : Entry = entry (length v.disk.idx) key (length v.disk.dat) (length text + 1) text in
      let (out, others) = Unique-take_out r.before r.here r.behind uniq in
      let (_, homes') =
        All-take_out (λ c. home s.nhash c.key ≡ 0 + length cs) r.before r.here r.behind homes in
      let (r', total) =
        set_chain-Represents s frees cs l bs db key here m reads u (gone r.here ∷ frees)
          (new ∷ rest) (some text)
          (subst₂ (λ f g. Holds f g ((gone r.here ∷ frees) ∷ (cs ++ (new ∷ rest) ∷ bs)))
            (sym (
              d.idx
              ∙ ap
                  (λ o.
                    linked v.disk.idx (length v.disk.idx) o (head_of rest) key (length v.disk.dat)
                      (length text + 1))
                  at))
            (sym d.dat)
            (append-Holds v.disk.idx v.disk.dat ((gone r.here ∷ frees) ∷ cs) rest bs key text h fits
              can.clean near))
          d.hashoff d.nhash (here ∙ omega arith, homes')
          (subst (λ c. Misses c rest) r.hit out, others) (lookup-found key [] rest new tt refl)
          (λ k ne.
            lookup-put_in k [] new rest (λ c. ne (sym c))
            ∙ sym (lookup-put_in k r.before r.here r.behind (λ c. ne (sym c ∙ r.hit)))
            ∙ ap (lookup k) (sym r.split)) in
      (
        r',
        omega (
          arith,
          total,
          count,
          length-records (frees ∷ cs) l bs,
          length-records ((gone r.here ∷ frees) ∷ cs) (new ∷ rest) bs,
          length-append {0} r.before r.behind,
        ),
      )

  deleted_first :
      (v : Db)
      → Holds v.disk.idx v.disk.dat ((gone r.here ∷ frees) ∷ cs ++ (r.before ++ r.behind) ∷ bs)
      → v.cur.chainoff ≡ slot (frees ∷ cs)
      → length v.disk.idx ≡ length s.disk.idx
      → length v.disk.dat ≡ length s.disk.dat
      → v.hashoff ≡ s.hashoff
      → v.nhash ≡ s.nhash
      → Returns (λ _ u. Stores u) (append_record key text v)
  deleted_first v h at li ld o n =
      let rest = r.before ++ r.behind in
      let (_, back) = Trails-split v.disk.idx 0 ((gone r.here ∷ frees) ∷ cs) (rest ∷ bs) h.trails in
      let (_, (whole, _)) = spread IsWhole ((gone r.here ∷ frees) ∷ cs) rest bs h.whole in
      let fits = subst (λ k. Fits key k (length text + 1)) (sym ld) can.fits in
      let near : length v.disk.idx ≤ ptr_max = omega (arith, li, can.in_range) in
      Returns.mono
        (append_record-Files v (head_of rest) key text
          (subst (λ k. PtrAt v.disk.idx k (head_of rest)) (sym at) back.0) (head_near rest whole)
          near fits)
        λ _ u d.
          replaced v u h at fits near
            (record { idx = d.idx; dat = d.dat; hashoff = d.hashoff ∙ o; nhash = d.nhash ∙ n })

  pub store_over-Represents :
      Returns
        (λ _ u.
          (r' : Represents u (update m key (some text))) × (size r'
            ≤ suc (length (records (frees ∷ (cs ++ l ∷ bs))))))
        (store_over key text t)
  unfolding store_over Stores writedat
  store_over-Represents = elim (Bool-cases ((length text + 1) == t.cur.datlen)) [
    | inl e ↦
        let fit : length text + 1 ≡ t.cur.datlen = ground arith in
        rw e (
          returns (
            overwritten _ (sym (fit ∙ cur.datlen)) refl
              (ap (λ o. write_at t.disk.dat o (text ++ newline ∷ [])) cur.datoff) same.hashoff
              same.nhash))
    | inr e ↦ rw e (
        Returns.bind (dodelete-Holds t frees cs r.before r.here r.behind bs holds cur)
          λ _ v (h, c, _, o, n, _, li, ld).
            Returns.bind
              (deleted_first v h (c ∙ same.chainoff ∙ off_slot s frees cs l bs db key here)
                (li ∙ ap length same.idx) (ld ∙ ap length same.dat) (o ∙ same.hashoff)
                (n ∙ same.nhash))
              λ _ u (r', z).
                let (kept, n) = Represents-same {t = _} r' refl refl refl refl in
                returns (kept, omega (arith, n, z)))
  ]
