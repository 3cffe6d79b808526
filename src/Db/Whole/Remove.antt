-- ===== src/Db/Whole/Remove.antt =====
-- `db_delete` on a whole database takes the key off the map.
use apue_2e.Base.{
  ℕ, ◌+◌, ◌*◌, ◌<◌, ◌≡◌, refl, ap, sym, ◌∙◌, subst, subst₂, List, ◌∷◌, ◌++◌, arith, length-append,
  Bool, true, Option, none, All-take_out, length,
}
use apue_2e.Files.{Bytes}
use apue_2e.Db.State.{Db, ◌>>◌, pure, ptr_sz}
use apue_2e.Db.Fields.{hash}
use apue_2e.Db.Layout.{Entry, head_of, lookup}
use apue_2e.Db.Returns
use apue_2e.Db.Returns.{Returns, returns}
use apue_2e.Db.Chain.Walk.{
  Same, Misses, Outcome, found, missed, Current, last_off, entered, find_and_lock-Outcome,
}
use apue_2e.Db.Calls.{delete, delete_found, unlock_chain}
use apue_2e.Db.Calls.Fetch.{lookup-found, lookup-missed}
use apue_2e.Db.Whole.{records, Holds}
use apue_2e.Db.Whole.Lists.{length-records}
use apue_2e.Db.Whole.Delete.{gone, dodelete-Holds}
use apue_2e.Db.Whole.Map.{
  home, Unique, IsDb, stored_at, update, update_same, lookup-put_in, Unique-take_out,
}
use apue_2e.Db.Whole.Refine.{
  Represents, size, is_there, IsDb-same, with_chain, off_slot, chain_head, chain-Links, chain_short,
  chain_Unique, chain_Homely, Homely, at_key, set_chain-Represents,
}

module _ (s : Db) (frees : List Entry) (cs : List (List Entry)) (l : List Entry)
    (bs : List (List Entry)) (db : IsDb s frees (cs ++ l ∷ bs)) (key : Bytes)
    (here : home s.nhash key ≡ length cs) (m : Bytes → Option Bytes)
    (reads : (k : Bytes) → stored_at s.nhash (cs ++ l ∷ bs) k ≡ m k) where
  -- The lists behind a `db_delete` that found the record `e`.
  module _ (xs : List Entry) (e : Entry) (ys : List Entry) (split : l ≡ xs ++ e ∷ ys)
      (hit : e.key ≡ key) where
    removed :
        (t : Db)
        → Holds t.disk.idx t.disk.dat ((gone e ∷ frees) ∷ cs ++ (xs ++ ys) ∷ bs)
        → t.hashoff ≡ s.hashoff
        → t.nhash ≡ s.nhash
        → (r : Represents t (update m key none)) × (size r
            ≡ length (records (frees ∷ (cs ++ l ∷ bs))))
    removed t h o n =
        let (out, rest) =
          Unique-take_out xs e ys (subst Unique split (chain_Unique s frees cs l bs db key here)) in
        let homes =
          All-take_out (λ d. home s.nhash d.key ≡ 0 + length cs) xs e ys
            (subst (Homely s frees cs l bs db key here m reads) split
              (chain_Homely s frees cs l bs db key here m reads)) in
        let (r, total) =
          set_chain-Represents s frees cs l bs db key here m reads t (gone e ∷ frees) (xs ++ ys)
            none h o n homes.1 rest
            (lookup-missed key (xs ++ ys) (subst (λ q. Misses q (xs ++ ys)) hit out))
            (λ q ne.
              sym (lookup-put_in q xs e ys (λ i. ne (sym i ∙ hit))) ∙ ap (lookup q) (sym split)) in
        (
          r,
          omega (
            arith,
            total,
            length-records (frees ∷ cs) l bs,
            length-records ((gone e ∷ frees) ∷ cs) (xs ++ ys) bs,
            ap length split,
            length-append {0} xs (e ∷ ys),
            length-append {0} xs ys,
          ),
        )

  -- `db_delete` behind its search of the chain.
  deleted :
      {b : Bool} {t : Db}
      → Same (entered s key true) t
      → Outcome key (hash s key * ptr_sz + s.hashoff) l t b
      → Returns
          (λ v u.
            (v ≡ is_there (m key))
            × ((r : Represents u (update m key none)) × (size r
                  ≡ length (records (frees ∷ (cs ++ l ∷ bs))))))
          ((do delete_found b; unlock_chain; pure b) t)
  unfolding delete_found unlock_chain is_there
  deleted {t} same (found r) =
      let holds =
        subst₂ (λ f g. Holds f g (frees ∷ (cs ++ l ∷ bs))) (sym same.idx) (sym same.dat) db.holds in
      let cur =
        subst (λ o. Current r.here (head_of r.behind) (last_off o r.before) t)
          (off_slot s frees cs l bs db key here) r.current in
      Returns.bind
        (Returns.bind
          {Q = λ _ u.
            Holds u.disk.idx u.disk.dat ((gone r.here ∷ frees) ∷ cs ++ (r.before ++ r.behind) ∷ bs)
            × (u.hashoff ≡ s.hashoff)
            × (u.nhash ≡ s.nhash)}
          (dodelete-Holds t frees cs r.before r.here r.behind bs
            (subst (λ q. Holds t.disk.idx t.disk.dat (frees ∷ (cs ++ q ∷ bs))) r.split holds) cur)
          λ _ u (h, c, _, o, n, _, _, _). returns (h, o ∙ same.hashoff, n ∙ same.nhash))
        λ _ u (h, o, n). returns (
          sym (
              ap is_there (
                at_key s frees cs l bs db key here m reads
                ∙ ap (lookup key) r.split
                ∙ lookup-found key r.before r.behind r.here r.misses r.hit)),
          removed r.before r.here r.behind r.split r.hit _ h o n,
        )
  deleted {t} same (missed q) =
      let gone_key : m key ≡ none =
        at_key s frees cs l bs db key here m reads ∙ lookup-missed key l q in
      returns (
        sym (ap is_there gone_key),
        (
          record {
            frees = frees;
            chains = cs ++ l ∷ bs;
            db = IsDb-same db same.idx same.dat same.hashoff same.nhash;
            reads = λ k.
                ap (λ n. stored_at n (cs ++ l ∷ bs) k) same.nhash
                ∙ reads k
                ∙ sym (update_same m key none gone_key k);
          },
          refl,
        ),
      )

-- On a database that represents a map, with fuel above the number of its records, `db_delete` of a key
-- says whether the map has it, and the database then represents the map without the key. It stops on
-- no error, and the number of records, free ones counted, stays.
pub delete-Represents :
    (fuel : ℕ) (key : Bytes) (s : Db) (m : Bytes → Option Bytes) (r : Represents s m)
    → size r < fuel
    → Returns
        (λ b t.
          (b ≡ is_there (m key)) × ((r' : Represents t (update m key none)) × (size r' ≡ size r)))
        (delete fuel key s)
unfolding delete
delete-Represents fuel key s m r h =
    with_chain s r.frees r.chains key
      (λ ls.
        ((k : Bytes) → stored_at s.nhash ls k ≡ m k)
        → length (records (r.frees ∷ ls)) < fuel
        → Returns
            (λ b t.
              (b ≡ is_there (m key))
              × ((r' : Represents t (update m key none)) × (size r'
                    ≡ length (records (r.frees ∷ ls)))))
            (delete fuel key s))
      r.db
      (λ cs l bs here db reads k.
        Returns.bind
          (find_and_lock-Outcome fuel key true s l
            (omega (arith, chain_short s r.frees cs l bs db key here))
            (chain_head s r.frees cs l bs db key here) (chain-Links s r.frees cs l bs db key here))
          λ b t (same, out). deleted s r.frees cs l bs db key here m reads same out)
      r.reads h
