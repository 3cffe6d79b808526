-- ===== src/Opend/Clients/Kept.antt =====
-- `client_add` and `client_del` keep the clients that are connected.
use apue_2e.Base.{
  ℕ, zero, suc, ◌+◌, ◌==◌, ◌≡◌, ◌⊎◌, inl, inr, refl, ap, sym, ◌∙◌, subst, true, false, none, some,
  List, [], ◌∷◌, ◌++◌, length, All, All-join, All-split, pos, negsuc, arith, Bool-cases, append-nil,
}
use apue_2e.Opend.Clients.{
  Client, available, blanks, nalloc, client_alloc, place, Added, again, client_add, is_fd,
  client_del, connected, added,
}

connected-append : (xs ys : List Client) → connected (xs ++ ys) ≡ connected xs ++ connected ys
unfolding connected
connected-append [] ys = refl
connected-append (x ∷ xs) ys = elim (Bool-cases (available x)) [
  | inl e ↦ rw e (connected-append xs ys)
  | inr e ↦ rw e (ap (λ l. x ∷ l) (connected-append xs ys))
]

connected-blanks : (junk : ℕ → ℕ) (i n : ℕ) → connected (blanks junk i n) ≡ []
unfolding connected blanks available
connected-blanks junk i zero = refl
connected-blanks junk i (suc n) = connected-blanks junk (i + 1) n

-- An available entry does not count.
connected-middle :
    (xs : List Client) (c : Client) (ys : List Client)
    → available c ≡ true
    → connected (xs ++ c ∷ ys) ≡ connected xs ++ connected ys
unfolding connected
connected-middle xs c ys h = connected-append xs (c ∷ ys) ∙ ap (λ l. connected xs ++ l) (rw h refl)

blanks-none :
    (k : ℕ) (junk : ℕ → ℕ) (i n : ℕ) → All (λ c. is_fd c.fd (pos k) ≡ false) (blanks junk i n)
unfolding is_fd blanks
blanks-none k junk i zero = tt
blanks-none k junk i (suc n) = (refl, blanks-none k junk (i + 1) n)

-- Where the first available entry is.
pub record Spot (new : Client) (table : List Client) : Type 0 where
  pub before : List Client
  pub here : Client
  pub behind : List Client
  pub split : table ≡ before ++ here ∷ behind
  pub first : All (λ c. available c ≡ false) before
  pub hit : available here ≡ true
  pub placed : place new table ≡ some (length before, before ++ new ∷ behind)

at_once : (new c : Client) (table : List Client) → available c ≡ true → Spot new (c ∷ table)
unfolding place
at_once new c table e = record {
  before = [];
  here = c;
  behind = table;
  split = refl;
  first = tt;
  hit = e;
  placed = rw e refl;
}

later :
    (new c : Client) (table : List Client)
    → available c ≡ false
    → Spot new table
    → Spot new (c ∷ table)
unfolding place
later new c table e s = record {
  before = c ∷ s.before;
  here = s.here;
  behind = s.behind;
  split = ap (λ l. c ∷ l) s.split;
  first = (e, s.first);
  hit = s.hit;
  placed = rw (e, s.placed) refl;
}

spot : (new : Client) (table : List Client) → (place new table ≡ none) ⊎ Spot new table
unfolding place
spot new [] = inl refl
spot new (c ∷ table) = elim (Bool-cases (available c)) [
  | inl e ↦ inr (at_once new c table e)
  | inr e ↦ elim (spot new table) [
    | inl full ↦ inl (rw (e, full) refl)
    | inr s ↦ inr (later new c table e s)
  ]
]

some_spot :
    (new : Client) (xs : List Client) (c : Client) (ys : List Client)
    → available c ≡ true
    → Spot new (xs ++ c ∷ ys)
some_spot new [] c ys h = at_once new c ys h
some_spot new (x ∷ xs) c ys h = elim (Bool-cases (available x)) [
  | inl e ↦ at_once new x (xs ++ c ∷ ys) e
  | inr e ↦ later new x (xs ++ c ∷ ys) e (some_spot new xs c ys h)
]

again-placed :
    (fuel : ℕ) (junk : ℕ → ℕ) (new : Client) (t : List Client) (i : ℕ) (u : List Client)
    → place new t ≡ some (i, u)
    → again (suc fuel) true junk new t ≡ added i u
unfolding again
again-placed fuel junk new t i u e = rw (again, e) refl

again-full :
    (fuel : ℕ) (junk : ℕ → ℕ) (new : Client) (t : List Client)
    → place new t ≡ none
    → again (suc fuel) true junk new t ≡ again fuel true junk new (client_alloc junk t)
unfolding again
again-full fuel junk new t e = rw (again, e) refl

blanks-available : (junk : ℕ → ℕ) (i n : ℕ) → All (λ c. available c ≡ true) (blanks junk i n)
unfolding blanks available
blanks-available junk i zero = tt
blanks-available junk i (suc n) = (refl, blanks-available junk (i + 1) n)

-- Where the new client is: in the first available entry of the table, grown or not.
pub record Joined (k : ℕ) (new : Client) (table : List Client) (r : Added) : Type 0 where
  pub grown : List Client
  pub spot : Spot new grown
  pub same : connected grown ≡ connected table
  pub other : All (λ c. is_fd c.fd (pos k) ≡ false) grown
  pub extra : List Client
  pub extra_free : All (λ c. available c ≡ true) extra
  pub shape : grown ≡ table ++ extra
  pub result : r ≡ added (length spot.before) (spot.before ++ new ∷ spot.behind)

module _ (junk : ℕ → ℕ) (k : ℕ) (new : Client) (table : List Client)
    (others : All (λ c. is_fd c.fd (pos k) ≡ false) table) where
  in_grown :
      (fuel : ℕ) → Joined k new table (again (suc fuel) true junk new (client_alloc junk table))
  unfolding client_alloc blanks available
  in_grown fuel =
      let s =
        some_spot new table (record { fd = negsuc 0; uid = junk (length table) })
          (blanks junk (length table + 1) 9) refl in
      record {
        grown = table ++ blanks junk (length table) nalloc;
        spot = s;
        same =
            connected-append table (blanks junk (length table) nalloc)
            ∙ ap (λ l. connected table ++ l) (connected-blanks junk (length table) nalloc)
            ∙ append-nil (connected table);
        other =
            All-join (λ c. is_fd c.fd (pos k) ≡ false) table (blanks junk (length table) nalloc)
              others (blanks-none k junk (length table) nalloc);
        extra = blanks junk (length table) nalloc;
        extra_free = blanks-available junk (length table) nalloc;
        shape = refl;
        result = again-placed fuel junk new (client_alloc junk table) _ _ s.placed;
      }

  joins : Joined k new table (again 2 true junk new table)
  joins = elim (spot new table) [
    | inr s ↦ record {
      grown = table;
      spot = s;
      same = refl;
      other = others;
      extra = [];
      extra_free = tt;
      shape = sym (append-nil table);
      result = again-placed 1 junk new table _ _ s.placed;
    }
    | inl full ↦
        let j = in_grown 0 in
        record {
          grown = j.grown;
          spot = j.spot;
          same = j.same;
          other = j.other;
          extra = j.extra;
          extra_free = j.extra_free;
          shape = j.shape;
          result = again-full 1 junk new table full ∙ j.result;
        }
  ]

pub client_add-Joined :
    (junk : ℕ → ℕ) (k uid : ℕ) (table : List Client)
    → All (λ c. is_fd c.fd (pos k) ≡ false) table
    → Joined k (record { fd = pos k; uid = uid }) table (client_add true junk (pos k) uid table)
unfolding client_add
client_add-Joined junk k uid [] others = in_grown junk k _ [] others 1
client_add-Joined junk k uid (c ∷ table) others = joins junk k _ (c ∷ table) others

pub client_del-middle :
    (k uid : ℕ) (xs ys : List Client)
    → All (λ c. is_fd c.fd (pos k) ≡ false) xs
    → client_del (pos k) (xs ++ record { fd = pos k; uid = uid } ∷ ys)
      ≡ some (xs ++ record { fd = negsuc 0; uid = uid } ∷ ys)
unfolding client_del is_fd
client_del-middle k uid [] ys h = let same : (k == k) ≡ true = ground arith in rw same refl
client_del-middle k uid (x ∷ xs) ys (e, h) = rw (e, client_del-middle k uid xs ys h) refl

-- For a descriptor that no entry has, and memory for more entries, `client_add` returns the index of
-- an entry that then holds the client, with no available entry before it, and keeps all other clients
-- in their order. `client_del` of the descriptor then leaves the clients that were connected before.
pub client_del-client_add :
    (junk : ℕ → ℕ) (k uid : ℕ) (table : List Client)
    → All (λ c. is_fd c.fd (pos k) ≡ false) table
    → (xs : List Client) × (ys : List Client) × (u : List Client) × (client_add true junk
          (pos k)
          uid
          table
        ≡ added (length xs) (xs ++ record { fd = pos k; uid = uid } ∷ ys))
      × All (λ c. available c ≡ false) xs
      × (connected xs ++ connected ys ≡ connected table)
      × (client_del (pos k) (xs ++ record { fd = pos k; uid = uid } ∷ ys) ≡ some u)
      × (connected u ≡ connected table)
unfolding available
client_del-client_add junk k uid table others =
    let j = client_add-Joined junk k uid table others in
    let s = j.spot in
    let kept =
      sym (connected-middle s.before s.here s.behind s.hit) ∙ ap connected (sym s.split) ∙ j.same in
    let (mine, _) =
      All-split (λ c. is_fd c.fd (pos k) ≡ false) s.before (s.here ∷ s.behind)
        (subst (All (λ c. is_fd c.fd (pos k) ≡ false)) s.split j.other) in
    (
      s.before,
      s.behind,
      s.before ++ record { fd = negsuc 0; uid = uid } ∷ s.behind,
      j.result,
      s.first,
      kept,
      client_del-middle k uid s.before s.behind mine,
      connected-middle s.before (record { fd = negsuc 0; uid = uid }) s.behind refl ∙ kept,
    )
