-- ===== src/Opend/Loop/Sets.antt =====
-- The descriptors in the table of clients, and the entries behind the last one in use.
use apue_2e.Base.{
  ℕ, zero, suc, ◌≤◌, ◌<◌, ◌==◌, ◌≡◌, refl, ap, sym, ◌∙◌, subst, Bool, true, false, ◌||◌,
  if◌then◌else◌, some, List, [], ◌∷◌, ◌++◌, length, length-append, All, ℤ, pos, negsuc, arith,
  Bool-cases, inl, inr,
}
use apue_2e.Opend.Clients.Kept.{client_del-middle}
use apue_2e.Opend.Clients.{Client, available, is_fd, client_del}

-- The descriptor `k` is in the table.
unfoldable pub has_fd : ℕ → List Client → Bool
unfolding is_fd
has_fd k [] = false
has_fd k (c ∷ t) = let rest = has_fd k t in is_fd c.fd (pos k) || rest

-- No descriptor is in the table twice.
unfoldable pub Distinct : List Client → Type 0
Distinct [] = Unit
Distinct (c ∷ t) = ((k : ℕ) → is_fd c.fd (pos k) ≡ true → has_fd k t ≡ false) × Distinct t

-- The entries from `n` on are available.
unfoldable pub Free : ℕ → List Client → Type 0
Free n [] = Unit
Free zero (c ∷ t) = (available c ≡ true) × Free zero t
Free (suc n) (c ∷ t) = Free n t

pub has_fd-append :
    (k : ℕ) (xs ys : List Client) → has_fd k (xs ++ ys) ≡ (has_fd k xs || has_fd k ys)
unfolding has_fd
has_fd-append k [] ys = refl
has_fd-append k (x ∷ xs) ys = ground (arith, has_fd-append k xs ys)

-- An available entry is none of a client.
no_fd :
    (k : ℕ) (f : ℤ)
    → (elim f as (λ x. Bool) [ pos n ↦ false | negsuc n ↦ n == 0 ]) ≡ true
    → is_fd f (pos k) ≡ false
unfolding is_fd
no_fd k (pos n) h = absurd (cc h)
no_fd k (negsuc n) h = refl

pub available-no_fd : (k : ℕ) (c : Client) → available c ≡ true → is_fd c.fd (pos k) ≡ false
unfolding available is_fd
available-no_fd k c h = no_fd k c.fd h

pub Free-mono : (n m : ℕ) (t : List Client) → n ≤ m → Free n t → Free m t
unfolding Free
Free-mono n m [] h f = tt
Free-mono zero zero (c ∷ t) h f = f
Free-mono zero (suc m) (c ∷ t) h f = Free-mono zero m t (omega arith) f.1
Free-mono (suc n) zero (c ∷ t) h f = absurd (omega (arith, h))
Free-mono (suc n) (suc m) (c ∷ t) h f = Free-mono n m t (omega (arith, h)) f

-- A client in an entry in front of `m`.
pub Free-put :
    (n m : ℕ) (xs : List Client) (old new : Client) (ys : List Client)
    → n ≤ m
    → length xs < m
    → Free n (xs ++ old ∷ ys)
    → Free m (xs ++ new ∷ ys)
unfolding Free
Free-put n zero xs old new ys h k f = absurd (omega arith)
Free-put zero (suc m) [] old new ys h k f = Free-mono zero m ys (omega arith) f.1
Free-put (suc n) (suc m) [] old new ys h k f = Free-mono n m ys (omega (arith, h)) f
Free-put zero (suc m) (x ∷ xs) old new ys h k f =
    Free-put zero m xs old new ys (omega arith) (omega (arith, k)) f.1
Free-put (suc n) (suc m) (x ∷ xs) old new ys h k f =
    Free-put n m xs old new ys (omega (arith, h)) (omega (arith, k)) f

-- An entry that becomes available.
pub Free-freed :
    (n : ℕ) (xs : List Client) (old new : Client) (ys : List Client)
    → available new ≡ true
    → Free n (xs ++ old ∷ ys)
    → Free n (xs ++ new ∷ ys)
unfolding Free
Free-freed zero [] old new ys e f = (e, f.1)
Free-freed (suc n) [] old new ys e f = f
Free-freed zero (x ∷ xs) old new ys e f = (f.0, Free-freed zero xs old new ys e f.1)
Free-freed (suc n) (x ∷ xs) old new ys e f = Free-freed n xs old new ys e f

pub has_fd-put :
    (k : ℕ) (xs : List Client) (old new : Client) (ys : List Client)
    → available old ≡ true
    → has_fd k (xs ++ new ∷ ys) ≡ (is_fd new.fd (pos k) || has_fd k (xs ++ old ∷ ys))
unfolding has_fd
has_fd-put k xs old new ys h =
    ground
      (arith, has_fd-append k xs (new ∷ ys), has_fd-append k xs (old ∷ ys), available-no_fd k old h)

pub Distinct-put :
    (xs : List Client) (old new : Client) (ys : List Client)
    → available old ≡ true
    → ((k : ℕ) → is_fd new.fd (pos k) ≡ true → has_fd k (xs ++ old ∷ ys) ≡ false)
    → Distinct (xs ++ old ∷ ys)
    → Distinct (xs ++ new ∷ ys)
unfolding Distinct has_fd
Distinct-put [] old new ys h f d = ((λ k e. ground (arith, f k e)), d.1)
Distinct-put (x ∷ xs) old new ys h f d = (
  (λ k e. ground (arith, has_fd-put k xs old new ys h, d.0 k e, f k)),
  Distinct-put xs old new ys h (λ k e. ground (arith, f k e)) d.1,
)

-- An entry that loses its descriptor.
Distinct-freed :
    (xs : List Client) (old new : Client) (ys : List Client)
    → available new ≡ true
    → Distinct (xs ++ old ∷ ys)
    → Distinct (xs ++ new ∷ ys)
unfolding Distinct has_fd
Distinct-freed [] old new ys h d = ((λ k e. ground (arith, available-no_fd k new h)), d.1)
Distinct-freed (x ∷ xs) old new ys h d = (
  (λ k e. ground (
    arith,
    has_fd-append k xs (new ∷ ys),
    has_fd-append k xs (old ∷ ys),
    available-no_fd k new h,
    d.0 k e,
  )),
  Distinct-freed xs old new ys h d.1,
)

-- Entries that are available behind the table.
pub has_fd-extra :
    (k : ℕ) (t extra : List Client)
    → All (λ c. available c ≡ true) extra
    → has_fd k (t ++ extra) ≡ has_fd k t
unfolding has_fd
has_fd-extra k [] [] h = refl
has_fd-extra k [] (c ∷ extra) h =
    ground (arith, available-no_fd k c h.0, has_fd-extra k [] extra h.1)
has_fd-extra k (c ∷ t) extra h = ground (arith, has_fd-extra k t extra h)

pub Distinct-extra :
    (t extra : List Client)
    → All (λ c. available c ≡ true) extra
    → Distinct t
    → Distinct (t ++ extra)
unfolding Distinct has_fd
Distinct-extra [] [] h d = tt
Distinct-extra [] (c ∷ extra) h d =
    ((λ k e. ground (arith, available-no_fd k c h.0)), Distinct-extra [] extra h.1 tt)
Distinct-extra (c ∷ t) extra h d =
    ((λ k e. has_fd-extra k t extra h ∙ d.0 k e), Distinct-extra t extra h d.1)

pub Free-extra :
    (n : ℕ) (t extra : List Client)
    → All (λ c. available c ≡ true) extra
    → Free n t
    → Free n (t ++ extra)
unfolding Free
Free-extra zero [] [] h f = tt
Free-extra (suc n) [] [] h f = tt
Free-extra zero [] (c ∷ extra) h f = (h.0, Free-extra zero [] extra h.1 tt)
Free-extra (suc n) [] (c ∷ extra) h f = Free-extra n [] extra h.1 tt
Free-extra zero (c ∷ t) extra h f = (f.0, Free-extra zero t extra h f.1)
Free-extra (suc n) (c ∷ t) extra h f = Free-extra n t extra h f

pub All-no_fd :
    (k : ℕ) (t : List Client) → has_fd k t ≡ false → All (λ c. is_fd c.fd (pos k) ≡ false) t
unfolding has_fd
All-no_fd k [] h = tt
All-no_fd k (c ∷ t) h = (ground arith, All-no_fd k t (ground arith))

-- Where a descriptor is.
record Found (k : ℕ) (t : List Client) : Type 0 where
  before : List Client
  uid : ℕ
  behind : List Client
  split : t ≡ before ++ record { fd = pos k; uid = uid } ∷ behind
  misses : All (λ c. is_fd c.fd (pos k) ≡ false) before

is_fd-eq : (f : ℤ) (k : ℕ) → is_fd f (pos k) ≡ true → f ≡ pos k
unfolding is_fd
is_fd-eq (pos a) k h = let e : a ≡ k = ground arith in ap pos e
is_fd-eq (negsuc a) k h = absurd (cc h)

is_fd_refl : (k : ℕ) → is_fd (pos k) (pos k) ≡ true
unfolding is_fd
is_fd_refl k = ground arith

find : (k : ℕ) (t : List Client) → has_fd k t ≡ true → Found k t
unfolding has_fd
find k [] h = absurd (cc h)
find k (c ∷ t) h = elim (Bool-cases (is_fd c.fd (pos k))) [
  | inl e ↦ record {
    before = [];
    uid = c.uid;
    behind = t;
    split = ap (λ f. record { fd = f; uid = c.uid } ∷ t) (is_fd-eq c.fd k e);
    misses = tt;
  }
  | inr e ↦
      let r = find k t (ground arith) in
      record {
        before = c ∷ r.before;
        uid = r.uid;
        behind = r.behind;
        split = ap (λ l. c ∷ l) r.split;
        misses = (e, r.misses);
      }
]

no_fd-All : (k : ℕ) (t : List Client) → All (λ c. is_fd c.fd (pos k) ≡ false) t → has_fd k t ≡ false
unfolding has_fd
no_fd-All k [] h = refl
no_fd-All k (c ∷ t) h = ground (arith, h.0, no_fd-All k t h.1)

Distinct-behind :
    (k : ℕ) (xs : List Client) (c : Client) (ys : List Client)
    → is_fd c.fd (pos k) ≡ true
    → Distinct (xs ++ c ∷ ys)
    → has_fd k ys ≡ false
unfolding Distinct
Distinct-behind k [] c ys h d = d.0 k h
Distinct-behind k (x ∷ xs) c ys h d = Distinct-behind k xs c ys h d.1

freed_fds :
    (k uid : ℕ) (xs ys : List Client) (j : ℕ)
    → has_fd k xs ≡ false
    → has_fd k ys ≡ false
    → has_fd j (xs ++ record { fd = negsuc 0; uid = uid } ∷ ys)
      ≡ (if j == k then false else has_fd j (xs ++ record { fd = pos k; uid = uid } ∷ ys))
unfolding has_fd is_fd
freed_fds k uid xs ys j h e =
    let here = has_fd-append j xs (record { fd = negsuc 0; uid = uid } ∷ ys) in
    let there = has_fd-append j xs (record { fd = pos k; uid = uid } ∷ ys) in
    elim (Bool-cases (j == k)) [
      | inl same ↦
          let q : j ≡ k = ground arith in
          rw (same, q)
            (rw (has_fd-append k xs (record { fd = negsuc 0; uid = uid } ∷ ys), h, e) refl)
      | inr other ↦ let q : (k == j) ≡ false = ground arith in rw (other, here, there, q) refl
    ]

-- What `client_del` of a descriptor in the table leaves.
pub record Removed (k : ℕ) (t u : List Client) : Type 0 where
  pub result : client_del (pos k) t ≡ some u
  pub fds : (j : ℕ) → has_fd j u ≡ (if j == k then false else has_fd j t)
  pub distinct : Distinct u
  pub free : (n : ℕ) → Free n t → Free n u
  pub size : length u ≡ length t

pub client_del-Removed :
    (k : ℕ) (t : List Client) → has_fd k t ≡ true → Distinct t → (u : List Client) × Removed k t u
unfolding available
client_del-Removed k t h d =
    let r = find k t h in
    let old : Client = record { fd = pos k; uid = r.uid } in
    let new : Client = record { fd = negsuc 0; uid = r.uid } in
    (
      r.before ++ new ∷ r.behind,
      record {
        result =
            ap (client_del (pos k)) r.split ∙ client_del-middle k r.uid r.before r.behind r.misses;
        fds = λ j.
            freed_fds k r.uid r.before r.behind j (no_fd-All k r.before r.misses)
              (Distinct-behind k r.before old r.behind (is_fd_refl k) (subst Distinct r.split d))
            ∙ ap (λ l. if j == k then false else has_fd j l) (sym r.split);
        distinct = Distinct-freed r.before old new r.behind refl (subst Distinct r.split d);
        free = λ n f. Free-freed n r.before old new r.behind refl (subst (Free n) r.split f);
        size =
            length-append r.before (new ∷ r.behind)
            ∙ sym (length-append r.before (old ∷ r.behind))
            ∙ ap length (sym r.split);
      },
    )
