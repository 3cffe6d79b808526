-- ===== src/Db/Whole/Lists.antt =====
-- Lists of lists of records: taking one apart, and writes that meet none of them.
use apue_2e.Base.{
  ℕ, ◌+◌, ◌*◌, ◌≤◌, ◌≡◌, ◌⊎◌, refl, ap, sym, ◌∙◌, subst, List, [], ◌∷◌, ◌++◌, append_assoc, arith,
  All, length, length-append, All-split, All-take_out, All-put_in, suc,
}
use apue_2e.Files.{Bytes, write_at}
use apue_2e.Db.State.{ptr_sz}
use apue_2e.Db.Layout.{Entry}
use apue_2e.Db.Layout.Frame.{IndexApart, PtrAt-write_at, Links-write_at}
use apue_2e.Db.Layout.Front.{Separate, SeparateAll, Pairwise}
use apue_2e.Db.Whole.{records, Trails}

pub records-append : (ks bs : List (List Entry)) → records (ks ++ bs) ≡ records ks ++ records bs
records-append [] bs = refl
records-append (l ∷ ks) bs =
    ap (λ t. l ++ t) (records-append ks bs) ∙ sym (append_assoc l (records ks) (records bs))

-- The records before and behind a place in one of the lists.
abbrev pub before_of : List (List Entry) → List Entry → List Entry
before_of ks xs = records ks ++ xs

abbrev pub behind_of : List Entry → List (List Entry) → List Entry
behind_of ys bs = ys ++ records bs

pub records_at :
    (ks : List (List Entry)) (xs ys : List Entry) (bs : List (List Entry))
    → records (ks ++ (xs ++ ys) ∷ bs) ≡ before_of ks xs ++ behind_of ys bs
records_at ks xs ys bs =
    records-append ks ((xs ++ ys) ∷ bs)
    ∙ ap (λ t. records ks ++ t) (append_assoc xs ys (records bs))
    ∙ sym (append_assoc (records ks) xs (ys ++ records bs))

pub length_lists :
    (ks : List (List Entry)) (l m : List Entry) (bs : List (List Entry))
    → length (ks ++ l ∷ bs) ≡ length (ks ++ m ∷ bs)
length_lists [] l m bs = refl
length_lists (a ∷ ks) l m bs = ap suc (length_lists ks l m bs)

pub Trails-split :
    (f : Bytes) (p : ℕ) (ks bs : List (List Entry))
    → Trails f p (ks ++ bs)
    → Trails f p ks × Trails f (p + length ks * ptr_sz) bs
Trails-split f p [] bs h = (tt, subst (λ q. Trails f q bs) (omega arith) h)
Trails-split f p (l ∷ ks) bs (ptr, links, rest) =
    let (front, back) = Trails-split f (p + ptr_sz) ks bs rest in
    ((ptr, links, front), subst (λ q. Trails f q bs) (omega arith) back)

pub Trails-join :
    (f : Bytes) (p : ℕ) (ks bs : List (List Entry))
    → Trails f p ks
    → Trails f (p + length ks * ptr_sz) bs
    → Trails f p (ks ++ bs)
Trails-join f p [] bs h k = subst (λ q. Trails f q bs) (omega arith) k
Trails-join f p (l ∷ ks) bs (ptr, links, rest) k =
    (ptr, links, Trails-join f (p + ptr_sz) ks bs rest (subst (λ q. Trails f q bs) (omega arith) k))

pub Trails-write_at :
    (f : Bytes) (q : ℕ) (bs : Bytes) (p : ℕ) (ls : List (List Entry))
    → Trails f p ls
    → (q + length bs ≤ p) ⊎ (p + length ls * ptr_sz ≤ q)
    → IndexApart q (length bs) (records ls)
    → Trails (write_at f q bs) p ls
Trails-write_at f q bs p [] h a out = tt
Trails-write_at f q bs p (l ∷ ls) (ptr, links, rest) a out =
    let (here, others) = All-split _ l (records ls) out in
    (
      PtrAt-write_at f q bs ptr (omega (arith, a)),
      Links-write_at f q bs l links here,
      Trails-write_at f q bs (p + ptr_sz) ls rest (omega (arith, a)) others,
    )

Separate-sym : (e d : Entry) → Separate e d → Separate d e
Separate-sym e d s = (omega (arith, s.0), omega (arith, s.1))

pub SeparateAll-sym : (e : Entry) (ds : List Entry) → SeparateAll e ds → All (λ d. Separate d e) ds
SeparateAll-sym e [] h = tt
SeparateAll-sym e (d ∷ ds) (s, h) = (Separate-sym e d s, SeparateAll-sym e ds h)

pub Pairwise-take_out :
    (xs : List Entry) (e : Entry) (ys : List Entry)
    → Pairwise (xs ++ e ∷ ys)
    → SeparateAll e (xs ++ ys) × Pairwise (xs ++ ys)
Pairwise-take_out [] e ys h = h
Pairwise-take_out (x ∷ xs) e ys (s, h) =
    let (mine, rest) = All-take_out (Separate x) xs e ys s in
    let (out, others) = Pairwise-take_out xs e ys h in
    ((Separate-sym x e mine, out), (rest, others))

pub Pairwise-put_in :
    (xs : List Entry) (e : Entry) (ys : List Entry)
    → SeparateAll e (xs ++ ys)
    → Pairwise (xs ++ ys)
    → Pairwise (xs ++ e ∷ ys)
Pairwise-put_in [] e ys s h = (s, h)
Pairwise-put_in (x ∷ xs) e ys (s, out) (rest, h) =
    (All-put_in (Separate x) xs e ys (Separate-sym e x s) rest, Pairwise-put_in xs e ys out h)

pub Pairwise-split : (xs ys : List Entry) → Pairwise (xs ++ ys) → Pairwise xs × Pairwise ys
Pairwise-split [] ys h = (tt, h)
Pairwise-split (x ∷ xs) ys (s, h) =
    let (front, back) = Pairwise-split xs ys h in
    (((All-split (Separate x) xs ys s).0, front), back)

pub length-records :
    (ks : List (List Entry)) (l : List Entry) (bs : List (List Entry))
    → length (records (ks ++ l ∷ bs)) ≡ length (records ks) + (length l + length (records bs))
length-records ks l bs =
    ap length (records-append ks (l ∷ bs))
    ∙ omega
        (arith, length-append {0} (records ks) (l ++ records bs), length-append {0} l (records bs))
