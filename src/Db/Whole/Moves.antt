-- ===== src/Db/Whole/Moves.antt =====
-- A record leaves a list, is written anew in its room, and enters the front of a list.
use apue_2e.Base.{
  ℕ, ◌+◌, ◌*◌, ◌≤◌, ◌≡◌, ◌⊎◌, inl, inr, refl, sym, ◌∙◌, subst, List, [], ◌∷◌, ◌++◌, arith, All,
  length, length-append, All-split, All-take_out, All-put_in, All-map,
}
use apue_2e.Files.{Bytes, write_at}
use apue_2e.CText.{padded}
use apue_2e.CText.RoundTrip.{length-padded}
use apue_2e.Db.State.{ptr_sz, ptr_max, idxlen_sz}
use apue_2e.Db.Fields.RoundTrip.{PtrAt-padded}
use apue_2e.Db.Layout.{Entry, PtrAt, BodyAt, DataAt, head_of}
use apue_2e.Db.Layout.Frame.{
  Apart, IndexApart, DataApart, PtrAt-write_at, BodyAt-write_at, Links-write_at, AllData-write_at,
}
use apue_2e.Db.Layout.Front.{
  Front-Links, Links-Front, Front-set, last_off-Apart, Separate, SeparateAll, Pairwise,
  SeparateAll-IndexApart,
}
use apue_2e.Db.Chain.Walk.{last_off}
use apue_2e.Db.Whole.{records, IsWhole, Holds, Room}
use apue_2e.Db.Whole.Lists.{
  before_of, behind_of, records_at, records-append, length_lists, Trails-split, Trails-join,
  Trails-write_at, Pairwise-take_out, Pairwise-put_in, Pairwise-split,
}

-- The offset of the pointer to the list behind `ks`.
abbrev pub slot : List (List Entry) → ℕ
slot ks = 0 + length ks * ptr_sz

abbrev Cross : List Entry → List Entry → Type 0
Cross xs zs = All (λ x. SeparateAll x zs) xs

Pairwise-Cross : (xs zs : List Entry) → Pairwise (xs ++ zs) → Cross xs zs
Pairwise-Cross [] zs h = tt
Pairwise-Cross (x ∷ xs) zs (s, h) = ((All-split (Separate x) xs zs s).1, Pairwise-Cross xs zs h)

SeparateAll-sym' : (e : Entry) (ds : List Entry) → All (λ d. Separate d e) ds → SeparateAll e ds
SeparateAll-sym' e ds h =
    All-map (λ d. Separate d e) ds (λ d s. (omega (arith, s.0), omega (arith, s.1))) h

Cross-sym : (xs zs : List Entry) → Cross xs zs → Cross zs xs
Cross-sym xs [] h = tt
Cross-sym xs (z ∷ zs) h = (
  SeparateAll-sym' z xs (All-map (λ x. SeparateAll x (z ∷ zs)) xs (λ x s. s.0) h),
  Cross-sym xs zs (All-map (λ x. SeparateAll x (z ∷ zs)) xs (λ x s. s.1) h),
)

last_off-IndexApart :
    (p : ℕ) (xs zs : List Entry)
    → IndexApart p ptr_sz zs
    → Cross xs zs
    → IndexApart (last_off p xs) ptr_sz zs
last_off-IndexApart p [] zs h c = h
last_off-IndexApart p (x ∷ xs) zs h (s, c) =
    last_off-IndexApart x.off xs zs
      (SeparateAll-IndexApart x zs x.off ptr_sz (omega arith) (omega arith) s) c

last_off-cases :
    (n p : ℕ) (xs : List Entry)
    → All (λ e. n ≤ e.off) xs
    → (last_off p xs ≡ p) ⊎ (n ≤ last_off p xs)
last_off-cases n p [] h = inl refl
last_off-cases n p (x ∷ xs) (k, h) = elim (last_off-cases n x.off xs h) [
  | inl e ↦ inr (omega (arith, e))
  | inr e ↦ inr e
]

-- A pointer of the table stands in no record.
slot-IndexApart :
    (q n : ℕ) (es : List Entry) → q + ptr_sz ≤ n → All (λ e. n ≤ e.off) es → IndexApart q ptr_sz es
slot-IndexApart q n es h b = All-map (λ e. n ≤ e.off) es (λ e k. inr (omega (arith, k, h))) b

pub SeparateAll-DataApart :
    (e : Entry) (es : List Entry) → SeparateAll e es → DataApart e.datoff e.datlen es
SeparateAll-DataApart e es h = All-map (Separate e) es (λ d s. omega (arith, s.1)) h

pub spread :
    (P : Entry → Type 0) (ks : List (List Entry)) (l : List Entry) (bs : List (List Entry))
    → All P (records (ks ++ l ∷ bs))
    → All P (records ks) × (All P l × All P (records bs))
spread P ks l bs h =
    let (front, back) =
      All-split P (records ks) (l ++ records bs) (subst (All P) (records-append ks (l ∷ bs)) h) in
    (front, All-split P l (records bs) back)

-- A write into the room of a record that stands in no list.
pub place-Holds :
    (f g : Bytes) (ls : List (List Entry)) (e : Entry) (text line : Bytes)
    → length text ≡ ptr_sz + idxlen_sz + e.idxlen
    → length line ≡ e.datlen
    → Holds f g ls
    → Room ls e
    → Holds (write_at f e.off text) (write_at g e.datoff line) ls
place-Holds f g ls e text line size width h r = record {
  trails = Trails-write_at f e.off text 0 ls h.trails (inr (omega (arith, r.behind))) (
      subst (λ n. IndexApart e.off n (records ls)) (sym size)
        (SeparateAll-IndexApart e (records ls) e.off _ (omega arith) (omega arith) r.apart));
  behind = h.behind;
  data_records = AllData-write_at g e.datoff line (records ls) h.data_records (
      subst (λ n. DataApart e.datoff n (records ls)) (sym width)
        (SeparateAll-DataApart e (records ls) r.apart));
  whole = h.whole;
  apart = h.apart;
}

module _ (f g : Bytes) (ks : List (List Entry)) (l : List Entry) (bs : List (List Entry))
    (e : Entry) where
  -- The record enters the list behind `ks` at its front.
  pub front-Holds :
      Holds f g (ks ++ l ∷ bs)
      → Room (ks ++ l ∷ bs) e
      → IsWhole e
      → BodyAt f e
      → PtrAt f e.off (head_of l)
      → DataAt g e
      → Holds (write_at f (slot ks) (padded ptr_sz e.off)) g (ks ++ (e ∷ l) ∷ bs)
  front-Holds h r w body ptr here =
      let text = padded ptr_sz e.off in
      let size : length text ≡ ptr_sz = length-padded 5 e.off (omega (arith, w.near)) in
      let count : length (ks ++ l ∷ bs) ≡ length ks + (length bs + 1) =
        length-append ks (l ∷ bs) ∙ omega arith in
      let same = length_lists ks (e ∷ l) l bs in
      let at = records_at ks [] (e ∷ l) bs in
      let at' = records_at ks [] l bs in
      let all = λ (P : Entry → Type 0) (p : P e) (a : All P (records (ks ++ l ∷ bs))).
        subst (All P) (sym at)
          (All-put_in P (before_of ks []) e (behind_of l bs) p (subst (All P) at' a)) in
      let clear =
        subst (λ n. IndexApart (slot ks) n (records (ks ++ l ∷ bs))) (sym size)
          (slot-IndexApart (slot ks) (length (ks ++ l ∷ bs) * ptr_sz) _ (omega (arith, count))
            h.behind) in
      let (front, back) = Trails-split f 0 ks (l ∷ bs) h.trails in
      let (in_ks, (in_l, in_bs)) = spread _ ks l bs clear in
      let apart : Apart e.off (ptr_sz + idxlen_sz + e.idxlen) (slot ks) (length text) =
        inr (omega (arith, size, count, r.behind)) in
      record {
        trails =
            Trails-join _ 0 ks ((e ∷ l) ∷ bs)
              (Trails-write_at f (slot ks) text 0 ks front (inr (omega arith)) in_ks)
              (
                PtrAt-padded f (slot ks) e.off w.near,
                (
                  (λ z. absurd (omega (arith, z, count, r.behind))),
                  BodyAt-write_at f (slot ks) text body (omega (arith, apart)),
                  PtrAt-write_at f (slot ks) text ptr (omega (arith, apart)),
                  Links-write_at f (slot ks) text l back.1 in_l,
                ),
                Trails-write_at f (slot ks) text (slot ks + ptr_sz) bs back.2
                    (inl (omega (arith, size))) in_bs,
              );
        behind =
            all (λ d. length (ks ++ (e ∷ l) ∷ bs) * ptr_sz ≤ d.off) (omega (arith, same, r.behind))
              (subst (λ n. All (λ d. n * ptr_sz ≤ d.off) (records (ks ++ l ∷ bs))) (sym same)
                h.behind);
        data_records = all (DataAt g) here h.data_records;
        whole = all IsWhole w h.whole;
        apart = subst Pairwise (sym at) (
            Pairwise-put_in (before_of ks []) e (behind_of l bs) (subst (SeparateAll e) at' r.apart)
              (subst Pairwise at' h.apart));
      }

pub head_near : (ys : List Entry) → All IsWhole ys → head_of ys ≤ ptr_max
head_near [] h = omega arith
head_near (y ∷ ys) (w, h) = w.near

-- The offset of the pointer to the record behind `xs` in the list behind `ks`.
abbrev pub pointer : List (List Entry) → List Entry → ℕ
pointer ks xs = last_off (slot ks) xs

module _ (f g : Bytes) (ks : List (List Entry)) (xs : List Entry) (e : Entry) (ys : List Entry)
    (bs : List (List Entry)) where
  abbrev with_it : List (List Entry)
  with_it = ks ++ (xs ++ e ∷ ys) ∷ bs

  abbrev without : List (List Entry)
  without = ks ++ (xs ++ ys) ∷ bs

  pub all_others : (P : Entry → Type 0) → All P (records with_it) → P e × All P (records without)
  all_others P h =
      let (mine, rest) =
        All-take_out P (before_of ks xs) e (behind_of ys bs)
          (subst (All P) (records_at ks xs (e ∷ ys) bs) h) in
      (mine, subst (All P) (sym (records_at ks xs ys bs)) rest)

  module _ (h : Holds f g with_it) where
    pub others_apart : SeparateAll e (records without) × Pairwise (records without)
    others_apart =
        let (mine, rest) =
          Pairwise-take_out (before_of ks xs) e (behind_of ys bs)
            (subst Pairwise (records_at ks xs (e ∷ ys) bs) h.apart) in
        (
          subst (SeparateAll e) (sym (records_at ks xs ys bs)) mine,
          subst Pairwise (sym (records_at ks xs ys bs)) rest,
        )

    others_behind :
        (length without * ptr_sz ≤ e.off)
        × All (λ d. length without * ptr_sz ≤ d.off) (records without)
    others_behind =
        subst (λ n. (n * ptr_sz ≤ e.off) × All (λ d. n * ptr_sz ≤ d.off) (records without))
          (length_lists ks (xs ++ e ∷ ys) (xs ++ ys) bs)
          (all_others (λ d. length with_it * ptr_sz ≤ d.off) h.behind)

    -- Taken off its list, the record leaves its room.
    pub unlink-Room : Room without e
    unlink-Room = record { apart = others_apart.0; behind = others_behind.0 }

    -- The pointer to the record stands in the table or in another record.
    pub pointer-Apart :
        Apart e.off (ptr_sz + idxlen_sz + e.idxlen) (pointer ks xs) ptr_sz
        × (slot ks ≤ pointer ks xs)
    pointer-Apart =
        let count : length without ≡ length ks + (length bs + 1) =
          length-append ks ((xs ++ ys) ∷ bs) ∙ omega arith in
        let (b_xs, b_ys) =
          All-split (λ d. length without * ptr_sz ≤ d.off) xs ys
            (spread (λ d. length without * ptr_sz ≤ d.off) ks (xs ++ ys) bs others_behind.1).1.0 in
        let (mine, _) =
          All-split (Separate e) xs ys (spread (Separate e) ks (xs ++ ys) bs others_apart.0).1.0 in
        let place = last_off-cases (length without * ptr_sz) (slot ks) xs b_xs in
        (
          last_off-Apart e.off (ptr_sz + idxlen_sz + e.idxlen) (slot ks) xs
              (inr (omega (arith, count, others_behind.0)))
              (SeparateAll-IndexApart e xs e.off (ptr_sz + idxlen_sz + e.idxlen) (omega arith)
                (omega arith) mine),
          omega (arith, place, count),
        )

    -- The pointer to the record is set to the one behind it.
    pub unlink-Holds : Holds (write_at f (pointer ks xs) (padded ptr_sz (head_of ys))) g without
    unlink-Holds =
        let (front, back) = Trails-split f 0 ks ((xs ++ e ∷ ys) ∷ bs) h.trails in
        let (to_e, tail) = Front-Links f (slot ks) xs (e ∷ ys) back.0 back.1 in
        let (w_ks, (w_l, w_bs)) = spread IsWhole ks (xs ++ ys) bs (all_others IsWhole h.whole).1 in
        let low = head_near ys (All-split IsWhole xs ys w_l).1 in
        let text = padded ptr_sz (head_of ys) in
        let size : length text ≡ ptr_sz = length-padded 5 (head_of ys) (omega (arith, low)) in
        let count : length without ≡ length ks + (length bs + 1) =
          length-append ks ((xs ++ ys) ∷ bs) ∙ omega arith in
        let (b_ks, (b_l, b_bs)) =
          spread (λ d. length without * ptr_sz ≤ d.off) ks (xs ++ ys) bs others_behind.1 in
        let (b_xs, b_ys) = All-split (λ d. length without * ptr_sz ≤ d.off) xs ys b_l in
        let apart' = subst Pairwise (records-append ks ((xs ++ ys) ∷ bs)) others_apart.1 in
        let rest = Pairwise-split (records ks) ((xs ++ ys) ++ records bs) apart' in
        let inner = Pairwise-split (xs ++ ys) (records bs) rest.1 in
        let ks_xs : Cross xs (records ks) = Cross-sym (records ks) xs (
          All-map (λ d. SeparateAll d ((xs ++ ys) ++ records bs)) (records ks)
            (λ d s.
              (All-split (Separate d) xs ys (All-split (Separate d) (xs ++ ys) (records bs) s).0).0)
            (Pairwise-Cross (records ks) ((xs ++ ys) ++ records bs) apart')) in
        let xs_bs : Cross xs (records bs) =
          (All-split (λ d. SeparateAll d (records bs)) xs ys
            (Pairwise-Cross (xs ++ ys) (records bs) rest.1)).0 in
        let xs_ys : Cross xs ys = Pairwise-Cross xs ys inner.0 in
        let clear =
          λ (zs : List Entry) (b : All (λ d. length without * ptr_sz ≤ d.off) zs) (c : Cross xs zs).
            subst (λ n. IndexApart (pointer ks xs) n zs) (sym size)
              (last_off-IndexApart (slot ks) xs zs
                (slot-IndexApart (slot ks) (length without * ptr_sz) zs (omega (arith, count)) b)
                c) in
        let place = last_off-cases (length without * ptr_sz) (slot ks) xs b_xs in
        let joined =
          Links-Front (write_at f (pointer ks xs) text) (slot ks) xs ys
            (Front-set f (slot ks) xs e.off (head_of ys) low to_e
              (slot-IndexApart (slot ks) (length without * ptr_sz) xs (omega (arith, count)) b_xs)
              (Pairwise-split xs ys inner.0).0)
            (Links-write_at f (pointer ks xs) text ys tail.3 (clear ys b_ys xs_ys)) in
        record {
          trails =
              Trails-join _ 0 ks ((xs ++ ys) ∷ bs)
                (Trails-write_at f (pointer ks xs) text 0 ks front
                  (inr (omega (arith, place, count))) (clear (records ks) b_ks ks_xs))
                (
                  joined.0,
                  joined.1,
                  Trails-write_at f (pointer ks xs) text (slot ks + ptr_sz) bs back.2
                      (omega (arith, place, count, size)) (clear (records bs) b_bs xs_bs),
                );
          behind = others_behind.1;
          data_records = (all_others (DataAt g) h.data_records).1;
          whole = (all_others IsWhole h.whole).1;
          apart = others_apart.1;
        }
