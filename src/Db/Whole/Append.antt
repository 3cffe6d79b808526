-- ===== src/Db/Whole/Append.antt =====
-- New records at the ends of both files, and new data in the room of old.
use apue_2e.Base.{
  ℕ, ◌+◌, ◌*◌, ◌≤◌, ◌≡◌, refl, sym, ◌∙◌, subst, List, ◌∷◌, ◌++◌, [], inr, arith, All, length,
  All-join, All-split, All-put_in, All-map,
}
use apue_2e.Files.{Bytes, write_at}
use apue_2e.CText.{padded}
use apue_2e.Db.State.{ptr_sz, ptr_max, idxlen_sz, newline}
use apue_2e.Db.Fields.RoundTrip.{NoNull, DataAt-line, length-line}
use apue_2e.Db.Index.RoundTrip.{Fits, entry, image}
use apue_2e.Db.Layout.{Entry, PtrAt, DataAt, head_of, Links, AllData}
use apue_2e.Db.Layout.Frame.{DataApart, AllData-write_at}
use apue_2e.Db.Layout.Front.{SeparateAll, Pairwise}
use apue_2e.Db.Whole.{records, Trails, IsWhole, Holds, Room}
use apue_2e.Db.Whole.Lists.{
  before_of, behind_of, records_at, length_lists, Trails-split, Trails-join, Pairwise-put_in,
}
use apue_2e.Db.Whole.Moves.{slot, SeparateAll-DataApart, others_apart, all_others}
use apue_2e.Db.Whole.Enter.{enter-Holds}

abbrev Inside : Bytes → Bytes → Entry → Type 0
Inside f g e =
    (e.off + (ptr_sz + idxlen_sz) + e.idxlen ≤ length f) × (e.datoff + e.datlen ≤ length g)

Links-Inside : (f g : Bytes) (l : List Entry) → Links f l → AllData g l → All (Inside f g) l
Links-Inside f g [] h d = tt
Links-Inside f g (e ∷ l) (ne, body, ptr, rest) (here, d) =
    ((body.inside, here.inside), Links-Inside f g l rest d)

Trails-Inside :
    (f g : Bytes) (p : ℕ) (ls : List (List Entry))
    → Trails f p ls
    → AllData g (records ls)
    → All (Inside f g) (records ls)
Trails-Inside f g p [] h d = tt
Trails-Inside f g p (l ∷ ls) (ptr, links, rest) d =
    let (here, others) = All-split (DataAt g) l (records ls) d in
    All-join (Inside f g) l (records ls) (Links-Inside f g l links here)
      (Trails-Inside f g (p + ptr_sz) ls rest others)

Trails-table :
    (f : Bytes) (p : ℕ) (ls : List (List Entry))
    → Trails f p ls
    → p ≤ length f
    → p + length ls * ptr_sz ≤ length f
Trails-table f p [] h k = omega arith
Trails-table f p (l ∷ ls) (ptr, links, rest) k =
    let more = Trails-table f (p + ptr_sz) ls rest ptr.inside in omega (arith, more)

-- Behind the ends of the files there is room.
pub end-Room :
    (f g : Bytes) (ls : List (List Entry)) (e : Entry)
    → Holds f g ls
    → e.off ≡ length f
    → e.datoff ≡ length g
    → Room ls e
end-Room f g ls e h o d = record {
  apart =
      All-map (Inside f g) (records ls)
        (λ a i. (inr (omega (arith, i.0, o)), inr (omega (arith, i.1, d))))
        (Trails-Inside f g 0 ls h.trails h.data_records);
  behind = omega (arith, Trails-table f 0 ls h.trails (omega arith), o);
}

-- A new record at the ends of the files enters the front of a list.
pub append-Holds :
    (f g : Bytes) (ks : List (List Entry)) (l : List Entry) (bs : List (List Entry))
    (key text : Bytes)
    → Holds f g (ks ++ l ∷ bs)
    → Fits key (length g) (length text + 1)
    → NoNull text
    → length f ≤ ptr_max
    → Holds
        (write_at
          (write_at f (length f) (image (head_of l) key (length g) (length text + 1)))
          (slot ks)
          (padded ptr_sz (length f)))
        (write_at g (length g) (text ++ newline ∷ []))
        (ks ++ (entry (length f) key (length g) (length text + 1) text ∷ l) ∷ bs)
append-Holds f g ks l bs key text h fits clean near =
    let e : Entry = entry (length f) key (length g) (length text + 1) text in
    enter-Holds e (record { fits = fits; size = refl; line = refl; clean = clean; near = near }) f g
      ks l bs h (end-Room f g (ks ++ l ∷ bs) e h refl refl)

-- The record with other data.
abbrev pub retext : Entry → Bytes → Entry
retext e text = record e { text = text }

retext-Links :
    (f : Bytes) (xs : List Entry) (e : Entry) (ys : List Entry) (text : Bytes)
    → Links f (xs ++ e ∷ ys)
    → Links f (xs ++ retext e text ∷ ys)
retext-Links f [] e ys text (ne, body, ptr, rest) = (
  ne,
  record {
    inside = body.inside;
    len = body.len;
    min = body.min;
    max = body.max;
    ends = body.ends;
    fields = body.fields;
  },
  ptr,
  rest,
)
retext-Links f (x ∷ []) e ys text (ne, body, ptr, rest) =
    (ne, body, ptr, retext-Links f [] e ys text rest)
retext-Links f (x ∷ y ∷ xs) e ys text (ne, body, ptr, rest) =
    (ne, body, ptr, retext-Links f (y ∷ xs) e ys text rest)

head_retext :
    (xs : List Entry) (e : Entry) (ys : List Entry) (text : Bytes)
    → head_of (xs ++ e ∷ ys) ≡ head_of (xs ++ retext e text ∷ ys)
head_retext [] e ys text = refl
head_retext (x ∷ xs) e ys text = refl

module _ (f g : Bytes) (ks : List (List Entry)) (xs : List Entry) (e : Entry) (ys : List Entry)
    (bs : List (List Entry)) (text : Bytes) where
  -- Data of the same length are written over those of a record.
  pub retext-Holds :
      Holds f g (ks ++ (xs ++ e ∷ ys) ∷ bs)
      → NoNull text
      → e.datlen ≡ length text + 1
      → Holds f (write_at g e.datoff (text ++ newline ∷ [])) (ks ++ (xs ++ retext e text ∷ ys) ∷ bs)
  retext-Holds h clean line =
      let d : Entry = retext e text in
      let at = records_at ks xs (d ∷ ys) bs in
      let at' = records_at ks xs (e ∷ ys) bs in
      let (front, back) = Trails-split f 0 ks ((xs ++ e ∷ ys) ∷ bs) h.trails in
      let (w, ws) = all_others f g ks xs e ys bs IsWhole h.whole in
      let (mine, rest) = others_apart f g ks xs e ys bs h in
      let size = length-line text ∙ sym line in
      let put = λ (P : Entry → Type 0) (p : P d) (a : All P (records (ks ++ (xs ++ ys) ∷ bs))).
        subst (All P) (sym at) (
          All-put_in P (before_of ks xs) d (behind_of ys bs) p
            (subst (All P) (records_at ks xs ys bs) a)) in
      let same = length_lists ks (xs ++ d ∷ ys) (xs ++ e ∷ ys) bs in
      let out =
        all_others f g ks xs e ys bs (λ c. length (ks ++ (xs ++ e ∷ ys) ∷ bs) * ptr_sz ≤ c.off)
          h.behind in
      record {
        trails = Trails-join f 0 ks ((xs ++ d ∷ ys) ∷ bs) front (
          subst (PtrAt f (slot ks)) (head_retext xs e ys text) back.0,
          retext-Links f xs e ys text back.1,
          back.2,
        );
        behind =
            put (λ c. length (ks ++ (xs ++ d ∷ ys) ∷ bs) * ptr_sz ≤ c.off)
              (omega (arith, same, out.0))
              (subst (λ n. All (λ c. n * ptr_sz ≤ c.off) (records (ks ++ (xs ++ ys) ∷ bs)))
                (sym same) out.1);
        data_records =
            put (DataAt (write_at g e.datoff (text ++ newline ∷ []))) (DataAt-line g d clean line) (
              AllData-write_at g e.datoff _ _
                (all_others f g ks xs e ys bs (DataAt g) h.data_records).1
                (subst (λ n. DataApart e.datoff n (records (ks ++ (xs ++ ys) ∷ bs))) (sym size)
                  (SeparateAll-DataApart e _ mine)));
        whole =
            put IsWhole
              (record { fits = w.fits; size = w.size; line = line; clean = clean; near = w.near })
              ws;
        apart = subst Pairwise (sym at) (
            Pairwise-put_in (before_of ks xs) d (behind_of ys bs)
              (subst (SeparateAll d) (records_at ks xs ys bs) mine)
              (subst Pairwise (records_at ks xs ys bs) rest));
      }
