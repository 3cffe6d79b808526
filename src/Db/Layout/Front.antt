-- ===== src/Db/Layout/Front.antt =====
-- The pointer at an offset leads through the first records of a list, and then somewhere.
use apue_2e.Base.{ℕ, ◌+◌, ◌≤◌, ◌≡◌, ◌≢◌, List, [], ◌∷◌, ◌++◌, arith, All, length, subst, sym}
use apue_2e.Files.{Bytes, write_at}
use apue_2e.CText.{padded}
use apue_2e.CText.RoundTrip.{length-padded}
use apue_2e.Db.State.{ptr_sz, ptr_max, idxlen_sz}
use apue_2e.Db.Fields.RoundTrip.{PtrAt-padded}
use apue_2e.Db.Layout.{Entry, PtrAt, BodyAt, head_of, Links}
use apue_2e.Db.Layout.Frame.{Apart, IndexApart, PtrAt-write_at, BodyAt-write_at}
use apue_2e.Db.Chain.Walk.{last_off}

abbrev pub Front : Bytes → ℕ → List Entry → ℕ → Type 0
Front f p [] v = PtrAt f p v
Front f p (e ∷ es) v = PtrAt f p e.off × ((e.off ≢ 0) × BodyAt f e × Front f e.off es v)

pub Front-Links :
    (f : Bytes) (p : ℕ) (xs ys : List Entry)
    → PtrAt f p (head_of (xs ++ ys))
    → Links f (xs ++ ys)
    → Front f p xs (head_of ys) × Links f ys
Front-Links f p [] ys h l = (h, l)
Front-Links f p (x ∷ xs) ys h (ne, body, ptr, rest) =
    let (front, tail) = Front-Links f x.off xs ys ptr rest in ((h, (ne, body, front)), tail)

pub Links-Front :
    (f : Bytes) (p : ℕ) (xs ys : List Entry)
    → Front f p xs (head_of ys)
    → Links f ys
    → PtrAt f p (head_of (xs ++ ys)) × Links f (xs ++ ys)
Links-Front f p [] ys h l = (h, l)
Links-Front f p (x ∷ xs) ys (h, (ne, body, front)) l =
    let (ptr, links) = Links-Front f x.off xs ys front l in (h, (ne, body, ptr, links))

pub Front-write_at :
    (f : Bytes) (q : ℕ) (bs : Bytes) (p : ℕ) (xs : List Entry) (v : ℕ)
    → Front f p xs v
    → Apart p ptr_sz q (length bs)
    → IndexApart q (length bs) xs
    → Front (write_at f q bs) p xs v
Front-write_at f q bs p [] v h a out = PtrAt-write_at f q bs h a
Front-write_at f q bs p (x ∷ xs) v (h, (ne, body, front)) a (o, out) = (
  PtrAt-write_at f q bs h a,
  (
    ne,
    BodyAt-write_at f q bs body (omega arith),
    Front-write_at f q bs x.off xs v front (omega arith) out,
  ),
)

-- The rooms of the records, ten bytes and the text in the index file and the data in the other.
abbrev pub Separate : Entry → Entry → Type 0
Separate e d =
    Apart e.off (ptr_sz + idxlen_sz + e.idxlen) d.off (ptr_sz + idxlen_sz + d.idxlen)
    × Apart e.datoff e.datlen d.datoff d.datlen

abbrev pub SeparateAll : Entry → List Entry → Type 0
SeparateAll e ds = All (Separate e) ds

-- No two records of the list share a byte.
abbrev pub Pairwise : List Entry → Type 0
Pairwise [] = Unit
Pairwise (e ∷ es) = SeparateAll e es × Pairwise es

pub SeparateAll-IndexApart :
    (e : Entry) (es : List Entry) (o n : ℕ)
    → e.off ≤ o
    → o + n ≤ e.off + (ptr_sz + idxlen_sz + e.idxlen)
    → SeparateAll e es
    → IndexApart o n es
SeparateAll-IndexApart e [] o n h k s = tt
SeparateAll-IndexApart e (d ∷ ds) o n h k (s, rest) =
    (omega (arith, s.0), SeparateAll-IndexApart e ds o n h k rest)

-- The last pointer of a list is the one in front of it, or stands in one of its records.
pub last_off-Apart :
    (o n p : ℕ) (xs : List Entry)
    → Apart o n p ptr_sz
    → IndexApart o n xs
    → Apart o n (last_off p xs) ptr_sz
last_off-Apart o n p [] h a = h
last_off-Apart o n p (x ∷ xs) h (out, a) = last_off-Apart o n x.off xs (omega arith) a

-- The last pointer of the front is set.
pub Front-set :
    (f : Bytes) (p : ℕ) (xs : List Entry) (u w : ℕ)
    → w ≤ ptr_max
    → Front f p xs u
    → IndexApart p ptr_sz xs
    → Pairwise xs
    → Front (write_at f (last_off p xs) (padded ptr_sz w)) p xs w
Front-set f p [] u w h front a s = PtrAt-padded f p w h
Front-set f p (x ∷ xs) u w h (ptr, (ne, body, front)) (o, a) (sx, s) =
    let q = last_off x.off xs in
    let size : length (padded ptr_sz w) ≡ ptr_sz = length-padded 5 w (omega arith) in
    let behind = x.off + ptr_sz in
    let room = idxlen_sz + x.idxlen in
    (
      PtrAt-write_at f q _ ptr
          (subst (Apart p ptr_sz q) (sym size) (last_off-Apart p ptr_sz x.off xs (omega arith) a)),
      (
        ne,
        BodyAt-write_at f q _ body (
            subst (Apart behind room q) (sym size) (
              last_off-Apart behind room x.off xs (omega arith)
                (SeparateAll-IndexApart x xs behind room (omega arith) (omega arith) sx))),
        Front-set f x.off xs u w h front
            (SeparateAll-IndexApart x xs x.off ptr_sz (omega arith) (omega arith) sx) s,
      ),
    )

pub Front-inside :
    (f : Bytes) (p : ℕ) (xs : List Entry) (v : ℕ)
    → Front f p xs v
    → last_off p xs + ptr_sz ≤ length f
Front-inside f p [] v h = h.inside
Front-inside f p (x ∷ xs) v (h, (ne, body, front)) = Front-inside f x.off xs v front
