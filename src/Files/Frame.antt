-- ===== src/Files/Frame.antt =====
-- What a read returns behind a write: the bytes written, or what stood there before.
use apue_2e.Base.{
  ℕ, zero, suc, ◌+◌, ◌≤◌, ◌<◌, ◌≡◌, refl, ap, [], ◌∷◌, ◌++◌, arith, length, take, drop, ◌∙◌, sym,
  take-append, drop-append, take_all, length-append, length-take, length-drop,
}
use native.Mathlib.Nat.{zero-add, suc-add}
use apue_2e.Files.{Bytes, read_at, write_at}

take_nil : (n : ℕ) → take n (let e : Bytes = [] in e) ≡ []
take_nil zero = refl
take_nil (suc n) = refl

drop-nil : (n : ℕ) → drop n (let e : Bytes = [] in e) ≡ []
drop-nil zero = refl
drop-nil (suc n) = refl

take-write_at : (f bs : Bytes) → take (length bs) (write_at f 0 bs) ≡ bs
unfolding write_at
take-write_at [] bs = take_all bs
take-write_at (x ∷ f) [] = refl
take-write_at (x ∷ f) (b ∷ bs) = ap (λ t. b ∷ t) (take-write_at f bs)

-- A read at the offset of a write returns what was written.
pub read_at-write_at :
    (f : Bytes) (off : ℕ) (bs : Bytes) → read_at (write_at f off bs) off (length bs) ≡ bs
unfolding read_at write_at
read_at-write_at f zero bs = take-write_at f bs
read_at-write_at [] (suc off) bs = unfold read_at in read_at-write_at [] off bs
read_at-write_at (x ∷ f) (suc off) bs = unfold read_at in read_at-write_at f off bs

pub read_at_before :
    (f : Bytes) (off : ℕ) (bs : Bytes) (o n : ℕ)
    → o + n ≤ off
    → o + n ≤ length f
    → read_at (write_at f off bs) o n ≡ read_at f o n
unfolding read_at write_at
read_at_before [] off bs zero zero h k = refl
read_at_before [] off bs zero (suc n) h k = absurd (omega arith)
read_at_before [] off bs (suc o) n h k = absurd (omega arith)
read_at_before (x ∷ f) zero bs zero zero h k = refl
read_at_before (x ∷ f) zero bs zero (suc n) h k = absurd (omega arith)
read_at_before (x ∷ f) zero bs (suc o) n h k = absurd (omega arith)
read_at_before (x ∷ f) (suc off) bs zero zero h k = refl
read_at_before (x ∷ f) (suc off) bs zero (suc n) h k =
    ap (λ t. x ∷ t) (read_at_before f off bs zero n (omega arith) (omega arith))
read_at_before (x ∷ f) (suc off) bs (suc o) n h k =
    read_at_before f off bs o n (omega arith) (omega arith)

pub read_at_after :
    (f : Bytes) (off : ℕ) (bs : Bytes) (o n : ℕ)
    → off + length bs ≤ o
    → read_at (write_at f off bs) o n ≡ read_at f o n
unfolding read_at write_at
read_at_after [] zero [] o n h = refl
read_at_after [] zero (b ∷ bs) zero n h = absurd (omega arith)
read_at_after [] zero (b ∷ bs) (suc o) n h = drop_past bs o n (omega arith)
  where
    drop_past : (cs : Bytes) (p m : ℕ) → length cs ≤ p → take m (drop p cs) ≡ take m []
    drop_past [] zero m q = refl
    drop_past [] (suc p) m q = refl
    drop_past (c ∷ cs) zero m q = absurd (omega arith)
    drop_past (c ∷ cs) (suc p) m q = drop_past cs p m (omega arith)
read_at_after (x ∷ f) zero [] o n h = refl
read_at_after (x ∷ f) zero (b ∷ bs) zero n h = absurd (omega arith)
read_at_after (x ∷ f) zero (b ∷ bs) (suc o) n h = read_at_after f zero bs o n (omega arith)
read_at_after [] (suc off) bs zero n h = absurd (omega arith)
read_at_after [] (suc off) bs (suc o) n h = nil_after off bs o n (omega arith)
  where
    nil_after :
        (p : ℕ) (cs : Bytes) (q m : ℕ)
        → p + length cs ≤ q
        → take m (drop q (write_at [] p cs)) ≡ take m []
    nil_after zero [] zero m k = refl
    nil_after zero [] (suc q) m k = refl
    nil_after zero (c ∷ cs) zero m k = absurd (omega arith)
    nil_after zero (c ∷ cs) (suc q) m k = nil_after zero cs q m (omega arith)
    nil_after (suc p) cs zero m k = absurd (omega arith)
    nil_after (suc p) cs (suc q) m k = nil_after p cs q m (omega arith)
read_at_after (x ∷ f) (suc off) bs zero n h = absurd (omega arith)
read_at_after (x ∷ f) (suc off) bs (suc o) n h = read_at_after f off bs o n (omega arith)

-- A write that begins inside the file or at its end makes it as long as its own end, if that is more.
pub le-length-write_at :
    (f : Bytes) (off : ℕ) (bs : Bytes) → off + length bs ≤ length (write_at f off bs)
unfolding write_at
le-length-write_at [] zero bs = omega arith
le-length-write_at (x ∷ f) zero [] = omega arith
le-length-write_at (x ∷ f) zero (b ∷ bs) = omega (arith, le-length-write_at f zero bs)
le-length-write_at [] (suc off) bs = omega (arith, le-length-write_at [] off bs)
le-length-write_at (x ∷ f) (suc off) bs = omega (arith, le-length-write_at f off bs)

-- No write shortens a file.
pub length-le-write_at : (f : Bytes) (off : ℕ) (bs : Bytes) → length f ≤ length (write_at f off bs)
unfolding write_at
length-le-write_at [] off bs = omega arith
length-le-write_at (x ∷ f) zero [] = omega arith
length-le-write_at (x ∷ f) zero (b ∷ bs) = omega (arith, length-le-write_at f zero bs)
length-le-write_at (x ∷ f) (suc off) bs = omega (arith, length-le-write_at f off bs)

take-take : (m n : ℕ) (xs : Bytes) → m ≤ n → take m (take n xs) ≡ take m xs
take-take zero n xs h = refl
take-take (suc m) zero xs h = absurd (omega arith)
take-take (suc m) (suc n) [] h = refl
take-take (suc m) (suc n) (x ∷ xs) h = ap (λ t. x ∷ t) (take-take m n xs (omega arith))

drop-take : (m n : ℕ) (xs : Bytes) → drop m (take (m + n) xs) ≡ take n (drop m xs)
drop-take zero n xs = rw zero-add
drop-take (suc m) n [] = rw (suc-add) (rw (take_nil n))
drop-take (suc m) n (x ∷ xs) = rw (suc-add) (drop-take m n xs)

drop-drop : (m n : ℕ) (xs : Bytes) → drop m (drop n xs) ≡ drop (n + m) xs
drop-drop m zero xs = rw zero-add
drop-drop m (suc n) [] = rw (suc-add) (drop-nil m)
drop-drop m (suc n) (x ∷ xs) = rw (suc-add) (drop-drop m n xs)

-- The front of a longer read is the shorter read.
pub take-read_at : (f : Bytes) (o m n : ℕ) → m ≤ n → take m (read_at f o n) ≡ read_at f o m
unfolding read_at
take-read_at f o m n h = take-take m n (drop o f) h

-- The back of a longer read is the read further on.
pub drop-read_at : (f : Bytes) (o m n : ℕ) → drop m (read_at f o (m + n)) ≡ read_at f (o + m) n
unfolding read_at
drop-read_at f o m n = drop-take m n (drop o f) ∙ ap (take n) (drop-drop m o f)

-- The two buffers of a `writev` are read back one behind the other.
pub read_front :
    (f : Bytes) (off : ℕ) (a b : Bytes) → read_at (write_at f off (a ++ b)) off (length a) ≡ a
read_front f off a b =
    sym (
      take-read_at (write_at f off (a ++ b)) off (length a) (length (a ++ b))
        (omega (arith, length-append {0} a b)))
    ∙ ap (take (length a)) (read_at-write_at f off (a ++ b))
    ∙ take-append a b

pub read_back :
    (f : Bytes) (off : ℕ) (a b : Bytes)
    → read_at (write_at f off (a ++ b)) (off + length a) (length b) ≡ b
read_back f off a b =
    sym (drop-read_at (write_at f off (a ++ b)) off (length a) (length b))
    ∙ ap (λ n. drop (length a) (read_at (write_at f off (a ++ b)) off n)) (sym (length-append a b))
    ∙ ap (drop (length a)) (read_at-write_at f off (a ++ b))
    ∙ drop-append a b

-- A read inside the file is not short.
pub length-read_at : (f : Bytes) (o n : ℕ) → o + n ≤ length f → length (read_at f o n) ≡ n
unfolding read_at
length-read_at f o n h = omega (arith, length-take {0} n (drop o f), length-drop {0} o f)

-- A read that was not short lies inside the file.
pub le_of_length-read_at :
    (f : Bytes) (o n : ℕ) → 0 < n → length (read_at f o n) ≡ n → o + n ≤ length f
unfolding read_at
le_of_length-read_at f o n p h = omega (arith, length-take {0} n (drop o f), length-drop {0} o f)

-- A write inside the file does not make it longer.
pub length-write_at_inside :
    (f : Bytes) (off : ℕ) (bs : Bytes)
    → off + length bs ≤ length f
    → length (write_at f off bs) ≡ length f
unfolding write_at
length-write_at_inside [] zero [] h = refl
length-write_at_inside [] zero (b ∷ bs) h = absurd (omega arith)
length-write_at_inside [] (suc off) bs h = absurd (omega arith)
length-write_at_inside (x ∷ f) zero [] h = refl
length-write_at_inside (x ∷ f) zero (b ∷ bs) h =
    ap suc (length-write_at_inside f zero bs (omega arith))
length-write_at_inside (x ∷ f) (suc off) bs h =
    ap suc (length-write_at_inside f off bs (omega arith))
