-- ===== src/Dll/Segments.antt =====
-- Segments of doubly linked lists: joining, cutting, and writes to one end.
use apue_2e.Base.{◌≡◌, ◌≢◌, refl, sym, ◌∙◌, List, [], ◌∷◌, ◌++◌, arith, subst, ◌⊎◌, inl, inr}
use native.Mathlib.Decide.{ℕ_discrete}
use apue_2e.Dll.{
  Ptr, null, Cell, Heap, put, set_next, set_prev, first_or, last_of, Linked, NotIn, Distinct,
}

pub first_or-append :
    (xs ys : List Ptr) (n : Ptr) → first_or (xs ++ ys) n ≡ first_or xs (first_or ys n)
first_or-append [] ys n = refl
first_or-append (x ∷ xs) ys n = refl

pub last_of-append : (p : Ptr) (xs ys : List Ptr) → last_of p (xs ++ ys) ≡ last_of (last_of p xs) ys
last_of-append p [] ys = refl
last_of-append p (x ∷ xs) ys = last_of-append x xs ys

pub NotIn-append : (p : Ptr) (xs ys : List Ptr) → NotIn p xs → NotIn p ys → NotIn p (xs ++ ys)
NotIn-append p [] ys a b = b
NotIn-append p (x ∷ xs) ys (h, a) b = (h, NotIn-append p xs ys a b)

pub NotIn-left : (p : Ptr) (xs ys : List Ptr) → NotIn p (xs ++ ys) → NotIn p xs
NotIn-left p [] ys a = tt
NotIn-left p (x ∷ xs) ys (h, a) = (h, NotIn-left p xs ys a)

pub NotIn-right : (p : Ptr) (xs ys : List Ptr) → NotIn p (xs ++ ys) → NotIn p ys
NotIn-right p [] ys a = a
NotIn-right p (x ∷ xs) ys (h, a) = NotIn-right p xs ys a

-- The last of some nodes is one of them.
pub last_of-NotIn : (p x : Ptr) (xs : List Ptr) → x ≢ p → NotIn p xs → last_of x xs ≢ p
last_of-NotIn p x [] ne a = ne
last_of-NotIn p x (y ∷ ys) ne (h, a) = last_of-NotIn p y ys h a

module _ (h : Heap) where
  pub Linked-append :
      (prev : Ptr) (xs ys : List Ptr) (n : Ptr)
      → Linked h prev xs (first_or ys n)
      → Linked h (last_of prev xs) ys n
      → Linked h prev (xs ++ ys) n
  Linked-append prev [] ys n a b = b
  Linked-append prev (x ∷ xs) ys n (ne, p, q, a) b =
      (ne, p, q ∙ sym (first_or-append xs ys n), Linked-append x xs ys n a b)

  pub Linked-left :
      (prev : Ptr) (xs ys : List Ptr) (n : Ptr)
      → Linked h prev (xs ++ ys) n
      → Linked h prev xs (first_or ys n)
  Linked-left prev [] ys n a = tt
  Linked-left prev (x ∷ xs) ys n (ne, p, q, a) =
      (ne, p, q ∙ first_or-append xs ys n, Linked-left x xs ys n a)

  pub Linked-right :
      (prev : Ptr) (xs ys : List Ptr) (n : Ptr)
      → Linked h prev (xs ++ ys) n
      → Linked h (last_of prev xs) ys n
  Linked-right prev [] ys n a = a
  Linked-right prev (x ∷ xs) ys n (ne, p, q, a) = Linked-right x xs ys n a

  -- Writes to other nodes leave a segment as it was.
  pub Linked-put :
      (p : Ptr) (c : Cell) (prev : Ptr) (xs : List Ptr) (n : Ptr)
      → NotIn p xs
      → Linked h prev xs n
      → Linked (put h p c) prev xs n
  unfolding put
  Linked-put p c prev [] n a l = tt
  Linked-put p c prev (x ∷ xs) n (o, a) (ne, q, r, l) =
      (ne, ground arith, ground arith, Linked-put p c x xs n a l)

  pub Linked-set_next :
      (p v prev : Ptr) (xs : List Ptr) (n : Ptr)
      → NotIn p xs
      → Linked h prev xs n
      → Linked (set_next h p v) prev xs n
  unfolding set_next
  Linked-set_next p v prev [] n a l = tt
  Linked-set_next p v prev (x ∷ xs) n (o, a) (ne, q, r, l) =
      (ne, ground arith, ground arith, Linked-set_next p v x xs n a l)

  pub Linked-set_prev :
      (p v prev : Ptr) (xs : List Ptr) (n : Ptr)
      → NotIn p xs
      → Linked h prev xs n
      → Linked (set_prev h p v) prev xs n
  unfolding set_prev
  Linked-set_prev p v prev [] n a l = tt
  Linked-set_prev p v prev (x ∷ xs) n (o, a) (ne, q, r, l) =
      (ne, ground arith, ground arith, Linked-set_prev p v x xs n a l)

  -- The last node is linked to another successor.
  pub Linked-end :
      (prev x : Ptr) (xs : List Ptr) (n v : Ptr)
      → Distinct (x ∷ xs)
      → Linked h prev (x ∷ xs) n
      → Linked (set_next h (last_of x xs) v) prev (x ∷ xs) v
  unfolding set_next
  Linked-end prev x [] n v d (ne, q, r, l) = (ne, ground arith, ground arith, tt)
  Linked-end prev x (y ∷ ys) n v ((o, a), d) (ne, q, r, l) =
      let other = last_of-NotIn x y ys o a in
      (ne, ground arith, ground arith, Linked-end x y ys n v d l)

  -- The first node is linked to another predecessor.
  pub Linked-front :
      (prev x : Ptr) (xs : List Ptr) (n v : Ptr)
      → NotIn x xs
      → Linked h prev (x ∷ xs) n
      → Linked (set_prev h x v) v (x ∷ xs) n
  unfolding set_prev
  Linked-front prev x xs n v a (ne, q, r, l) =
      (ne, ground arith, ground arith, Linked-set_prev x v x xs n a l)

  pub Linked-NotIn-null :
      (prev : Ptr) (xs : List Ptr) (n : Ptr) → Linked h prev xs n → NotIn null xs
  Linked-NotIn-null prev [] n l = tt
  Linked-NotIn-null prev (x ∷ xs) n (ne, q, r, l) = (ne, Linked-NotIn-null x xs n l)

pub Distinct-snoc : (p : Ptr) (xs : List Ptr) → Distinct xs → NotIn p xs → Distinct (xs ++ p ∷ [])
Distinct-snoc p [] d a = (tt, tt)
Distinct-snoc p (x ∷ xs) (o, d) (ne, a) =
    (NotIn-append x xs (p ∷ []) o ((λ e. ne (sym e)), tt), Distinct-snoc p xs d a)

-- The parts of distinct nodes around one of them.
pub Distinct-left :
    (xs : List Ptr) (p : Ptr) (ys : List Ptr) → Distinct (xs ++ p ∷ ys) → Distinct xs
Distinct-left [] p ys d = tt
Distinct-left (x ∷ xs) p ys (o, d) = (NotIn-left x xs (p ∷ ys) o, Distinct-left xs p ys d)

pub Distinct-right :
    (xs : List Ptr) (p : Ptr) (ys : List Ptr) → Distinct (xs ++ p ∷ ys) → Distinct (p ∷ ys)
Distinct-right [] p ys d = d
Distinct-right (x ∷ xs) p ys (o, d) = Distinct-right xs p ys d

pub Distinct-without :
    (xs : List Ptr) (p : Ptr) (ys : List Ptr) → Distinct (xs ++ p ∷ ys) → Distinct (xs ++ ys)
Distinct-without [] p ys d = d.1
Distinct-without (x ∷ xs) p ys (o, d) = (
  NotIn-append x xs ys (NotIn-left x xs (p ∷ ys) o) (NotIn-right x xs (p ∷ ys) o).1,
  Distinct-without xs p ys d,
)

-- Distinct parts share no node.
pub Distinct-apart :
    (xs : List Ptr) (ys : List Ptr) (p : Ptr) → Distinct (xs ++ ys) → NotIn p xs ⊎ NotIn p ys
Distinct-apart [] ys p d = inl tt
Distinct-apart (x ∷ xs) ys p (o, d) = elim (ℕ_discrete x p) [
  | yes e ↦ inr (subst (λ r. NotIn r ys) e (NotIn-right x xs ys o))
  | no ne ↦ elim (Distinct-apart xs ys p d) [ inl a ↦ inl (ne, a) | inr b ↦ inr b ]
]

-- A node of the second part is not in the first, and the last node of the first is not in the second.
pub NotIn-of :
    (xs : List Ptr) (t y : Ptr) (ys : List Ptr) → Distinct (xs ++ t ∷ y ∷ ys) → NotIn y xs
NotIn-of [] t y ys d = tt
NotIn-of (x ∷ xs) t y ys (o, d) =
    ((λ e. (NotIn-right x xs (t ∷ y ∷ ys) o).1.0 (sym e)), NotIn-of xs t y ys d)

pub last_of-apart :
    (x : Ptr) (xs : List Ptr) (t : Ptr) (ys : List Ptr)
    → Distinct (x ∷ xs ++ t ∷ ys)
    → NotIn (last_of x xs) ys
last_of-apart x [] t ys (o, d) = o.1
last_of-apart x (z ∷ zs) t ys (o, d) = last_of-apart z zs t ys d
