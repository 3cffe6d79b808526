-- ===== src/Ipp/Status/Scan.antt =====
-- What the loops of `printer_status` do on a header that is in the buffer.
use apue_2e.Base.{
  ℕ, zero, suc, ◌+◌, ◌<◌, ◌≤◌, ◌==◌, ◌≡◌, refl, ap, ◌∙◌, Bool, true, false, ◌&&◌, ◌||◌, ltb, leb,
  some, List, [], ◌∷◌, ◌++◌, length, All, arith, Bool-cases, inl, inr,
}
use apue_2e.Files.{Bytes}
use apue_2e.CText.{codes}
use apue_2e.Ipp.Status.{
  Answer, spins, good, ends, and_then, Place, span, spanned, seek_c, begins_with, read_length,
  length_or, find_length, more_at_end, seek_end, find_end,
}

abbrev pub field : Bytes
field = codes "Content-Length:"

-- No place in the first text has the name of the field, with `tail` behind it.
abbrev pub Fieldless : Bytes → Bytes → Type 0
Fieldless [] tail = Unit
Fieldless (c ∷ s) tail = (begins_with field (c ∷ s ++ tail) ≡ some false) × Fieldless s tail

-- The empty line that ends a header.
unfoldable pub is_end : Bytes → Bool
is_end [] = false
is_end (a ∷ []) = false
is_end (a ∷ b ∷ []) = false
is_end (a ∷ b ∷ c ∷ s) = (a == 10) && (b == 13) && (c == 10)

-- The end of the header begins nowhere in the first text, with `tail` behind it.
abbrev pub Endless : Bytes → Bytes → Type 0
Endless [] tail = Unit
Endless (c ∷ s) tail = (is_end (c ∷ s ++ tail) ≡ false) × Endless s tail

span_lem :
    (p : ℕ → Bool) (xs : Bytes) (c : ℕ) (s : Bytes)
    → All (λ d. p d ≡ true) xs
    → p c ≡ false
    → span p (xs ++ c ∷ s) ≡ some (xs, c ∷ s)
unfolding span
span_lem p [] c s h e = rw e refl
span_lem p (x ∷ xs) c s h e = rw (h.0, span_lem p xs c s h.1 e) refl

pub spanned_lem :
    (p : ℕ → Bool) (xs : Bytes) (c : ℕ) (s : Bytes)
    → All (λ d. p d ≡ true) xs
    → p c ≡ false
    → spanned p (xs ++ c ∷ s) ≡ good (xs, c ∷ s)
unfolding spanned
spanned_lem p xs c s h e = rw (spanned, span_lem p xs c s h e) refl

pub more_at_end-inside : (room : Bool) (v : Place) → v.at < v.nr → more_at_end room v ≡ good v
unfolding more_at_end
more_at_end-inside room v h = let inside : leb v.nr v.at ≡ false = ground arith in rw inside refl

abbrev is_c : ℕ → Bool
is_c c = (c == b'C') || (c == b'c')

module _ (fuel : ℕ) (room : Bool) (c : ℕ) (s : Bytes) (i nr : ℕ) (input : List Answer)
    (low : i < nr) where
  abbrev place : Place
  place = record { at = i; rest = c ∷ s; nr = nr; input = input }

  seek-other : is_c c ≡ false → seek_c i nr (c ∷ s) ≡ seek_c (i + 1) nr s
  unfolding seek_c
  seek-other e = let inside : ltb i nr ≡ true = ground arith in rw (e, inside) refl

  seek-here : is_c c ≡ true → seek_c i nr (c ∷ s) ≡ good (i, c ∷ s)
  unfolding seek_c
  seek-here e = rw e refl

  find-other :
      is_c c ≡ false
      → find_length (suc fuel) room place
        ≡ find_length (suc fuel) room (record { at = i + 1; rest = s; nr = nr; input = input })
  unfolding find_length
  find-other e = rw (seek-other e) refl

  tested :
      is_c c ≡ true
      → find_length (suc fuel) room place
        ≡ length_or
            (begins_with field (c ∷ s))
            place
            (find_length fuel room (record { at = i + 1; rest = s; nr = nr; input = input }))
  unfolding find_length and_then
  tested e = rw (seek-here e, more_at_end-inside room place low) refl

  find-missed :
      is_c c ≡ true
      → begins_with field (c ∷ s) ≡ some false
      → find_length (suc fuel) room place
        ≡ find_length fuel room (record { at = i + 1; rest = s; nr = nr; input = input })
  unfolding length_or
  find-missed e miss =
      tested e
      ∙ ap
          (λ b.
            length_or b place
              (find_length fuel room (record { at = i + 1; rest = s; nr = nr; input = input })))
          miss

  find-hit :
      is_c c ≡ true
      → begins_with field (c ∷ s) ≡ some true
      → find_length (suc fuel) room place ≡ read_length place
  unfolding length_or
  find-hit e hit =
      tested e
      ∙ ap
          (λ b.
            length_or b place
              (find_length fuel room (record { at = i + 1; rest = s; nr = nr; input = input })))
          hit

-- The text in front of the field is passed.
pub find_length_lem :
    (fuel : ℕ) (room : Bool) (front s : Bytes) (i nr : ℕ) (input : List Answer)
    → length front < fuel
    → i + length front < nr
    → Fieldless front (field ++ s)
    → find_length fuel room
        (record { at = i; rest = front ++ (field ++ s); nr = nr; input = input })
      ≡ read_length (record { at = i + length front; rest = field ++ s; nr = nr; input = input })
unfolding begins_with
find_length_lem zero room front s i nr input h k f = absurd (omega arith)
find_length_lem (suc fuel) room [] s i nr input h k f =
    let e : i ≡ i + 0 = omega arith in
    find-hit fuel room _ _ i nr input (omega (arith, k)) refl refl
    ∙ ap (λ j. read_length (record { at = j; rest = field ++ s; nr = nr; input = input })) e
find_length_lem (suc fuel) room (c ∷ front) s i nr input h k f =
    let low : i < nr = omega (arith, k) in
    let e : i + 1 + length front ≡ i + suc (length front) = omega arith in
    let next =
      ap (λ j. read_length (record { at = j; rest = field ++ s; nr = nr; input = input })) e in
    elim (Bool-cases (is_c c)) [
      | inl here ↦
          find-missed fuel room c (front ++ (field ++ s)) i nr input low here f.0
          ∙ find_length_lem fuel room front s (i + 1) nr input (omega (arith, h)) (omega (arith, k))
              f.1
          ∙ next
      | inr other ↦
          find-other fuel room c (front ++ (field ++ s)) i nr input low other
          ∙ find_length_lem (suc fuel) room front s (i + 1) nr input (omega (arith, h))
              (omega (arith, k)) f.1
          ∙ next
    ]

abbrev pub ending : Bytes → Bytes
ending s = 10 ∷ 13 ∷ 10 ∷ s

seek_end-next :
    (a b c : ℕ) (s : Bytes) (i nr : ℕ)
    → i + 2 < nr
    → is_end (a ∷ b ∷ c ∷ s) ≡ false
    → seek_end i nr (a ∷ b ∷ c ∷ s) ≡ seek_end (i + 1) nr (b ∷ c ∷ s)
unfolding seek_end is_end
seek_end-next a b c s i nr h e =
    let inside : ltb (i + 2) nr ≡ true = ground arith in rw (inside, e) refl

seek_end-pass :
    (a : ℕ) (m s : Bytes) (i nr : ℕ)
    → i + 2 < nr
    → is_end (a ∷ m ++ ending s) ≡ false
    → seek_end i nr (a ∷ m ++ ending s) ≡ seek_end (i + 1) nr (m ++ ending s)
seek_end-pass a [] s i nr h e = seek_end-next a 10 13 (10 ∷ s) i nr h e
seek_end-pass a (b ∷ []) s i nr h e = seek_end-next a b 10 (13 ∷ 10 ∷ s) i nr h e
seek_end-pass a (b ∷ c ∷ m) s i nr h e = seek_end-next a b c (m ++ ending s) i nr h e

-- The end of the header is found.
pub seek_end_lem :
    (middle s : Bytes) (i nr : ℕ)
    → i + length middle + 2 < nr
    → Endless middle (ending s)
    → seek_end i nr (middle ++ ending s) ≡ good (true, i + length middle + 3, s)
unfolding seek_end
seek_end_lem [] s i nr h e =
    let inside : ltb (i + 2) nr ≡ true = ground arith in
    let same : i + 3 ≡ i + 0 + 3 = omega arith in rw inside (ap (λ j. good (true, j, s)) same)
seek_end_lem (a ∷ middle) s i nr h e =
    let same : i + 1 + length middle + 3 ≡ i + suc (length middle) + 3 = omega arith in
    seek_end-pass a middle s i nr (omega (arith, h)) e.0
    ∙ seek_end_lem middle s (i + 1) nr (omega (arith, h)) e.1
    ∙ ap (λ j. good (true, j, s)) same

pub find_end_lem :
    (fuel : ℕ) (room : Bool) (middle s : Bytes) (i nr : ℕ) (input : List Answer)
    → i + length middle + 3 < nr
    → Endless middle (ending s)
    → find_end
        (suc fuel)
        room
        (record { at = i; rest = middle ++ ending s; nr = nr; input = input })
      ≡ good (record { at = i + length middle + 3; rest = s; nr = nr; input = input })
unfolding find_end and_then
find_end_lem fuel room middle s i nr input h e =
    rw
      (
        seek_end_lem middle s i nr (omega (arith, h)) e,
        more_at_end-inside room
            (record { at = i + length middle + 3; rest = s; nr = nr; input = input }) h,
      )
      refl

seek_end-stop : (i nr : ℕ) (t : Bytes) → nr ≤ i + 2 → seek_end i nr t ≡ good (false, i, t)
unfolding seek_end
seek_end-stop i nr [] h = let outside : ltb (i + 2) nr ≡ false = ground arith in rw outside refl
seek_end-stop i nr (a ∷ []) h =
    let outside : ltb (i + 2) nr ≡ false = ground arith in rw outside refl
seek_end-stop i nr (a ∷ b ∷ []) h =
    let outside : ltb (i + 2) nr ≡ false = ground arith in rw outside refl
seek_end-stop i nr (a ∷ b ∷ c ∷ t) h =
    let outside : ltb (i + 2) nr ≡ false = ground arith in rw outside refl

-- Where the end of the header is not among the bytes that were read, the pointer ends at most two bytes in
-- front of the last one.
seek_end-none :
    (s junk : Bytes) (i nr : ℕ)
    → i + length s ≡ nr
    → i < nr
    → Endless s []
    → (j : ℕ) × (t : Bytes) × (seek_end i nr (s ++ junk) ≡ good (false, j, t))
      × (nr ≤ j + 2)
      × (j < nr)
unfolding is_end
seek_end-none [] junk i nr e h f = absurd (omega (arith, e))
seek_end-none (a ∷ []) junk i nr e h f =
    (i, a ∷ junk, seek_end-stop i nr (a ∷ junk) (omega (arith, e)), omega (arith, e), h)
seek_end-none (a ∷ b ∷ []) junk i nr e h f =
    (i, a ∷ b ∷ junk, seek_end-stop i nr (a ∷ b ∷ junk) (omega (arith, e)), omega (arith, e), h)
seek_end-none (a ∷ b ∷ c ∷ s) junk i nr e h f =
    let (j, t, q, low, high) =
      seek_end-none (b ∷ c ∷ s) junk (i + 1) nr (omega (arith, e)) (omega (arith, e)) f.1 in
    (j, t, seek_end-next a b c (s ++ junk) i nr (omega (arith, e)) f.0 ∙ q, low, high)

find_end-stuck :
    (fuel : ℕ) (room : Bool) (i nr : ℕ) (t : Bytes) (input : List Answer)
    → nr ≤ i + 2
    → i < nr
    → find_end fuel room (record { at = i; rest = t; nr = nr; input = input }) ≡ ends spins
unfolding find_end and_then
find_end-stuck zero room i nr t input h k = refl
find_end-stuck (suc fuel) room i nr t input h k =
    rw
      (
        seek_end-stop i nr t h,
        more_at_end-inside room (record { at = i; rest = t; nr = nr; input = input }) k,
      )
      (find_end-stuck fuel room i nr t input h k)

-- The search for the end of the header does not end, whatever the fuel.
pub find_end-spins :
    (fuel : ℕ) (room : Bool) (s junk : Bytes) (i nr : ℕ) (input : List Answer)
    → i + length s ≡ nr
    → i < nr
    → Endless s []
    → find_end fuel room (record { at = i; rest = s ++ junk; nr = nr; input = input }) ≡ ends spins
unfolding find_end and_then
find_end-spins zero room s junk i nr input e h f = refl
find_end-spins (suc fuel) room s junk i nr input e h f =
    let (j, t, q, low, high) = seek_end-none s junk i nr e h f in
    rw (q, more_at_end-inside room (record { at = j; rest = t; nr = nr; input = input }) high)
      (find_end-stuck fuel room j nr t input low high)
