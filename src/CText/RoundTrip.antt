-- ===== src/CText/RoundTrip.antt =====
-- `atol` reads back what `sprintf` printed; lengths and characters of what it prints.
use apue_2e.Base.{
  ℕ, zero, suc, ◌+◌, ◌-◌, ◌*◌, ◌/◌, ◌%◌, ◌≤◌, ◌<◌, ◌≡◌, ◌≢◌, refl, ap, ◌∙◌, List, [], ◌∷◌, ◌++◌,
  arith, append_assoc, false, none, some, ltb, Bool-cases, inl, inr, pos, length, replicate, All,
  length-append, length-replicate,
}
use apue_2e.Files.{Bytes}
use apue_2e.CText.{cstr, cut_at, is_digit, scan, atol, dec, decimal, padded}

abbrev pub IsDigit : ℕ → Type 0
IsDigit c = (48 ≤ c) × (c ≤ 57)

-- What stands behind a printed number does not begin with a digit.
abbrev pub Stops : Bytes → Type 0
Stops [] = Unit
Stops (c ∷ s) = is_digit c ≡ false

pub All-append {ℓ κ} :
    {A : Type ℓ} (P : A → Type κ) (xs ys : List A) → All P xs → All P ys → All P (xs ++ ys)
All-append P [] ys hx hy = hy
All-append P (x ∷ xs) ys (px, hx) hy = (px, All-append P xs ys hx hy)

pub scan_digit : (n c : ℕ) (s : Bytes) → IsDigit c → scan n (c ∷ s) ≡ scan (n * 10 + (c - 48)) s
unfolding scan
scan_digit n c s h = ground arith

pub scan-Stops : (n : ℕ) (s : Bytes) → Stops s → scan n s ≡ n
unfolding scan
scan-Stops n [] h = refl
scan-Stops n (c ∷ s) h = ground arith

pub dec-IsDigit : (f n : ℕ) → All IsDigit (dec f n)
unfolding dec
dec-IsDigit zero n = tt
dec-IsDigit (suc f) n = elim (Bool-cases (ltb n 10)) [
  | inl e ↦ rw e ((omega arith, ground arith), tt)
  | inr e ↦ rw e (All-append IsDigit (dec f (n / 10)) _ (dec-IsDigit f (n / 10)) (omega arith))
]

scan-dec : (f n : ℕ) (s : Bytes) → n < f → scan 0 (dec f n ++ s) ≡ scan n s
unfolding dec
scan-dec zero n s h = absurd (omega arith)
scan-dec (suc f) n s h = elim (Bool-cases (ltb n 10)) [
  | inl e ↦ rw e (scan_digit 0 (48 + n) s (ground arith) ∙ ap (λ m. scan m s) (omega arith))
  | inr e ↦
      rw (e, append_assoc)
        (scan-dec f (n / 10) ((48 + n % 10) ∷ s) (ground arith)
          ∙ scan_digit (n / 10) (48 + n % 10) s (omega arith)
          ∙ ap (λ m. scan m s) (omega arith))
]

atol_digit : (c : ℕ) (s : Bytes) → IsDigit c → atol (c ∷ s) ≡ pos (scan 0 (c ∷ s))
unfolding atol
atol_digit c s h = ground arith

pub dec_head : (f n : ℕ) → (c : ℕ) × (t : Bytes) × (dec (suc f) n ≡ c ∷ t)
unfolding dec
dec_head zero n = elim (Bool-cases (ltb n 10)) [
  | inl e ↦ (48 + n, [], rw e)
  | inr e ↦ (48 + n % 10, [], rw e)
]
dec_head (suc f) n = elim (Bool-cases (ltb n 10)) [
  | inl e ↦ (48 + n, [], rw e)
  | inr e ↦
      let (c, t, q) = dec_head f (n / 10) in
      (c, t ++ (48 + n % 10) ∷ [], rw e (ap (λ l. l ++ (48 + n % 10) ∷ []) q))
]

atol_first :
    (c : ℕ) (t s l : Bytes) → l ≡ c ∷ t → All IsDigit l → atol (l ++ s) ≡ pos (scan 0 (l ++ s))
atol_first c t s l e h = rw e (atol_digit c (t ++ s) ((rw e at h).0))

-- `atol` of a printed number and what follows it is the number.
pub atol-decimal : (n : ℕ) (s : Bytes) → Stops s → atol (decimal n ++ s) ≡ pos n
unfolding decimal
atol-decimal n s h =
    let (c, t, e) = dec_head n n in
    atol_first c t s (dec (suc n) n) e (dec-IsDigit (suc n) n)
    ∙ ap pos (scan-dec (suc n) n s (omega arith) ∙ scan-Stops n s h)

atol_blanks : (k : ℕ) (s : Bytes) → atol (replicate k b' ' ++ s) ≡ atol s
unfolding atol
atol_blanks zero s = refl
atol_blanks (suc k) s = atol_blanks k s

-- So it is behind the blanks of a field width.
pub atol-padded : (w n : ℕ) (s : Bytes) → Stops s → atol (padded w n ++ s) ≡ pos n
unfolding padded
atol-padded w n s h =
    rw append_assoc (atol_blanks (w - length (decimal n)) (decimal n ++ s) ∙ atol-decimal n s h)

-- ten to the power `k`
abbrev pub ten_to : ℕ → ℕ
ten_to zero = 1
ten_to (suc k) = ten_to k * 10

length-dec : (f k n : ℕ) → n < ten_to (suc k) → length (dec f n) ≤ suc k
unfolding dec
length-dec zero k n h = omega arith
length-dec (suc f) zero n h = ground arith
length-dec (suc f) (suc k) n h = elim (Bool-cases (ltb n 10)) [
  | inl e ↦ rw e (omega arith)
  | inr e ↦ rw e (
      omega (
        arith,
        length-append {0} (dec f (n / 10)) ((48 + n % 10) ∷ []),
        length-dec f k (n / 10) (omega arith),
      ))
]

-- A number with at most `w` digits fills a field of that width exactly.
pub length-padded : (w n : ℕ) → n < ten_to (suc w) → length (padded (suc w) n) ≡ suc w
unfolding padded decimal
length-padded w n h = omega (
  arith,
  length-append {0} (replicate (suc w - length (dec (suc n) n)) b' ') (dec (suc n) n),
  length-replicate {0} {A = ℕ} (suc w - length (dec (suc n) n)) b' ',
  length-dec (suc n) w n h,
)

pub decimal-IsDigit : (n : ℕ) → All IsDigit (decimal n)
unfolding decimal
decimal-IsDigit n = dec-IsDigit (suc n) n

-- A string with no separator is cut at the first separator behind it.
pub cut_at-append :
    (sep : ℕ) (a b : Bytes) → All (λ c. c ≢ sep) a → cut_at sep (a ++ sep ∷ b) ≡ some (a, b)
unfolding cut_at
cut_at-append sep [] b h = ground arith
cut_at-append sep (c ∷ a) b (p, h) = ground (arith, cut_at-append sep a b h)

pub cut_at-none : (sep : ℕ) (a : Bytes) → All (λ c. c ≢ sep) a → cut_at sep a ≡ none
unfolding cut_at
cut_at-none sep [] h = refl
cut_at-none sep (c ∷ a) (p, h) = ground (arith, cut_at-none sep a h)

-- A string with no null byte is its own C string.
pub cstr-All : (s : Bytes) → All (λ c. c ≢ 0) s → cstr s ≡ s
unfolding cstr
cstr-All [] h = refl
cstr-All (c ∷ s) (p, h) = ground (arith, cstr-All s h)
