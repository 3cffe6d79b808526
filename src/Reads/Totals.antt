-- ===== src/Reads/Totals.antt =====
-- `readn` and `treadn` return, and return what was received.
use apue_2e.Base.{
  ℕ, zero, suc, ◌+◌, ◌-◌, ◌≡◌, ◌≤◌, ◌<◌, ◌==◌, refl, ap, ◌∙◌, Bool-cases, inl, inr, ◌⊎◌, arith,
}
use apue_2e.Reads.{Got, bytes, failed, Reader, IsBounded, Total, count, error, readn_loop, readn}

Got-cases : (g : Got) → (g ≡ failed) ⊎ ((k : ℕ) × (g ≡ bytes k))
Got-cases failed = inl refl
Got-cases (bytes k) = inr (k, refl)

-- From call `i` on, with `nleft` bytes to go, `r` bytes come before the reads stop: all are there, the
-- file ends, or a read fails.
pub data Receives (read : Reader) : ℕ → ℕ → ℕ → Type 0 where
  whole : {i nleft r : ℕ} → nleft ≡ 0 → r ≡ 0 → Receives read i nleft r
  at_end : {i nleft r : ℕ} → read i nleft ≡ bytes 0 → r ≡ 0 → Receives read i nleft r
  at_error : {i nleft r : ℕ} → read i nleft ≡ failed → r ≡ 0 → Receives read i nleft r
  more :
      {i nleft r : ℕ} (k : ℕ) (r' : ℕ)
      → 0 < k
      → read i nleft ≡ bytes k
      → Receives read (i + 1) (nleft - k) r'
      → r ≡ k + r'
      → Receives read i nleft r

-- What a loop over `read` answers when `n` bytes were asked for and `nleft` are to go.
abbrev Answers : Reader → ℕ → ℕ → ℕ → Total → Type 0
Answers read n i nleft out =
    (r : ℕ) × Receives read i nleft r
    × (r ≤ nleft)
    × ((out ≡ count (n - nleft + r))
        ⊎ ((out ≡ error) × (read i nleft ≡ failed) × (nleft ≡ n) × (0 < nleft)))

readn_loop-Answers :
    (fuel : ℕ) (read : Reader) (n i nleft : ℕ)
    → IsBounded read
    → nleft < fuel
    → nleft ≤ n
    → Answers read n i nleft (readn_loop fuel read n i nleft)
unfolding readn_loop
readn_loop-Answers zero read n i nleft b f l = absurd (omega arith)
readn_loop-Answers (suc fuel) read n i nleft b f l = elim (Bool-cases (nleft == 0)) [
  | inl e ↦ (0, whole (ground arith) refl, omega arith, inl (rw e (ap count (omega arith))))
  | inr e ↦ elim (Got-cases (read i nleft)) [
    | inl bad ↦ elim (Bool-cases (nleft == n)) [
      | inl first ↦ (
        0,
        at_error bad refl,
        omega arith,
        inr (rw (e, bad, first), bad, ground arith, ground arith),
      )
      | inr later ↦
          (0, at_error bad refl, omega arith, inl (rw (e, bad, later) (ap count (omega arith))))
    ]
    | inr (k, got) ↦ elim (Bool-cases (k == 0)) [
      | inl none_left ↦
          let z : k ≡ 0 = ground arith in
          (
            0,
            at_end (got ∙ ap bytes z) refl,
            omega arith,
            inl (rw (e, got, none_left) (ap count (omega arith))),
          )
      | inr some_left ↦
          let low : 0 < k = ground arith in
          let high = b i nleft k got in
          let (r, recv, small, out) =
            readn_loop-Answers fuel read n (i + 1) (nleft - k) b (omega arith) (omega arith) in
          let counted : readn_loop fuel read n (i + 1) (nleft - k) ≡ count (n - (nleft - k) + r) =
            elim out [ inl c ↦ c | inr (_, _, same, _) ↦ absurd (omega arith) ] in
          (
            k + r,
            more k r low got recv refl,
            omega arith,
            inl (rw (e, got, some_left) (counted ∙ ap count (omega arith))),
          )
    ]
  ]
]

-- `readn` returns, whatever the reads do, as long as none gives more than was asked for. It returns the
-- number of bytes that came before all were there, the file ended or a read failed, at most `n`; it
-- returns -1 only if the first read failed, and then nothing came.
pub readn-Receives :
    (read : Reader) (n : ℕ)
    → IsBounded read
    → (r : ℕ) × Receives read 0 n r
      × (r ≤ n)
      × ((readn read n ≡ count r) ⊎ ((readn read n ≡ error) × (read 0 n ≡ failed) × (0 < n)))
unfolding readn
readn-Receives read n b =
    let (r, recv, small, out) =
      readn_loop-Answers (suc n) read n 0 n b (omega arith) (omega arith) in
    (
      r,
      recv,
      small,
      elim out [
        | inl c ↦ inl (c ∙ ap count (omega arith))
        | inr (e, bad, same, low) ↦ inr (e, bad, low)
      ],
    )
