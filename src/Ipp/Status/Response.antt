-- ===== src/Ipp/Status/Response.antt =====
-- `printer_status` on a response that comes in one read.
use apue_2e.Base.{
  ℕ, zero, suc, ◌+◌, ◌-◌, ◌*◌, ◌<◌, ◌≤◌, ◌==◌, ◌≡◌, refl, ap, ◌∙◌, Bool, true, false, ◌&&◌, ltb,
  leb, if◌then◌else◌, ltb_ge, some, List, [], ◌∷◌, ◌++◌, append_assoc, length, length-append, take,
  replicate, drop_front, All, arith,
}
use apue_2e.Files.{Bytes}
use apue_2e.CText.{is_space, is_digit, scan}
use apue_2e.Ipp.Status.{
  iobufsz, Answer, returned, spins, good, ends, and_then, close, filled, got, Place, readmore,
  begins_with, read_length, find_length, find_end, verdict, ipp_status, is_info, is_success, no_eol,
  status_line, on_line, status_loop, printer_status,
}
use apue_2e.Ipp.Status.Scan.{
  field, Fieldless, Endless, ending, spanned_lem, more_at_end-inside, find_length_lem, find_end_lem,
  find_end-spins,
}

-- An HTTP response as far as the first line that names the length, and what follows its value.
pub record Head : Type 0 where
  pub version : Bytes
  pub spaces : Bytes
  pub code0 : ℕ
  pub code : Bytes
  pub sep : ℕ
  pub reason : Bytes
  pub eol : ℕ
  pub front : Bytes
  pub blanks : Bytes
  pub len0 : ℕ
  pub len : Bytes
  pub stop : ℕ

-- The field and what follows it, `s` at the end
abbrev pub field_on : Head → Bytes → Bytes
field_on r s = field ++ (r.blanks ++ ((r.len0 ∷ r.len) ++ r.stop ∷ s))

abbrev pub text : Head → Bytes → Bytes
text r s =
    r.version
    ++ (r.spaces ++ ((r.code0 ∷ r.code) ++ r.sep ∷ (r.reason ++ r.eol ∷ (r.front ++ field_on r s))))

abbrev pub code_of : Head → ℕ
code_of r = scan 0 (r.code0 ∷ r.code)

abbrev pub len_of : Head → ℕ
len_of r = scan 0 (r.len0 ∷ r.len)

-- The parts are what they are named, and the code reports success.
pub record IsHead (r : Head) : Type 0 where
  pub version : length r.version ≡ 8
  pub spaces : All (λ c. is_space c ≡ true) r.spaces
  pub code0 : is_digit r.code0 ≡ true
  pub code : All (λ c. is_digit c ≡ true) r.code
  pub sep : is_digit r.sep ≡ false
  pub reason : All (λ c. no_eol c ≡ true) r.reason
  pub eol : no_eol r.eol ≡ false
  pub front : (s : Bytes) → Fieldless r.front (field_on r s)
  pub blanks : All (λ c. is_space c ≡ true) r.blanks
  pub len0 : is_digit r.len0 ≡ true
  pub len : All (λ c. is_digit c ≡ true) r.len
  pub stop : is_digit r.stop ≡ false
  pub success : is_success (code_of r) ≡ true

digit_no_space : (c : ℕ) → is_digit c ≡ true → is_space c ≡ false
unfolding is_digit is_space
digit_no_space c h = ground arith

success_no_info : (code : ℕ) → is_success code ≡ true → is_info code ≡ false
unfolding is_success is_info
success_no_info code h = ground arith

positive_ne : (n : ℕ) → 0 < n → (n == 0) ≡ false
positive_ne n h = ground arith

take_short : (n : ℕ) (xs : Bytes) → length xs ≤ n → take n xs ≡ xs
take_short zero [] h = refl
take_short zero (x ∷ xs) h = absurd (omega arith)
take_short (suc n) [] h = refl
take_short (suc n) (x ∷ xs) h = ap (λ l. x ∷ l) (take_short n xs (omega (arith, h)))

-- Where the pointer stands behind the reason, and behind the value of the length.
abbrev reason_end : Head → ℕ
reason_end r = 8 + length r.spaces + length (r.code0 ∷ r.code) + 1 + length r.reason

abbrev pub value_end : Head → ℕ
value_end r =
    reason_end r + suc (length r.front) + 15 + length r.blanks + length (r.len0 ∷ r.len) + 1

module _ (r : Head) (is : IsHead r) where
  status_line_lem :
      (s : Bytes)
      → status_line (text r s)
        ≡ good (some (code_of r, reason_end r, 0 ∷ (r.front ++ field_on r s)))
  unfolding status_line and_then
  status_line_lem s =
      let tail = r.reason ++ r.eol ∷ (r.front ++ field_on r s) in
      let some_code : (length (r.code0 ∷ r.code) == 0) ≡ false = ground arith in
      rw
        (
          drop_front 8 r.version _ is.version,
          spanned_lem is_space r.spaces r.code0 (r.code ++ r.sep ∷ tail) is.spaces
              (digit_no_space r.code0 is.code0),
          spanned_lem is_digit (r.code0 ∷ r.code) r.sep tail (is.code0, is.code) is.sep,
          some_code,
          spanned_lem no_eol r.reason r.eol (r.front ++ field_on r s) is.reason is.eol,
        )
        refl

  read_length_lem :
      (s : Bytes) (i nr : ℕ) (input : List Answer)
      → read_length (record { at = i; rest = field_on r s; nr = nr; input = input })
        ≡ good (
          len_of r,
          record {
            at = i + 15 + length r.blanks + length (r.len0 ∷ r.len) + 1;
            rest = s;
            nr = nr;
            input = input;
          },
        )
  unfolding read_length and_then
  read_length_lem s i nr input =
      rw
        (
          spanned_lem is_space r.blanks r.len0 (r.len ++ r.stop ∷ s) is.blanks
              (digit_no_space r.len0 is.len0),
          spanned_lem is_digit (r.len0 ∷ r.len) r.stop s (is.len0, is.len) is.stop,
        )
        refl

  -- What `find_length` finds in the buffer behind the reason.
  found_length :
      (fuel : ℕ) (room : Bool) (s : Bytes) (nr : ℕ) (input : List Answer)
      → suc (length r.front) < fuel
      → reason_end r + suc (length r.front) < nr
      → find_length fuel room (record {
        at = reason_end r;
        rest = 0 ∷ (r.front ++ field_on r s);
        nr = nr;
        input = input;
      })
        ≡ good (len_of r, record { at = value_end r; rest = s; nr = nr; input = input })
  found_length fuel room s nr input h k =
      find_length_lem fuel room (0 ∷ r.front) (r.blanks ++ ((r.len0 ∷ r.len) ++ r.stop ∷ s))
        (reason_end r) nr input h k (unfold begins_with in refl, is.front s)
      ∙ read_length_lem s (reason_end r + suc (length r.front)) nr input

  -- The answer that holds the head and `s`.
  module _ (s : Bytes) (a : Answer) (whole : a.bytes_read ≡ text r s)
      (short : length (text r s) ≤ iobufsz) where
    junk : Bytes
    junk =
        take (iobufsz - length (text r s)) (a.behind ++ replicate (iobufsz - length (text r s)) 0)

    text-junk : text r s ++ junk ≡ text r (s ++ junk)
    text-junk = simp append_assoc

    taken : take iobufsz a.bytes_read ≡ text r s
    taken = ap (take iobufsz) whole ∙ take_short iobufsz (text r s) short

    buffer : filled iobufsz a ≡ text r (s ++ junk)
    unfolding filled junk
    buffer = rw taken text-junk

    count : got iobufsz a ≡ length (text r s)
    unfolding got
    count = ap length taken

    length-text : length (text r s) ≡ value_end r + length s
    length-text =
        let t1 = r.stop ∷ s in
        let t2 = (r.len0 ∷ r.len) ++ t1 in
        let t3 = r.front ++ field_on r s in
        let t4 = r.reason ++ r.eol ∷ t3 in
        let t5 = (r.code0 ∷ r.code) ++ r.sep ∷ t4 in
        omega (
          arith,
          is.version,
          length-append {0} r.version (r.spaces ++ t5),
          length-append {0} r.spaces t5,
          length-append {0} r.code (r.sep ∷ t4),
          length-append {0} r.reason (r.eol ∷ t3),
          length-append {0} r.front (field_on r s),
          length-append {0} r.blanks t2,
          length-append {0} r.len t1,
        )

    -- The loop comes to the IPP header.
    to_ipp :
        (fuel : ℕ) (room : Bool) (jobid : ℕ) (more : List Answer)
        → status_loop fuel room jobid (a ∷ more)
          ≡ ipp_status fuel room jobid (record {
            at = reason_end r;
            rest = 0 ∷ (r.front ++ field_on r (s ++ junk));
            nr = length (text r s);
            input = more;
          })
    unfolding status_loop and_then on_line
    to_ipp fuel room jobid more =
        let some_bytes : (got iobufsz a == 0) ≡ false =
          positive_ne (got iobufsz a) (omega (arith, length-text, count)) in
        let again = status_loop fuel room jobid more in
        let line = ap status_line buffer ∙ status_line_lem (s ++ junk) in
        let head : status_loop fuel room jobid (a ∷ more)
            ≡ and_then (status_line (filled iobufsz a)) (on_line fuel room jobid a more again) =
          rw some_bytes refl in
        head
        ∙ ap (λ l. and_then l (on_line fuel room jobid a more again)) line
        ∙ rw (success_no_info (code_of r) is.success, is.success)
            (ap
              (λ n. ipp_status fuel room jobid (record {
                at = reason_end r;
                rest = 0 ∷ (r.front ++ field_on r (s ++ junk));
                nr = n;
                input = more;
              }))
              count)

    -- It finds the value of the length.
    to_find_end :
        (fuel : ℕ) (room : Bool) (jobid : ℕ) (more : List Answer)
        → suc (length r.front) < fuel
        → 0 < length s
        → status_loop fuel room jobid (a ∷ more)
          ≡ and_then
              (find_end fuel room (record {
                at = value_end r;
                rest = s ++ junk;
                nr = length (text r s);
                input = more;
              }))
              (λ c.
                and_then
                  (let read = readmore room c in
                    if ltb c.nr (c.at + len_of r) then read else good c)
                  λ d. verdict jobid d.rest)
    unfolding ipp_status and_then
    to_find_end fuel room jobid more h k =
        let v : Place = record {
          at = value_end r;
          rest = s ++ junk;
          nr = length (text r s);
          input = more;
        } in
        to_ipp fuel room jobid more
        ∙ rw
            (
              found_length fuel room (s ++ junk) (length (text r s)) more h
                  (omega (arith, length-text)),
              more_at_end-inside room v (omega (arith, length-text, k)),
            )
            refl

-- The verdict on the IPP header in the buffer is that on the bytes that came.
module _ (r : Head) (is : IsHead r) (middle : Bytes) (v1 v2 s1 s0 r3 r2 r1 r0 : ℕ)
    (attrs : Bytes) where
  abbrev body : Bytes
  body = v1 ∷ v2 ∷ s1 ∷ s0 ∷ r3 ∷ r2 ∷ r1 ∷ r0 ∷ attrs

  abbrev response : Bytes
  response = text r (middle ++ ending body)

  -- On a response that comes in one read, whose status line reports success, in which a `Content-Length:`
  -- stands before the empty line, and whose body holds the number of bytes that it says and an IPP header:
  -- `printer_status` returns whether the job number is that of the request and the status a success, whatever
  -- stands in the buffer behind the response and would be read later.
  pub printer_status-verdict :
      (fuel : ℕ) (room : Bool) (jobid : ℕ) (a : Answer) (more : List Answer)
      → a.bytes_read ≡ response
      → length response ≤ iobufsz
      → ((t : Bytes) → Endless middle (ending t))
      → len_of r ≤ length body
      → suc (length r.front) < fuel
      → printer_status fuel room jobid (a ∷ more)
        ≡ returned (((((r3 * 256 + r2) * 256 + r1) * 256 + r0) == jobid) && leb (s1 * 256 + s0) 255)
  unfolding printer_status close and_then verdict
  printer_status-verdict zero room jobid a more whole short f k h = absurd (omega (arith, h))
  printer_status-verdict (suc fuel) room jobid a more whole short f k h =
      let s = middle ++ ending body in
      let nr = length response in
      let j = junk r is s a whole short in
      let count = length-text r is s a whole short in
      let size = length-append {0} middle (ending body) in
      let v : Place = record { at = value_end r; rest = s ++ j; nr = nr; input = more } in
      let c : Place = record {
        at = value_end r + length middle + 3;
        rest = body ++ j;
        nr = nr;
        input = more;
      } in
      let found : find_end (suc fuel) room v ≡ good c =
        ap
          (λ l.
            find_end (suc fuel) room (record { at = value_end r; rest = l; nr = nr; input = more }))
          (append_assoc middle (ending body) j)
        ∙ find_end_lem fuel room middle (body ++ j) (value_end r) nr more
            (omega (arith, count, size)) (f (body ++ j)) in
      let all : ltb nr (c.at + len_of r) ≡ false =
        ltb_ge nr (c.at + len_of r) (omega (arith, count, size, k)) in
      let e : status_loop (suc fuel) room jobid (a ∷ more) ≡ verdict jobid (body ++ j) =
        to_find_end r is s a whole short (suc fuel) room jobid more h (omega (arith, size))
        ∙ rw (found, all) refl in
      ap close e

-- On a response whose status line reports success and that names a `Content-Length:`, when the first read ends
-- in front of the empty line but behind the value of that field, `printer_status` goes round for ever: it does
-- not return with any fuel, whatever could be read later.
pub printer_status-spins :
    (r : Head) (is : IsHead r) (s : Bytes) (fuel : ℕ) (room : Bool) (jobid : ℕ) (a : Answer)
    (more : List Answer)
    → a.bytes_read ≡ text r s
    → length (text r s) ≤ iobufsz
    → 0 < length s
    → Endless s []
    → suc (length r.front) < fuel
    → printer_status fuel room jobid (a ∷ more) ≡ spins
unfolding printer_status close and_then
printer_status-spins r is s fuel room jobid a more whole short some_bytes f h =
    let nr = length (text r s) in
    let count = length-text r is s a whole short in
    let e : status_loop fuel room jobid (a ∷ more) ≡ ends spins =
      to_find_end r is s a whole short fuel room jobid more h some_bytes
      ∙ rw
          (find_end-spins fuel room s (junk r is s a whole short) (value_end r) nr more
            (omega (arith, count)) (omega (arith, count, some_bytes)) f)
          refl in
    ap close e
