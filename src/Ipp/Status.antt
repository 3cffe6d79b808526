-- ===== src/Ipp/Status.antt =====
-- `readmore` and `printer_status` of ipp/printd.c. The calls of `tread` give answers in turn, each the bytes
-- read and what stands in the buffer behind them. A pointer into the buffer is the buffer from there on: what
-- lies in front of it, the nulls that are written there too, is not read again. Log lines are left out.
pub mod Scan
pub mod Response
use apue_2e.Base.{
  ℕ, zero, suc, ◌+◌, ◌-◌, ◌*◌, ◌==◌, Bool, true, false, not, ◌&&◌, ◌||◌, ltb, leb, if◌then◌else◌,
  Option, none, some, List, [], ◌∷◌, ◌++◌, length, take, drop, replicate, ℤ, pos, negsuc,
}
use apue_2e.Files.{Bytes}
use apue_2e.CText.{is_space, is_digit, scan, codes}

abbrev pub iobufsz : ℕ
iobufsz = 8192

-- One call of `tread` that returned more than 0. No answer left is a call that did not.
pub record Answer : Type 0 where
  pub bytes_read : Bytes
  pub behind : Bytes

-- How the function ends: with 0 or 1, in a loop that goes on for ever, in a read or write behind the buffer,
-- or in `log_sys`.
pub data End : Type 0 where
  returned : Bool → End
  spins : End
  overrun : End
  quits : End

pub data Try (A : Type 0) : Type 0 where
  good : A → Try A
  ends : End → Try A

unfoldable pub and_then : {A B : Type 0} → Try A → (A → Try B) → Try B
and_then (good a) k = k a
and_then (ends e) k = ends e

unfoldable pub close : Try Bool → End
close (good b) = returned b
close (ends e) = e

-- A buffer of `size` bytes with the answer in front.
unfoldable pub filled : ℕ → Answer → Bytes
filled size a =
    let data_bytes = take size a.bytes_read in
    let rest = size - length data_bytes in data_bytes ++ take rest (a.behind ++ replicate rest 0)

-- The number of bytes that are in the buffer then.
unfoldable pub got : ℕ → Answer → ℕ
got size a = length (take size a.bytes_read)

-- `i`, `cp` as the buffer from there on, `nr`, and the answers to come.
pub record Place : Type 0 where
  pub at : ℕ
  pub rest : Bytes
  pub nr : ℕ
  pub input : List Answer

-- The bytes with a property, and the buffer from the first other byte on; `none` at the end of the buffer.
unfoldable pub span : (ℕ → Bool) → Bytes → Option (Bytes × Bytes)
span p [] = none
span p (c ∷ s) =
    let more : Option (Bytes × Bytes) = elim (span p s) [
      | none ↦ none
      | some (a, b) ↦ some (c ∷ a, b)
    ] in
    if p c then more else some ([], c ∷ s)

unfoldable pub spanned : (ℕ → Bool) → Bytes → Try (Bytes × Bytes)
unfolding span
spanned p s = elim (span p s) [ none ↦ ends overrun | some r ↦ good r ]

-- `readmore` with the offset `i`, and what follows a failure. `room` says whether `realloc` finds memory.
unfoldable pub readmore : Bool → Place → Try Place
unfolding filled got
readmore room v =
    let size = if length v.rest == 0 then iobufsz else length v.rest in
    if (length v.rest == 0) && not room then ends quits else elim v.input [
      | [] ↦ ends (returned false)
      | a ∷ more ↦
          if got size a == 0
          then ends (returned false)
          else good
              (record { at = v.at; rest = filled size a; nr = v.at + got size a; input = more })
    ]

-- `if (i >= nr && ((nr = readmore(sockfd, &bp, i, &bufsz)) < 0)) goto out;`
unfoldable pub more_at_end : Bool → Place → Try Place
unfolding readmore
more_at_end room v = let read = readmore room v in if leb v.nr v.at then read else good v

-- `while (*cp != 'C' && *cp != 'c' && i < nr)`
unfoldable pub seek_c : ℕ → ℕ → Bytes → Try (ℕ × Bytes)
seek_c i nr [] = ends overrun
seek_c i nr (c ∷ s) =
    let next = seek_c (i + 1) nr s in
    if (c == b'C') || (c == b'c')
    then good (i, c ∷ s)
    else if ltb i nr
    then next
    else good (i, c ∷ s)

unfoldable pub lower : ℕ → ℕ
lower c = if leb 65 c && leb c 90 then c + 32 else c

-- `strncasecmp(cp, name, strlen(name)) == 0`, `none` where it reads behind the buffer
unfoldable pub begins_with : Bytes → Bytes → Option Bool
unfolding lower
begins_with [] s = some true
begins_with (n ∷ name) [] = none
begins_with (n ∷ name) (c ∷ s) =
    let rest = begins_with name s in if lower c == lower n then rest else some false

-- The value behind the name: spaces, digits, and the byte that becomes a null.
unfoldable pub read_length : Place → Try (ℕ × Place)
unfolding and_then spanned
read_length v = and_then (spanned is_space (drop 15 v.rest)) λ (spaces, s).
    and_then (spanned is_digit s) λ (digits, t). good (
      scan 0 digits,
      record v { at = v.at + 15 + length spaces + length digits + 1; rest = drop 1 t },
    )

-- The value when the field begins at `cp`, else the next round
unfoldable pub length_or : Option Bool → Place → Try (ℕ × Place) → Try (ℕ × Place)
unfolding read_length
length_or none u next = ends overrun
length_or (some true) u next = read_length u
length_or (some false) u next = next

-- The loop that looks for `Content-Length:`
unfoldable pub find_length : ℕ → Bool → Place → Try (ℕ × Place)
unfolding and_then seek_c more_at_end begins_with length_or
find_length zero room v = ends spins
find_length (suc fuel) room v = and_then (seek_c v.at v.nr v.rest) λ (i, s).
    and_then (more_at_end room (record v { at = i; rest = s })) λ u.
      let next = find_length fuel room (record u { at = u.at + 1; rest = drop 1 u.rest }) in
      length_or (begins_with (codes "Content-Length:") u.rest) u next

-- `while (i < nr - 2)`: whether the end of the header was found, and the pointer.
unfoldable pub seek_end : ℕ → ℕ → Bytes → Try (Bool × ℕ × Bytes)
seek_end i nr [] = if ltb (i + 2) nr then ends overrun else good (false, i, [])
seek_end i nr (a ∷ []) = if ltb (i + 2) nr then ends overrun else good (false, i, a ∷ [])
seek_end i nr (a ∷ b ∷ []) = if ltb (i + 2) nr then ends overrun else good (false, i, a ∷ b ∷ [])
seek_end i nr (a ∷ b ∷ c ∷ s) =
    let next = seek_end (i + 1) nr (b ∷ c ∷ s) in
    if ltb (i + 2) nr
    then (if (a == 10) && (b == 13) && (c == 10) then good (true, i + 3, s) else next)
    else good (false, i, a ∷ b ∷ c ∷ s)

-- `while (!found)`
unfoldable pub find_end : ℕ → Bool → Place → Try Place
unfolding and_then seek_end more_at_end
find_end zero room v = ends spins
find_end (suc fuel) room v = and_then (seek_end v.at v.nr v.rest) λ (found, i, s).
    and_then (more_at_end room (record v { at = i; rest = s }))
      λ u. let again = find_end fuel room u in if found then good u else again

-- `ntohs` and `ntohl` of the header at `cp`: status at 2, request at 4. `STATCLASS_OK`.
unfoldable pub verdict : ℕ → Bytes → Try Bool
verdict jobid (v1 ∷ v2 ∷ s1 ∷ s0 ∷ r3 ∷ r2 ∷ r1 ∷ r0 ∷ s) =
    let request = ((r3 * 256 + r2) * 256 + r1) * 256 + r0 in
    good ((request == jobid) && leb (s1 * 256 + s0) 255)
verdict jobid s = ends overrun

-- What comes behind a status line that reports success.
unfoldable pub ipp_status : ℕ → Bool → ℕ → Place → Try Bool
unfolding and_then find_length more_at_end find_end readmore verdict
ipp_status fuel room jobid v = and_then (find_length fuel room v) λ (len, a).
    and_then (more_at_end room a) λ b. and_then (find_end fuel room b) λ c.
      and_then (let read = readmore room c in if ltb c.nr (c.at + len) then read else good c)
        λ d. verdict jobid d.rest

unfoldable pub is_info : ℕ → Bool
is_info code = leb 100 code && leb code 199

unfoldable pub is_success : ℕ → Bool
is_success code = leb 200 code && leb code 299

unfoldable pub no_eol : ℕ → Bool
no_eol c = not ((c == 13) || (c == 10))

-- The status line in the buffer: no code, or the code and the pointer to the null behind the reason.
unfoldable pub status_line : Bytes → Try (Option (ℕ × ℕ × Bytes))
unfolding and_then spanned no_eol
status_line buf = and_then (spanned is_space (drop 8 buf)) λ (spaces, s).
    and_then (spanned is_digit s) λ (digits, t).
      if length digits == 0
      then good none
      else (and_then (spanned no_eol (drop 1 t)) λ (reason, u). good (
          some
            (scan 0 digits, 8 + length spaces + length digits + 1 + length reason, 0 ∷ drop 1 u)))

-- What a status line leads to: the next read for no code and for an informational one. `bp[nr] = '\0'` is a
-- write behind the buffer when the buffer is full.
unfoldable pub on_line :
    ℕ → Bool → ℕ → Answer → List Answer → Try Bool → Option (ℕ × ℕ × Bytes) → Try Bool
unfolding got is_info is_success ipp_status
on_line fuel room jobid a more again none = again
on_line fuel room jobid a more again (some (code, i, s)) =
    if is_info code
    then again
    else if is_success code
    then ipp_status fuel room jobid (record { at = i; rest = s; nr = got iobufsz a; input = more })
    else if got iobufsz a == iobufsz
    then ends overrun
    else good false

-- The loop of `printer_status`, taken over the answers.
unfoldable pub status_loop : ℕ → Bool → ℕ → List Answer → Try Bool
unfolding and_then filled got status_line on_line
status_loop fuel room jobid [] = good false
status_loop fuel room jobid (a ∷ more) =
    let again = status_loop fuel room jobid more in
    if got iobufsz a == 0
    then good false
    else and_then (status_line (filled iobufsz a)) (on_line fuel room jobid a more again)

-- `printer_status`
unfoldable pub printer_status : ℕ → Bool → ℕ → List Answer → End
unfolding status_loop close
printer_status fuel room jobid answers = close (status_loop fuel room jobid answers)
