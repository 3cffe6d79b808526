-- ===== src/Ipp/Submit/Jobs.antt =====
-- The command and the spooler together: what `client_thread` makes of what `submit_file` sends.
use apue_2e.Base.{
  ℕ, zero, suc, ◌+◌, ◌-◌, ◌^◌, ◌≤◌, ◌<◌, ◌==◌, ◌≡◌, refl, ap, sym, ◌∙◌, subst, Bool, true, false,
  ◌&&◌, str_eq, ◌||◌, not, leb, if◌then◌else◌, Option, some, List, [], ◌∷◌, ◌++◌, append-nil,
  append_assoc, length, take, drop, length-take, arith, Bool-cases, inl, inr,
}
use apue_2e.Files.{Bytes}
use apue_2e.Ipp.Jobs.{get_newjobno}
use apue_2e.Ipp.Client.{
  Req, Resp, set_file, Spool, header, Wrote, whole, Calls, Done, set_text, is_postscript, received,
  receive, accepted, queue_job, control_file, take_request, client_thread,
}
use apue_2e.Ipp.Submit.{
  jobnm_max, job_name, user_name, job_id, printreq, answered, send_pieces, submit_file,
}

-- The name of a job fits `jobnm` with its null.
pub job_name_short : (fname : Bytes) → length (job_name fname) < jobnm_max
unfolding job_name
job_name_short fname = elim (Bool-cases (leb jobnm_max (length fname))) [
  | inl e ↦ rw e (
      let k = length-take (jobnm_max - 5) (drop (length fname - jobnm_max + 5) fname) in
      omega (arith, k))
  | inr e ↦ rw e (ground arith)
]

unfoldable pub joined : List Bytes → Bytes
joined [] = []
joined (b ∷ pieces) = b ++ joined pieces

-- Pieces that are written as a whole.
pub arriving : List Bytes → List (Bytes × Wrote)
arriving [] = []
arriving (b ∷ pieces) = (b, whole) ∷ arriving pieces

pub sent_all : List Bytes → List Bool
sent_all [] = []
sent_all (b ∷ pieces) = true ∷ sent_all pieces

receive-arriving :
    (file : Bytes) (flags : ℕ) (pieces : List Bytes)
    → receive false file flags (arriving pieces) ≡ received (file ++ joined pieces) flags
unfolding receive joined arriving
receive-arriving file flags [] = ap (λ f. received f flags) (sym (append-nil file))
receive-arriving file flags (b ∷ pieces) =
    receive-arriving (file ++ b) flags pieces
    ∙ ap (λ f. received f flags) (append_assoc file b (joined pieces))

take_inside : (n : ℕ) (xs ys : Bytes) → n ≤ length xs → take n (xs ++ ys) ≡ take n xs
take_inside zero xs ys h = refl
take_inside (suc n) [] ys h = absurd (omega arith)
take_inside (suc n) (x ∷ xs) ys h = ap (λ t. x ∷ t) (take_inside n xs ys (omega (arith, h)))

is_postscript-append : (b rest : Bytes) → 4 ≤ length b → is_postscript (b ++ rest) ≡ is_postscript b
unfolding is_postscript
is_postscript-append b rest h = rw (take_inside 4 b rest h) refl

-- `PR_TEXT` or 0.
abbrev pub bit : Bool → ℕ
bit text = if text then 1 else 0

-- The mark of PostScript at the front of a file.
pub has_mark : Bytes → Bool
has_mark (a ∷ b ∷ c ∷ d ∷ s) = (a == b'%') && ((b == b'!') && ((c == b'P') && (d == b'S')))
has_mark [] = false
has_mark (a ∷ []) = false
has_mark (a ∷ b ∷ []) = false
has_mark (a ∷ b ∷ c ∷ []) = false

is_postscript-has_mark : (s : Bytes) → is_postscript s ≡ has_mark s
unfolding is_postscript has_mark str_eq
is_postscript-has_mark [] = refl
is_postscript-has_mark (a ∷ []) = ground arith
is_postscript-has_mark (a ∷ b ∷ []) = ground arith
is_postscript-has_mark (a ∷ b ∷ c ∷ []) = ground arith
is_postscript-has_mark (a ∷ b ∷ c ∷ d ∷ s) = ground arith

-- The flags of a job: text if the command says so, or if the file does not begin like PostScript.
unfoldable pub flags_of : Bool → Bytes → ℕ
flags_of text file = bit (text || not (has_mark file))

flag : (text : Bool) → bit text ≡ bit (text || false)
flag true = refl
flag false = refl

with_text : (text : Bool) → set_text (bit text) ≡ bit (text || true)
unfolding set_text
with_text true = refl
with_text false = refl

first_flags :
    (text : Bool) (b rest : Bytes)
    → 4 ≤ length b
    → (if true && not (is_postscript b) then set_text (bit text) else bit text)
      ≡ flags_of text (b ++ rest)
unfolding flags_of set_text
first_flags text b rest h = elim (Bool-cases (is_postscript b)) [
  | inl e ↦
      rw (sym (is_postscript-has_mark (b ++ rest)), is_postscript-append b rest h, e) (flag text)
  | inr e ↦
      rw (sym (is_postscript-has_mark (b ++ rest)), is_postscript-append b rest h, e)
        (with_text text)
]

receive_all :
    (text : Bool) (b : Bytes) (pieces : List Bytes)
    → 4 ≤ length b
    → receive true [] (bit text) (arriving (b ∷ pieces))
      ≡ received (joined (b ∷ pieces)) (flags_of text (joined (b ∷ pieces)))
unfolding receive arriving joined
receive_all text b pieces h =
    receive-arriving b _ pieces
    ∙ ap (λ f. received (b ++ joined pieces) f) (first_flags text b (joined pieces) h)

send_pieces_lem : (pieces : List Bytes) → send_pieces (sent_all pieces) pieces ≡ (pieces, true)
unfolding send_pieces sent_all
send_pieces_lem [] = refl
send_pieces_lem (b ∷ pieces) = rw (send_pieces_lem pieces) refl

-- What the daemon does with the job `j`: its files, and the one answer.
pub record Took (j : ℕ) (file : Bytes) (req : Req) (reply : Resp) (d : Done) : Type 0 where
  pub file_there : d.spool.data_files j ≡ some file
  pub request_there : d.spool.requests j ≡ some req
  pub answer : d.replies ≡ reply ∷ []

module _ (htonl ntohl : ℕ → ℕ) (strerror : ℕ → Bytes)
    (back : (n : ℕ) → n < 2 ^ 32 → ntohl (htonl n) ≡ n) (swapped_zero : ntohl 0 ≡ 0) (c : Calls)
    (s : Spool) (data_made : c.creat_data ≡ true) (request_made : c.creat_request ≡ true)
    (request_wrote : c.wrote_request ≡ whole) where
  same_flags : (text : Bool) → ntohl (if text then htonl 1 else 0) ≡ bit text
  same_flags true = back 1 (omega arith)
  same_flags false = swapped_zero

  queue_job-Took :
      (j : ℕ) (file : Bytes) (req : Req) (t : Spool)
      → t.data_files j ≡ some file
      → Took j file req
          (accepted htonl ntohl strerror j)
          (queue_job htonl ntohl strerror c j req t whole)
  unfolding queue_job set_file
  queue_job-Took j file req t h =
      let self : (j == j) ≡ true = ground arith in
      record { file_there = h; request_there = rw self refl; answer = refl }

  control_file-Took :
      (j : ℕ) (file : Bytes) (flags : ℕ) (req : Req) (t : Spool)
      → Took j file
          (record req { flags = flags })
          (accepted htonl ntohl strerror j)
          (control_file htonl ntohl strerror c j req t (received file flags))
  unfolding control_file set_file
  control_file-Took j file flags req t =
      let self : (j == j) ≡ true = ground arith in
      rw (request_made, request_wrote)
        (queue_job-Took j file (record req { flags = flags }) _ (rw self refl))

  take_request-Took :
      (usernm : Bytes) (fname : Bytes) (nbytes : ℕ) (text : Bool) (b : Bytes) (pieces : List Bytes)
      → nbytes < 2 ^ 32
      → 4 ≤ length b
      → c.pieces ≡ arriving (b ∷ pieces)
      → Took s.nextjob
          (joined (b ∷ pieces))
          (record {
            size = nbytes;
            flags = flags_of text (joined (b ∷ pieces));
            usernm = usernm;
            jobnm = job_name fname;
          })
          (accepted htonl ntohl strerror s.nextjob)
          (take_request htonl ntohl strerror c s
            (header (printreq htonl ntohl usernm fname nbytes text)))
  unfolding take_request printreq get_newjobno
  take_request-Took usernm fname nbytes text b pieces small four e =
      rw (data_made, back nbytes small, e, same_flags text, receive_all text b pieces four)
        (control_file-Took s.nextjob (joined (b ∷ pieces)) (flags_of text (joined (b ∷ pieces)))
          (record { size = nbytes; flags = bit text; usernm = usernm; jobnm = job_name fname }) _)

  -- A file of less than 2^32 bytes that the command sends, for a user whose name fits its field with a null, in
  -- whatever pieces the file reaches the daemon, the first one of at least four bytes: when no call fails,
  -- `ntohl` undoes `htonl` and keeps 0, and the next job number is less than 2^32, the daemon stores it whole under
  -- the next job number, in order, and with it the size, the user and the name of the job that the command was
  -- given, and `PR_TEXT` if the command asks for it or the file does not begin with `%!PS`. The one answer makes
  -- the command print that number.
  pub client_thread-submit_file :
      (pwd : Option Bytes) (usernm fname : Bytes) (nbytes : ℕ) (text : Bool)
      (read_pieces : List Bytes) (b : Bytes) (pieces : List Bytes)
      → user_name pwd ≡ some usernm
      → nbytes < 2 ^ 32
      → s.nextjob < 2 ^ 32
      → c.request ≡ header (printreq htonl ntohl usernm fname nbytes text)
      → c.pieces ≡ arriving (b ∷ pieces)
      → joined (b ∷ pieces) ≡ joined read_pieces
      → 4 ≤ length b
      → Took s.nextjob
          (joined read_pieces)
          (record {
            size = nbytes;
            flags = flags_of text (joined read_pieces);
            usernm = usernm;
            jobnm = job_name fname;
          })
          (accepted htonl ntohl strerror s.nextjob)
          (client_thread htonl ntohl strerror c s)
        × ((submit_file htonl ntohl pwd fname nbytes text
              (true ∷ sent_all read_pieces)
              read_pieces
              (some (accepted htonl ntohl strerror s.nextjob))).0
            ≡ some (printreq htonl ntohl usernm fname nbytes text, read_pieces))
        × ((submit_file htonl ntohl pwd fname nbytes text
              (true ∷ sent_all read_pieces)
              read_pieces
              (some (accepted htonl ntohl strerror s.nextjob))).1
            ≡ job_id s.nextjob)
  unfolding client_thread submit_file answered accepted
  client_thread-submit_file pwd usernm fname nbytes text read_pieces b pieces named small low e e'
        same four =
      let took =
        subst
          (λ file.
            Took s.nextjob file
              (record {
                size = nbytes;
                flags = flags_of text file;
                usernm = usernm;
                jobnm = job_name fname;
              })
              (accepted htonl ntohl strerror s.nextjob)
              (take_request htonl ntohl strerror c s
                (header (printreq htonl ntohl usernm fname nbytes text))))
          same (take_request-Took usernm fname nbytes text b pieces small four e') in
      (
        rw e took,
        rw (submit_file, named, send_pieces_lem read_pieces) refl,
        rw (submit_file, named, send_pieces_lem read_pieces, back s.nextjob low) refl,
      )
