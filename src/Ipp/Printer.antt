-- ===== src/Ipp/Printer.antt =====
-- ipp/printd.c: one round of `printer_thread`, from the job that it takes to the answer of the printer. What the
-- calls of the system return is an argument, and so is the request that the node of the job keeps.
-- `update_jobno`, `init_printer` and the wait for a job are left out.
pub mod Message
pub mod Kept
use apue_2e.Base.{
  ℕ, ◌+◌, ◌/◌, ◌%◌, ◌^◌, ◌==◌, Bool, true, false, ltb, if◌then◌else◌, Option, none, some, List, [],
  ◌∷◌, ◌++◌, length,
}
use apue_2e.Files.{Bytes}
use apue_2e.CText.{codes, decimal}
use apue_2e.Dll.{Ptr, null}
use apue_2e.Ipp.Jobs.{remove_job, replace_job}
use apue_2e.Ipp.Options.{be16, add_option}
use apue_2e.Ipp.Client.{Req, Spool, set_file}
use apue_2e.Ipp.Status.{Answer, End, returned, spins, overrun, quits, printer_status}

-- `IBUFSZ`, and the size of `str`
abbrev pub ibufsz : ℕ
ibufsz = 512

abbrev pub strsz : ℕ
strsz = 64

-- The four bytes of `htonl(n)` for an `int32_t`.
unfoldable pub be32 : ℕ → Bytes
be32 n = (n / 2 ^ 24 % 256) ∷ (n / 2 ^ 16 % 256) ∷ (n / 2 ^ 8 % 256) ∷ (n % 256) ∷ []

-- The text of `sprintf(str, "http://%s:%d", printer_name, IPP_PORT)`, with or without room for it
unfoldable pub printer_uri : Bytes → Bytes
printer_uri printer = codes "http://" ++ printer ++ codes ":631"

-- `jp->req.flags & PR_TEXT`
unfoldable pub document_format : ℕ → Bytes
document_format flags =
    if flags % 2 == 1 then codes "text/plain" else codes "application/postscript"

-- The bytes that go to `ibuf`, with or without room for them
unfoldable pub ipp_header : Bytes → ℕ → Req → Bytes
unfolding be32 printer_uri document_format
ipp_header printer jobid req =
    let start = 1 ∷ 1 ∷ (be16 2 ++ (be32 jobid ++ 1 ∷ [])) in
    let charset = add_option start 71 (codes "attributes-charset") (codes "utf-8") in
    let language = add_option charset 72 (codes "attributes-natural-language") (codes "en-us") in
    let uri = add_option language 69 (codes "printer-uri") (printer_uri printer) in
    let user = add_option uri 66 (codes "requesting-user-name") req.usernm in
    let job = add_option user 66 (codes "job-name") req.jobnm in
    add_option job 73 (codes "document-format") (document_format req.flags) ++ 3 ∷ []

-- What is in `ibuf`, `none` where `str` or `ibuf` is too small: `str` also holds a null.
unfoldable pub made_header : Bytes → ℕ → Req → Option Bytes
unfolding ipp_header
made_header printer jobid req =
    if ltb (length (printer_uri printer)) strsz
    then (let ibuf = ipp_header printer jobid req in
        if ltb ibufsz (length ibuf) then none else some ibuf)
    else none

-- The bytes in `hbuf`, for a file of `size` bytes behind `ilen` bytes of header
unfoldable pub http_header : Bytes → ℕ → ℕ → Bytes
http_header printer size ilen =
    codes "POST /"
    ++ printer
    ++ codes "/ipp HTTP/1.1"
    ++ (13 ∷ 10 ∷ codes "Content-Length: ")
    ++ decimal (size + ilen)
    ++ (13 ∷ 10 ∷ codes "Content-Type: application/ipp")
    ++ (13 ∷ 10 ∷ codes "Host: ")
    ++ printer
    ++ codes ":631"
    ++ 13 ∷ 10 ∷ 13 ∷ 10 ∷ []

-- What the calls return: whether the data file opens, its size, whether there is a socket and a connection, whether
-- the headers are written whole, the pieces of the file with whether each is written whole, whether the last
-- read(2) returns 0, and what the printer answers.
pub record Calls : Type 0 where
  pub opens : Bool
  pub size : Option ℕ
  pub socket : Bool
  pub connects : Bool
  pub headers_sent : Bool
  pub pieces : List (Bytes × Bool)
  pub file_ends : Bool
  pub room : Bool
  pub answers : List Answer

-- How the round ends: with the spool and what was written as a whole to the printer,
-- in a write behind `ibuf` or `str`, or in the
-- code that reads the answer.
pub data Round : Type 0 where
  next_round : Spool → Bytes → Round
  no_room : Round
  in_answer : Round

-- `replace_job`, at `defer`
unfoldable pub defer : Ptr → Spool → Bytes → Round
defer jp s out = next_round (record s { jobs = replace_job s.jobs jp }) out

-- The two files of a printed job
unfoldable pub unlink_both : ℕ → Spool → Spool
unfolding set_file
unlink_both j s = record s {
  data_files = set_file s.data_files j none;
  requests = set_file s.requests j none;
}

-- The bytes of the file that are written, and whether all are.
unfoldable pub send_file : List (Bytes × Bool) → Bool → Bytes × Bool
send_file [] file_ends = ([], file_ends)
send_file ((buf, sent) ∷ pieces) file_ends =
    let (out, ok) = send_file pieces file_ends in if sent then (buf ++ out, ok) else ([], false)

-- What follows `printer_status`
unfoldable pub on_status : Ptr → ℕ → Spool → Bytes → End → Round
unfolding defer unlink_both
on_status jp j s out (returned true) = next_round (unlink_both j s) out
on_status jp j s out (returned false) = defer jp s out
on_status jp j s out spins = in_answer
on_status jp j s out overrun = in_answer
on_status jp j s out quits = in_answer

-- Behind the headers, `none` where they do not fit
unfoldable pub send_headers : ℕ → Bytes → Calls → Ptr → ℕ → ℕ → Spool → Option Bytes → Round
unfolding http_header send_file on_status
send_headers fuel printer c jp j size s none = no_room
send_headers fuel printer c jp j size s (some ibuf) =
    let (out, ok) = send_file c.pieces c.file_ends in
    let sent = http_header printer size (length ibuf) ++ (ibuf ++ out) in
    let answered = on_status jp j s sent (printer_status fuel c.room j c.answers) in
    let behind_headers = if ok then answered else defer jp s sent in
    if c.headers_sent then behind_headers else defer jp s []

-- Behind the connection, with the size of the file
unfoldable pub send_job : ℕ → Bytes → Calls → Ptr → ℕ → Req → ℕ → Spool → Round
unfolding made_header send_headers
send_job fuel printer c jp j req size s =
    send_headers fuel printer c jp j size s (made_header printer j req)

-- Behind `remove_job`
unfoldable pub print_job : ℕ → Bytes → Calls → Ptr → ℕ → Req → Spool → Round
unfolding send_job
print_job fuel printer c jp j req s =
    let connected : Round = elim c.size [
      | none ↦ next_round s []
      | some size ↦
          if c.socket
          then (if c.connects then send_job fuel printer c jp j req size s else defer jp s [])
          else defer jp s []
    ] in
    if c.opens then connected else next_round s []

-- One round, with a job in the queue
unfoldable pub printer_round : ℕ → Bytes → Calls → Req → Spool → Round
unfolding print_job
printer_round fuel printer c req s =
    print_job fuel printer c s.jobs.head (s.jobs.heap s.jobs.head).tag req
      (record s { jobs = remove_job s.jobs s.jobs.head })
