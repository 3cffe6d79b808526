-- ===== src/Ipp/Submit.antt =====
-- ipp/print.c: `submit_file`, which sends a file to the spooler and reads its answer.
pub mod Jobs
use apue_2e.Base.{
  ℕ, ◌+◌, ◌-◌, ◌==◌, Bool, true, false, leb, ltb, if◌then◌else◌, Option, none, some, List, [], ◌∷◌,
  ◌++◌, take, drop, length,
}
use apue_2e.Files.{Bytes}
use apue_2e.CText.{codes}
use apue_2e.Ipp.Client.{Req, Resp}

abbrev pub jobnm_max : ℕ
jobnm_max = 256

-- The name of the job: the end of a name that is too long, behind four characters.
unfoldable pub job_name : Bytes → Bytes
job_name fname =
    if leb jobnm_max (length fname)
    then codes "... " ++ take (jobnm_max - 5) (drop (length fname - jobnm_max + 5) fname)
    else fname

abbrev pub usernm_max : ℕ
usernm_max = 64

-- The name of the user, where getpwuid finds one: `none` for a name that strcpy writes behind `usernm`.
unfoldable pub user_name : Option Bytes → Option Bytes
user_name none = some (codes "unknown")
user_name (some name) = if ltb (length name) usernm_max then some name else none

-- How the command ends: in a write behind `usernm`, in a failed call,
-- with a job that was rejected, or with the number of the job.
pub data Printed : Type 0 where
  overrun : Printed
  quits : Printed
  rejected : Bytes → Printed
  job_id : ℕ → Printed

-- Each write sends all bytes or not; `sent` says so for the request and then for each piece of the file.
unfoldable pub send_pieces : List Bool → List Bytes → List Bytes × Bool
send_pieces sent [] = ([], true)
send_pieces [] (b ∷ pieces) = ([], false)
send_pieces (false ∷ sent) (b ∷ pieces) = ([], false)
send_pieces (true ∷ sent) (b ∷ pieces) = let (out, ok) = send_pieces sent pieces in (b ∷ out, ok)

module _ (htonl ntohl : ℕ → ℕ) where
  -- The request, with `PR_TEXT`
  unfoldable pub printreq : Bytes → Bytes → ℕ → Bool → Req
  unfolding job_name
  printreq usernm fname nbytes text = record {
    size = htonl nbytes;
    flags = if text then htonl 1 else 0;
    usernm = usernm;
    jobnm = job_name fname;
  }

  -- The end, on the result of `readn`
  unfoldable pub answered : Option Resp → Printed
  answered none = quits
  answered (some res) = if res.retcode == 0 then job_id (ntohl res.jobid) else rejected res.msg

  -- Behind the name of the user: what went to the spooler as a whole, and how the command ends. `pieces` is what
  -- read(2) gives of the file, and `reply` what the spooler answers.
  unfoldable pub submit_as :
      Bytes
      → Bytes
      → ℕ
      → Bool
      → List Bool
      → List Bytes
      → Option Resp
      → Option (Req × List Bytes) × Printed
  unfolding printreq answered send_pieces
  submit_as usernm fname nbytes text [] pieces reply = (none, quits)
  submit_as usernm fname nbytes text (false ∷ sent) pieces reply = (none, quits)
  submit_as usernm fname nbytes text (true ∷ sent) pieces reply =
      let (out, ok) = send_pieces sent pieces in
      (some (printreq usernm fname nbytes text, out), if ok then answered reply else quits)

  -- `submit_file`
  unfoldable pub submit_file :
      Option Bytes
      → Bytes
      → ℕ
      → Bool
      → List Bool
      → List Bytes
      → Option Resp
      → Option (Req × List Bytes) × Printed
  unfolding submit_as user_name
  submit_file pwd fname nbytes text sent pieces reply = elim (user_name pwd) [
    | none ↦ (none, overrun)
    | some usernm ↦ submit_as usernm fname nbytes text sent pieces reply
  ]
