-- ===== src/Ipp/Client.antt =====
-- ipp/printd.c: `client_thread`, which takes a job from a client into the spool directory and the queue. What
-- the calls of the system return is an argument, and so are the byte order of the network and the texts of
-- errors. The node that `add_job` allocates also keeps the request, which the queue of Ipp/Jobs leaves out;
-- the list of workers, which the thread enters and leaves, is in Ipp/Workers.
pub mod Settled
use apue_2e.Base.{
  ℕ, ◌+◌, ◌%◌, ◌==◌, Bool, true, false, ◌&&◌, not, if◌then◌else◌, Option, none, some, List, [], ◌∷◌,
  ◌++◌, take, str_eq,
}
use apue_2e.Files.{Bytes}
use apue_2e.CText.{codes, decimal}
use apue_2e.Dll.{Ptr, Queue}
use apue_2e.Ipp.Jobs.{add_job, get_newjobno}

-- `struct printreq` and `struct printresp`
pub record Req : Type 0 where
  pub size : ℕ
  pub flags : ℕ
  pub usernm : Bytes
  pub jobnm : Bytes

pub record Resp : Type 0 where
  pub retcode : ℕ
  pub jobid : ℕ
  pub msg : Bytes

abbrev pub msglen_max : ℕ
msglen_max = 512

-- `EIO`
abbrev pub eio : ℕ
eio = 5

-- The files of a directory by their numbers.
abbrev pub Dir : Type 0 → Type 0
Dir A = ℕ → Option A

unfoldable pub set_file : {A : Type 0} → Dir A → ℕ → Option A → Dir A
set_file dir j file k = if k == j then file else dir k

-- The files of `DATADIR` and of `REQDIR`, the pending jobs and the next job number.
pub record Spool : Type 0 where
  pub data_files : Dir Bytes
  pub requests : Dir Req
  pub jobs : Queue
  pub nextjob : ℕ

-- What `treadn` of the request returns: the request, -1 with `errno`, or fewer bytes.
pub data Header : Type 0 where
  header : Req → Header
  unreadable : ℕ → Header
  cut_off : Header

-- What write(2) returns: all bytes, -1 with `errno`, or fewer bytes.
pub data Wrote : Type 0 where
  whole : Wrote
  failed : ℕ → Wrote
  short : Wrote

-- What the calls return in one run: the request; whether each creat(2) succeeds; what `tread` gives until it
-- returns 0 or -1, with the result of the write of each piece; the write of the control file; and the node
-- that malloc gives.
pub record Calls : Type 0 where
  pub request : Header
  pub creat_data : Bool
  pub pieces : List (Bytes × Wrote)
  pub creat_request : Bool
  pub wrote_request : Wrote
  pub node : Ptr

-- The spool behind the run, what was sent to the client, and the value of the thread.
pub record Done : Type 0 where
  pub spool : Spool
  pub replies : List Resp
  pub status : ℕ

-- `flags |= PR_TEXT`
unfoldable pub set_text : ℕ → ℕ
set_text flags = if flags % 2 == 0 then flags + 1 else flags

-- `strncmp(buf, "%!PS", 4) == 0`; the buffer is null behind a shorter piece.
unfoldable pub is_postscript : Bytes → Bool
is_postscript buf = str_eq (take 4 buf) (codes "%!PS")

-- The data file and the flags, or the error of a write.
pub data Received : Type 0 where
  received : Bytes → ℕ → Received
  broken : ℕ → Received

-- `while ((nr = tread(sockfd, buf, IOBUFSZ, 20)) > 0)`
unfoldable pub receive : Bool → Bytes → ℕ → List (Bytes × Wrote) → Received
unfolding is_postscript set_text
receive first file flags [] = received file flags
receive first file flags ((buf, w) ∷ pieces) =
    let flags' = if first && not (is_postscript buf) then set_text flags else flags in
    let rest = receive false (file ++ buf) flags' pieces in
    elim w [ whole ↦ rest | failed e ↦ broken e | short ↦ broken eio ]

module _ (htonl ntohl : ℕ → ℕ) (strerror : ℕ → Bytes) where
  -- The answer of a run that fails; `strerror` gets the number in the order of the network.
  unfoldable pub refuse : Spool → ℕ → Done
  refuse s e = record {
    spool = s;
    replies =
        record { retcode = htonl e; jobid = 0; msg = take msglen_max (strerror (htonl e)) } ∷ [];
    status = 1;
  }

  -- The answer to a job that is taken.
  unfoldable pub accepted : ℕ → Resp
  accepted j = record { retcode = 0; jobid = htonl j; msg = codes "request ID " ++ decimal j }

  -- Behind the write of the control file of job `j`
  unfoldable pub queue_job : Calls → ℕ → Req → Spool → Wrote → Done
  unfolding refuse set_file accepted
  queue_job c j req s whole = record {
    spool = record s {
      requests = set_file s.requests j (some req);
      jobs = add_job s.jobs c.node j;
    };
    replies = accepted j ∷ [];
    status = 0;
  }
  queue_job c j req s (failed e) =
      refuse
        (record s {
          requests = set_file s.requests j none;
          data_files = set_file s.data_files j none;
        })
        e
  queue_job c j req s short =
      refuse
        (record s {
          requests = set_file s.requests j none;
          data_files = set_file s.data_files j none;
        })
        eio

  -- Behind the loop that stores the file. `n` is the size of the request, so that the error of a creat is `EIO`.
  unfoldable pub control_file : Calls → ℕ → Req → Spool → Received → Done
  unfolding queue_job
  control_file c j req s (broken e) =
      refuse (record s { data_files = set_file s.data_files j none }) e
  control_file c j req s (received file flags) =
      if c.creat_request
      then queue_job c j (record req { flags = flags })
          (record s { data_files = set_file s.data_files j (some file) }) c.wrote_request
      else refuse (record s { data_files = set_file s.data_files j none }) eio

  -- Behind `treadn` of the request
  unfoldable pub take_request : Calls → Spool → Header → Done
  unfolding control_file receive
  take_request c s (unreadable e) = refuse s e
  take_request c s cut_off = refuse s eio
  take_request c s (header r) =
      let (j, next) = get_newjobno s.nextjob in
      let req = record r { size = ntohl r.size; flags = ntohl r.flags } in
      let t = record s { nextjob = next } in
      if c.creat_data
      then control_file c j req t (receive true [] req.flags c.pieces)
      else refuse t eio

  unfoldable pub client_thread : Calls → Spool → Done
  unfolding take_request
  client_thread c s = take_request c s c.request
