-- ===== src/Ipp/Printer/Kept.antt =====
-- A round of the printer thread keeps the spool directory and the queue in step.
use apue_2e.Base.{
  ℕ, ◌≡◌, ◌≢◌, Bool, true, false, ◌||◌, ◌&&◌, none, some, List, [], ◌∷◌, ◌++◌, length,
}
use apue_2e.Files.{Bytes}
use apue_2e.Dll.{Ptr}
use apue_2e.Ipp.Jobs.{remove_job}
use apue_2e.Ipp.Client.{Req, Spool}
use apue_2e.Ipp.Client.Settled.{has_job, IsSpool}
use apue_2e.Ipp.Status.{returned, printer_status}
use apue_2e.Ipp.Printer.{http_header, Calls, Round, next_round, no_room, in_answer, made_header}

unfoldable pub whole_file : List (Bytes × Bool) → Bytes
whole_file [] = []
whole_file ((buf, sent) ∷ pieces) = buf ++ whole_file pieces

-- All pieces are written whole.
pub all_sent : List (Bytes × Bool) → Bool
all_sent [] = true
all_sent ((buf, sent) ∷ pieces) = let rest = all_sent pieces in sent && rest

-- Why a job is put back: a call fails on the way to the printer, a write of a piece is short, the last read(2)
-- of the file fails, or the printer answers that it did not take the job.
pub data Fails (fuel : ℕ) (c : Calls) (j : ℕ) : Type 0 where
  no_socket : c.socket ≡ false → Fails fuel c j
  no_connection : c.connects ≡ false → Fails fuel c j
  no_headers : c.headers_sent ≡ false → Fails fuel c j
  cut_off : (all_sent c.pieces && c.file_ends) ≡ false → Fails fuel c j
  turned_down : printer_status fuel c.room j c.answers ≡ returned false → Fails fuel c j

-- How a round with the job `x` and its data file ends.
pub data Ended (fuel : ℕ) (printer : Bytes) (held : ℕ → Bool) (c : Calls) (req : Req) (j : ℕ)
    (file : Bytes) (x : Ptr) (xs : List Ptr) : Round → Type 0 where
  printed :
      {t : Spool} {ibuf : Bytes}
      → IsSpool held t xs
      → printer_status fuel c.room j c.answers ≡ returned true
      → made_header printer j req ≡ some ibuf
      → Ended fuel printer held c req j file x xs
          (next_round t (http_header printer (length file) (length ibuf) ++ (ibuf ++ file)))
  back_in_front :
      {t : Spool} {out : Bytes}
      → IsSpool held t (x ∷ xs)
      → t.data_files j ≡ some file
      → Fails fuel c j
      → Ended fuel printer held c req j file x xs (next_round t out)
  too_long : made_header printer j req ≡ none → Ended fuel printer held c req j file x xs no_room
  stuck :
      ((b : Bool) → printer_status fuel c.room j c.answers ≢ returned b)
      → Ended fuel printer held c req j file x xs in_answer

module _ (fuel : ℕ) (printer : Bytes) (held : ℕ → Bool) (c : Calls) (req : Req) (s : Spool)
    (x : Ptr) (xs : List Ptr) (is : IsSpool held s (x ∷ xs))
    (once : (has_job (s.jobs.heap x).tag s.jobs.heap xs || held (s.jobs.heap x).tag) ≡ false)
    (file : Bytes) (there_is : s.data_files (s.jobs.heap x).tag ≡ some file)
    (reads_it : c.file_ends ≡ true → whole_file c.pieces ≡ file) where
  abbrev job : ℕ
  job = (s.jobs.heap x).tag

  abbrev taken : Spool
  taken = record s { jobs = remove_job s.jobs x }

  abbrev Ending : Round → Type 0
  Ending = Ended fuel printer held c req job file x xs
