-- ===== src/Tests/Jobs.antt =====
-- A file that goes from the print command into the spool.
use apue_2e.Base.{
  ℕ, ◌+◌, ◌*◌, ◌/◌, ◌%◌, ◌^◌, ◌<◌, ◌≤◌, ◌≡◌, refl, true, false, none, some, [], ◌∷◌, arith, length,
}
use apue_2e.Files.{Bytes}
use apue_2e.CText.{codes}
use apue_2e.Ipp.Printer
use apue_2e.Ipp.Printer.{printer_uri, ipp_header}
use apue_2e.Ipp.Printer.Message.{ipp_header_fits}
use apue_2e.Ipp.Client.{Req, set_file, Spool, header, whole, Calls, accepted, client_thread}
use apue_2e.Ipp.Client.Settled.{IsSpool, has_job, present, pending, client_thread-IsSpool}
use apue_2e.Ipp.Submit.{printreq, user_name, job_name, job_id, submit_file}
use apue_2e.Ipp.Submit.Jobs.{joined, arriving, sent_all, flags_of, Took, client_thread-submit_file}

-- Bytes of a 32-bit number in the other order.
swap : ℕ → ℕ
swap n = n % 256 * 2 ^ 24 + n / 256 % 256 * 2 ^ 16 + n / 2 ^ 16 % 256 * 2 ^ 8 + n / 2 ^ 24 % 256

swap-swap : (n : ℕ) → n < 2 ^ 32 → swap (swap n) ≡ n
unfolding swap
swap-swap n h = omega arith

swap_zero : swap 0 ≡ 0
unfolding swap
swap_zero = omega arith

no_text : ℕ → Bytes
no_text n = codes "error"

abbrev empty : Spool
empty = record {
  data_files = λ k. none;
  requests = λ k. none;
  jobs = record { heap = λ p. record { prev = 0; next = 0; tag = 0 }; head = 0; tail = 0 };
  nextjob = 7;
}

-- `%!PS` and one byte, which arrive in another division than that in which they were read.
abbrev calls : Calls
calls = record {
  request = header (printreq swap swap (codes "unknown") (codes "a.ps") 6 false);
  creat_data = true;
  pieces = arriving (codes "%!PSx" ∷ codes "y" ∷ []);
  creat_request = true;
  wrote_request = whole;
  node = 16;
}

empty-IsSpool : IsSpool (λ k. false) empty []
unfolding has_job present
empty-IsSpool = record {
  queue = record { linked = tt; distinct = tt; head = refl; tail = refl };
  data_there = λ k. refl;
  request_there = λ k. refl;
  below = λ k h. refl;
}

client_thread-IsSpool_example :
    IsSpool
      (λ k. false)
      (client_thread swap swap no_text calls empty).spool
      (pending [] 16 (client_thread swap swap no_text calls empty).status)
client_thread-IsSpool_example =
    client_thread-IsSpool swap swap no_text (λ k. false) calls empty [] empty-IsSpool (omega arith)
      (omega arith) tt

client_thread-submit_file_example :
    Took 7
      (joined (codes "%!PSxy" ∷ []))
      (record {
        size = 6;
        flags = flags_of false (joined (codes "%!PSxy" ∷ []));
        usernm = codes "unknown";
        jobnm = job_name (codes "a.ps");
      })
      (accepted swap swap no_text 7)
      (client_thread swap swap no_text calls empty)
    × ((submit_file swap swap none
          (codes "a.ps")
          6
          false
          (true ∷ sent_all (codes "%!PSxy" ∷ []))
          (codes "%!PSxy" ∷ [])
          (some (accepted swap swap no_text 7))).0
        ≡ some (printreq swap swap (codes "unknown") (codes "a.ps") 6 false, codes "%!PSxy" ∷ []))
    × ((submit_file swap swap none
          (codes "a.ps")
          6
          false
          (true ∷ sent_all (codes "%!PSxy" ∷ []))
          (codes "%!PSxy" ∷ [])
          (some (accepted swap swap no_text 7))).1
        ≡ job_id 7)
unfolding joined user_name
client_thread-submit_file_example =
    client_thread-submit_file swap swap no_text swap-swap swap_zero calls empty refl refl refl none
      (codes "unknown") (codes "a.ps") 6 false (codes "%!PSxy" ∷ []) (codes "%!PSx")
      (codes "y" ∷ []) refl (omega arith) (omega arith) refl refl refl (omega arith)

-- A job in the hands of the printer thread.
abbrev request : Req
request = record { size = 6; flags = 0; usernm = codes "unknown"; jobnm = codes "a.ps" }

abbrev queued : Spool
queued = record {
  data_files = set_file (λ k. none) 7 (some (codes "%!PSxy"));
  requests = set_file (λ k. none) 7 (some request);
  jobs = record { heap = λ p. record { prev = 0; next = 0; tag = 7 }; head = 16; tail = 16 };
  nextjob = 8;
}

abbrev printing : Printer.Calls
printing = record {
  opens = true;
  size = some 6;
  socket = true;
  connects = true;
  headers_sent = true;
  pieces = (codes "%!PSxy", true) ∷ [];
  file_ends = true;
  room = true;
  answers = [];
}

ipp_header_fits_example :
    (length (ipp_header (codes "lp") 7 request) ≤ 512) × (length (printer_uri (codes "lp")) < 64)
ipp_header_fits_example =
    ipp_header_fits (codes "lp") 7 request (omega arith) (omega arith) (omega arith)
