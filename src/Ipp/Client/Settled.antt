-- ===== src/Ipp/Client/Settled.antt =====
-- The spool directory and the queue of jobs stay in step, however a run of `client_thread` ends.
use apue_2e.Base.{
  ℕ, ◌+◌, ◌^◌, ◌≤◌, ◌<◌, ◌==◌, ◌≡◌, ◌≢◌, refl, sym, ◌∙◌, Bool, true, false, ◌||◌, leb,
  if◌then◌else◌, Option, none, some, List, [], ◌∷◌, ◌++◌, arith, Bool-cases, inl, inr,
}
use apue_2e.Files.{Bytes}
use apue_2e.Dll.{Ptr, null, Heap, put, set_next, Queue, IsQueue, NotIn}
use apue_2e.Ipp.Jobs.{add_job, get_newjobno}
use apue_2e.Ipp.Jobs.Order.{add_job-IsQueue}
use apue_2e.Ipp.Client.{
  Req, Dir, set_file, Spool, Header, header, unreadable, cut_off, Wrote, whole, failed, short,
  Calls, Done, Received, received, broken, receive, refuse, queue_job, control_file, take_request,
  client_thread,
}

unfoldable pub present : {A : Type 0} → Option A → Bool
present none = false
present (some a) = true

-- A pending job has the number `k`.
unfoldable pub has_job : ℕ → Heap → List Ptr → Bool
has_job k h [] = false
has_job k h (p ∷ xs) = let rest = has_job k h xs in (k == (h p).tag) || rest

-- The pending jobs are the nodes `xs`, and `held` are the numbers of the jobs that the printer thread has
-- taken from the queue. A number has a data file, and a control file, exactly when it is that of such a job;
-- no number from `nextjob` on is.
pub record IsSpool (held : ℕ → Bool) (s : Spool) (xs : List Ptr) : Type 0 where
  pub queue : IsQueue s.jobs xs
  pub data_there : (k : ℕ) → present (s.data_files k) ≡ (has_job k s.jobs.heap xs || held k)
  pub request_there : (k : ℕ) → present (s.requests k) ≡ (has_job k s.jobs.heap xs || held k)
  pub below : (k : ℕ) → s.nextjob ≤ k → (has_job k s.jobs.heap xs || held k) ≡ false

set_file-none :
    {A : Type 0} (dir : Dir A) (j k : ℕ)
    → present (dir j) ≡ false
    → present (set_file dir j none k) ≡ present (dir k)
unfolding set_file present
set_file-none dir j k h = elim (Bool-cases (k == j)) [
  | inl e ↦ let same : k ≡ j = ground arith in rw e (sym (rw same h))
  | inr e ↦ rw e refl
]

set_file-some :
    {A : Type 0} (dir : Dir A) (j : ℕ) (a : A) (k : ℕ)
    → present (set_file dir j (some a) k) ≡ ((k == j) || present (dir k))
unfolding set_file present
set_file-some dir j a k = elim (Bool-cases (k == j)) [ inl e ↦ rw e refl | inr e ↦ rw e refl ]

-- A file that was made and is unlinked.
set_file-again :
    {A : Type 0} (dir : Dir A) (j : ℕ) (a : Option A) (k : ℕ)
    → present (dir j) ≡ false
    → present (set_file (set_file dir j a) j none k) ≡ present (dir k)
unfolding set_file present
set_file-again dir j a k h = elim (Bool-cases (k == j)) [
  | inl e ↦ let same : k ≡ j = ground arith in rw e (sym (rw same h))
  | inr e ↦ rw e refl
]

add_job-tag :
    (q : Queue) (jp jobid p : ℕ)
    → ((add_job q jp jobid).heap p).tag ≡ (if p == jp then jobid else (q.heap p).tag)
unfolding add_job put set_next
add_job-tag q jp jobid p = elim (Bool-cases (q.tail == null)) [
  | inl e ↦ elim (Bool-cases (p == jp)) [ inl a ↦ rw (e, a) refl | inr a ↦ rw (e, a) refl ]
  | inr e ↦ elim (Bool-cases (p == jp)) [
    | inl a ↦ elim (Bool-cases (p == q.tail)) [
      | inl b ↦ rw (e, b, a) refl
      | inr b ↦ rw (e, b, a) refl
    ]
    | inr a ↦ elim (Bool-cases (p == q.tail)) [
      | inl b ↦ rw (e, b, a) refl
      | inr b ↦ rw (e, b, a) refl
    ]
  ]
]

has_job-add_job :
    (k : ℕ) (q : Queue) (jp jobid : ℕ) (xs : List Ptr)
    → NotIn jp xs
    → has_job k (add_job q jp jobid).heap (xs ++ jp ∷ []) ≡ ((k == jobid) || has_job k q.heap xs)
unfolding has_job
has_job-add_job k q jp jobid [] a =
    let self : (jp == jp) ≡ true = ground arith in rw (add_job-tag q jp jobid jp, self) refl
has_job-add_job k q jp jobid (x ∷ xs) a =
    let other : (x == jp) ≡ false = ground (arith, a.0) in
    rw (add_job-tag q jp jobid x, other, has_job-add_job k q jp jobid xs a.1) (ground arith)

-- Another number and other files, of which the same are there.
renumbered :
    {held : ℕ → Bool} (s : Spool) (xs : List Ptr) (d : Dir Bytes) (r : Dir Req) (n : ℕ)
    → IsSpool held s xs
    → ((k : ℕ) → present (d k) ≡ present (s.data_files k))
    → ((k : ℕ) → present (r k) ≡ present (s.requests k))
    → s.nextjob ≤ n
    → IsSpool held (record { data_files = d; requests = r; jobs = s.jobs; nextjob = n }) xs
renumbered s xs d r n h same_data same_requests le = record {
  queue = h.queue;
  data_there = λ k. same_data k ∙ h.data_there k;
  request_there = λ k. same_requests k ∙ h.request_there k;
  below = λ k later. h.below k (omega (arith, le, later));
}

-- The nodes that are pending behind a run: one more where the thread returns 0.
abbrev pub pending : List Ptr → Ptr → ℕ → List Ptr
pending xs node status = if status == 0 then xs ++ node ∷ [] else xs

module _ (htonl ntohl : ℕ → ℕ) (strerror : ℕ → Bytes) (held : ℕ → Bool) (c : Calls)
    (xs : List Ptr) where
  abbrev Kept : Done → Type 0
  Kept d = IsSpool held d.spool (pending xs c.node d.status)

  -- The state behind `get_newjobno`, with the number `j` that it gave.
  record IsNumbered (j : ℕ) (s : Spool) : Type 0 where
    spool : IsSpool held s xs
    no_data : present (s.data_files j) ≡ false
    no_request : present (s.requests j) ≡ false
    older : j < s.nextjob

  unlinked :
      (j : ℕ) (file : Bytes) (s : Spool)
      → IsNumbered j s
      → IsSpool held
          (record s {
            data_files = set_file (set_file s.data_files j (some file)) j none;
            requests = set_file s.requests j none;
          })
          xs
  unlinked j file s h =
      renumbered s xs _ _ s.nextjob h.spool
        (λ k. set_file-again s.data_files j (some file) k h.no_data)
        (λ k. set_file-none s.requests j k h.no_request) (omega arith)

  data_unlinked :
      (j : ℕ) (s : Spool)
      → IsNumbered j s
      → IsSpool held (record s { data_files = set_file s.data_files j none }) xs
  data_unlinked j s h =
      renumbered s xs _ _ s.nextjob h.spool (λ k. set_file-none s.data_files j k h.no_data)
        (λ k. refl) (omega arith)

  queue_job-Kept :
      (j : ℕ) (req : Req) (file : Bytes) (s : Spool) (w : Wrote)
      → c.node ≢ null
      → NotIn c.node xs
      → IsNumbered j s
      → Kept (
          queue_job htonl ntohl strerror c j req
            (record s { data_files = set_file s.data_files j (some file) })
            w)
  unfolding queue_job refuse
  queue_job-Kept j req file s whole ne a h = record {
    queue = add_job-IsQueue s.jobs xs c.node j h.spool.queue ne a;
    data_there = λ k.
        set_file-some s.data_files j file k
        ∙ rw (has_job-add_job k s.jobs c.node j xs a, h.spool.data_there k) (ground arith);
    request_there = λ k.
        set_file-some s.requests j req k
        ∙ rw (has_job-add_job k s.jobs c.node j xs a, h.spool.request_there k) (ground arith);
    below = λ k later.
        let other : (k == j) ≡ false = ground (arith, later, h.older) in
        rw (has_job-add_job k s.jobs c.node j xs a, other) (h.spool.below k later);
  }
  queue_job-Kept j req file s (failed e) ne a h = unlinked j file s h
  queue_job-Kept j req file s short ne a h = unlinked j file s h

  control_file-Kept :
      (j : ℕ) (req : Req) (s : Spool) (r : Received)
      → c.node ≢ null
      → NotIn c.node xs
      → IsNumbered j s
      → Kept (control_file htonl ntohl strerror c j req s r)
  unfolding control_file refuse
  control_file-Kept j req s (broken e) ne a h = data_unlinked j s h
  control_file-Kept j req s (received file flags) ne a h = elim (Bool-cases c.creat_request) [
    | inl e ↦ rw e (queue_job-Kept j (record req { flags = flags }) file s c.wrote_request ne a h)
    | inr e ↦ rw e (data_unlinked j s h)
  ]

  absent : {b a : Bool} → b ≡ a → a ≡ false → b ≡ false
  absent e h = e ∙ h

  numbered :
      (s : Spool)
      → IsSpool held s xs
      → s.nextjob + 1 < 2 ^ 63
      → IsNumbered s.nextjob (record s { nextjob = (get_newjobno s.nextjob).1 })
  unfolding get_newjobno
  numbered s h small =
      let more : leb (2 ^ 63) (s.nextjob + 1) ≡ false = ground arith in
      let free = h.below s.nextjob (omega arith) in
      rw more (record {
        spool =
            renumbered s xs s.data_files s.requests (s.nextjob + 1) h (λ k. refl) (λ k. refl)
              (omega arith);
        no_data = absent (h.data_there s.nextjob) free;
        no_request = absent (h.request_there s.nextjob) free;
        older = omega arith;
      })

  take_request-Kept :
      (s : Spool) (r : Header)
      → IsSpool held s xs
      → s.nextjob + 1 < 2 ^ 63
      → c.node ≢ null
      → NotIn c.node xs
      → Kept (take_request htonl ntohl strerror c s r)
  unfolding take_request refuse get_newjobno
  take_request-Kept s (unreadable e) h small ne a = h
  take_request-Kept s cut_off h small ne a = h
  take_request-Kept s (header r) h small ne a =
      let n = numbered s h small in
      elim (Bool-cases c.creat_data) [
        | inl e ↦ rw e (
            control_file-Kept s.nextjob (record r { size = ntohl r.size; flags = ntohl r.flags })
              (record s { nextjob = (get_newjobno s.nextjob).1 })
              (receive true [] (ntohl r.flags) c.pieces) ne a n)
        | inr e ↦ rw e n.spool
      ]

-- However a run of `client_thread` ends, when the job numbers are not used up: the jobs that were pending
-- still are, in their order, and a job has been put behind them exactly when the thread returns 0; and a number
-- has a data file, and a control file, exactly when it is that of a pending job or of one that the printer
-- thread has taken. So a run that fails leaves no file and no job behind.
pub client_thread-IsSpool :
    (htonl ntohl : ℕ → ℕ) (strerror : ℕ → Bytes) (held : ℕ → Bool) (c : Calls) (s : Spool)
    (xs : List Ptr)
    → IsSpool held s xs
    → s.nextjob + 1 < 2 ^ 63
    → c.node ≢ null
    → NotIn c.node xs
    → IsSpool held
        (client_thread htonl ntohl strerror c s).spool
        (pending xs c.node (client_thread htonl ntohl strerror c s).status)
unfolding client_thread
client_thread-IsSpool htonl ntohl strerror held c s xs h small ne a =
    take_request-Kept htonl ntohl strerror held c xs s c.request h small ne a
