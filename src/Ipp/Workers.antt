-- ===== src/Ipp/Workers.antt =====
-- ipp/printd.c: the list of worker threads, with `workerlock` held. `workers` is the pointer to its
-- first node, and a walk runs on fuel. Proofs are in Ipp/Workers/Lost.antt.
pub mod Lost
use apue_2e.Base.{ℕ, zero, suc, ◌==◌, if◌then◌else◌, List, [], ◌∷◌, Option, none, some}
use apue_2e.Dll.{Ptr, null, Cell, Heap, put, set_next, set_prev}

pub record Workers : Type 0 where
  pub heap : Heap
  pub workers : Ptr

-- `add_worker`, for a node that `malloc` gave: the branches as they stand in the source.
unfoldable pub add_worker : Workers → Ptr → ℕ → Workers
add_worker w wtp tid =
    let made = put w.heap wtp (record { prev = null; next = w.workers; tag = tid }) in
    if w.workers == null
    then record { heap = made; workers = wtp }
    else record { heap = set_prev made w.workers wtp; workers = w.workers }

-- The threads that `kill_workers` cancels, from a node on.
unfoldable pub cancelled : ℕ → Heap → Ptr → List ℕ
cancelled zero h wtp = []
cancelled (suc fuel) h wtp =
    let rest = cancelled fuel h (h wtp).next in if wtp == null then [] else (h wtp).tag ∷ rest

-- `kill_workers`
unfoldable pub kill_workers : ℕ → Workers → List ℕ
unfolding cancelled
kill_workers fuel w = cancelled fuel w.heap w.workers

-- The loop of `client_cleanup`: the node of the thread, null if the list has none.
unfoldable pub worker_of : ℕ → Heap → Ptr → ℕ → Ptr
worker_of zero h wtp tid = null
worker_of (suc fuel) h wtp tid =
    let rest = worker_of fuel h (h wtp).next tid in
    if wtp == null then null else if (h wtp).tag == tid then wtp else rest

-- The node leaves the list.
unfoldable pub unlink_worker : Workers → Ptr → Workers
unlink_worker w wtp =
    let h =
      if (w.heap wtp).next == null
      then w.heap
      else set_prev w.heap (w.heap wtp).next (w.heap wtp).prev in
    if (h wtp).prev == null
    then record { heap = h; workers = (h wtp).next }
    else record { heap = set_next h (h wtp).prev (h wtp).next; workers = w.workers }

-- `client_cleanup`: the list, and the node whose socket is closed and which is freed.
unfoldable pub client_cleanup : ℕ → Workers → ℕ → Workers × Option Ptr
unfolding worker_of unlink_worker
client_cleanup fuel w tid =
    let wtp = worker_of fuel w.heap w.workers tid in
    if wtp == null then (w, none) else (unlink_worker w wtp, some wtp)
