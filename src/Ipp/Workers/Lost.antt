-- ===== src/Ipp/Workers/Lost.antt =====
-- A worker that is added to a list that is not empty is lost: `workers` is not moved to it.
use apue_2e.Base.{
  ℕ, suc, zero, ◌<◌, ◌≡◌, ◌≢◌, refl, ap, ap₂, ◌∙◌, List, [], ◌∷◌, length, Option, some, arith,
  ne_eq,
}
use apue_2e.Dll.{Ptr, null, Heap, put, set_next, set_prev, NotIn, first_or}
use apue_2e.Ipp.Workers.{
  Workers, add_worker, cancelled, kill_workers, worker_of, unlink_worker, client_cleanup,
}

-- The threads of a list of nodes.
abbrev pub tags : Heap → List Ptr → List ℕ
tags h [] = []
tags h (x ∷ xs) = (h x).tag ∷ tags h xs

-- The nodes follow one another by `next`, to the end of the list.
abbrev pub Follows : Heap → List Ptr → Type 0
Follows h [] = Unit
Follows h (x ∷ xs) = (x ≢ null) × ((h x).next ≡ first_or xs null) × Follows h xs

cancelled-tags :
    (fuel : ℕ) (h : Heap) (xs : List Ptr)
    → length xs < fuel
    → Follows h xs
    → cancelled fuel h (first_or xs null) ≡ tags h xs
unfolding cancelled
cancelled-tags zero h xs l f = absurd (omega arith)
cancelled-tags (suc fuel) h [] l f = refl
cancelled-tags (suc fuel) h (x ∷ xs) l (ne, e, f) =
    rw (ne_eq x null ne, e) (ap (λ t. (h x).tag ∷ t) (cancelled-tags fuel h xs (omega arith) f))

-- The heap behind an `add_worker` to a list that begins with `w`.
abbrev pushed : Heap → Ptr → Ptr → ℕ → Heap
pushed h w wtp tid = set_prev (put h wtp (record { prev = null; next = w; tag = tid })) w wtp

pushed-Follows :
    (h : Heap) (w wtp tid : ℕ) (xs : List Ptr)
    → NotIn wtp xs
    → Follows h xs
    → Follows (pushed h w wtp tid) xs
unfolding put set_prev
pushed-Follows h w wtp tid [] a f = tt
pushed-Follows h w wtp tid (x ∷ xs) (o, a) (ne, e, f) =
    (ne, ground arith, pushed-Follows h w wtp tid xs a f)

pushed-tags :
    (h : Heap) (w wtp tid : ℕ) (xs : List Ptr)
    → NotIn wtp xs
    → tags (pushed h w wtp tid) xs ≡ tags h xs
unfolding put set_prev
pushed-tags h w wtp tid [] a = refl
pushed-tags h w wtp tid (x ∷ xs) (o, a) = ap₂ ◌∷◌ (ground arith) (pushed-tags h w wtp tid xs a)

-- Once the list of workers is not empty, `add_worker` does not enter a new worker: `kill_workers`
-- cancels the same threads behind it as before it, those of the nodes `x ∷ xs`.
pub kill_workers-add_worker :
    (fuel : ℕ) (w : Workers) (x : Ptr) (xs : List Ptr) (wtp tid : ℕ)
    → length (x ∷ xs) < fuel
    → w.workers ≡ x
    → Follows w.heap (x ∷ xs)
    → NotIn wtp (x ∷ xs)
    → (kill_workers fuel (add_worker w wtp tid) ≡ tags w.heap (x ∷ xs))
      × (kill_workers fuel w ≡ tags w.heap (x ∷ xs))
unfolding kill_workers add_worker
kill_workers-add_worker fuel w x xs wtp tid l head f a =
    let e : add_worker w wtp tid ≡ record { heap = pushed w.heap x wtp tid; workers = x } =
      rw (head, ne_eq x null f.0) in
    (
      ap (λ v. cancelled fuel v.heap v.workers) e
          ∙ cancelled-tags fuel (pushed w.heap x wtp tid) (x ∷ xs) l
              (pushed-Follows w.heap x wtp tid (x ∷ xs) a f)
          ∙ pushed-tags w.heap x wtp tid (x ∷ xs) a,
      rw head (cancelled-tags fuel w.heap (x ∷ xs) l f),
    )

-- An empty list gets the worker: `kill_workers` cancels exactly its thread.
pub kill_workers-add_worker_first :
    (fuel : ℕ) (w : Workers) (wtp tid : ℕ)
    → w.workers ≡ null
    → wtp ≢ null
    → kill_workers (suc (suc fuel)) (add_worker w wtp tid) ≡ tid ∷ []
unfolding kill_workers cancelled add_worker put
kill_workers-add_worker_first fuel w wtp tid head ne = ground arith

-- Two workers come and the first one leaves: `client_cleanup` frees its node, and `workers` still points to it.
pub workers_dangling :
    (fuel a b s t : ℕ) (h : Heap)
    → a ≢ null
    → b ≢ null
    → a ≢ b
    → let w : Workers = add_worker (add_worker (record { heap = h; workers = null }) a s) b t in
      let out : Workers × Option Ptr = client_cleanup (suc fuel) w s in
      (out.1 ≡ some a) × (out.0.workers ≡ a)
unfolding client_cleanup worker_of unlink_worker add_worker put set_prev set_next
workers_dangling fuel a b s t h na nb ab = (ground arith, ground arith)
