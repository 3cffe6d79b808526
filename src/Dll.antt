-- ===== src/Dll.antt =====
-- Nodes of doubly linked lists at addresses, as `struct job` of ipp/print.h and of threads/rwlock.c
-- and `struct worker_thread` of ipp/printd.c have them. Proofs are in Dll/Segments.antt.
pub mod Segments
use apue_2e.Base.{ℕ, ◌==◌, ◌≡◌, ◌≢◌, if◌then◌else◌, List, [], ◌∷◌, All}

abbrev pub Ptr : Type 0
Ptr = ℕ

abbrev pub null : Ptr
null = 0

-- `tag` is what a node is found by: a job number, or a thread.
pub record Cell : Type 0 where
  pub prev : Ptr
  pub next : Ptr
  pub tag : ℕ

abbrev pub Heap : Type 0
Heap = Ptr → Cell

unfoldable pub put : Heap → Ptr → Cell → Heap
put h p c q = if q == p then c else h q

-- `p->next = v` and `p->prev = v`
unfoldable pub set_next : Heap → Ptr → Ptr → Heap
set_next h p v q = if q == p then record (h q) { next = v } else h q

unfoldable pub set_prev : Heap → Ptr → Ptr → Heap
set_prev h p v q = if q == p then record (h q) { prev = v } else h q

abbrev pub first_or : List Ptr → Ptr → Ptr
first_or [] n = n
first_or (x ∷ xs) n = x

abbrev pub last_of : Ptr → List Ptr → Ptr
last_of p [] = p
last_of p (x ∷ xs) = last_of x xs

-- The nodes `xs` are linked both ways, the first behind `prev` and the last before `next`.
abbrev pub Linked : Heap → Ptr → List Ptr → Ptr → Type 0
Linked h prev [] next = Unit
Linked h prev (x ∷ xs) next =
    (x ≢ null) × ((h x).prev ≡ prev) × ((h x).next ≡ first_or xs next) × Linked h x xs next

abbrev pub NotIn : Ptr → List Ptr → Type 0
NotIn p xs = All (λ x. x ≢ p) xs

abbrev pub Distinct : List Ptr → Type 0
Distinct [] = Unit
Distinct (x ∷ xs) = NotIn x xs × Distinct xs

-- A list with a pointer to its first and to its last node.
pub record Queue : Type 0 where
  pub heap : Heap
  pub head : Ptr
  pub tail : Ptr

-- The queue holds the nodes `xs` in this order, linked both ways.
pub record IsQueue (q : Queue) (xs : List Ptr) : Type 0 where
  pub linked : Linked q.heap null xs null
  pub distinct : Distinct xs
  pub head : q.head ≡ first_or xs null
  pub tail : q.tail ≡ last_of null xs
