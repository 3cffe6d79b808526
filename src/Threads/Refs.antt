-- ===== src/Threads/Refs.antt =====
-- threads/mutex2.c and threads/mutex3.c: counted objects in a hash table of chains. Each function runs
-- with the locks that it takes; what other threads do while `foo_rele` holds none is an argument.
-- Proofs are in Threads/Refs/Counts.antt.
pub mod Counts
use apue_2e.Base.{ℕ, zero, suc, ◌+◌, ◌-◌, ◌%◌, ◌^◌, ◌==◌, if◌then◌else◌, not, Bool, true, false}

abbrev pub Ptr : Type 0
Ptr = ℕ

abbrev pub null : Ptr
null = 0

abbrev pub nhash : ℕ
nhash = 29

-- HASH(fp)
abbrev pub bucket : Ptr → ℕ
bucket fp = fp % nhash

-- `count` is the `int` as a word of 32 bits.
pub record Foo : Type 0 where
  pub count : ℕ
  pub next : Ptr
  pub id : ℕ

pub record Table : Type 0 where
  pub objs : Ptr → Foo
  pub fh : ℕ → Ptr

unfoldable pub put : Table → Ptr → Foo → Table
put t fp foo = record t { objs = λ p. if p == fp then foo else t.objs p }

unfoldable pub set_head : Table → ℕ → Ptr → Table
set_head t idx fp = record t { fh = λ i. if i == idx then fp else t.fh i }

-- `foo_alloc` of both files, at the address that `malloc` returned.
unfoldable pub foo_alloc : Table → Ptr → Table
unfolding put set_head
foo_alloc t fp =
    let made = put t fp (record (t.objs fp) { count = 1; next = t.fh (bucket fp) }) in
    set_head made (bucket fp) (made.objs fp).next

-- `foo_hold`
unfoldable pub foo_hold : Table → Ptr → Table
unfolding put
foo_hold t fp = put t fp (record (t.objs fp) { count = ((t.objs fp).count + 1) % 2 ^ 32 })

-- The walk of `foo_find` from an object on, on fuel.
unfoldable pub find_from : ℕ → Table → Ptr → ℕ → Ptr
find_from zero t fp id = null
find_from (suc fuel) t fp id =
    let rest = find_from fuel t (t.objs fp).next id in
    if fp == null then null else if (t.objs fp).id == id then fp else rest

-- `foo_find`: `garbage` is what `fp` holds when it is hashed, before it is set.
unfoldable pub foo_find : ℕ → Table → Ptr → ℕ → Table × Ptr
unfolding find_from foo_hold
foo_find fuel t garbage id =
    let fp = find_from fuel t (t.fh (bucket garbage)) id in
    (if fp == null then t else foo_hold t fp, fp)

-- A result, the read of `f_next` through a null pointer, or a walk that the fuel was too little for.
pub data Try (A : Type 0) : Type 0 where
  done : A → Try A
  null_read unfinished : Try A

-- `while (tfp->f_next != fp) tfp = tfp->f_next; tfp->f_next = fp->f_next`: fuel for
-- one more than the objects of the chain is enough.
unfoldable pub unlink_from : ℕ → Table → Ptr → Ptr → Try Table
unfolding put
unlink_from zero t tfp fp = if tfp == null then null_read else unfinished
unlink_from (suc fuel) t tfp fp =
    let rest = unlink_from fuel t (t.objs tfp).next fp in
    if tfp == null
    then null_read
    else if (t.objs tfp).next == fp
    then done (put t tfp (record (t.objs tfp) { next = (t.objs fp).next }))
    else rest

-- The removal of the object from its chain.
unfoldable pub unlink : ℕ → Table → Ptr → Try Table
unfolding unlink_from set_head
unlink fuel t fp =
    if t.fh (bucket fp) == fp
    then done (set_head t (bucket fp) (t.objs fp).next)
    else unlink_from fuel t (t.fh (bucket fp)) fp

pub data Release : Type 0 where
  freed kept : Release

unfoldable pub drop_one : Table → Ptr → Table
unfolding put
drop_one t fp =
    put t fp (record (t.objs fp) { count = ((t.objs fp).count + (2 ^ 32 - 1)) % 2 ^ 32 })

unfoldable pub freeing : Try Table → Try (Table × Release)
freeing null_read = null_read
freeing unfinished = unfinished
freeing (done t) = done (t, freed)

-- `foo_rele` of threads/mutex2.c. When the count was 1 it gives up `f_lock` to take `hashlock` first, and
-- looks again at the table that the other threads left.
unfoldable pub foo_rele : ℕ → (Table → Table) → Table → Ptr → Try (Table × Release)
unfolding freeing
foo_rele fuel others t fp =
    if (t.objs fp).count == 1
    then (let u = others t in
        if not ((u.objs fp).count == 1)
        then done (drop_one u fp, kept)
        else freeing (unlink fuel u fp))
    else done (drop_one t fp, kept)

-- `foo_rele` of threads/mutex3.c, all of it under `hashlock`.
unfoldable pub foo_rele3 : ℕ → Table → Ptr → Try (Table × Release)
unfolding freeing
foo_rele3 fuel t fp =
    let u = drop_one t fp in
    if (u.objs fp).count == 0 then freeing (unlink fuel u fp) else done (u, kept)
