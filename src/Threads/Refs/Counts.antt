-- ===== src/Threads/Refs/Counts.antt =====
-- Reference counts and chains of threads/mutex2.c and threads/mutex3.c.
use apue_2e.Base.{
  ℕ, zero, suc, ◌-◌, ◌^◌, ◌<◌, ◌≤◌, ◌≡◌, ◌≢◌, refl, ap, sym, ◌∙◌, arith, ne_eq, eq_refl,
}
use apue_2e.Threads.Refs.{
  Ptr, null, bucket, Table, put, foo_alloc, foo_hold, unlink_from, unlink, kept, done, null_read,
  drop_one, foo_rele, foo_rele3,
}

-- `foo_alloc` leaves every chain of the table as it was: the new object is in none of them.
pub foo_alloc-fh : (t : Table) (fp : Ptr) (i : ℕ) → (foo_alloc t fp).fh i ≡ t.fh i
unfolding foo_alloc
foo_alloc-fh t fp i = ground arith

unlink_from-null : (fuel : ℕ) (t : Table) (fp : Ptr) → unlink_from fuel t null fp ≡ null_read
unfolding unlink_from
unlink_from-null zero t fp = refl
unlink_from-null (suc fuel) t fp = refl

unlink-null_read :
    (fuel : ℕ) (t : Table) (fp : Ptr)
    → fp ≢ null
    → t.fh (bucket fp) ≡ null
    → unlink fuel t fp ≡ null_read
unfolding unlink
unlink-null_read fuel t fp ne e =
    rw e (rw (ne_eq null fp (λ i. ne (sym i))) (unlink_from-null fuel t fp))

drop_count :
    (t : Table) (fp : Ptr)
    → 0 < (t.objs fp).count
    → (t.objs fp).count < 2 ^ 32
    → ((drop_one t fp).objs fp).count ≡ (t.objs fp).count - 1
unfolding drop_one put
drop_count t fp h k = rw (eq_refl fp) (omega arith)

-- Where the chain of an object is empty, its release right behind its allocation reads through a null
-- pointer, in both versions of `foo_rele`.
pub foo_rele-foo_alloc :
    (fuel : ℕ) (t : Table) (fp : Ptr)
    → fp ≢ null
    → t.fh (bucket fp) ≡ null
    → (foo_rele fuel (λ u. u) (foo_alloc t fp) fp ≡ null_read)
      × (foo_rele3 fuel (foo_alloc t fp) fp ≡ null_read)
unfolding foo_rele foo_rele3
foo_rele-foo_alloc fuel t fp ne e =
    let head : (foo_alloc t fp).fh (bucket fp) ≡ null = foo_alloc-fh t fp (bucket fp) ∙ e in
    let one : ((foo_alloc t fp).objs fp).count ≡ 1 = unfold foo_alloc in ground arith in
    let head' : (drop_one (foo_alloc t fp) fp).fh (bucket fp) ≡ null = unfold drop_one in head in
    let zero_left : ((drop_one (foo_alloc t fp) fp).objs fp).count ≡ 0 =
      drop_count (foo_alloc t fp) fp (omega arith) (omega arith) ∙ ap (λ n. n - 1) one in
    (
      rw one (rw (unlink-null_read fuel (foo_alloc t fp) fp ne head)),
      rw (zero_left, unlink-null_read fuel (drop_one (foo_alloc t fp) fp) fp ne head'),
    )

-- With a count of at least two, a word of 32 bits, both versions of `foo_rele` take one off the count, touch no chain and
-- keep the object.
pub foo_rele-kept :
    (fuel : ℕ) (others : Table → Table) (t : Table) (fp : Ptr)
    → 2 ≤ (t.objs fp).count
    → (t.objs fp).count < 2 ^ 32
    → (foo_rele fuel others t fp ≡ done (drop_one t fp, kept))
      × (foo_rele3 fuel t fp ≡ done (drop_one t fp, kept))
unfolding foo_rele foo_rele3
foo_rele-kept fuel others t fp h k =
    let left = drop_count t fp (omega arith) k in (ground arith, ground (arith, left))

-- A `foo_hold` of the object that comes while `foo_rele` of threads/mutex2.c holds no lock counts: with
-- a count of 1 the release answers as `foo_rele` of threads/mutex3.c behind that `foo_hold`, and keeps
-- the object with one reference.
pub foo_rele-foo_hold :
    (fuel : ℕ) (t : Table) (fp : Ptr)
    → (t.objs fp).count ≡ 1
    → (foo_rele fuel (λ u. foo_hold u fp) t fp ≡ foo_rele3 fuel (foo_hold t fp) fp)
      × (u : Table) × (foo_rele fuel (λ u. foo_hold u fp) t fp ≡ done (u, kept))
      × ((u.objs fp).count ≡ 1)
unfolding foo_rele foo_rele3
foo_rele-foo_hold fuel t fp h =
    let two : ((foo_hold t fp).objs fp).count ≡ 2 =
      unfold foo_hold put in rw (eq_refl fp, h) refl in
    let left = drop_count (foo_hold t fp) fp (omega arith) (omega arith) ∙ ap (λ n. n - 1) two in
    (rw (h, two, left) refl, drop_one (foo_hold t fp) fp, rw (h, two) refl, left)
