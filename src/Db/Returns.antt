-- ===== src/Db/Returns.antt =====
-- Total correctness of a command on a database: it stops neither on an error nor in an endless chain,
-- and its result and its final state satisfy a condition.
use apue_2e.Db.State.{Db, Run, ok, Cmd, and_then}

pub data Returns {A : Type 0} (P : A → Db → Type 0) : Run A → Type 0 where
  returns : {a : A} {s : Db} → P a s → Returns P (ok a s)

module _ {A : Type 0} {P : A → Db → Type 0} where
  pub bind :
      {B : Type 0} {Q : B → Db → Type 0} {r : Run A} {k : A → Cmd B}
      → Returns P r
      → ((a : A) (t : Db) → P a t → Returns Q (k a t))
      → Returns Q (and_then r k)
  bind (returns {a} {s} p) next = next a s p

  pub mono :
      {Q : A → Db → Type 0} {r : Run A}
      → Returns P r
      → ((a : A) (t : Db) → P a t → Q a t)
      → Returns Q r
  mono (returns {a} {s} p) weaken = returns (weaken a s p)
