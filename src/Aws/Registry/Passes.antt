-- ===== src/Aws/Registry/Passes.antt =====
-- crates/hand-brain-aws/src/registry.rs: the condition of a write passes on the row of each record
-- that the memory registry would change.
use text.Mathlib.TextEquality.{eq_iff}
use hands.Base.{◌≡◌, true, some, arith}
use hands.Core.Materialization.Record.{
  Disposition, DurableTargetState, materializing, closed, DurableTargetRecord,
}
use hands.Aws.Registry.Item.{string, Row, same_attribute}
use hands.Aws.Registry.Expression.{holds}
use hands.Aws.Registry.Rows.{IsStateRow}
use hands.Aws.Registry.Refine.{
  RowWrite, reseals_expired, reseals_lost, takes, installs, closes, tests_of, Guard,
}

pub Guard-holds :
    (w : RowWrite) (x : DurableTargetRecord) (st : DurableTargetState) (row : Row)
    → IsStateRow st row
    → row "generation" ≡ some (string x.generation)
    → row "spec_digest" ≡ some (string x.spec_digest)
    → Guard w x st
    → holds (tests_of w) row ≡ true
unfolding holds same_attribute
Guard-holds (reseals_expired old l now) x (materializing b) row s g d h =
    ground (arith, eq_iff b.reservation_id old, eq_iff x.spec_digest l.spec_digest)
Guard-holds (reseals_lost current l now) x (closed Disposition.lost reason at_ms) row s g d h =
    ground (arith, eq_iff x.generation current.generation, eq_iff x.spec_digest l.spec_digest)
Guard-holds (takes current a q expires) x (materializing b) row s g d h = ground (
  arith,
  eq_iff b.reservation_id a.reservation_id,
  eq_iff b.attempt_id a.attempt_id,
  eq_iff x.generation current.generation,
  eq_iff x.spec_digest current.spec_digest,
)
Guard-holds (installs l target now) x (materializing b) row s g d h = ground (
  arith,
  eq_iff b.reservation_id l.reservation_id,
  eq_iff x.generation l.generation,
  eq_iff x.spec_digest l.spec_digest,
)
Guard-holds (closes target e reason now) x (DurableTargetState.installed p) row s g d h = ground (
  arith,
  eq_iff p.target_ref target.target_ref,
  eq_iff x.generation target.generation,
  eq_iff x.spec_digest target.spec_digest,
)
Guard-holds (reseals_expired old l now) x (closed e r a) row s g d h = elim h [ ]
Guard-holds (reseals_lost c l now) x (materializing b) row s g d h = elim h [ ]
Guard-holds (reseals_lost c l now) x (DurableTargetState.installed p) row s g d h = elim h [ ]
Guard-holds (takes c a q expires) x (DurableTargetState.installed p) row s g d h = elim h [ ]
Guard-holds (takes c a q expires) x (closed e r t) row s g d h = elim h [ ]
Guard-holds (installs l target now) x (DurableTargetState.installed p) row s g d h = elim h [ ]
Guard-holds (installs l target now) x (closed e r a) row s g d h = elim h [ ]
Guard-holds (closes target e reason now) x (materializing b) row s g d h = elim h [ ]
Guard-holds (closes target e reason now) x (closed o r a) row s g d h = elim h [ ]
Guard-holds (reseals_expired old l now) x (DurableTargetState.installed p) row s g d h = elim h [ ]
Guard-holds (reseals_lost current l now) x (closed Disposition.terminated r a) row s g d h =
    elim h [ ]
