-- ===== src/Engine/Async/Liveness.antt =====
-- An operation comes to its end under every schedule: the steps are bounded, some thread can move
-- until the operation is freed, and by then its task has been returned once.
use orm_glib.Base.{
  ℕ, ◌+◌, ◌≤◌, ◌<◌, ◌≡◌, refl, ◌&&◌, Bool, true, false, Option, none, some, length, arith,
}
use orm_glib.Core.Error.{Error}
use orm_glib.Engine.Async.{
  Main, submitting, connecting, queued, may_run, refusing, refused, running, may_return, returning,
  delivering, disconnecting, settling, releasing, gone, Handler, absent, armed, interrupting,
  answering, cancelling, over, Op, Action, work, cancels, handles, submit, step, advance, handle,
  cancel, Reach, here, next,
}
use orm_glib.Engine.Async.Invariant.{Consistent, submit-Consistent, Reach-Consistent}
use orm_glib.Engine.Connection.{ConnectionState}

-- The most steps that are left to each thread.
abbrev main_left : {R : Type 0} → Main R → ℕ
main_left submitting = 16
main_left connecting = 11
main_left queued = 10
main_left may_run = 9
main_left refusing = 5
main_left refused = 4
main_left running = 8
main_left (may_return _) = 7
main_left (returning _) = 6
main_left (delivering _) = 5
main_left disconnecting = 3
main_left settling = 2
main_left releasing = 1
main_left gone = 0

abbrev handler_left : Handler → ℕ
handler_left interrupting = 3
handler_left answering = 2
handler_left cancelling = 1
handler_left _ = 0

-- A cancellation starts the handler.
abbrev cancel_left : Bool → ℕ
cancel_left true = 0
cancel_left false = 4

cancel_left_bound : (b : Bool) → cancel_left b ≤ 4
cancel_left_bound true = omega arith
cancel_left_bound false = omega arith

pub steps_left : {Db R : Type 0} → Op Db R → ℕ
steps_left o = main_left o.main + handler_left o.handler + cancel_left o.is_cancelled

module _ {Db R : Type 0} where
  handle-steps :
      (b : Bool) (h : Handler) (o q : Op Db R)
      → o.handler ≡ h
      → handle b h o ≡ some q
      → steps_left q < steps_left o
  unfolding handle steps_left
  handle-steps b interrupting o q e s = ground arith
  handle-steps b answering o q e s = ground arith
  handle-steps b cancelling o q e s = ground arith
  handle-steps b absent o q e s = cc
  handle-steps b armed o q e s = cc
  handle-steps b over o q e s = cc

  cancel-steps : (o q : Op Db R) → cancel o ≡ some q → steps_left q < steps_left o
  unfolding cancel steps_left
  cancel-steps o q s = ground arith

  advance-steps :
      (error : R → Option Error) (x : Db × R) (m : Main R) (o q : Op Db R)
      → o.main ≡ m
      → Consistent o
      → advance error x m o ≡ some q
      → steps_left q < steps_left o
  unfolding advance steps_left
  advance-steps error (db, r) gone o q e c s = cc
  advance-steps error (db, r) m o q e c s = ground arith

  step-steps :
      (error : R → Option Error) (a : Action Db R) (o q : Op Db R)
      → Consistent o
      → step error a o ≡ some q
      → steps_left q < steps_left o
  unfolding step
  step-steps error (work x) o q c s = advance-steps error x o.main o q refl c s
  step-steps error cancels o q c s = cancel-steps o q s
  step-steps error (handles b) o q c s = handle-steps b o.handler o q refl s

  Reach-steps :
      (error : R → Option Error) (o : Op Db R) {n : ℕ} {q : Op Db R}
      → Consistent o
      → Reach error o n q
      → n + steps_left q ≤ steps_left o
  Reach-steps error o c here = omega arith
  Reach-steps error o c (next {p = p} a r s) =
      omega
        (arith, Reach-steps error o c r, step-steps error a p _ (Reach-Consistent error o c r) s)

  at_most_one : (q : Op Db R) → Consistent q → length q.returned ≤ 1
  at_most_one q k = ground arith

  -- However the submission, the worker, the canceller and the handler interleave, and whatever the
  -- driver and its interrupt answer: after n steps n is at most 20, and the task of the operation
  -- has been returned at most once.
  pub steps_bounded :
      (error : R → Option Error) (has_cancellable is_cancelled : Bool) (db : Db)
      (state : ConnectionState) {n : ℕ} {q : Op Db R}
      → Reach error (submit has_cancellable is_cancelled db state) n q
      → (n ≤ 20) × (length q.returned ≤ 1)
  unfolding submit steps_left
  steps_bounded error h c db state {q = q} r =
      let begun = submit-Consistent h c db state in
      (
        omega (arith, Reach-steps error (submit h c db state) begun r, cancel_left_bound (h && c)),
        at_most_one q (Reach-Consistent error (submit h c db state) begun r),
      )

  -- The threads that serve the operation, without the one that may cancel it, cannot move.
  abbrev pub IsStuck : (R → Option Error) → Op Db R → Type 0
  IsStuck error o =
      ((x : Db × R) → step error (work x) o ≡ none) × ((b : Bool) → step error (handles b) o ≡ none)

  stuck_main :
      (error : R → Option Error) (db : Db) (r : R) (m : Main R) (o : Op Db R)
      → o.main ≡ m
      → Consistent o
      → advance error (db, r) m o ≡ none
      → handle true o.handler o ≡ none
      → o.main ≡ gone
  unfolding advance handle
  stuck_main error db r gone o e c s t = e
  stuck_main error db r m o e c s t = ground arith

  gone-returned :
      (q : Op Db R)
      → Consistent q
      → q.main ≡ gone
      → (length q.returned ≡ 1) × (q.ref_count ≡ 0) × (q.main ≡ gone)
  gone-returned q k e = ground arith

  -- Where the worker and the handler have no step left, whatever the driver would answer, the worker
  -- is done with the operation, its task has been returned exactly once, and its last reference was
  -- released: no schedule leaves a caller without an answer.
  pub stuck-returned :
      (error : R → Option Error) (has_cancellable is_cancelled : Bool) (db : Db) (answer : R)
      (state : ConnectionState) {n : ℕ} {q : Op Db R}
      → Reach error (submit has_cancellable is_cancelled db state) n q
      → IsStuck error q
      → (length q.returned ≡ 1) × (q.ref_count ≡ 0) × (q.main ≡ gone)
  unfolding step
  stuck-returned error h c db answer state {q = q} r (w, t) =
      let k = Reach-Consistent error (submit h c db state) (submit-Consistent h c db state) r in
      gone-returned q k (stuck_main error db answer q.main q refl k (w (db, answer)) (t true))
