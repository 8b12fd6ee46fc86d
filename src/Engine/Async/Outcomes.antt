-- ===== src/Engine/Async/Outcomes.antt =====
-- What a cancellation does to an operation, by the moment at which it comes.
use orm_glib.Base.{ℕ, ◌≡◌, refl, Bool, true, false, Option, some, List, [], All, arith}
use orm_glib.Core.Error.{Error}
use orm_glib.Engine.Async.{
  Outcome, cancelled_error, Main, submitting, connecting, queued, may_run, running, may_return,
  returning, delivering, disconnecting, settling, releasing, gone, Handler, absent, Op, Action,
  work, cancels, handles, step, advance, handle, cancel, Reach, here, next,
}
use orm_glib.Engine.Async.Invariant.{Consistent, step-Consistent}
use orm_glib.Engine.Connection.{ConnectionState, idle, busy}

-- The worker has not read the cancellable in task_may_run.
abbrev pub is_before : {R : Type 0} → Main R → Bool
is_before submitting = true
is_before connecting = true
is_before queued = true
is_before may_run = true
is_before _ = false

-- No result of the driver is on its way.
abbrev pub is_idle : {R : Type 0} → Main R → Bool
is_idle running = false
is_idle (may_return _) = false
is_idle (returning _) = false
is_idle (delivering _) = false
is_idle _ = true

-- The worker has not read, in task_may_return, that the operation is not cancelled.
abbrev pub is_undelivered : {R : Type 0} → Main R → Bool
is_undelivered (delivering _) = false
is_undelivered _ = true

-- The state as the worker leaves it, if it does not reach the driver.
abbrev Marked : {R : Type 0} → Main R → ConnectionState → Type 0
Marked disconnecting s = s ≡ busy
Marked settling s = s ≡ busy
Marked releasing s = s ≡ idle
Marked gone s = s ≡ idle
Marked _ s = Unit

abbrev pub AllCancelled : {R : Type 0} → List (Outcome R) → Type 0
AllCancelled outcomes = All (λ c. c ≡ cancelled_error) outcomes

module _ {Db R : Type 0} where
  -- What a cancellation brings about and keeps.
  record Dropped (o : Op Db R) : Type 0 where
    is_cancelled : o.is_cancelled ≡ true
    undelivered : is_undelivered o.main ≡ true
    all_cancelled : AllCancelled o.returned

  handle-Dropped :
      (b : Bool) (h : Handler) (o q : Op Db R) → Dropped o → handle b h o ≡ some q → Dropped q
  unfolding handle
  handle-Dropped b absent o q d s = cc
  handle-Dropped b h o q d s = ground arith

  advance-Dropped :
      (error : R → Option Error) (x : Db × R) (m : Main R) (o q : Op Db R)
      → o.main ≡ m
      → Dropped o
      → advance error x m o ≡ some q
      → Dropped q
  unfolding advance
  advance-Dropped error (db, r) gone o q e d s = cc
  advance-Dropped error (db, r) m o q e d s = ground arith

  step-Dropped :
      (error : R → Option Error) (a : Action Db R) (o q : Op Db R)
      → Dropped o
      → step error a o ≡ some q
      → Dropped q
  unfolding step cancel
  step-Dropped error (work x) o q d s = advance-Dropped error x o.main o q refl d s
  step-Dropped error cancels o q d s = ground arith
  step-Dropped error (handles b) o q d s = handle-Dropped b o.handler o q d s

  Reach-Dropped :
      (error : R → Option Error) (o : Op Db R) {n : ℕ} {q : Op Db R}
      → Dropped o
      → Reach error o n q
      → Dropped q
  Reach-Dropped error o d here = d
  Reach-Dropped error o d (next {p = p} a r s) =
      step-Dropped error a p _ (Reach-Dropped error o d r) s

  -- Where an operation is cancelled, its task was not returned, and its job has not yet read in
  -- task_may_return that it is not cancelled, every return that any schedule makes afterwards is
  -- G_IO_ERROR_CANCELLED: no result of the driver is handed to the task.
  pub cancelled_outcome :
      (error : R → Option Error) (o : Op Db R) {n : ℕ} {q : Op Db R}
      → o.is_cancelled ≡ true
      → o.returned ≡ []
      → is_undelivered o.main ≡ true
      → Reach error o n q
      → AllCancelled q.returned
  cancelled_outcome error o c e u r =
      let start : Dropped o = record {
        is_cancelled = c;
        undelivered = u;
        all_cancelled = rw e tt;
      } in
      (Reach-Dropped error o start r).all_cancelled

  record Kept (db : Db) (o : Op Db R) : Type 0 where
    is_cancelled : o.is_cancelled ≡ true
    away : is_idle o.main ≡ true
    untouched : o.db ≡ db
    marked : Marked o.main o.state

  handle-Kept :
      (db : Db) (b : Bool) (h : Handler) (o q : Op Db R)
      → Kept db o
      → handle b h o ≡ some q
      → Kept db q
  unfolding handle
  handle-Kept db b absent o q d s = cc
  handle-Kept db b h o q d s = ground arith

  advance-Kept :
      (db : Db) (error : R → Option Error) (x : Db × R) (m : Main R) (o q : Op Db R)
      → o.main ≡ m
      → Consistent o
      → Kept db o
      → advance error x m o ≡ some q
      → Kept db q
  unfolding advance
  advance-Kept db error (d, r) gone o q e c k s = cc
  advance-Kept db error (d, r) m o q e c k s = ground arith

  step-Kept :
      (db : Db) (error : R → Option Error) (a : Action Db R) (o q : Op Db R)
      → Consistent o
      → Kept db o
      → step error a o ≡ some q
      → Kept db q
  unfolding step cancel
  step-Kept db error (work x) o q c k s = advance-Kept db error x o.main o q refl c k s
  step-Kept db error cancels o q c k s = ground arith
  step-Kept db error (handles b) o q c k s = handle-Kept db b o.handler o q k s

  Reach-Kept :
      (error : R → Option Error) (o : Op Db R) {n : ℕ} {q : Op Db R}
      → Consistent o
      → Kept o.db o
      → Reach error o n q
      → Consistent q × Kept o.db q
  Reach-Kept error o c k here = (c, k)
  Reach-Kept error o c k (next {p = p} a r s) =
      let (c', k') = Reach-Kept error o c k r in
      (step-Consistent error a p _ c' s, step-Kept o.db error a p _ c' k' s)

  before-Kept :
      (m : Main R) (o : Op Db R)
      → o.main ≡ m
      → is_before o.main ≡ true
      → o.is_cancelled ≡ true
      → Kept o.db o
  before-Kept gone o e b c = cc
  before-Kept m o e b c = ground arith

  gone-idle : (db : Db) (q : Op Db R) → Kept db q → q.main ≡ gone → q.state ≡ idle
  gone-idle db q k e = ground arith

  -- An operation that is cancelled before the worker looks never reaches the driver: under every
  -- schedule, once the operation is gone, the database is as it was, and the connection's state is
  -- IDLE, whatever it was before, so that a connection that was CLOSED is reported as idle.
  pub cancelled_early :
      (error : R → Option Error) (o : Op Db R) {n : ℕ} {q : Op Db R}
      → Consistent o
      → is_before o.main ≡ true
      → o.is_cancelled ≡ true
      → Reach error o n q
      → q.main ≡ gone
      → (q.db ≡ o.db) × (q.state ≡ idle)
  cancelled_early error o {q = q} c b e r g =
      let k = (Reach-Kept error o c (before-Kept o.main o refl b e) r).1 in
      (k.untouched, gone-idle o.db q k g)
