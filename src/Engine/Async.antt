-- ===== src/Engine/Async.antt =====
-- engine/orm-connection.c: one asynchronous operation, from orm_connection_submit_async to the last
-- orm_connection_op_unref. Three threads act on it: the one that submits it and then the worker
-- (`Main`), the one that cancels, and the cancel handler (`Handler`), which runs on the thread that
-- cancels. Each step is one access of what they share.
pub mod Invariant
pub mod Liveness
pub mod Outcomes
mod Samples
use orm_glib.Base.{
  ℕ, zero, suc, ◌+◌, ◌-◌, ◌≡◌, not, ◌&&◌, Bool, true, false, Option, none, some, List, [], ◌∷◌,
  if◌then◌else◌,
}
use orm_glib.Core.Error.{Error, connection_failed, connection_closed, connection}
use orm_glib.Engine.Connection.{ConnectionState, idle, busy, closed}

-- What a g_task_return_* call hands to the task: G_IO_ERROR_CANCELLED, or what the job produced.
pub data Outcome (R : Type 0) : Type 0 where
  cancelled_error : Outcome R
  produced : R → Outcome R

-- Where the submitting thread, and then the worker, stands in submit_async, op_run, the job and
-- orm_worker_job_free.
pub data Main (R : Type 0) : Type 0 where
  -- before g_cancellable_connect
  submitting : Main R
  -- inside g_cancellable_connect, which runs the handler at once if the cancellable is cancelled
  connecting : Main R
  -- in the worker's queue
  queued : Main R
  -- in task_may_run, before it reads the cancellable
  may_run : Main R
  -- in task_may_run, having read that it is cancelled
  refusing : Main R
  -- in task_may_run, having won the exchange
  refused : Main R
  -- before the call of the driver
  running : Main R
  -- in task_may_return
  may_return : R → Main R
  -- in task_may_return, having won the exchange
  returning : R → Main R
  -- back in the job, having read in task_may_return that the operation is not cancelled
  delivering : R → Main R
  -- the job is over: before g_cancellable_disconnect
  disconnecting : Main R
  -- before the state is set back
  settling : Main R
  -- before orm_worker_job_free
  releasing : Main R
  gone : Main R

-- The cancel handler, orm_connection_op_cancelled.
pub data Handler : Type 0 where
  -- not connected: there is no cancellable, or it was disconnected
  absent : Handler
  armed : Handler
  -- before the call of orm_connection_interrupt
  interrupting : Handler
  -- before the exchange
  answering : Handler
  -- having won the exchange
  cancelling : Handler
  -- returned
  over : Handler

-- OrmConnectionOp, with its GTask and GCancellable, and what it uses of the connection. `returned`
-- lists the g_task_return_* calls, the last one first; `db` is what the driver's handle reaches.
pub record Op (Db R : Type 0) : Type 0 where
  pub main : Main R
  pub handler : Handler
  pub has_cancellable : Bool
  pub is_cancelled : Bool
  pub answered : Bool
  pub ref_count : ℕ
  pub returned : List (Outcome R)
  pub db : Db
  pub state : ConnectionState

-- One step of any thread: the worker's with what the driver would leave, the canceller's, and the
-- handler's with the answer of orm_connection_interrupt.
pub data Action (Db R : Type 0) : Type 0 where
  work : Db × R → Action Db R
  cancels : Action Db R
  handles : Bool → Action Db R

-- orm_connection_note_error: which errors mean that the connection is gone.
unfoldable pub note_error : Option Error → ConnectionState → ConnectionState
note_error (some connection) s = closed
note_error (some connection_failed) s = closed
note_error (some connection_closed) s = closed
note_error _ s = s

-- The end of orm_connection_op_run.
unfoldable pub settle : ConnectionState → ConnectionState
settle closed = closed
settle _ = idle

-- g_cancellable_disconnect waits for a handler that is running.
unfoldable pub is_waiting : Handler → Bool
is_waiting interrupting = true
is_waiting answering = true
is_waiting cancelling = true
is_waiting _ = false

module _ {Db R : Type 0} where
  -- orm_connection_submit_async up to the connection of the handler.
  unfoldable pub submit : Bool → Bool → Db → ConnectionState → Op Db R
  submit has_cancellable is_cancelled db state = record {
    main = submitting;
    handler = absent;
    has_cancellable = has_cancellable;
    is_cancelled = has_cancellable && is_cancelled;
    answered = false;
    ref_count = 1;
    returned = [];
    db = db;
    state = state;
  }

  -- g_cancellable_connect, with the reference that the handler holds.
  unfoldable pub connect : Op Db R → Op Db R
  connect o =
      if o.has_cancellable
      then (if o.is_cancelled
          then record o { main = connecting; handler = interrupting; ref_count = o.ref_count + 1 }
          else record o { main = queued; handler = armed; ref_count = o.ref_count + 1 })
      else record o { main = queued }

  -- orm_connection_task_answer: whether the exchange is won, and the operation after it.
  unfoldable pub task_answer : Op Db R → Bool × Op Db R
  task_answer o = (not o.answered, record o { answered = true })

  -- The steps of orm_connection_task_may_run: the look at the cancellable, the exchange, and the
  -- return. A job that may not run is over.
  unfoldable pub may_run_step : Main R → Op Db R → Option (Op Db R)
  unfolding task_answer
  may_run_step may_run o = some record o { main = if o.is_cancelled then refusing else running }
  may_run_step refusing o =
      let (won, p) = task_answer o in
      some record p { main = if won then refused else disconnecting }
  may_run_step refused o = some record o {
    main = disconnecting;
    returned = if o.is_cancelled then cancelled_error ∷ o.returned else o.returned;
  }
  may_run_step _ o = none

  -- The steps of orm_connection_task_may_return: the exchange, and the return of the error if the
  -- operation was cancelled. If it was not, the job goes on.
  unfoldable pub may_return_step : Main R → Op Db R → Option (Op Db R)
  unfolding task_answer
  may_return_step (may_return r) o =
      let (won, p) = task_answer o in
      some record p { main = if won then returning r else disconnecting }
  may_return_step (returning r) o =
      if o.is_cancelled
      then some record o { main = disconnecting; returned = cancelled_error ∷ o.returned }
      else some record o { main = delivering r }
  may_return_step _ o = none

  -- The end of a job, after task_may_return: g_task_return_boolean, _pointer or _error, which do not
  -- look at the cancellable.
  unfoldable pub return_result : R → Op Db R → Op Db R
  return_result r o = record o { main = disconnecting; returned = produced r ∷ o.returned }

  -- The steps of orm_connection_op_run around the job.
  unfoldable pub op_run_step : Main R → Op Db R → Option (Op Db R)
  unfolding settle
  op_run_step queued o = some record o { main = may_run; state = busy }
  op_run_step disconnecting o = elim o.handler [
    | absent ↦ some record o { main = settling }
    | armed ↦ some record o { main = settling; handler = absent; ref_count = o.ref_count - 1 }
    | over ↦ some record o { main = settling; handler = absent; ref_count = o.ref_count - 1 }
    | _ ↦ none
  ]
  op_run_step settling o = some record o { main = releasing; state = settle o.state }
  op_run_step _ o = none

  -- The next step of the submitting thread or the worker; `none` while it waits. The pair is what
  -- the call of the driver leaves, if that is the step, and `error` reads the error that it sets.
  unfoldable pub advance : (R → Option Error) → Db × R → Main R → Op Db R → Option (Op Db R)
  unfolding connect may_run_step may_return_step return_result op_run_step note_error is_waiting
  advance error (db, r) submitting o = some (connect o)
  advance error (db, r) connecting o =
      if is_waiting o.handler
      then none
      else some record o { main = queued; handler = absent; ref_count = o.ref_count - 1 }
  advance error (db, r) queued o = op_run_step queued o
  advance error (db, r) may_run o = may_run_step may_run o
  advance error (db, r) refusing o = may_run_step refusing o
  advance error (db, r) refused o = may_run_step refused o
  advance error (db, r) running o =
      some record o { main = may_return r; db = db; state = note_error (error r) o.state }
  advance error (db, r) (may_return q) o = may_return_step (may_return q) o
  advance error (db, r) (returning q) o = may_return_step (returning q) o
  advance error (db, r) (delivering q) o = some (return_result q o)
  advance error (db, r) disconnecting o = op_run_step disconnecting o
  advance error (db, r) settling o = op_run_step settling o
  advance error (db, r) releasing o = some record o { main = gone; ref_count = o.ref_count - 1 }
  advance error (db, r) gone o = none

  -- g_cancellable_cancel: the flag, and the handler if one is connected. Twice does nothing.
  unfoldable pub cancel : Op Db R → Option (Op Db R)
  cancel o =
      if o.has_cancellable && not o.is_cancelled
      then some record o {
        is_cancelled = true;
        handler = elim o.handler [ armed ↦ interrupting | h ↦ h ];
      }
      else none

  -- The next step of orm_connection_op_cancelled; `interrupted` is what orm_connection_interrupt
  -- answers.
  unfoldable pub handle : Bool → Handler → Op Db R → Option (Op Db R)
  unfolding task_answer
  handle interrupted interrupting o =
      some record o { handler = if interrupted then over else answering }
  handle interrupted answering o =
      let (won, p) = task_answer o in some record p { handler = if won then cancelling else over }
  handle interrupted cancelling o =
      some record o { handler = over; returned = cancelled_error ∷ o.returned }
  handle interrupted _ o = none

  unfoldable pub step : (R → Option Error) → Action Db R → Op Db R → Option (Op Db R)
  unfolding advance cancel handle
  step error (work result) o = advance error result o.main o
  step error cancels o = cancel o
  step error (handles interrupted) o = handle interrupted o.handler o

-- What the threads can reach from an operation, in a number of steps.
pub data Reach {Db R : Type 0} (error : R → Option Error) (o : Op Db R) : ℕ → Op Db R → Type 0 where
  here : Reach error o zero o
  next :
      {n : ℕ} {p q : Op Db R} (a : Action Db R)
      → Reach error o n p
      → step error a p ≡ some q
      → Reach error o (suc n) q
