-- ===== src/Engine/Worker.antt =====
-- engine/orm-worker.c: the thread that a connection's work runs on, and its queue of jobs. GAsyncQueue
-- is a first-in first-out queue, as GLib documents. A job is what it does to the state that only the
-- worker's thread touches.
pub mod Order
mod Samples
use orm_glib.Base.{Bool, true, false, Option, none, some, List, [], ◌∷◌, ◌++◌, if◌then◌else◌}

-- OrmWorkerJob: a job, or the sentinel, a job with no body.
pub data Job (J : Type 0) : Type 0 where
  body : J → Job J
  sentinel : Job J

-- OrmWorker with the state that its jobs work on. `running` is the job that thread_func has popped;
-- `finished` lists the jobs that have returned, the first one first.
pub record Worker (J S : Type 0) : Type 0 where
  pub queue : List (Job J)
  pub running : Option J
  pub finished : List J
  pub is_stopped : Bool
  pub state : S

-- Where orm_connection_run_confined is called.
pub data Caller : Type 0 where
  on_the_worker elsewhere : Caller

module _ {J S : Type 0} where
  unfoldable pub worker_new : S → Worker J S
  worker_new s = record { queue = []; running = none; finished = []; is_stopped = false; state = s }

  unfoldable pub push : Job J → Worker J S → Worker J S
  push j w = record w { queue = w.queue ++ j ∷ [] }

  -- The queue of orm_worker_shutdown, which then waits for the thread to end.
  unfoldable pub shutdown : Worker J S → Worker J S
  unfolding push
  shutdown w = push sentinel w

  -- g_async_queue_pop in orm_worker_thread_func, and the test for the sentinel; `none` while it
  -- waits.
  unfoldable pub take_next : List (Job J) → Worker J S → Option (Worker J S)
  take_next [] w = none
  take_next (body j ∷ q) w = some record w { queue = q; running = some j }
  take_next (sentinel ∷ q) w = some record w { queue = q; is_stopped = true }

  unfoldable pub pop : Worker J S → Option (Worker J S)
  unfolding take_next
  pop w =
      if w.is_stopped then none else elim w.running [ none ↦ take_next w.queue w | some _ ↦ none ]

  module _ (run : J → S → S) where
    -- The return of job->run.
    unfoldable pub finish : Worker J S → Option (Worker J S)
    finish w = elim w.running [
      | none ↦ none
      | some j ↦
          some record w { running = none; finished = w.finished ++ j ∷ []; state = run j w.state }
    ]

    -- orm_worker_thread_func on the jobs that are queued: the jobs that it runs, and the state.
    unfoldable pub thread_func : List (Job J) → S → List J × S
    thread_func [] s = ([], s)
    thread_func (body j ∷ q) s = let (done, t) = thread_func q (run j s) in (j ∷ done, t)
    thread_func (sentinel ∷ q) s = ([], s)

    -- The job that the thread has in hand comes first.
    abbrev pub resume : Option J → S → S
    resume none s = s
    resume (some j) s = run j s

    -- orm_worker_invoke_sync of another thread: the call returns when the job that it queues is
    -- done.
    unfoldable pub invoke_sync : Worker J S → J → S
    unfolding thread_func push
    invoke_sync w j = (thread_func (push (body j) w).queue (resume w.running w.state)).1

    -- orm_connection_run_confined, where there may be no worker.
    unfoldable pub run_confined : Option (Worker J S) → Caller → S → J → S
    unfolding invoke_sync
    run_confined none c s j = run j s
    run_confined (some w) on_the_worker s j = run j s
    run_confined (some w) elsewhere s j = invoke_sync w j
