-- ===== src/Engine/Async/Samples.antt =====
-- Schedules of one operation, whose database is a counter of the statements that reached it.
use orm_glib.Base.{ℕ, suc, ◌≤◌, ◌≡◌, refl, true, false, Option, none, [], ◌∷◌, length}
use orm_glib.Core.Error.{Error, Status, ok, failed}
use orm_glib.Engine.Async.{
  cancelled_error, produced, queued, gone, Handler, absent, armed, Op, Action, work, cancels,
  handles, submit, step, Reach, here, next,
}
use orm_glib.Engine.Async.Invariant.{Consistent, submit-Consistent, Reach-Consistent}
use orm_glib.Engine.Async.Liveness.{IsStuck, steps_bounded, stuck-returned}
use orm_glib.Engine.Async.Outcomes.{AllCancelled, cancelled_outcome, cancelled_early}
use orm_glib.Engine.Connection.{idle, closed}

abbrev error_of : Status → Option Error
error_of ok = none
error_of (failed e) = e

-- The driver runs one more statement.
abbrev one_more : ℕ → Action ℕ Status
one_more n = work (suc n, ok)

-- An operation without a cancellable, from its submission to its end.
abbrev plain : Op ℕ Status
plain = submit false false 0 idle

abbrev ended : Op ℕ Status
ended = record {
  main = gone;
  handler = absent;
  has_cancellable = false;
  is_cancelled = false;
  answered = true;
  ref_count = 0;
  returned = produced ok ∷ [];
  db = 1;
  state = idle;
}

plain_run : Reach error_of plain 10 ended
unfolding step submit
plain_run =
    next (one_more 0)
      (next (one_more 0)
        (next (one_more 0)
          (next (one_more 0)
            (next (one_more 0)
              (next (one_more 0)
                (next (one_more 0)
                  (next (one_more 0) (next (one_more 0) (next (one_more 0) here refl) refl) refl)
                  refl)
                refl)
              refl)
            refl)
          refl)
        refl)
      refl

-- On a closed connection, an operation that is cancelled in the queue.
abbrev waiting : Op ℕ Status
waiting = record {
  main = queued;
  handler = armed;
  has_cancellable = true;
  is_cancelled = false;
  answered = false;
  ref_count = 2;
  returned = [];
  db = 0;
  state = closed;
}

waiting_run : Reach error_of (submit true false 0 closed) 1 waiting
unfolding step submit
waiting_run = next (one_more 0) here refl

abbrev dropped : Op ℕ Status
dropped = record waiting { is_cancelled = true; handler = Handler.interrupting }

dropped_run : Reach error_of (submit true false 0 closed) 2 dropped
unfolding step
dropped_run = next cancels waiting_run refl

-- The backend cannot be interrupted, so the handler answers the task; the worker drops the job.
abbrev dropped_end : Op ℕ Status
dropped_end = record {
  main = gone;
  handler = absent;
  has_cancellable = true;
  is_cancelled = true;
  answered = true;
  ref_count = 0;
  returned = cancelled_error ∷ [];
  db = 0;
  state = idle;
}

dropped_end_run : Reach error_of dropped 9 dropped_end
unfolding step
dropped_end_run =
    next (one_more 0)
      (next (one_more 0)
        (next (one_more 0)
          (next (one_more 0)
            (next (one_more 0)
              (next (one_more 0)
                (next (handles false) (next (handles false) (next (handles false) here refl) refl)
                  refl)
                refl)
              refl)
            refl)
          refl)
        refl)
      refl

cancelled_outcome_example : AllCancelled dropped_end.returned
cancelled_outcome_example = cancelled_outcome error_of dropped refl refl refl dropped_end_run

dropped-Consistent : Consistent dropped
dropped-Consistent =
    Reach-Consistent error_of (submit true false 0 closed) (submit-Consistent true false 0 closed)
      dropped_run

cancelled_early_example : (dropped_end.db ≡ dropped.db) × (dropped_end.state ≡ idle)
cancelled_early_example =
    cancelled_early error_of dropped dropped-Consistent refl refl dropped_end_run refl

steps_bounded_example : (2 ≤ 20) × (length dropped.returned ≤ 1)
steps_bounded_example = steps_bounded error_of true false 0 closed dropped_run

ended-IsStuck : IsStuck error_of ended
unfolding step
ended-IsStuck = (λ x. refl, λ b. refl)

stuck-returned_example : (length ended.returned ≡ 1) × (ended.ref_count ≡ 0) × (ended.main ≡ gone)
stuck-returned_example = stuck-returned error_of false false 0 ok idle plain_run ended-IsStuck
