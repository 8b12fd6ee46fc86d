-- ===== src/Engine/Worker/Samples.antt =====
-- A worker whose jobs write a digit behind a number.
use orm_glib.Base.{ℕ, ◌+◌, ◌*◌, ◌≡◌, refl, true, false, none, some, [], ◌∷◌, ◌++◌}
use orm_glib.Engine.Worker.{
  body, sentinel, Worker, worker_new, push, pop, finish, run_confined, elsewhere,
}
use orm_glib.Engine.Worker.Order.{
  Runs, started, pushed, popped, returned, before_shutdown, apply_all, worker_refines, drained,
  pending_jobs, run_confined_lem,
}

abbrev write_digit : ℕ → ℕ → ℕ
write_digit j s = 10 * s + j

-- Two jobs were pushed; the first one is running.
abbrev half_way : Worker ℕ ℕ
half_way = record {
  queue = body 2 ∷ [];
  running = some 1;
  finished = [];
  is_stopped = false;
  state = 0;
}

half_way-Runs : Runs write_digit 0 (body 1 ∷ body 2 ∷ []) half_way
unfolding push pop worker_new
half_way-Runs = popped (pushed (body 2) (pushed (body 1) started)) refl

run_confined_example :
    run_confined write_digit (some half_way) elsewhere 0 3
    ≡ write_digit 3 (apply_all write_digit (before_shutdown (body 1 ∷ body 2 ∷ [])) 0)
run_confined_example = run_confined_lem write_digit 0 0 3 half_way-Runs tt

run_confined_digits : run_confined write_digit (some half_way) elsewhere 0 3 ≡ 123
unfolding run_confined
run_confined_digits = refl

-- The worker was shut down with a job behind the sentinel, which never runs.
abbrev stopped : Worker ℕ ℕ
stopped = record {
  queue = body 9 ∷ [];
  running = none;
  finished = 1 ∷ [];
  is_stopped = true;
  state = 1;
}

stopped-Runs : Runs write_digit 0 (body 1 ∷ sentinel ∷ body 9 ∷ []) stopped
unfolding push pop worker_new finish
stopped-Runs =
    popped
      (returned (popped (pushed (body 9) (pushed sentinel (pushed (body 1) started))) refl) refl)
      refl

worker_refines_example :
    (before_shutdown (body 1 ∷ body 2 ∷ [])
      ≡ half_way.finished ++ pending_jobs write_digit 0 half_way)
    × (half_way.state ≡ apply_all write_digit half_way.finished 0)
worker_refines_example = worker_refines write_digit 0 half_way-Runs

stopped_state : stopped.state ≡ 1
unfolding pop finish
stopped_state = drained write_digit 0 stopped-Runs refl refl
