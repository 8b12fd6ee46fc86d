-- ===== src/Engine/Worker/Order.antt =====
-- A worker refines the plain list of the jobs that were pushed: they take effect one at a time, in
-- the order of the pushes.
use orm_glib.Base.{
  ◌≡◌, refl, sym, ap, subst, ◌∙◌, Bool, true, false, Option, none, some, List, [], ◌∷◌, ◌++◌,
  append-nil, Option-cases, inl, inr, arith,
}
use orm_glib.Engine.Worker.{
  Job, body, sentinel, Worker, worker_new, push, pop, take_next, finish, thread_func, resume,
  invoke_sync, run_confined, elsewhere,
}

-- The specification: the jobs before the first sentinel, each applied to what the one before left.
abbrev pub before_shutdown : {J : Type 0} → List (Job J) → List J
before_shutdown [] = []
before_shutdown (body j ∷ q) = j ∷ before_shutdown q
before_shutdown (sentinel ∷ q) = []

abbrev pub apply_all : {J S : Type 0} → (J → S → S) → List J → S → S
apply_all run [] s = s
apply_all run (j ∷ q) s = apply_all run q (run j s)

-- The sentinel is not among the jobs.
abbrev pub IsOpen : {J : Type 0} → List (Job J) → Type 0
IsOpen [] = Unit
IsOpen (body j ∷ q) = IsOpen q
IsOpen (sentinel ∷ q) = ⊥

-- What any threads do with a worker: the pushes so far, and the worker.
pub data Runs {J S : Type 0} (run : J → S → S) (s : S) : List (Job J) → Worker J S → Type 0 where
  started : Runs run s [] (worker_new s)
  pushed :
      {q : List (Job J)} {w : Worker J S} (j : Job J)
      → Runs run s q w
      → Runs run s (q ++ j ∷ []) (push j w)
  popped : {q : List (Job J)} {w v : Worker J S} → Runs run s q w → pop w ≡ some v → Runs run s q v
  returned :
      {q : List (Job J)} {w v : Worker J S}
      → Runs run s q w
      → finish run w ≡ some v
      → Runs run s q v

-- The jobs that a worker finished, the one in hand or the sentinel that it popped, and a rest.
abbrev after_finished : {J : Type 0} → List J → List (Job J) → List (Job J)
after_finished [] rest = rest
after_finished (j ∷ done) rest = body j ∷ after_finished done rest

abbrev after_running : {J : Type 0} → Option J → Bool → List (Job J) → List (Job J)
after_running (some j) _ rest = body j ∷ rest
after_running none true rest = sentinel ∷ rest
after_running none false rest = rest

after_finished-append :
    {J : Type 0} (done : List J) (j : J) (rest : List (Job J))
    → after_finished (done ++ j ∷ []) rest ≡ after_finished done (body j ∷ rest)
after_finished-append [] j rest = refl
after_finished-append (i ∷ done) j rest = ap (λ t. body i ∷ t) (after_finished-append done j rest)

after_finished-push :
    {J : Type 0} (done : List J) (rest more : List (Job J))
    → after_finished done rest ++ more ≡ after_finished done (rest ++ more)
after_finished-push [] rest more = refl
after_finished-push (i ∷ done) rest more = ap (λ t. body i ∷ t) (after_finished-push done rest more)

after_running-push :
    {J : Type 0} (o : Option J) (b : Bool) (rest more : List (Job J))
    → after_running o b rest ++ more ≡ after_running o b (rest ++ more)
after_running-push (some j) b rest more = refl
after_running-push none true rest more = refl
after_running-push none false rest more = refl

before_shutdown-append :
    {J : Type 0} (q : List (Job J)) (j : J)
    → IsOpen q
    → before_shutdown (q ++ body j ∷ []) ≡ before_shutdown q ++ j ∷ []
before_shutdown-append [] j o = refl
before_shutdown-append (body i ∷ q) j o = ap (λ t. i ∷ t) (before_shutdown-append q j o)
before_shutdown-append (sentinel ∷ q) j o = absurd o

after_finished-IsOpen :
    {J : Type 0} (done : List J) (q : List (Job J)) → IsOpen (after_finished done q) → IsOpen q
after_finished-IsOpen [] q o = o
after_finished-IsOpen (j ∷ done) q o = after_finished-IsOpen done q o

module _ {J S : Type 0} (run : J → S → S) (s : S) where
  apply_all-append :
      (a b : List J) (t : S) → apply_all run (a ++ b) t ≡ apply_all run b (apply_all run a t)
  apply_all-append [] b t = refl
  apply_all-append (j ∷ a) b t = apply_all-append a b (run j t)

  pub record Refines (pushed : List (Job J)) (w : Worker J S) : Type 0 where
    pub in_order : after_finished w.finished (after_running w.running w.is_stopped w.queue) ≡ pushed
    pub applied : w.state ≡ apply_all run w.finished s
    pub quiet : w.is_stopped ≡ true → w.running ≡ none

  push-Refines :
      (q : List (Job J)) (w : Worker J S) (j : Job J)
      → Refines q w
      → Refines (q ++ j ∷ []) (push j w)
  unfolding push
  push-Refines q w j r = ground (
    arith,
    after_finished-push w.finished (after_running w.running w.is_stopped w.queue) (j ∷ []),
    after_running-push w.running w.is_stopped w.queue (j ∷ []),
  )

  take_next-Refines :
      (q p : List (Job J)) (w v : Worker J S)
      → p ≡ w.queue
      → w.running ≡ none
      → w.is_stopped ≡ false
      → Refines q w
      → take_next p w ≡ some v
      → Refines q v
  unfolding take_next
  take_next-Refines q [] w v e h k r t = cc
  take_next-Refines q (body j ∷ p) w v e h k r t = ground arith
  take_next-Refines q (sentinel ∷ p) w v e h k r t = ground arith

  pop-Refines : (q : List (Job J)) (w v : Worker J S) → Refines q w → pop w ≡ some v → Refines q v
  unfolding pop
  pop-Refines q w v r t = ground (arith, take_next-Refines q w.queue w v)

  finish-Refines :
      (q : List (Job J)) (w v : Worker J S) → Refines q w → finish run w ≡ some v → Refines q v
  unfolding finish
  finish-Refines q w v r t = elim (Option-cases w.running) [
    | inl idle ↦ ground arith
    | inr (j, busy) ↦
        ground (
          arith,
          after_finished-append w.finished j w.queue,
          apply_all-append w.finished (j ∷ []) s,
        )
  ]

  Runs-Refines : {q : List (Job J)} {w : Worker J S} → Runs run s q w → Refines q w
  unfolding worker_new
  Runs-Refines started = ground arith
  Runs-Refines (pushed {q = q} {w = w} j r) = push-Refines q w j (Runs-Refines r)
  Runs-Refines (popped {q = q} {w = w} {v = v} r t) = pop-Refines q w v (Runs-Refines r) t
  Runs-Refines (returned {q = q} {w = w} {v = v} r t) = finish-Refines q w v (Runs-Refines r) t

  before_shutdown-after_finished :
      (done : List J) (rest : List (Job J))
      → before_shutdown (after_finished done rest) ≡ done ++ before_shutdown rest
  before_shutdown-after_finished [] rest = refl
  before_shutdown-after_finished (j ∷ done) rest =
      ap (λ t. j ∷ t) (before_shutdown-after_finished done rest)

  take_next-some : (q : List (Job J)) (w : Worker J S) → take_next q w ≡ none → q ≡ []
  unfolding take_next
  take_next-some [] w t = refl
  take_next-some (body j ∷ q) w t = cc
  take_next-some (sentinel ∷ q) w t = cc

  -- A worker that cannot move has run everything before the sentinel.
  still :
      (w : Worker J S)
      → (w.is_stopped ≡ true → w.running ≡ none)
      → pop w ≡ none
      → finish run w ≡ none
      → before_shutdown (after_running w.running w.is_stopped w.queue) ≡ []
  unfolding pop finish
  still w quiet t u = ground (arith, take_next-some w.queue w)

  -- The jobs that are left: the one in hand and those in the queue, up to the sentinel.
  abbrev pub pending_jobs : Worker J S → List J
  pending_jobs w = before_shutdown (after_running w.running w.is_stopped w.queue)

  -- Whatever threads push jobs onto a worker, and whenever: the jobs that were pushed before the
  -- shutdown are, in the order of the pushes, those that have finished and then those that are left,
  -- and the state is what the finished ones make of it, one after the other.
  pub worker_refines :
      {q : List (Job J)} {w : Worker J S}
      → Runs run s q w
      → (before_shutdown q ≡ w.finished ++ pending_jobs w) × (w.state ≡ apply_all run w.finished s)
  worker_refines {w = w} r =
      let k = Runs-Refines r in
      let held = after_running w.running w.is_stopped w.queue in
      (
        sym (ap before_shutdown k.in_order) ∙ before_shutdown-after_finished w.finished held,
        k.applied,
      )

  -- A worker that neither runs a job nor can take one has finished all that was pushed before the
  -- shutdown.
  pub drained :
      {q : List (Job J)} {w : Worker J S}
      → Runs run s q w
      → pop w ≡ none
      → finish run w ≡ none
      → w.state ≡ apply_all run (before_shutdown q) s
  drained {w = w} r t u =
      let (order, applied) = worker_refines r in
      ground (arith, order, applied, still w ((Runs-Refines r).quiet) t u, append-nil w.finished)

  thread_func_lem :
      (q : List (Job J)) (t : S) → (thread_func run q t).1 ≡ apply_all run (before_shutdown q) t
  unfolding thread_func
  thread_func_lem [] t = refl
  thread_func_lem (body j ∷ q) t = ground (arith, thread_func_lem q (run j t))
  thread_func_lem (sentinel ∷ q) t = refl

  resume_lem :
      (o : Option J) (b : Bool) (q : List (Job J)) (t : S)
      → IsOpen (after_running o b q)
      → IsOpen q
        × (apply_all run (before_shutdown (after_running o b q)) t
            ≡ apply_all run (before_shutdown q) (resume run o t))
  resume_lem (some j) b q t o = (o, refl)
  resume_lem none true q t o = absurd o
  resume_lem none false q t o = (o, refl)

  -- A synchronous call of another thread, made before any shutdown, returns when every job that was
  -- pushed before it has taken effect, in the order of the pushes, and its own after them, whether
  -- the worker was idle, in the middle of a job or behind with its queue.
  pub run_confined_lem :
      {q : List (Job J)} {w : Worker J S} (t : S) (j : J)
      → Runs run s q w
      → IsOpen q
      → run_confined run (some w) elsewhere t j ≡ run j (apply_all run (before_shutdown q) s)
  unfolding run_confined invoke_sync push
  run_confined_lem {q} {w} t j r o =
      let k = Runs-Refines r in
      let held = after_running w.running w.is_stopped w.queue in
      let all =
        sym (ap before_shutdown k.in_order) ∙ before_shutdown-after_finished w.finished held in
      let there = after_finished-IsOpen w.finished held (subst IsOpen (sym k.in_order) o) in
      let (free, same) = resume_lem w.running w.is_stopped w.queue w.state there in
      ground (
        arith,
        all,
        same,
        k.applied,
        thread_func_lem (w.queue ++ body j ∷ []) (resume run w.running w.state),
        before_shutdown-append w.queue j free,
        apply_all-append (before_shutdown w.queue) (j ∷ []) (resume run w.running w.state),
        apply_all-append w.finished (before_shutdown held) s,
      )
