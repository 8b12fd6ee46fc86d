-- ===== src/Engine/Async/Invariant.antt =====
-- What the threads of an operation keep: the exchange on `answered` has one winner, and the
-- references are those of the threads that will still use the operation.
use orm_glib.Base.{ℕ, ◌+◌, ◌≡◌, refl, ◌⊎◌, Bool, true, false, Option, some, length, arith}
use orm_glib.Core.Error.{Error}
use orm_glib.Engine.Async.{
  Main, submitting, connecting, may_run, refusing, refused, running, returning, delivering,
  disconnecting, settling, releasing, gone, Handler, absent, armed, interrupting, answering,
  cancelling, over, Op, Action, work, cancels, handles, submit, step, advance, handle, cancel,
  Reach, here, next,
}
use orm_glib.Engine.Connection.{ConnectionState, busy}

-- The returns that a thread is about to make.
abbrev pub owed_by_main : {R : Type 0} → Main R → ℕ
owed_by_main refused = 1
owed_by_main (returning _) = 1
owed_by_main (delivering _) = 1
owed_by_main _ = 0

abbrev pub owed_by_handler : Handler → ℕ
owed_by_handler cancelling = 1
owed_by_handler _ = 0

-- The references: the worker job's, and the connected handler's.
abbrev pub held_by_main : {R : Type 0} → Main R → ℕ
held_by_main gone = 0
held_by_main _ = 1

abbrev pub held_by_handler : Handler → ℕ
held_by_handler absent = 0
held_by_handler _ = 1

abbrev pub one_if : Bool → ℕ
one_if true = 1
one_if false = 0

-- Where the main thread is past its exchange.
abbrev pub is_past : {R : Type 0} → Main R → Bool
is_past refused = true
is_past (returning _) = true
is_past (delivering _) = true
is_past disconnecting = true
is_past settling = true
is_past releasing = true
is_past gone = true
is_past _ = false

-- Where the handler can stand for each place of the main thread.
abbrev pub Fits : {R : Type 0} → Main R → Handler → Type 0
Fits submitting h = h ≡ absent
Fits connecting h = (h ≡ interrupting) ⊎ (h ≡ answering) ⊎ (h ≡ cancelling) ⊎ (h ≡ over)
Fits settling h = h ≡ absent
Fits releasing h = h ≡ absent
Fits gone h = h ≡ absent
Fits _ h = Unit

-- Where the worker has marked the connection, and its state stands.
abbrev pub is_marked : {R : Type 0} → Main R → Bool
is_marked may_run = true
is_marked refusing = true
is_marked refused = true
is_marked running = true
is_marked _ = false

-- Who has read that the operation is cancelled.
abbrev pub noticed_by_main : {R : Type 0} → Main R → Bool
noticed_by_main connecting = true
noticed_by_main refusing = true
noticed_by_main refused = true
noticed_by_main _ = false

abbrev pub noticed_by_handler : Handler → Bool
noticed_by_handler absent = false
noticed_by_handler armed = false
noticed_by_handler _ = true

pub record Consistent {Db R : Type 0} (o : Op Db R) : Type 0 where
  pub one_return :
      length o.returned + owed_by_main o.main + owed_by_handler o.handler ≡ one_if o.answered
  pub references : o.ref_count ≡ held_by_main o.main + held_by_handler o.handler
  pub past : is_past o.main ≡ true → o.answered ≡ true
  pub fits : Fits o.main o.handler
  pub noticed : noticed_by_main o.main ≡ true → o.is_cancelled ≡ true
  pub handled : noticed_by_handler o.handler ≡ true → o.is_cancelled ≡ true
  pub marked : is_marked o.main ≡ true → o.state ≡ busy
  pub cancellable : o.is_cancelled ≡ true → o.has_cancellable ≡ true

module _ {Db R : Type 0} where
  pub submit-Consistent :
      (has_cancellable is_cancelled : Bool) (db : Db) (state : ConnectionState)
      → Consistent (submit {R = R} has_cancellable is_cancelled db state)
  unfolding submit
  submit-Consistent h c db state = ground arith

  cancel-Consistent :
      (h : Handler) (o q : Op Db R)
      → o.handler ≡ h
      → Consistent o
      → cancel o ≡ some q
      → Consistent q
  unfolding cancel
  cancel-Consistent h o q e c s = ground arith

  handle-Consistent :
      (b : Bool) (h : Handler) (o q : Op Db R)
      → o.handler ≡ h
      → Consistent o
      → handle b h o ≡ some q
      → Consistent q
  unfolding handle
  handle-Consistent b interrupting o q e c s = ground arith
  handle-Consistent b answering o q e c s = ground arith
  handle-Consistent b cancelling o q e c s = ground arith
  handle-Consistent b absent o q e c s = cc
  handle-Consistent b armed o q e c s = cc
  handle-Consistent b over o q e c s = cc

  advance-Consistent :
      (error : R → Option Error) (x : Db × R) (m : Main R) (o q : Op Db R)
      → o.main ≡ m
      → Consistent o
      → advance error x m o ≡ some q
      → Consistent q
  unfolding advance
  advance-Consistent error (db, r) gone o q e c s = cc
  advance-Consistent error (db, r) m o q e c s = ground arith

  -- Every step keeps the invariant.
  pub step-Consistent :
      (error : R → Option Error) (a : Action Db R) (o q : Op Db R)
      → Consistent o
      → step error a o ≡ some q
      → Consistent q
  unfolding step
  step-Consistent error (work x) o q c s = advance-Consistent error x o.main o q refl c s
  step-Consistent error cancels o q c s = cancel-Consistent o.handler o q refl c s
  step-Consistent error (handles b) o q c s = handle-Consistent b o.handler o q refl c s

  -- From any submission, whatever the threads do, the references of the operation are those of the
  -- threads that still use it, the number of g_task_return_* calls made and owed is 1 if the
  -- exchange has been won and 0 if not, and the worker passes its exchange only when it has been
  -- won.
  pub Reach-Consistent :
      (error : R → Option Error) (o : Op Db R) {n : ℕ} {q : Op Db R}
      → Consistent o
      → Reach error o n q
      → Consistent q
  Reach-Consistent error o c here = c
  Reach-Consistent error o c (next {p = p} a r s) =
      step-Consistent error a p _ (Reach-Consistent error o c r) s
