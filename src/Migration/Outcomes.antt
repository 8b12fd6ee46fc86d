-- ===== src/Migration/Outcomes.antt =====
-- Proof rules for the parts of `run`: what holds of the local variables, by the way a part ends.
use orm_glib.Engine.Driver.{Driver}
use orm_glib.Migration.Migrator.{
  Run, Outcome, go, out, stuck, Round, again, finished, aborted, beyond, then_go,
}
use orm_glib.Migration.Loop.{to_round, after_round}

-- `P` where the run goes on, `Q` where it jumps to `out`, `S` where it is stuck.
abbrev pub OnOutcome :
    {d : Driver} → Type 0 → (Run d → Type 0) → (Run d → Type 0) → Outcome d → Type 0
OnOutcome S P Q (go r) = P r
OnOutcome S P Q (out r) = Q r
OnOutcome S P Q stuck = S

-- `A` where another round follows, `F` where the loop ends, `Q` where it jumps to `out`.
abbrev pub OnRound :
    {d : Driver}
    → Type 0
    → (Run d → Type 0)
    → (Run d → Type 0)
    → (Run d → Type 0)
    → Round d
    → Type 0
OnRound S A F Q (again r) = A r
OnRound S A F Q (finished r) = F r
OnRound S A F Q (aborted r) = Q r
OnRound S A F Q beyond = S

module _ {d : Driver} (S : Type 0) (P R Q : Run d → Type 0) where
  pub then_go_rule :
      (o : Outcome d) (f : Run d → Outcome d)
      → OnOutcome S P Q o
      → ((r : Run d) → P r → OnOutcome S R Q (f r))
      → OnOutcome S R Q (then_go o f)
  then_go_rule (go r) f h k = k r h
  then_go_rule (out r) f h k = h
  then_go_rule stuck f h k = h

module _ {d : Driver} (S : Type 0) (P A F Q : Run d → Type 0) where
  pub to_round_rule :
      (f : Run d → Round d) (o : Outcome d)
      → ((r : Run d) → P r → OnRound S A F Q (f r))
      → OnOutcome S P Q o
      → OnRound S A F Q (to_round f o)
  to_round_rule f (go r) k h = k r h
  to_round_rule f (out r) k h = h
  to_round_rule f stuck k h = h

-- The loop's step: what a round leaves decides what the loop gives.
module _ {d : Driver} (S : Type 0) (A F Q P P' : Run d → Type 0) where
  pub loop_rule :
      (r : Round d) (next : Run d → Outcome d)
      → OnRound S A F Q r
      → ((r : Run d) → A r → OnOutcome S P P' (next r))
      → ((r : Run d) → F r → P r)
      → ((r : Run d) → Q r → P' r)
      → OnOutcome S P P' (after_round next r)
  loop_rule (again r) next h k f q = k r h
  loop_rule (finished r) next h k f q = f r h
  loop_rule (aborted r) next h k f q = q r h
  loop_rule beyond next h k f q = h

module _ {d : Driver} (S : Type 0) (P Q P' Q' : Run d → Type 0) where
  pub weaken_rule :
      (o : Outcome d)
      → ((r : Run d) → P r → P' r)
      → ((r : Run d) → Q r → Q' r)
      → OnOutcome S P Q o
      → OnOutcome S P' Q' o
  weaken_rule (go r) f g h = f r h
  weaken_rule (out r) f g h = g r h
  weaken_rule stuck f g h = h
