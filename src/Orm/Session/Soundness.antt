-- ===== src/Orm/Session/Soundness.antt =====
-- The invariant of a session of orm/orm-session.c, along any sequence of calls.
use orm_glib.Base.{
  ℕ, true, false, ◌≡◌, Option, none, some, arith, refl, List, if_rule, not_both, subst, sym, Text,
}
use orm_glib.Core.Error.{Status, ok, failed}
use orm_glib.Glib.{contains}
use orm_glib.Engine.Transaction.{Transaction}
use orm_glib.Orm.Session.{SessionEnv, Session}
use orm_glib.Orm.Session.Flush.{
  insert_loop, delete_loop, then_rest, clear_dirty, flush, commit_transaction, session_commit,
  session_rollback, session_execute, session_close,
}
use orm_glib.Orm.Session.Loops.{
  AllMapped, insert_loop-Inserts, insert_loop-pending, insert_loop-subset, delete_loop-Deletes,
}
use orm_glib.Orm.Session.Invariant.{IsSound, rollback-IsSound}

module _ {g : SessionEnv} where
  open g use {sets, type_of, class_of, names, mapper_table}

  pub then_rest_rule :
      (P : Session g → Type 0) (f : Session g → Session g × Status) (r : Session g × Status)
      → P r.0
      → (r.1 ≡ ok → P (f r.0).0)
      → P (then_rest f r).0
  then_rest_rule P f (s, ok) h k = k refl
  then_rest_rule P f (s, failed e) h k = h

  -- The first loop, whether it succeeds or not.
  inserted-IsSound :
      (s : Session g) (objects : List ℕ) → IsSound s → IsSound (insert_loop objects s).0
  inserted-IsSound s objects v =
      let s₁ = (insert_loop objects s).0 in
      let kept = insert_loop-Inserts objects s in
      let subset : (o : ℕ) → contains sets s₁.pending o ≡ true → contains sets s.pending o ≡ true =
        λ o. insert_loop-subset objects s o in
      record {
        mapped = λ o h. ground (arith, h, subset o, v.mapped o, kept);
        held = λ o h. ground (arith, h, subset o, v.held o, kept);
        clean = λ o. ground (arith, v.clean o, kept);
        untracked = ground (arith, v.untracked, kept);
      }

  -- The second loop, on a session where nothing is pending.
  deleted-IsSound :
      (s : Session g) (objects : List ℕ)
      → ((o : ℕ) → contains sets s.pending o ≡ false)
      → IsSound s
      → IsSound (delete_loop objects s).0
  deleted-IsSound s objects none_pending v =
      let kept = delete_loop-Deletes objects s in
      record {
        mapped = λ o h. ground (arith, h, none_pending o, kept);
        held = λ o h. ground (arith, h, none_pending o, kept);
        clean = λ o. ground (arith, v.clean o, kept);
        untracked = ground (arith, v.untracked, kept);
      }

  cleared-IsSound : (s : Session g) → IsSound s → IsSound (clear_dirty s).0
  cleared-IsSound s v = record {
    mapped = v.mapped;
    held = v.held;
    clean = λ o. ground (arith, sets.lookup-empty o);
    untracked = v.untracked;
  }

  pub flush-IsSound : (s : Session g) → IsSound s → IsSound (flush s).0
  unfolding flush
  flush-IsSound s v =
      let ps = sets.keys s.pending in
      let s₁ = (insert_loop ps s).0 in
      let to_insert : AllMapped s ps =
        λ k h. v.mapped k (ground (arith, h, sets.any-keys s.pending k)) in
      let sound = inserted-IsSound s ps v in
      let next = λ (s : Session g). then_rest clear_dirty (delete_loop (sets.keys s.deleted) s) in
      if_rule (λ (r : Session g × Status). IsSound r.0) s.is_closed _ _ (λ _. v)
        λ _. then_rest_rule IsSound next (insert_loop ps s) sound λ fine.
          let deleted =
            deleted-IsSound s₁ (sets.keys s₁.deleted)
              (λ o.
                ground
                  (arith, insert_loop-pending ps s o to_insert fine, sets.any-keys s.pending o))
              sound in
          then_rest_rule IsSound clear_dirty (delete_loop (sets.keys s₁.deleted) s₁) deleted
            λ _. cleared-IsSound _ deleted

  commit_untracked :
      (s : Session g) (t : Option Transaction) → t ≡ none → commit_transaction s t ≡ (s, ok)
  unfolding commit_transaction
  commit_untracked s none e = refl
  commit_untracked s (some t) e = cc

  commit_rest :
      (r : Session g × Status)
      → r.0.transaction ≡ none
      → then_rest (λ s. commit_transaction s s.transaction) r ≡ r
  commit_rest (s, ok) e = commit_untracked s s.transaction e
  commit_rest (s, failed x) e = refl

  closed_flush : (s : Session g) → s.is_closed ≡ true → (s, failed none) ≡ flush s
  unfolding flush
  closed_flush s e =
      if_rule (λ (r : Session g × Status). (s, failed none) ≡ r) s.is_closed _ _ (λ _. refl)
        λ x. absurd (not_both s.is_closed e x)

  -- In a session that satisfies the invariant, a commit is a flush: it does the same with the same
  -- result, and the session satisfies the invariant afterwards.
  pub commit-flush :
      (s : Session g) → IsSound s → (session_commit s ≡ flush s) × IsSound (session_commit s).0
  unfolding session_commit
  commit-flush s v =
      let rest = commit_rest (flush s) (flush-IsSound s v).untracked in
      let same : session_commit s ≡ flush s =
        if_rule (λ (r : Session g × Status). r ≡ flush s) s.is_closed _ _ (closed_flush s)
          (λ _. rest) in
      (same, subst (λ r. IsSound r.0) (sym same) (flush-IsSound s v))

  pub execute-IsSound : (s : Session g) (sql : Text) → IsSound s → IsSound (session_execute s sql).0
  unfolding session_execute
  execute-IsSound s sql v =
      if_rule (λ (r : Session g × Status). IsSound r.0) s.is_closed _ _ (λ _. v)
        λ _. record { mapped = v.mapped; held = v.held; clean = v.clean; untracked = v.untracked }

  pub close-IsSound : (s : Session g) → IsSound s → IsSound (session_close s)
  unfolding session_close session_rollback
  close-IsSound s v =
      if_rule IsSound s.is_closed _ _ (λ _. v)
        λ _. record {
          mapped = λ o h. ground (arith, h, sets.lookup-empty o);
          held = λ o h. ground (arith, h, sets.lookup-empty o);
          clean = λ o. ground (arith, sets.lookup-empty o);
          untracked = (rollback-IsSound s v).untracked;
        }
