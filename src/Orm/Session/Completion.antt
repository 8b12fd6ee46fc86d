-- ===== src/Orm/Session/Completion.antt =====
-- What orm_session_flush of orm/orm-session.c leaves when it succeeds.
use orm_glib.Base.{
  ℕ, true, false, ◌≡◌, ◌||◌, if◌then◌else◌, ◌==◌, arith, refl, List, [], ◌∷◌, any, is_some, inl,
  inr, ◌∙◌, ==_refl,
}
use orm_glib.Core.Error.{ok}
use orm_glib.Glib.{HashTable, direct_equal, contains}
use orm_glib.Orm.Session.{
  SessionEnv, Session, get_mapper, get_object_state, is_dirty, is_filled, transient, persistent,
}
use orm_glib.Orm.Session.Flush.{insert_loop, delete_loop, flush}
use orm_glib.Orm.Session.Loops.{
  AllMapped, Status-cases, insert_loop-Inserts, insert_loop-pending, delete_loop-Deletes,
  delete_loop-sets,
}

none_listed : (l : List ℕ) → ((k : ℕ) → any (λ j. j == k) l ≡ false) → is_filled l ≡ false
none_listed [] h = refl
none_listed (k ∷ ks) h = ground (arith, h k, ==_refl k)

-- A table that contains nothing has the size 0.
pub is_filled-keys :
    (sets : HashTable ℕ ℕ direct_equal) (t : sets.Table)
    → ((k : ℕ) → contains sets t k ≡ false)
    → is_filled (sets.keys t) ≡ false
is_filled-keys sets t h = none_listed (sets.keys t) λ k. sets.any-keys t k ∙ h k

module _ {g : SessionEnv} where
  open g use {sets, type_of}

  -- Every object that is to be inserted or deleted is of a type with a mapper.
  abbrev pub IsMapped : Session g → Type 0
  IsMapped s =
      (object : ℕ)
      → contains sets s.pending object || contains sets s.deleted object ≡ true
      → is_some (get_mapper s (type_of object)) ≡ true

  flush_sets :
      (s : Session g) (object : ℕ)
      → s.is_closed ≡ false
      → IsMapped s
      → (flush s).1 ≡ ok
      → (contains sets (flush s).0.pending object ≡ false)
        × (contains sets (flush s).0.deleted object ≡ false)
        × (contains sets (flush s).0.dirty object ≡ false)
        × (contains sets (flush s).0.attached object
            ≡ (if contains sets s.deleted object then false else contains sets s.attached object))
  unfolding flush
  flush_sets s object o mapped fine =
      let ps = sets.keys s.pending in
      let s₁ = (insert_loop ps s).0 in
      let ds = sets.keys s₁.deleted in
      let kept = insert_loop-Inserts ps s in
      let to_insert : AllMapped s ps =
        λ k h. mapped k (ground (arith, h, sets.any-keys s.pending k)) in
      let to_delete : AllMapped s₁ ds =
        λ k h. ground (arith, h, sets.any-keys s₁.deleted k, mapped k, kept) in
      elim (Status-cases (insert_loop ps s).1) [
        | inl e ↦ elim (Status-cases (delete_loop ds s₁).1) [
          | inl e' ↦ ground (
            arith,
            o,
            e,
            e',
            kept,
            insert_loop-pending ps s object to_insert e,
            delete_loop-Deletes ds s₁,
            delete_loop-sets ds s₁ object to_delete e',
            sets.any-keys s.pending object,
            sets.any-keys s₁.deleted object,
            sets.lookup-empty object,
          )
          | inr (x, e') ↦ ground (arith, o, e, e')
        ]
        | inr (x, e) ↦ ground (arith, o, e)
      ]

  -- In an open session where every object that is to be inserted or deleted is of a type with a
  -- mapper: if a flush succeeds, then every object that was marked for deletion is transient, every
  -- other attached one is persistent and the rest is transient, and the session is not dirty.
  pub flush-state :
      (s : Session g)
      → s.is_closed ≡ false
      → IsMapped s
      → (flush s).1 ≡ ok
      → ((object : ℕ)
          → get_object_state (flush s).0 object ≡ (
              if contains sets s.deleted object
              then transient
              else if contains sets s.attached object
              then persistent
              else transient))
        × (is_dirty (flush s).0 ≡ false)
  unfolding get_object_state is_dirty
  flush-state s o mapped fine = (
    λ object. ground (arith, flush_sets s object o mapped fine),
    ground (
      arith,
      is_filled-keys sets (flush s).0.pending λ k. (flush_sets s k o mapped fine).0,
      is_filled-keys sets (flush s).0.deleted λ k. (flush_sets s k o mapped fine).1,
      is_filled-keys sets (flush s).0.dirty λ k. (flush_sets s k o mapped fine).2,
    ),
  )
