-- ===== src/Orm/Session/Invariant.antt =====
-- The invariant of a session of orm/orm-session.c, and the operations that change its sets at once.
use orm_glib.Base.{
  ℕ, true, false, ◌≡◌, ◌||◌, not, Option, none, some, arith, refl, List, [], ◌∷◌, is_some,
  Option-cases, if_rule, ==_refl, inl, inr, Text,
}
use orm_glib.Glib.{contains}
use orm_glib.Orm.Mapper.{
  Mapper, NameTable, Class, is_named, mapper_new_from_serializable, mapper_new, add_pspecs,
  add_property,
}
use orm_glib.Orm.Property.{ParamSpec, property_new_from_pspec}
use orm_glib.Orm.Session.{
  SessionEnv, Session, get_mapper, add, add_known, delete, expunge, register_mapper,
  register_missing,
}
use orm_glib.Orm.Session.Flush.{session_rollback}

-- A pending object is attached and of a type with a mapper; nothing is dirty; and there is no
-- transaction.
pub record IsSound {g : SessionEnv} (s : Session g) : Type 0 where
  pub mapped :
      (object : ℕ)
      → contains g.sets s.pending object ≡ true
      → is_some (get_mapper s (g.type_of object)) ≡ true
  pub held :
      (object : ℕ)
      → contains g.sets s.pending object ≡ true
      → contains g.sets s.attached object ≡ true
  pub clean : (object : ℕ) → contains g.sets s.dirty object ≡ false
  pub untracked : s.transaction ≡ none

module _ {names : NameTable} where
  pub add_pspecs-gtype :
      (key : Option Text) (m : Mapper names) (ps : List ParamSpec)
      → (add_pspecs key m ps).gtype ≡ m.gtype
  unfolding add_pspecs add_property
  add_pspecs-gtype key m [] = refl
  add_pspecs-gtype key m (p ∷ ps) =
      let is_key = is_named key p.name in
      let skip = not p.is_readable || not p.is_writable in
      let m' = add_property m (property_new_from_pspec p none is_key is_key) in
      if_rule (λ m'. (add_pspecs key m' ps).gtype ≡ m.gtype) skip m m'
        (λ _. add_pspecs-gtype key m ps) (λ _. add_pspecs-gtype key m' ps)

module _ (names : NameTable) where
  pub from_serializable-gtype :
      (gtype : ℕ) (c : Class) → (mapper_new_from_serializable names gtype c).gtype ≡ gtype
  unfolding mapper_new_from_serializable mapper_new
  from_serializable-gtype gtype c = add_pspecs-gtype c.primary_key _ c.pspecs

module _ {g : SessionEnv} where
  open g use {sets, type_of, class_of, names, mapper_table}

  pub registered :
      (s : Session g) (gtype : ℕ) (c : Class)
      → let s' = register_missing s gtype c (get_mapper s gtype) in
        (is_some (get_mapper s' gtype) ≡ true)
        × ((other : ℕ) → is_some (get_mapper s other) ≡ true → is_some (get_mapper s' other) ≡ true)
  unfolding register_mapper register_missing
  registered s gtype c = elim (Option-cases (get_mapper s gtype)) [
    | inl n ↦
        let m = mapper_new_from_serializable names gtype c in
        rw n (
          ground (
            arith,
            from_serializable-gtype names gtype c,
            ==_refl gtype,
            mapper_table.lookup-insert s.mappers m.gtype m gtype,
          ),
          λ other h. ground (arith, h, mapper_table.lookup-insert s.mappers m.gtype m other),
        )
    | inr (m, k) ↦ rw k (ground (arith, k), λ other h. h)
  ]

  pub registered-fields :
      (s : Session g) (gtype : ℕ) (c : Class) (m : Option (Mapper names))
      → let s' = register_missing s gtype c m in
        (s'.dirty ≡ s.dirty)
        × (s'.transaction ≡ s.transaction)
        × (s'.pending ≡ s.pending)
        × (s'.attached ≡ s.attached)
  unfolding register_missing register_mapper
  registered-fields s gtype c none = ground arith
  registered-fields s gtype c (some m) = ground arith

  pub add_known-IsSound :
      (s : Session g) (object : ℕ) (c : Option Class) → IsSound s → IsSound (add_known s object c)
  unfolding add_known
  add_known-IsSound s object none v = v
  add_known-IsSound s object (some c) v =
      let (known, others) = registered s (type_of object) c in
      let kept = registered-fields s (type_of object) c (get_mapper s (type_of object)) in
      record {
        mapped = λ o h. ground (
          arith,
          known,
          others (type_of o),
          v.mapped o,
          sets.lookup-insert s.pending object object o,
        );
        held = λ o h. ground (
          arith,
          v.held o,
          sets.lookup-insert s.pending object object o,
          sets.lookup-insert s.attached object object o,
        );
        clean = λ o. ground (arith, kept, v.clean o);
        untracked = ground (arith, kept, v.untracked);
      }

  pub add-IsSound : (s : Session g) (object : ℕ) → IsSound s → IsSound (add s object)
  unfolding add
  add-IsSound s object v =
      if_rule IsSound s.is_closed s _ (λ _. v)
        λ _. add_known-IsSound s object (class_of (type_of object)) v

  pub delete-IsSound : (s : Session g) (object : ℕ) → IsSound s → IsSound (delete s object)
  unfolding delete
  delete-IsSound s object v = record {
    mapped = λ o h. ground (arith, sets.lookup-remove s.pending object o, v.mapped o);
    held = λ o h. ground (
      arith,
      sets.lookup-remove s.pending object o,
      v.held o,
      sets.lookup-remove s.attached object o,
    );
    clean = λ o. ground (arith, sets.lookup-remove s.dirty object o, v.clean o);
    untracked = ground (arith, v.untracked);
  }

  pub expunge-IsSound : (s : Session g) (object : ℕ) → IsSound s → IsSound (expunge s object)
  unfolding expunge
  expunge-IsSound s object v = record {
    mapped = λ o h. ground (arith, sets.lookup-remove s.pending object o, v.mapped o);
    held = λ o h. ground (
      arith,
      sets.lookup-remove s.pending object o,
      v.held o,
      sets.lookup-remove s.attached object o,
    );
    clean = λ o. ground (arith, sets.lookup-remove s.dirty object o, v.clean o);
    untracked = v.untracked;
  }

  pub rollback-IsSound : (s : Session g) → IsSound s → IsSound (session_rollback s)
  unfolding session_rollback
  rollback-IsSound s v = record {
    mapped = λ o h. ground (arith, sets.lookup-empty o);
    held = λ o h. ground (arith, sets.lookup-empty o);
    clean = λ o. ground (arith, sets.lookup-empty o);
    untracked = ground (arith, v.untracked);
  }
