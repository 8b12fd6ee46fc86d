-- ===== src/Glib/Assoc.antt =====
-- An association list satisfies the laws of `HashTable`.
use orm_glib.Base.{
  ◌≡◌, refl, true, Bool-cases, inl, inr, true, Option, none, some, List, [], ◌∷◌, any,
  if◌then◌else◌, is_some, arith,
}
use orm_glib.Glib.Defs.{KeyEqual, HashTable, kept}

module _ {K V : Type 0} (e : KeyEqual K) where
  open e use {equal, equal_symm, equal_trans}

  lookup_extended : List (K × V) → K → Option (K × V)
  lookup_extended [] k = none
  lookup_extended ((j, v) ∷ t) k = if equal j k then some (j, v) else lookup_extended t k

  insert : List (K × V) → K → V → List (K × V)
  insert [] k v = (k, v) ∷ []
  insert ((j, w) ∷ t) k v = if equal j k then (j, v) ∷ t else (j, w) ∷ insert t k v

  remove : List (K × V) → K → List (K × V)
  remove [] k = []
  remove ((j, w) ∷ t) k = let rest = remove t k in if equal j k then rest else (j, w) ∷ rest

  keys : List (K × V) → List K
  keys [] = []
  keys ((j, _) ∷ t) = j ∷ keys t

  lookup-insert :
      (t : List (K × V)) (k : K) (v : V) (j : K)
      → lookup_extended (insert t k v) j
        ≡ (if equal k j then some (kept (lookup_extended t k) k, v) else lookup_extended t j)
  unfolding lookup_extended insert
  lookup-insert [] k v j = refl
  lookup-insert ((i, w) ∷ t) k v j = ground (
    arith,
    lookup-insert t k v j,
    equal_trans i k j,
    equal_symm i k,
    equal_trans k i j,
    equal_symm k j,
    equal_trans i j k,
  )

  lookup-remove :
      (t : List (K × V)) (k j : K)
      → lookup_extended (remove t k) j ≡ (if equal k j then none else lookup_extended t j)
  unfolding lookup_extended remove
  lookup-remove [] k j = ground arith
  lookup-remove ((i, w) ∷ t) k j = ground (
    arith,
    lookup-remove t k j,
    equal_trans i k j,
    equal_symm i k,
    equal_trans k i j,
    equal_symm k j,
    equal_trans i j k,
  )

  lookup-equal :
      (t : List (K × V)) (k j : K) (v : V) → lookup_extended t k ≡ some (j, v) → equal j k ≡ true
  unfolding lookup_extended
  lookup-equal [] k j v h = cc
  lookup-equal ((i, w) ∷ t) k j v h = elim (Bool-cases (equal i k)) [
    | inl found ↦ ground (arith, found)
    | inr other ↦ lookup-equal t k j v (rw other at h)
  ]

  lookup_cong :
      (t : List (K × V)) (j k : K) → equal j k ≡ true → lookup_extended t j ≡ lookup_extended t k
  unfolding lookup_extended
  lookup_cong [] j k h = refl
  lookup_cong ((i, w) ∷ t) j k h =
      ground (arith, lookup_cong t j k h, equal_trans i j k, equal_trans i k j, equal_symm j k)

  any-keys :
      (t : List (K × V)) (k : K) → any (λ j. equal j k) (keys t) ≡ is_some (lookup_extended t k)
  unfolding lookup_extended keys
  any-keys [] k = refl
  any-keys ((i, w) ∷ t) k = ground (arith, any-keys t k)

  unfoldable pub assoc_table : HashTable K V e
  unfolding lookup_extended insert remove keys lookup-insert lookup-remove lookup-equal lookup_cong
      any-keys
  assoc_table = record {
    Table = List (K × V);
    empty = [];
    lookup_extended = lookup_extended;
    insert = insert;
    remove = remove;
    keys = keys;
    lookup-empty = λ k. refl;
    lookup-insert = lookup-insert;
    lookup-remove = lookup-remove;
    lookup-equal = lookup-equal;
    lookup_cong = lookup_cong;
    keys-empty = refl;
    any-keys = any-keys;
  }
