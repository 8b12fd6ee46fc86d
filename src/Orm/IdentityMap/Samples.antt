-- ===== src/Orm/IdentityMap/Samples.antt =====
-- The identity map over association lists, and its theorems at concrete rows.
use orm_glib.Base.{true, false, none, some, ◌≡◌, refl, arith, ◌==◌}
use orm_glib.Base.Int.{pos, int_eq}
use orm_glib.Core.Value.{integer, boolean}
use orm_glib.Core.Value.Samples.{toy_platform, toy_platform_laws}
use orm_glib.Glib.Assoc.{assoc_table}
use orm_glib.Orm.IdentityMap.{
  Env, IdentityMap, identity_map_new, add, get, remove, remove_object, contains_key,
}
use orm_glib.Orm.IdentityMap.Keys.{primary_key_equal, identity_key_equal}
use orm_glib.Orm.IdentityMap.Laws.{get-new, get-update, get_unkeyed}
use orm_glib.Orm.IdentityMap.Invariant.{Inv, new-Inv, add-Inv, add-remove_object}
use orm_glib.Orm.IdentityMap.Removal.{operation-Inv}
use orm_glib.Orm.IdentityMap.Aliasing.{add-remove_object_aliased}

abbrev pub toy_env : Env
toy_env = record {
  platform = toy_platform;
  laws = toy_platform_laws;
  objects_table = assoc_table _;
  reverse_table = assoc_table _;
  type_is_a = λ a b. a == b;
}

-- Type 80, row 1, object 1001.
one_user : IdentityMap toy_env
one_user = add (identity_map_new toy_env) 80 (integer (pos 1)) 1001

get_found : get one_user 80 (integer (pos 1)) ≡ some 1001
unfolding one_user get add identity_map_new assoc_table identity_key_equal int_eq
get_found = refl

absent : get (identity_map_new toy_env) 80 (integer (pos 1)) ≡ none
absent = get-new toy_env 80 (integer (pos 1))

one_user-Inv : Inv one_user
unfolding one_user
one_user-Inv =
    add-Inv (identity_map_new toy_env) (new-Inv {g = toy_env}) 80 (integer (pos 1)) 1001 tt
      (λ e. omega arith) absent

get-update_example :
    (get (add one_user 80 (integer (pos 1)) 1002) 80 (integer (pos 1)) ≡ some 1002)
    × (get (remove one_user 80 (integer (pos 1))).0 80 (integer (pos 1)) ≡ none)
    × ((remove one_user 80 (integer (pos 1))).1 ≡ contains_key one_user 80 (integer (pos 1)))
unfolding int_eq primary_key_equal
get-update_example =
    get-update one_user 80 (integer (pos 1)) 1002 80 (integer (pos 1)) (λ e. omega arith)

get_unkeyed_example :
    (get one_user 80 (boolean true) ≡ none)
    × ((remove one_user 80 (boolean true)).1 ≡ false)
    × ((remove_object (add one_user 80 (boolean true) 1003) 1003).1 ≡ false)
get_unkeyed_example = get_unkeyed one_user 80 (boolean true) 1003 (λ k. k) (λ e. omega arith)

add-remove_object_example :
    let r = remove_object (add (identity_map_new toy_env) 80 (integer (pos 1)) 1001) 1001 in
    (r.0.faulted ≡ false) × (r.1 ≡ true) × (get r.0 80 (integer (pos 1)) ≡ none)
add-remove_object_example =
    add-remove_object (identity_map_new toy_env) (new-Inv {g = toy_env}) 80 (integer (pos 1)) 1001
      tt (λ e. omega arith) absent

operation-Inv_example :
    Inv (add (identity_map_new toy_env) 80 (integer (pos 1)) 1001)
    × Inv (remove_object (identity_map_new toy_env) 1001).0
operation-Inv_example =
    operation-Inv (identity_map_new toy_env) 80 (integer (pos 1)) 1001 1001 (new-Inv {g = toy_env})
      tt (λ e. omega arith) absent

add-remove_object_aliased_example :
    let m =
      add (add (identity_map_new toy_env) 80 (integer (pos 1)) 1001) 80 (integer (pos 1)) 1002 in
    ((get m 80 (integer (pos 1)) ≡ some 1002)
      × ((remove_object m 1001).0.faulted ≡ false)
      × (get (remove_object m 1001).0 80 (integer (pos 1)) ≡ none))
    × ((remove_object m 1002).0.faulted ≡ true)
add-remove_object_aliased_example =
    add-remove_object_aliased (identity_map_new toy_env) 80 (integer (pos 1)) 1001 1002
      (new-Inv {g = toy_env}) tt (λ e. omega arith) absent (λ e. omega arith)
