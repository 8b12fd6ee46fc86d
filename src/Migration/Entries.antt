-- ===== src/Migration/Entries.antt =====
-- The content of the table `schema_migrations`, in the order of the versions, and how a record of a
-- step changes it when it is the start of the list of migrations.
use orm_glib.Base.{
  ℕ, zero, suc, ◌≤◌, true, some, List, [], ◌∷◌, ◌≡◌, refl, arith, if◌then◌else◌, Text, length,
  get_elem?, codes,
}
use orm_glib.Base.Int.{ℤ, int_eq, int_ltb, int_eq_refl, int_ltb_trans, int_ltb_asymm, int_ltb-ne}
use orm_glib.Core.Value.{integer, string}
use orm_glib.Engine.Driver.{Driver}
use orm_glib.Engine.Row.{Row}
use orm_glib.Migration.History.{Migration, are_increasing, are_ordered}

pub record Entry : Type 0 where
  pub version : ℤ
  pub name : Text
  pub checksum : Text

-- The row of the query on the history.
abbrev pub encode : Entry → Row
encode e =
    (codes "version", integer e.version)
    ∷ (codes "name", string e.name)
    ∷ (codes "checksum", string e.checksum)
    ∷ []

-- INSERT under the order of the versions.
unfoldable pub insert_entry : Entry → List Entry → List Entry
insert_entry e [] = e ∷ []
insert_entry e (x ∷ xs) = if int_ltb e.version x.version then e ∷ x ∷ xs else x ∷ insert_entry e xs

-- DELETE … WHERE version = v.
unfoldable pub remove_version : ℤ → List Entry → List Entry
remove_version v [] = []
remove_version v (x ∷ xs) =
    let rest = remove_version v xs in if int_eq x.version v then rest else x ∷ rest

module _ {d : Driver} where
  abbrev pub entry : Migration d → Entry
  entry m = record { version = m.version; name = m.name; checksum = m.checksum }

  -- The first n migrations, as they are recorded.
  unfoldable pub recorded : ℕ → List (Migration d) → List Entry
  recorded zero ms = []
  recorded (suc n) [] = []
  recorded (suc n) (m ∷ ms) = entry m ∷ recorded n ms

  pub length-recorded :
      (n : ℕ) (ms : List (Migration d)) → n ≤ length ms → length (recorded n ms) ≡ n
  unfolding recorded
  length-recorded zero ms h = refl
  length-recorded (suc n) [] h = absurd (omega arith)
  length-recorded (suc n) (m ∷ ms) h = omega (arith, length-recorded n ms (omega arith))

  later_above :
      (v : ℤ) (ms : List (Migration d)) (n : ℕ) (m : Migration d)
      → are_increasing v ms ≡ true
      → get_elem? ms n ≡ some m
      → int_ltb v m.version ≡ true
  unfolding are_increasing
  later_above v [] n m h e = cc
  later_above v (x ∷ xs) zero m h e = ground arith
  later_above v (x ∷ xs) (suc n) m h e =
      ground (arith, later_above x.version xs n m, int_ltb_trans v x.version m.version)

  insert-increasing :
      (v : ℤ) (ms : List (Migration d)) (n : ℕ) (m : Migration d)
      → are_increasing v ms ≡ true
      → get_elem? ms n ≡ some m
      → insert_entry (entry m) (recorded n ms) ≡ recorded (suc n) ms
  unfolding insert_entry recorded are_increasing
  insert-increasing v [] n m h e = cc
  insert-increasing v (x ∷ xs) zero m h e = ground arith
  insert-increasing v (x ∷ xs) (suc n) m h e = ground (
    arith,
    later_above x.version xs n m,
    int_ltb_asymm x.version m.version,
    insert-increasing x.version xs n m,
  )

  remove-increasing :
      (v : ℤ) (ms : List (Migration d)) (n : ℕ) (m : Migration d)
      → are_increasing v ms ≡ true
      → get_elem? ms n ≡ some m
      → remove_version m.version (recorded (suc n) ms) ≡ recorded n ms
  unfolding remove_version recorded are_increasing
  remove-increasing v [] n m h e = cc
  remove-increasing v (x ∷ xs) zero m h e = ground (arith, int_eq_refl m.version)
  remove-increasing v (x ∷ xs) (suc n) m h e = ground (
    arith,
    later_above x.version xs n m,
    int_ltb-ne x.version m.version,
    remove-increasing x.version xs n m,
  )

  -- The record of the next migration makes the history one longer.
  pub insert-recorded :
      (ms : List (Migration d)) (n : ℕ) (m : Migration d)
      → are_ordered ms ≡ true
      → get_elem? ms n ≡ some m
      → insert_entry (entry m) (recorded n ms) ≡ recorded (suc n) ms
  unfolding insert_entry recorded are_ordered
  insert-recorded [] n m h e = cc
  insert-recorded (x ∷ xs) zero m h e = ground arith
  insert-recorded (x ∷ xs) (suc n) m h e = ground (
    arith,
    later_above x.version xs n m,
    int_ltb_asymm x.version m.version,
    insert-increasing x.version xs n m,
  )

  -- The removal of the last one makes it one shorter.
  pub remove-recorded :
      (ms : List (Migration d)) (n : ℕ) (m : Migration d)
      → are_ordered ms ≡ true
      → get_elem? ms n ≡ some m
      → remove_version m.version (recorded (suc n) ms) ≡ recorded n ms
  unfolding remove_version recorded are_ordered
  remove-recorded [] n m h e = cc
  remove-recorded (x ∷ xs) zero m h e = ground (arith, int_eq_refl m.version)
  remove-recorded (x ∷ xs) (suc n) m h e = ground (
    arith,
    later_above x.version xs n m,
    int_ltb-ne x.version m.version,
    remove-increasing x.version xs n m,
  )
