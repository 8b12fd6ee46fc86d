-- ===== src/Migration/Checks.antt =====
-- read_history of migration/orm-migrator.c accepts a history exactly if it is the start of the list
-- of migrations, with every version, name and checksum as defined.
use orm_glib.Base.{
  ℕ, zero, suc, ◌+◌, ◌≤◌, ◌<◌, true, false, none, some, List, [], ◌∷◌, map, ◌≡◌, refl, ap, arith,
  Text, length, drop, get_elem?, Option-cases, inl, inr, ◌↔◌,
}
use orm_glib.Base.Int.{int_eq→≡, int_eq_refl}
use orm_glib.Core.Platform.{Platform, PlatformLaws, same}
use orm_glib.Core.Error.{Error}
use orm_glib.Engine.Driver.{Driver}
use orm_glib.Engine.Row.{Row, row_get_value, row_get_integer}
use orm_glib.Migration.History.{Migration, history, row_matches, match_rows}
use orm_glib.Migration.Entries.{Entry, encode, entry, recorded}

strcmp0_refl : (p : Platform) → PlatformLaws p → (s : Text) → p.strcmp0 s s ≡ same
strcmp0_refl p l s = ground (arith, l.strcmp0_order.flips s s)

row_matches-none : (d : Driver) (p : Platform) (row : Row) → row_matches p {d = d} none row ≡ false
unfolding row_matches
row_matches-none d p row = refl

module _ {d : Driver} where
  recorded-drop :
      (ms : List (Migration d)) (k n : ℕ) (m : Migration d)
      → get_elem? ms k ≡ some m
      → recorded (suc n) (drop k ms) ≡ entry m ∷ recorded n (drop (suc k) ms)
  unfolding recorded
  recorded-drop [] k n m e = cc
  recorded-drop (x ∷ xs) zero n m e = ground arith
  recorded-drop (x ∷ xs) (suc k) n m e = recorded-drop xs k n m e

  length-drop_of_get :
      (ms : List (Migration d)) (k : ℕ) (m : Migration d)
      → get_elem? ms k ≡ some m
      → (length (drop k ms) ≡ suc (length (drop (suc k) ms))) × (k < length ms)
  length-drop_of_get [] k m e = cc
  length-drop_of_get (x ∷ xs) zero m e = (refl, omega arith)
  length-drop_of_get (x ∷ xs) (suc k) m e = ground (arith, length-drop_of_get xs k m)

  drop-none : (ms : List (Migration d)) (k : ℕ) → get_elem? ms k ≡ none → length (drop k ms) ≡ 0
  drop-none [] zero e = refl
  drop-none [] (suc k) e = refl
  drop-none (x ∷ xs) zero e = cc
  drop-none (x ∷ xs) (suc k) e = drop-none xs k e

module _ {d : Driver} (p : Platform) (l : PlatformLaws p) where
  -- A row matches a migration exactly if it is the migration's record.
  row_matches_iff :
      (m : Migration d) (e : Entry) → (row_matches p (some m) (encode e) ≡ true) ↔ (e ≡ entry m)
  unfolding row_matches row_get_value row_get_integer
  row_matches_iff m e = (
    λ h. ground (
      arith,
      int_eq→≡ m.version e.version,
      l.strcmp0_equal m.name e.name,
      l.strcmp0_equal m.checksum e.checksum,
    ),
    λ h.
        ground (arith, int_eq_refl m.version, strcmp0_refl p l m.name, strcmp0_refl p l m.checksum),
  )

  pub match_sound :
      (ms : List (Migration d)) (k : ℕ) (es : List Entry) (c : ℕ)
      → k ≤ length ms
      → match_rows p ms k (map encode es) none ≡ history c
      → (c ≡ k + length es) × (c ≤ length ms) × (es ≡ recorded (length es) (drop k ms))
  unfolding match_rows recorded
  match_sound ms k [] c b h = ground arith
  match_sound ms k (e ∷ es) c b h = elim (Option-cases (get_elem? ms k)) [
    | inl missing ↦ absurd (ground (arith, missing, row_matches-none d p (encode e)))
    | inr (m, found) ↦ ground (
      arith,
      found,
      (row_matches_iff m e).0,
      match_sound ms (suc k) es c,
      length-drop_of_get ms k m found,
      recorded-drop ms k (length es) m found,
    )
  ]

  match_complete :
      (ms : List (Migration d)) (k n : ℕ)
      → n ≤ length (drop k ms)
      → match_rows p ms k (map encode (recorded n (drop k ms))) none ≡ history (k + n)
  unfolding match_rows recorded
  match_complete ms k zero b = ap history (omega arith)
  match_complete ms k (suc n) b = elim (Option-cases (get_elem? ms k)) [
    | inl missing ↦ absurd (omega (arith, drop-none ms k missing))
    | inr (m, found) ↦ rw (recorded-drop ms k n m found) (
        ground (
          arith,
          found,
          (row_matches_iff m (entry m)).1 refl,
          match_complete ms (suc k) n,
          length-drop_of_get ms k m found,
        ))
  ]

  -- The rows of a history are accepted with the count c, exactly if c is at most the number of
  -- migrations and the history is the record of the first c of them.
  pub match_rows_iff :
      (ms : List (Migration d)) (es : List Entry) (c : ℕ)
      → (match_rows p ms 0 (map encode es) none ≡ history c)
        ↔ ((c ≤ length ms) × (es ≡ recorded c ms))
  match_rows_iff ms es c = (
    λ h. ground (arith, match_sound ms 0 es c (omega arith) h),
    λ h. ground (arith, match_complete ms 0 c h.0, h.1),
  )

  -- A result that ends in an error gives no history.
  pub match_rows-ending :
      (ms : List (Migration d)) (k : ℕ) (found : List Row) (e : Error) (c : ℕ)
      → match_rows p ms k found (some e) ≡ history c
      → ⊥
  unfolding match_rows
  match_rows-ending ms k [] e c h = cc
  match_rows-ending ms k (row ∷ rest) e c h = ground (arith, match_rows-ending ms (suc k) rest e c)
