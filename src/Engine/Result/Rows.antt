-- ===== src/Engine/Result/Rows.antt =====
-- What a caller gets of a result that it reads to the end.
use orm_glib.Base.{
  ℕ, zero, suc, ◌≡◌, ◌<◌, refl, ap, sym, subst, ◌∙◌, true, false, Option, none, some, List, [], ◌∷◌,
  length, arith,
}
use orm_glib.Core.Error.{Error}
use orm_glib.Engine.Row.{Row}
use orm_glib.Engine.RowStream.{DriverResult}
use orm_glib.Engine.Result.{
  Result, result_new, next, get_rows, get_all_rows, get_first, result_close,
}

-- A result that is being read.
abbrev open_result : List Row → Option Error → DriverResult → Option Row → Result
open_result rows e r row = record {
  driver_result = some (record r { rows = rows; ends_with = e });
  current_row = row;
  error = none;
  is_closed = false;
  exhausted = false;
}

abbrev ended : Option Error → DriverResult → Result
ended e r = record {
  driver_result = some (record r { rows = []; ends_with = e });
  current_row = none;
  error = e;
  is_closed = false;
  exhausted = true;
}

get_rows-open :
    (n : ℕ) (rows : List Row) (e : Option Error) (r : DriverResult) (row : Option Row)
    → length rows < n
    → get_rows n (open_result rows e r row) ≡ (ended e r, rows)
unfolding get_rows
get_rows-open zero rows e r row h = absurd (omega (arith, h))
get_rows-open (suc n) [] none r row h = refl
get_rows-open (suc n) [] (some e) r row h = refl
get_rows-open (suc n) (x ∷ rows) e r row h = ground (arith, get_rows-open n rows e r (some x))

abbrev pub first_row : List Row → Option Row
first_row [] = none
first_row (row ∷ _) = some row

get_first-new : (r : DriverResult) → (get_first (result_new r)).1 ≡ first_row r.rows
unfolding get_first result_new
get_first-new r = go r.rows
  where
    go : (rows : List Row) → (get_first (open_result rows r.ends_with r none)).1 ≡ first_row rows
    go [] = refl
    go (x ∷ rows) = refl

-- Reading a new result to its end takes one turn more than there are rows, and any greater number of
-- turns gives the same: all rows in their order; the error is then the one that ended the rows, or
-- none. Asking for another row, or closing the result and asking, changes nothing more and gives
-- none. The first row of a new result is the first one of the driver.
pub get_all_rows_complete :
    (r : DriverResult) (n : ℕ)
    → length r.rows < n
    → let (s, rows) = get_all_rows (result_new r) in
      (get_rows n (result_new r) ≡ (s, rows))
      × (rows ≡ r.rows)
      × (s.error ≡ r.ends_with)
      × (next s ≡ (s, false))
      × (next (result_close s) ≡ (result_close s, false))
      × ((get_first (result_new r)).1 ≡ first_row r.rows)
unfolding get_all_rows result_new next result_close
get_all_rows_complete r n h =
    let all = get_rows-open (suc (length r.rows)) r.rows r.ends_with r none (omega arith) in
    let same = get_rows-open n r.rows r.ends_with r none h in
    (
      same ∙ sym all,
      ap (λ p. p.1) all,
      ap (λ p. p.0.error) all,
      subst (λ s. next s ≡ (s, false)) (sym (ap (λ p. p.0) all)) refl,
      refl,
      get_first-new r,
    )
