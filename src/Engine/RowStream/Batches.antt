-- ===== src/Engine/RowStream/Batches.antt =====
-- The batches of a stream, against the rows of its cursor.
use orm_glib.Base.{
  ℕ, zero, suc, ◌+◌, ◌≤◌, ◌≡◌, refl, ap, true, Option, none, some, List, [], ◌∷◌, map, length, take,
  drop, leb, ◌==◌, if◌then◌else◌, Text, ◌⊎◌, inl, inr, Option-cases, arith,
}
use orm_glib.Core.Error.{Error}
use orm_glib.Engine.Row.{Row}
use orm_glib.Engine.RowStream.{
  DriverResult, RowStream, row_stream_new, Fetched, batch, failed, cancelled, unanswered, Fetch,
  fetch_loop, fetch_row, fetch_job, fetch, fetch_all,
}

-- What a fetch answers at the end of the rows: the last of them, or the error.
abbrev pub last_answer : List Row → Option Error → Fetched
last_answer rows none = batch rows
last_answer rows (some e) = failed e

abbrev pub if_kept : Fetch → Fetched → Fetched
if_kept f x = if f.may_return then x else cancelled

-- A fetch behind the end.
abbrev pub after_end : Fetch → Fetched
after_end f =
    if f.n_rows == 0 then unanswered else if f.may_run then if_kept f (batch []) else cancelled

-- The fetches in terms of the rows: one of 0 rows is not answered, and each other one takes the next `n_rows` of them, and one that reaches the
-- end takes what is left, or gives the error.
abbrev pub expected : List Fetch → List Row → Option Error → List Fetched
expected [] xs e = []
expected (f ∷ fs) xs e =
    let skipped = cancelled ∷ expected fs xs e in
    let full = if_kept f (batch (take f.n_rows xs)) ∷ expected fs (drop f.n_rows xs) e in
    let short = if_kept f (last_answer xs e) ∷ map after_end fs in
    if f.n_rows == 0
    then unanswered ∷ expected fs xs e
    else if f.may_run
    then (if leb f.n_rows (length xs) then full else short)
    else skipped

abbrev at : List (Text × Option Text) → List Row → Option Error → RowStream
at columns xs e = row_stream_new (record { columns = columns; rows = xs; ends_with = e })

-- The stream once it has met the end.
abbrev ended : List (Text × Option Text) → Option Error → RowStream
ended columns e = record (at columns [] e) { at_end = true }

module _ (columns : List (Text × Option Text)) (e : Option Error) where
  fetch_loop-at :
      (n : ℕ) (xs : List Row)
      → fetch_loop n (at columns xs e) ≡ (
          if leb n (length xs)
          then (take n xs, none, at columns (drop n xs) e)
          else (xs, e, ended columns e))
  unfolding fetch_loop fetch_row row_stream_new
  fetch_loop-at zero xs = ground arith
  fetch_loop-at (suc n) [] = ground arith
  fetch_loop-at (suc n) (x ∷ xs) = ground (arith, fetch_loop-at n xs)

  fetch_loop-ended : (n : ℕ) → fetch_loop n (ended columns e) ≡ ([], none, ended columns e)
  unfolding fetch_loop fetch_row row_stream_new
  fetch_loop-ended zero = refl
  fetch_loop-ended (suc n) = ground arith

  fetch-ended : (f : Fetch) → fetch f (ended columns e) ≡ (after_end f, ended columns e)
  unfolding fetch fetch_job row_stream_new
  fetch-ended f = ground (arith, fetch_loop-ended f.n_rows)

  fetch_all-ended : (fs : List Fetch) → fetch_all fs (ended columns e) ≡ map after_end fs
  unfolding fetch_all
  fetch_all-ended [] = refl
  fetch_all-ended (f ∷ fs) = rw fetch-ended (ap (λ t. after_end f ∷ t) (fetch_all-ended fs))

  fetch-at :
      (f : Fetch) (xs : List Row)
      → fetch f (at columns xs e) ≡ (
          if f.n_rows == 0
          then (unanswered, at columns xs e)
          else if f.may_run
          then (if leb f.n_rows (length xs)
              then (if_kept f (batch (take f.n_rows xs)), at columns (drop f.n_rows xs) e)
              else (if_kept f (last_answer xs e), ended columns e))
          else (cancelled, at columns xs e))
  unfolding fetch fetch_job row_stream_new
  fetch-at f xs = ground (arith, fetch_loop-at f.n_rows xs)

  fetch_all-at :
      (fs : List Fetch) (xs : List Row) → fetch_all fs (at columns xs e) ≡ expected fs xs e
  unfolding fetch_all
  fetch_all-at [] xs = refl
  fetch_all-at (f ∷ fs) xs = ground (
    arith,
    fetch-at f xs,
    fetch_all-at fs xs,
    fetch_all-at fs (drop f.n_rows xs),
    fetch_all-ended fs,
  )

-- What the fetches of a new stream are answered, in order: one of 0 rows is never answered and
-- changes nothing; each other one takes the next `n_rows` rows of the cursor; the first one that finds fewer takes what is left, or answers the error that ended the
-- rows, in which case the rows that it read before the error are dropped; those behind it answer an
-- empty batch and not the error. A fetch that is cancelled after its loop has run drops the rows
-- that it read, so that no later fetch gives them, and one that is cancelled before drops none.
pub fetch_all-expected :
    (fs : List Fetch) (r : DriverResult)
    → fetch_all fs (row_stream_new r) ≡ expected fs r.rows r.ends_with
fetch_all-expected fs r = fetch_all-at r.columns r.ends_with fs r.rows

-- The rows that an answer gives.
abbrev pub given : Fetched → List Row
given (batch rows) = rows
given (failed _) = []
given cancelled = []
given unanswered = []

abbrev pub rows_left : Option DriverResult → ℕ
rows_left none = 0
rows_left (some r) = length r.rows

fetch_row_bounds :
    (r : DriverResult)
    → ((fetch_row r).0 ≡ none) × (rows_left (some (fetch_row r).2) ≡ rows_left (some r))
      ⊎ (x : Row) × ((fetch_row r).0 ≡ some x)
        × (rows_left (some r) ≡ suc (rows_left (some (fetch_row r).2)))
unfolding fetch_row
fetch_row_bounds r = cases r.rows refl
  where
    cases :
        (xs : List Row)
        → xs ≡ r.rows
        → ((fetch_row r).0 ≡ none) × (rows_left (some (fetch_row r).2) ≡ rows_left (some r))
          ⊎ (x : Row) × ((fetch_row r).0 ≡ some x)
            × (rows_left (some r) ≡ suc (rows_left (some (fetch_row r).2)))
    cases [] h = inl (ground arith)
    cases (x ∷ xs) h = inr (x, ground arith, ground arith)

fetch_loop_bounds :
    (n : ℕ) (s : RowStream)
    → (length (fetch_loop n s).0 ≤ n)
      × (length (fetch_loop n s).0 + rows_left (fetch_loop n s).2.driver_result
          ≡ rows_left s.driver_result)
unfolding fetch_loop
fetch_loop_bounds zero s = ground arith
fetch_loop_bounds (suc n) s = elim (Option-cases s.driver_result) [
  | inl gone ↦ ground arith
  | inr (r, there) ↦ elim (fetch_row_bounds r) [
    | inl over ↦ ground (arith, there)
    | inr more ↦
        ground
          (arith, there, fetch_loop_bounds n (record s { driver_result = some (fetch_row r).2 }))
  ]
]

-- In any state of a stream, an answer gives at most `n_rows` rows, and these and the rows that are
-- left in the cursor are at most those that were there.
pub fetch_bounds :
    (f : Fetch) (s : RowStream)
    → (length (given (fetch f s).0) ≤ f.n_rows)
      × (length (given (fetch f s).0) + rows_left (fetch f s).1.driver_result
          ≤ rows_left s.driver_result)
unfolding fetch fetch_job
fetch_bounds f s = ground (arith, fetch_loop_bounds f.n_rows s)
