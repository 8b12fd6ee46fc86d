-- ===== src/Migration/Toy.antt =====
-- A database that holds the bookkeeping table only, and meets the laws of SQLite's.
use orm_glib.Base.{
  ◌+◌, ◌%◌, arith, ◌≡◌, refl, Bool, true, false, if◌then◌else◌, Text, List, [], ◌∷◌, codes, text_eq,
  Option, none, some, map,
}
use orm_glib.Base.Int.{ℤ, pos, negsuc}
use orm_glib.Core.Value.Samples.{toy_platform, toy_int_to_text, toy_platform-int_to_text}
use orm_glib.Engine.Url.{is_digit}
use orm_glib.Core.Value.{Value, integer, string}
use orm_glib.Core.Error.{Error, Status, ok, failed}
use orm_glib.Engine.Row.{Row}
use orm_glib.Engine.Driver.{Driver, sqlite, QueryResult, rows, refused}
use orm_glib.Migration.History.{record_sql, select_history}
use orm_glib.Migration.Entries.{Entry, encode, insert_entry, remove_version}
use orm_glib.Migration.Database.{
  HistoryDb, Neutral, neutral_lock, neutral_unlock, neutral_timeout, neutral_create,
  neutral_restore, IsDecimal, unsigned, signed, PrintsDecimal,
}

pub record ToyDb : Type 0 where
  pub durable : List Entry
  pub visible : List Entry
  pub open_tx : Bool

-- The parameters of the two statements that record a step.
abbrev pub toy_insert : ToyDb → List Value → ToyDb
unfolding insert_entry
toy_insert db (integer v ∷ string n ∷ string c ∷ []) = record db {
  visible = insert_entry (record { version = v; name = n; checksum = c }) db.visible;
}
toy_insert db _ = db

abbrev pub toy_delete : ToyDb → List Value → ToyDb
unfolding remove_version
toy_delete db (integer v ∷ []) = record db { visible = remove_version v db.visible }
toy_delete db _ = db

-- The statement that the database does not know.
abbrev pub bad_sql : Text
bad_sql = codes "oops"

abbrev pub toy_execute : ToyDb → Text → List Value → ToyDb × Status
unfolding text_eq
toy_execute db sql params =
    if text_eq sql (codes "BEGIN IMMEDIATE")
    then (record db { visible = db.durable; open_tx = true }, ok)
    else if text_eq sql (codes "COMMIT")
    then (record db { durable = db.visible; open_tx = false }, ok)
    else if text_eq sql (codes "ROLLBACK")
    then (record db { visible = db.durable; open_tx = false }, ok)
    else if text_eq sql (record_sql false false)
    then (toy_insert db params, ok)
    else if text_eq sql (record_sql false true)
    then (toy_delete db params, ok)
    else if text_eq sql bad_sql
    then (db, failed (some Error.query_failed))
    else (db, ok)

abbrev pub toy_query : ToyDb → Text → List Value → ToyDb × QueryResult
unfolding text_eq
toy_query db sql params =
    if text_eq sql select_history
    then (db, rows (map encode db.visible) none)
    else if text_eq sql (codes "PRAGMA busy_timeout")
    then (db, rows (((codes "timeout", integer (pos 5)) ∷ []) ∷ []) none)
    else (db, refused none)

abbrev pub toy_driver : Driver
toy_driver = record {
  Db = ToyDb;
  execute = toy_execute;
  query = toy_query;
  last_insert_id = λ _. pos 0;
  set_isolation_level = λ db _ _. (db, ok);
  close = λ db. record db { visible = db.durable; open_tx = false };
}

pub toy-Neutral : (db : ToyDb) (sql : Text) → Neutral sql → toy_driver.execute db sql [] ≡ (db, ok)
unfolding text_eq
toy-Neutral db _ neutral_lock = refl
toy-Neutral db _ neutral_unlock = refl
toy-Neutral db _ neutral_timeout = refl
toy-Neutral db _ neutral_create = refl
toy-Neutral db _ (neutral_restore n e) = refl

pub toy_platform_prints : PrintsDecimal toy_platform
unfolding is_digit
toy_platform_prints = record { prints = λ n. rw (toy_platform-int_to_text n) (toy_prints n) }
  where
    toy_prints : (n : ℤ) → IsDecimal (toy_int_to_text n)
    toy_prints (pos n) = unsigned (48 + n % 10) [] (ground arith, tt)
    toy_prints (negsuc n) = signed (48 + (n + 1) % 10) [] (ground arith, tt)

pub rows_found : (xs ys : List Row) (e e' : Option Error) → rows xs e ≡ rows ys e' → ys ≡ xs
rows_found xs ys e e' h = cc

unfoldable pub toy_history : HistoryDb toy_driver sqlite
unfolding text_eq insert_entry remove_version
toy_history = record {
  durable = λ db. db.durable;
  visible = λ db. db.visible;
  open_tx = λ db. db.open_tx;
  begin_law = λ db _. (refl, (refl, refl));
  commit_law = λ db _. (refl, refl);
  rollback_law = λ db. refl;
  close_law = λ db. refl;
  neutral_law = λ db sql n. rw (toy-Neutral db sql n) (refl, (refl, refl));
  timeout_law = λ db. (refl, refl);
  insert_law = λ db m h. (refl, (refl, h));
  delete_law = λ db m h. (refl, (refl, h));
  select_law = λ db found. (refl, refl, refl, λ h. rows_found _ found none none h);
}
