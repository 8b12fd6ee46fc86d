-- ===== src/Core/Error.antt =====
-- core/orm-error.h: OrmError. A GError of the domain ORM_ERROR is read as its code; the message is
-- left out. A function that returns a gboolean through a GError** gives a `Status`.
use orm_glib.Base.{Option, Bool, true, false}

pub data Error : Type 0 where
  invalid_url : Error
  connection_failed : Error
  connection_closed : Error
  query_failed : Error
  transaction_failed : Error
  constraint_violation : Error
  serialization_failed : Error
  deserialization_failed : Error
  property_not_found : Error
  type_mismatch : Error
  invalid_operation : Error
  not_found : Error
  already_exists : Error
  dialect_not_supported : Error
  driver_not_available : Error
  schema_error : Error
  mapper_error : Error
  session_error : Error
  integrity_error : Error
  not_implemented : Error
  not_supported : Error
  prepare : Error
  bind : Error
  connection : Error
  execute : Error

-- TRUE, or FALSE with the error that was set, if one was: g_return_val_if_fail sets none.
pub data Status : Type 0 where
  ok : Status
  failed : Option Error → Status

abbrev pub is_ok : Status → Bool
is_ok ok = true
is_ok (failed _) = false
