-- ===== src/Engine/Connection/Safety.antt =====
-- What every operation of a connection keeps, whatever the driver does.
use orm_glib.Base.{true, List, ◌≡◌, Text, arith}
use orm_glib.Core.Value.{Value}
use orm_glib.Engine.Driver.{Driver}
use orm_glib.Engine.Connection.{Connection, execute_with_params}

-- The flag and the pointer agree, and only an open connection is in a transaction.
pub record IsCoherent {d : Driver} (c : Connection d) : Type 0 where
  pub agree : c.has_driver ≡ c.is_open
  pub tx_open : c.in_transaction ≡ true → c.is_open ≡ true

module _ {d : Driver} (c : Connection d) where
  pub execute-IsCoherent :
      (sql : Text) (params : List Value)
      → IsCoherent c
      → IsCoherent (execute_with_params c sql params).0
  unfolding execute_with_params
  execute-IsCoherent sql params v = ground arith

  -- A statement leaves every field but the database as it was.
  pub execute-fields :
      (sql : Text) (params : List Value)
      → let c' = (execute_with_params c sql params).0 in
        (c'.is_open ≡ c.is_open)
        × (c'.in_transaction ≡ c.in_transaction)
        × (c'.has_driver ≡ c.has_driver)
        × (c'.dialect_type ≡ c.dialect_type)
  unfolding execute_with_params
  execute-fields sql params = ground arith
