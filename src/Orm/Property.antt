-- ===== src/Orm/Property.antt =====
-- orm/orm-property.c: the mapping of a GObject property to a column. The SQL type, which only the
-- schema needs, is left out.
use orm_glib.Base.{Bool, [], ◌∷◌, Text, if◌then◌else◌, ◌==◌, Option, none, some}

-- OrmProperty with the flags ORM_PROPERTY_PRIMARY_KEY and ORM_PROPERTY_AUTO_INCREMENT.
pub record Property : Type 0 where
  pub property_name : Text
  pub column_name : Text
  pub is_primary_key : Bool
  pub is_auto_increment : Bool

-- What is read of a GParamSpec: its name, G_PARAM_READABLE and G_PARAM_WRITABLE.
pub record ParamSpec : Type 0 where
  pub name : Text
  pub is_readable : Bool
  pub is_writable : Bool

-- '-' is 45, '_' is 95.
unfoldable pub property_name_to_column_name : Text → Text
property_name_to_column_name [] = []
property_name_to_column_name (c ∷ s) = (if c == 45 then 95 else c) ∷ property_name_to_column_name s

abbrev or_default : Option Text → Text → Text
or_default none s = s
or_default (some s) _ = s

-- orm_property_new_from_pspec. The two flags are given apart.
unfoldable pub property_new_from_pspec : ParamSpec → Option Text → Bool → Bool → Property
unfolding property_name_to_column_name
property_new_from_pspec pspec column_name is_primary_key is_auto_increment = record {
  property_name = pspec.name;
  column_name = or_default column_name (property_name_to_column_name pspec.name);
  is_primary_key = is_primary_key;
  is_auto_increment = is_auto_increment;
}
