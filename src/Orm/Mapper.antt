-- ===== src/Orm/Mapper.antt =====
-- orm/orm-mapper.c: the mapping of a GType to a table. Relationships and the conversion to a schema
-- table are left out.
use orm_glib.Base.{
  ℕ, Bool, true, false, not, ◌&&◌, ◌||◌, List, [], ◌∷◌, ◌++◌, Text, if◌then◌else◌, leb, ◌+◌, Option,
  none, some, text_eq,
}
use orm_glib.Glib.{HashTable, str_equal, lookup}
use orm_glib.Orm.Property.{Property, ParamSpec, property_new_from_pspec}

-- The tables of a mapper, from names to properties.
abbrev pub NameTable : Type 1
NameTable = HashTable Text Property str_equal

pub record Mapper (names : NameTable) : Type 0 where
  pub gtype : ℕ
  pub table_name : Text
  pub properties : names.Table
  pub column_to_property : names.Table
  pub property_list : List Property
  pub primary_key : Option Property

-- What a class that implements OrmSerializable tells: the name of its type, the two functions of
-- the interface, and its properties.
pub record Class : Type 0 where
  pub type_name : Text
  pub table_name : Option Text
  pub primary_key : Option Text
  pub pspecs : List ParamSpec

abbrev is_upper : ℕ → Bool
is_upper c = leb 65 c && leb c 90

abbrev is_lower : ℕ → Bool
is_lower c = leb 97 c && leb c 122

abbrev is_empty : Text → Bool
is_empty [] = true
is_empty (_ ∷ _) = false

-- The loop of type_name_to_table_name, with `result` and `prev_lower`. '_' is 95.
unfoldable pub append_table_name : Text → Bool → Text → Text
append_table_name result prev_lower [] = result
append_table_name result prev_lower (c ∷ s) =
    let underscored = if prev_lower && not (is_empty result) then result ++ 95 ∷ [] else result in
    let after_upper = append_table_name (underscored ++ (c + 32) ∷ []) false s in
    let after_other = append_table_name (result ++ c ∷ []) (is_lower c) s in
    if is_upper c then after_upper else after_other

unfoldable pub type_name_to_table_name : Text → Text
unfolding append_table_name
type_name_to_table_name type_name = append_table_name [] false type_name

abbrev pub is_named : Option Text → Text → Bool
is_named none name = false
is_named (some key) name = text_eq name key

module _ (names : NameTable) where
  abbrev table_name_or : Option Text → Text → Text
  unfolding type_name_to_table_name
  table_name_or none type_name = type_name_to_table_name type_name
  table_name_or (some s) _ = s

  unfoldable pub mapper_new : ℕ → Text → Option Text → Mapper names
  unfolding type_name_to_table_name
  mapper_new gtype type_name table_name = record {
    gtype = gtype;
    table_name = table_name_or table_name type_name;
    properties = names.empty;
    column_to_property = names.empty;
    property_list = [];
    primary_key = none;
  }

-- The loop of orm_mapper_get_insert_columns, without the columns that count up by themselves.
abbrev pub insert_columns : List Property → List Text
insert_columns [] = []
insert_columns (p ∷ ps) =
    if p.is_auto_increment then insert_columns ps else p.column_name ∷ insert_columns ps

module _ {names : NameTable} where
  unfoldable pub add_property : Mapper names → Property → Mapper names
  add_property m p = record m {
    properties = names.insert m.properties p.property_name p;
    column_to_property = names.insert m.column_to_property p.column_name p;
    property_list = m.property_list ++ p ∷ [];
    primary_key = if p.is_primary_key then some p else m.primary_key;
  }

  abbrev pub get_property_by_column : Mapper names → Text → Option Property
  get_property_by_column m column_name = lookup names m.column_to_property column_name

  unfoldable pub get_insert_columns : Mapper names → List Text
  get_insert_columns m = insert_columns m.property_list

  -- The loop over the properties of the class.
  unfoldable pub add_pspecs : Option Text → Mapper names → List ParamSpec → Mapper names
  unfolding add_property property_new_from_pspec text_eq
  add_pspecs primary_key m [] = m
  add_pspecs primary_key m (pspec ∷ rest) =
      let is_key = is_named primary_key pspec.name in
      add_pspecs primary_key
        (if not pspec.is_readable || not pspec.is_writable
          then m
          else add_property m (property_new_from_pspec pspec none is_key is_key))
        rest

module _ (names : NameTable) where
  unfoldable pub mapper_new_from_serializable : ℕ → Class → Mapper names
  unfolding mapper_new add_pspecs
  mapper_new_from_serializable gtype c =
      add_pspecs c.primary_key (mapper_new names gtype c.type_name c.table_name) c.pspecs
