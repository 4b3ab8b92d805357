-- ===== src/Params/Json.antt =====
-- The body of a PATCH as encoding/json decodes it into `map[string]any`. A number stands for the
-- float that it is by `int(v)`, the only way in which the program reads one.
use openconnectd.Base.{Bool, Option, none, some, List, [], ◌∷◌, Text, same, if◌then◌else◌}
use openconnectd.Base.Int.{ℤ}

mutual
  pub data Json : Type 0 where
    null : Json
    bool : Bool → Json
    num : ℤ → Json
    str : Text → Json
    arr : Items → Json
    obj : Fields → Json

  pub data Items : Type 0 where
    nil : Items
    cons : Json → Items → Items

  pub data Fields : Type 0 where
    end : Fields
    field : Text → Json → Fields → Fields

-- `body[key]`; the decoder keeps the last of several values for one key, so a map has one.
unfoldable pub get : Text → Fields → Option Json
get k end = none
get k (field j v rest) = if same j k then some v else get k rest

-- The type assertions `v, ok := body[key].(T)`.
abbrev pub as_string : Option Json → Option Text
as_string (some (str t)) = some t
as_string _ = none

abbrev pub as_bool : Option Json → Option Bool
as_bool (some (bool b)) = some b
as_bool _ = none

abbrev pub as_int : Option Json → Option ℤ
as_int (some (num n)) = some n
as_int _ = none

abbrev pub as_array : Option Json → Option Items
as_array (some (arr xs)) = some xs
as_array _ = none

abbrev pub as_object : Option Json → Option Fields
as_object (some (obj fs)) = some fs
as_object _ = none

-- toStrings: the items that are strings
unfoldable pub to_strings : Items → List Text
to_strings nil = []
to_strings (cons (str t) xs) = t ∷ to_strings xs
to_strings (cons _ xs) = to_strings xs
