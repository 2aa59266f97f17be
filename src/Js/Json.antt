-- ===== src/Js/Json.antt =====
-- JSON values, as the sources look into them.
use auto_camera.Common.{Bool, Option, none, some, List, [], ◌∷◌, ◌++◌, Text, text_eq, if◌then◌else◌}
use auto_camera.Js.Number.{JsNumber}

mutual
  pub data Json : Type 0 where
    null : Json
    boolean : Bool → Json
    number : JsNumber → Json
    string : Text → Json
    array : Elements → Json
    object : Members → Json

  pub data Elements : Type 0 where
    end : Elements
    item : Json → Elements → Elements

  pub data Members : Type 0 where
    empty : Members
    member : Text → Json → Members → Members

-- `record[key]`, `none` being `undefined`
unfoldable pub lookup : Text → Members → Option Json
lookup key empty = none
lookup key (member k value rest) = if text_eq k key then some value else lookup key rest

-- `value ?? fallback`
abbrev pub or_else : Option Json → Json → Json
or_else none fallback = fallback
or_else (some null) fallback = fallback
or_else (some value) fallback = value

-- `typeof value === 'string' ? value : fallback`
abbrev pub string_or : Option Json → Text → Text
string_or (some (string s)) fallback = s
string_or _ fallback = fallback

unfoldable pub elements : Elements → List Json
elements end = []
elements (item value rest) = value ∷ elements rest

unfoldable pub member_values : Members → List Json
member_values empty = []
member_values (member key value rest) = value ∷ member_values rest

-- `Object.values(value)` of a value whose `typeof` is `object`; `none` if it is another or `null`.
unfoldable pub object_values : Option Json → Option (List Json)
unfolding elements member_values
object_values (some (array items)) = some (elements items)
object_values (some (object members)) = some (member_values members)
object_values _ = none

-- `values.flatMap((value) => Array.isArray(value) ? value : [])`
unfoldable pub flat_elements : List Json → List Json
unfolding elements
flat_elements [] = []
flat_elements (array items ∷ rest) = elements items ++ flat_elements rest
flat_elements (_ ∷ rest) = flat_elements rest
