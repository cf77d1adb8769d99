-- ===== src/Json.antt =====
-- Go's `any`, as `encoding/json` decodes into it: the values that the wire formats hold where a
-- struct's field has no type. Decoding and encoding are the standard library's: `Codec` is what
-- the program calls of it.
use costguard.Base.{String, Bool, List, [], ◌∷◌, Option, none, some, str_eq, if◌then◌else◌}

-- A number is kept as its literal.
mutual
  pub data Value : Type 0 where
    null : Value
    boolean : Bool → Value
    number : String → Value
    text : String → Value
    array : Items → Value
    object : Fields → Value

  pub data Items : Type 0 where
    nil : Items
    item : Value → Items → Items

  pub data Fields : Type 0 where
    end : Fields
    field : String → Value → Fields → Fields

-- `m[k]` of a decoded object, whose keys differ.
abbrev pub field_of : String → Fields → Option Value
field_of k end = none
field_of k (field j v fs) = if str_eq j k then some v else field_of k fs

-- `m, _ := v.(map[string]any); m[k]`: a nil map has no key.
abbrev pub get_field : String → Option Value → Option Value
get_field k (some (object fs)) = field_of k fs
get_field k _ = none

-- `s, _ := v.(string)`
abbrev pub text_or_empty : Option Value → String
text_or_empty (some (text s)) = s
text_or_empty _ = ""

abbrev pub text_at : String → Fields → String
text_at k fs = text_or_empty (field_of k fs)

abbrev pub items_of : List Value → Items
items_of [] = nil
items_of (v ∷ vs) = item v (items_of vs)

-- `json.Unmarshal` into an `any`, nothing where it fails, and `json.Marshal` of one.
pub record Codec : Type 0 where
  pub unmarshal : String → Option Value
  pub marshal : Value → String
