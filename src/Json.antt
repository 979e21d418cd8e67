-- ===== src/Json.antt =====
-- The values that the services store and digest. `num` is a natural number and `real` any other
-- number; `ident` is a string that holds an identifier, and `undefined` a property without a value.
pub mod Numbers
use text.Mathlib.Text.{◌==◌ as str_eq}
use danangmap_backend.Prelude.{
  ℕ, String, Bool, true, false, ◌&&◌, List, [], ◌∷◌, Option, none, some, ◌==◌, if◌then◌else◌,
}

-- A number of JavaScript other than NaN. A finite one is `digits / 10 ^ scale` with its sign: every
-- double has such a form.
pub data Number : Type 0 where
  finite : (negative : Bool) (digits scale : ℕ) → Number
  infinite : (negative : Bool) → Number

mutual
  pub data Json : Type 0 where
    undefined : Json
    null : Json
    bool : Bool → Json
    num : ℕ → Json
    real : Number → Json
    str : String → Json
    ident : ℕ → Json
    arr : Items → Json
    obj : Fields → Json

  pub data Items : Type 0 where
    nil : Items
    cons : Json → Items → Items

  pub data Fields : Type 0 where
    end : Fields
    field : String → Json → Fields → Fields

abbrev pub fields : List (String × Json) → Fields
fields [] = end
fields ((k, v) ∷ fs) = field k v (fields fs)

-- `{ key: value, ... }`
abbrev pub object : List (String × Json) → Json
object fs = obj (fields fs)

abbrev pub items : List Json → Items
items [] = nil
items (v ∷ vs) = cons v (items vs)

abbrev pub ident? : Option ℕ → Json
ident? none = null
ident? (some a) = ident a

abbrev pub num? : Option ℕ → Json
num? none = null
num? (some a) = num a

abbrev pub is_undefined : Json → Bool
is_undefined undefined = true
is_undefined _ = false

-- An optional property that is absent is `undefined`.
abbrev pub str? : Option String → Json
str? none = undefined
str? (some s) = str s

set_field : String → Json → Fields → Fields
set_field k v end = field k v end
set_field k v (field j w fs) =
    let rest = set_field k v fs in if str_eq j k then field j v fs else field j w rest

set_fields : Fields → List (String × Json) → Fields
unfolding set_field
set_fields fs [] = fs
set_fields fs ((k, v) ∷ more) = set_fields (set_field k v fs) more

-- `{ ...o, more }`: a key of `o` keeps its place and takes the new value.
unfoldable pub extend : Json → List (String × Json) → Json
unfolding set_fields
extend (obj fs) more = obj (set_fields fs more)
extend _ more = object more

-- Whether a value is the array of just these identifiers, in this order.
unfoldable pub items_are_idents : Items → List ℕ → Bool
items_are_idents nil [] = true
items_are_idents (cons (ident a) vs) (b ∷ bs) = a == b && items_are_idents vs bs
items_are_idents _ _ = false

abbrev pub is_ident_array : Json → List ℕ → Bool
is_ident_array (arr vs) ids = items_are_idents vs ids
is_ident_array _ ids = false
