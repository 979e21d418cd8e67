-- ===== src/Layers/Schema.antt =====
-- `validateProperties` of src/layers/layer-schema.service.ts: the properties of a feature against the
-- fields of its revision. A check that would throw answers the code of the exception.
use text.Mathlib.Text.{◌==◌ as str_eq}
use danangmap_backend.Prelude.{
  ◌*◌, String, Bool, true, false, not, ◌&&◌, ◌||◌, List, [], ◌∷◌, Option, none, some, ltb,
  if◌then◌else◌, exists_by, find_by, or_else,
}
use danangmap_backend.Json.{
  Json, Items, Number, finite, undefined, null, bool, str, ident, arr, nil, cons, object,
}
use danangmap_backend.Json.Numbers.{number_of, number_lt, is_finite, is_integer, member, is_nullish}
use danangmap_backend.Domain.{AppError, schema_violation, resource_limit_exceeded}
use danangmap_backend.Database.{LayerField}
use danangmap_backend.Database.Queries.{Env}

-- `if (test) throw e`
abbrev pub fails : Bool → AppError → Option AppError
fails true e = some e
fails false e = none

-- `properties[key]`
abbrev pub property : String → List (String × Json) → Json
property key entries = elim (find_by (λ e. str_eq e.0 key) entries) [
  | none ↦ undefined
  | some e ↦ e.1
]

abbrev pub is_file_type : String → Bool
is_file_type type = str_eq type "image" || str_eq type "attachment"

abbrev pub is_text_type : String → Bool
is_text_type type =
    exists_by (str_eq type)
      ("text" ∷ "long_text" ∷ "date" ∷ "datetime" ∷ "url" ∷ "email" ∷ "phone" ∷ "address" ∷ [])

-- `value == null || value === ''`
abbrev is_blank : Json → Bool
is_blank (str s) = str_eq s ""
is_blank v = is_nullish v

abbrev pub passes : (Number → Bool) → Option Number → Bool
passes p none = false
passes p (some x) = p x

abbrev is_string : Json → Bool
is_string (str s) = true
is_string (ident i) = true
is_string _ = false

abbrev is_bool : Json → Bool
is_bool (bool b) = true
is_bool _ = false

abbrev is_array : Json → Bool
is_array (arr vs) = true
is_array _ = false

-- `matchesType`
unfoldable pub matches_type : String → Json → Bool
unfolding exists_by
matches_type type v =
    if is_text_type type
    then is_string v
    else if str_eq type "number"
    then passes is_finite (number_of v)
    else if str_eq type "integer"
    then passes is_integer (number_of v)
    else if str_eq type "boolean"
    then is_bool v
    else if str_eq type "enum"
    then is_string v
    else if str_eq type "multi_enum" || is_file_type type
    then is_array v
    else false

-- The text of a string value.
abbrev text_of : Env → Json → Option String
text_of env (str s) = some s
text_of env (ident i) = some (env.uuid_text i)
text_of env _ = none

abbrev is_option : List String → Option String → Bool
is_option options none = false
is_option options (some s) = exists_by (str_eq s) options

-- `value.some((item) => !test(item))`, false on what is no array.
some_item_fails : (Json → Bool) → Items → Bool
some_item_fails test nil = false
some_item_fails test (cons v vs) = not (test v) || some_item_fails test vs

abbrev array_fails : (Json → Bool) → Json → Bool
unfolding some_item_fails
array_fails test (arr vs) = some_item_fails test vs
array_fails test _ = true

abbrev is_empty_array : Json → Bool
is_empty_array (arr nil) = true
is_empty_array _ = false

-- What a number is compared with: a limit that is null counts as 0 there.
abbrev pub limit_of : Json → Option Number
limit_of null = some (finite false 0 0)
limit_of v = number_of v

-- `limit !== undefined && value < limit`, and the same for a maximum.
abbrev is_below : Option Number → Json → Bool
is_below none limit = false
is_below (some x) limit = passes (λ l. number_lt x l) (limit_of limit)

abbrev is_above : Option Number → Json → Bool
is_above none limit = false
is_above (some x) limit = passes (λ l. number_lt l x) (limit_of limit)

-- `value.length` of a string value.
abbrev text_length : Env → Option String → Option Number
text_length env none = none
text_length env (some s) = some (finite false (env.utf16_length s) 0)

-- `assertConstraints`
unfoldable pub assert_constraints : Env → LayerField → Json → Option AppError
unfolding number_lt exists_by array_fails some_item_fails
assert_constraints env f v =
    let size = text_length env (text_of env v) in
    or_else (fails (is_below size (member "minLength" f.validation)) schema_violation) (
      or_else (fails (is_above size (member "maxLength" f.validation)) schema_violation) (
        or_else (fails (is_below (number_of v) (member "minimum" f.validation)) schema_violation) (
          or_else (fails (is_above (number_of v) (member "maximum" f.validation)) schema_violation)
            (or_else
              (fails (str_eq f.type "enum" && not (is_option f.options (text_of env v)))
                schema_violation)
              (fails
                (str_eq f.type "multi_enum"
                  && array_fails (λ item. is_option f.options (text_of env item)) v)
                schema_violation)))))

abbrev is_attachment_id : Env → Json → Bool
is_attachment_id env (ident i) = env.is_uuid i
is_attachment_id env _ = false

-- The checks on a file field's value.
assert_files : Env → Bool → LayerField → Json → Option AppError
unfolding array_fails some_item_fails
assert_files env allow_materialized f v =
    if is_file_type f.type
    then or_else (fails (array_fails (is_attachment_id env) v) schema_violation)
        (fails (not (is_empty_array v) && not allow_materialized) schema_violation)
    else none

-- One turn of the loop over the fields.
unfoldable pub validate_field : Env → Bool → List (String × Json) → LayerField → Option AppError
unfolding assert_files
validate_field env allow_materialized properties f =
    let v = property f.key properties in
    or_else (fails (f.required && is_blank v) schema_violation) (
      if is_nullish v
      then none
      else or_else (fails (not (matches_type f.type v)) schema_violation)
          (or_else (assert_files env allow_materialized f v) (assert_constraints env f v)))

unfoldable pub validate_fields :
    Env → Bool → List (String × Json) → List LayerField → Option AppError
validate_fields env allow_materialized properties [] = none
validate_fields env allow_materialized properties (f ∷ fs) =
    or_else (validate_field env allow_materialized properties f)
      (validate_fields env allow_materialized properties fs)

-- `validateProperties`
unfoldable pub validate_properties :
    Env → Bool → List LayerField → List (String × Json) → Option AppError
validate_properties env allow_materialized fs properties =
    or_else
      (fails (exists_by (λ e. not (exists_by (λ f. str_eq f.key e.0) fs)) properties)
        schema_violation)
      (or_else (validate_fields env allow_materialized properties fs) (
        fails (ltb (64 * 1024) (env.utf8_bytes (env.json_text (object properties))))
          resource_limit_exceeded))
