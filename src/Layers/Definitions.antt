-- ===== src/Layers/Definitions.antt =====
-- `validateLayer` of src/layers/layer-schema.service.ts: the fields, the popup and the style that a
-- layer or a revision is configured with.
pub mod Sound
use text.Mathlib.Text.{◌==◌ as str_eq}
use danangmap_backend.Prelude.{
  ℕ, String, Bool, true, false, not, ◌&&◌, ◌||◌, List, [], ◌∷◌, ◌++◌, Option, none, some, ltb,
  if◌then◌else◌, exists_by, or_else, length, is_some,
}
use danangmap_backend.Json.{Json, Number, undefined}
use danangmap_backend.Json.Numbers.{number_lt, member, is_nullish}
use danangmap_backend.Domain.{AppError, schema_violation}
use danangmap_backend.Database.{LayerField}
use danangmap_backend.Database.Queries.{Env}
use danangmap_backend.Layers.Schema.{
  limit_of, fails, is_text_type, matches_type, assert_constraints,
}

-- Of `LayerPopupConfigDto` the names of fields.
pub record PopupConfig : Type 0 where
  pub title_field : Option String
  pub subtitle_field : Option String
  pub field_keys : Option (List String)

-- Of `LayerStyleDto` what the validation reads: which styles there are, and whether points cluster.
pub record LayerStyle : Type 0 where
  pub point : Bool
  pub point_cluster : Bool
  pub line : Bool
  pub polygon : Bool

-- Of `LayerRenderConfigDto` what the validation reads.
pub record RenderConfig : Type 0 where
  pub min_zoom : Option Number
  pub max_zoom : Option Number
  pub cluster : Bool

-- `left !== undefined && right !== undefined && left > right`
abbrev exceeds : Option Number → Option Number → Bool
exceeds (some a) (some b) = number_lt b a
exceeds _ _ = false

abbrev limit : String → LayerField → Option Number
limit key f = limit_of (member key f.validation)

abbrev is_enum_type : String → Bool
is_enum_type type = str_eq type "enum" || str_eq type "multi_enum"

abbrev is_number_type : String → Bool
is_number_type type = str_eq type "number" || str_eq type "integer"

abbrev is_empty : List String → Bool
is_empty [] = true
is_empty (o ∷ os) = false

-- The check of the default value.
abbrev pub assert_default : Env → LayerField → Option AppError
assert_default env f =
    if is_nullish f.default_value
    then none
    else or_else (fails (not (matches_type f.type f.default_value)) schema_violation)
        (assert_constraints env f f.default_value)

-- The checks of a field's limits and options.
unfoldable pub assert_limits : LayerField → Option AppError
unfolding number_lt exists_by
assert_limits f =
    let min_length = limit "minLength" f in
    let max_length = limit "maxLength" f in
    let minimum = limit "minimum" f in
    let maximum = limit "maximum" f in
    or_else (fails (exceeds min_length max_length) schema_violation) (
      or_else (fails (exceeds minimum maximum) schema_violation) (
        or_else
          (fails (not (is_text_type f.type) && (is_some min_length || is_some max_length))
            schema_violation)
          (or_else
            (fails (not (is_number_type f.type) && (is_some minimum || is_some maximum))
              schema_violation)
            (or_else (fails (is_enum_type f.type && is_empty f.options) schema_violation)
              (fails (not (is_enum_type f.type) && not (is_empty f.options)) schema_violation)))))

-- `validateFieldDefinition`
abbrev pub validate_field_definition : Env → LayerField → Option AppError
validate_field_definition env f = or_else (assert_limits f) (assert_default env f)

abbrev pub has_key : String → List LayerField → Bool
has_key key fs = exists_by (λ f. str_eq f.key key) fs

-- One turn of the loop over the fields, after the given ones.
abbrev pub validate_next : Env → List LayerField → LayerField → Option AppError
validate_next env before f = or_else (fails (has_key f.key before) schema_violation) (
    or_else (fails (f.sensitive && f.offline_cache) schema_violation) (
      or_else (fails (f.sensitive && f.is_public) schema_violation)
        (validate_field_definition env f)))

unfoldable pub validate_definitions : Env → List LayerField → List LayerField → Option AppError
validate_definitions env before [] = none
validate_definitions env before (f ∷ fs) =
    or_else (validate_next env before f) (validate_definitions env (f ∷ before) fs)

-- The two checks of a key that the popup names.
abbrev popup_key_fails : List LayerField → String → Bool
popup_key_fails fs key =
    not (has_key key fs)
    || not (exists_by (λ f. str_eq f.key key && f.is_public && not f.sensitive) fs)

abbrev option_list : Option String → List String
option_list none = []
option_list (some s) = s ∷ []

abbrev keys_of : Option (List String) → List String
keys_of none = []
keys_of (some ks) = ks

abbrev is_one_of : List String → String → Bool
is_one_of options s = exists_by (str_eq s) options

-- `allowedByMode`
abbrev allowed_in : String → List String
allowed_in mode =
    if str_eq mode "point"
    then "point" ∷ "multipoint" ∷ []
    else if str_eq mode "circle"
    then "circle" ∷ []
    else if str_eq mode "polyline"
    then "line" ∷ "multiline" ∷ []
    else "polygon" ∷ "multipolygon" ∷ []

unfoldable pub has_duplicate : List String → Bool
has_duplicate [] = false
has_duplicate (k ∷ ks) = exists_by (str_eq k) ks || has_duplicate ks

-- `validateStyleAndRender`
unfoldable pub validate_style : List String → LayerStyle → RenderConfig → Option AppError
unfolding number_lt exists_by
validate_style kinds style render =
    let points = exists_by (is_one_of ("point" ∷ "multipoint" ∷ "circle" ∷ [])) kinds in
    let lines = exists_by (is_one_of ("line" ∷ "multiline" ∷ [])) kinds in
    let polygons = exists_by (is_one_of ("polygon" ∷ "multipolygon" ∷ [])) kinds in
    or_else (fails (exceeds render.min_zoom render.max_zoom) schema_violation) (
      or_else (fails (style.point && not points) schema_violation) (
        or_else (fails (style.line && not lines) schema_violation) (
          or_else (fails (style.polygon && not polygons) schema_violation) (
            fails ((render.cluster || (style.point && style.point_cluster)) && not points)
              schema_violation))))

-- `validateLayer`
unfoldable pub validate_layer :
    Env
    → (geometry_mode : String) → (kinds : List String) → List LayerField
    → PopupConfig
    → LayerStyle
    → RenderConfig
    → Option AppError
unfolding exists_by has_duplicate
validate_layer env mode kinds fs popup style render =
    or_else (fails (has_duplicate kinds) schema_violation) (
      or_else
        (fails
          (not (str_eq mode "mixed")
            && exists_by (λ kind. not (is_one_of (allowed_in mode) kind)) kinds)
          schema_violation)
        (or_else (validate_definitions env [] fs) (
          or_else
            (fails
              (exists_by (popup_key_fails fs) (
                option_list popup.title_field
                ++ option_list popup.subtitle_field
                ++ keys_of popup.field_keys))
              schema_violation)
            (validate_style kinds style render))))
