-- ===== src/Layers/Geometry.antt =====
-- src/layers/geometry.service.ts: the validation of a GeoJSON geometry. PostGIS's inspection of it is a
-- field of Env.
pub mod Inside
use text.Mathlib.Text.{◌==◌ as str_eq}
use danangmap_backend.Prelude.{
  ℕ, ◌*◌, ◌^◌, String, Bool, true, false, not, ◌&&◌, ◌||◌, Option, none, some, ltb, leb, ◌==◌,
  if◌then◌else◌, or_else, is_some,
}
use danangmap_backend.Json.{Json, Items, Number, finite, infinite, str, arr, nil, cons}
use danangmap_backend.Json.Numbers.{number_of, member, has_member}
use danangmap_backend.Domain.{
  AppError, geometry_invalid, geometry_type_not_allowed, resource_limit_exceeded,
}
use danangmap_backend.Database.Queries.{Env, GeometryInspection}
use danangmap_backend.Layers.Schema.{fails}

-- `-limit <= x && x <= limit`
abbrev pub is_within : ℕ → Option Number → Bool
is_within limit (some (finite n d s)) = leb d (limit * 10 ^ s)
is_within limit _ = false

unfoldable pub all_numbers : Items → Bool
all_numbers nil = true
all_numbers (cons v vs) = is_some (number_of v) && all_numbers vs

-- Two finite numbers, in the range of EPSG:4326.
abbrev pub is_position : Items → Bool
is_position (cons longitude (cons latitude nil)) =
    is_within 180 (number_of longitude) && is_within 90 (number_of latitude)
is_position _ = false

-- `visit`: an array of numbers is a position; any other array is visited item by item. An empty one is
-- an array of numbers, so the test of `value.length` never fires.
unfoldable mutual
  unfolding all_numbers

  pub visit : Json → Option AppError
  visit (arr vs) =
      let rest = visit_items vs in
      if all_numbers vs then fails (not (is_position vs)) geometry_invalid else rest
  visit _ = some geometry_invalid

  pub visit_items : Items → Option AppError
  visit_items nil = none
  visit_items (cons v vs) = or_else (visit v) (visit_items vs)

abbrev is_text : String → Json → Bool
is_text s (str t) = str_eq t s
is_text s _ = false

-- `rejectUnsupportedCoordinates`
unfoldable pub reject_unsupported : Json → Option AppError
reject_unsupported geometry =
    or_else
      (fails (is_text "GeometryCollection" (member "type" geometry)) geometry_type_not_allowed)
      (or_else (fails (not (has_member "coordinates" geometry)) geometry_invalid)
        (visit (member "coordinates" geometry)))

-- `kind === 'circle' ? 'POINT' : KIND_TO_TYPE[kind]`
abbrev is_expected_type : String → String → Bool
is_expected_type kind type =
    if str_eq kind "circle"
    then str_eq type "POINT"
    else if str_eq kind "point"
    then str_eq type "POINT"
    else if str_eq kind "multipoint"
    then str_eq type "MULTIPOINT"
    else if str_eq kind "line"
    then str_eq type "LINESTRING"
    else if str_eq kind "multiline"
    then str_eq type "MULTILINESTRING"
    else if str_eq kind "polygon"
    then str_eq type "POLYGON"
    else str_eq kind "multipolygon" && str_eq type "MULTIPOLYGON"

-- `radiusM > 0`
abbrev is_positive : Option Number → Bool
is_positive none = false
is_positive (some (finite n d s)) = not n && not (d == 0)
is_positive (some (infinite n)) = not n

-- The checks of the inspection.
abbrev inspect : String → Option Number → Option GeometryInspection → Option AppError
inspect kind radius none = some geometry_invalid
inspect kind radius (some g) =
    or_else (fails (g.empty || not (g.dimensions == 2)) geometry_invalid) (
      or_else (fails (not (is_expected_type kind g.type)) geometry_type_not_allowed) (
        or_else (fails (not g.valid) geometry_invalid) (
          or_else (fails (ltb 100000 g.vertices) resource_limit_exceeded) (
            or_else (fails (str_eq kind "circle" && not (is_positive radius)) geometry_invalid)
              (fails (not (str_eq kind "circle") && is_some radius) geometry_invalid)))))

-- `validate`
unfoldable pub validate : Env → Json → String → Option Number → Option AppError
validate env geometry kind radius = or_else (reject_unsupported geometry) (
    or_else
      (fails (ltb (10 * 1024 * 1024) (env.utf8_bytes (env.json_text geometry)))
        resource_limit_exceeded)
      (inspect kind radius (env.st_inspect geometry)))
