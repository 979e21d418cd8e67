-- ===== src/Examples/Definitions.antt =====
-- A layer with one field that has a default value, and the theorem about its definitions.
use danangmap_backend.Prelude.{refl, true, false, none, some, [], ◌∷◌, All, exists_by}
use danangmap_backend.Json.{null, str}
use danangmap_backend.Json.Numbers.{number_lt}
use danangmap_backend.Database.{LayerField}
use danangmap_backend.Layers.Schema.{assert_constraints, matches_type}
use danangmap_backend.Layers.Definitions.{
  PopupConfig, LayerStyle, RenderConfig, validate_layer, validate_definitions, assert_limits,
  validate_style, has_duplicate,
}
use danangmap_backend.Layers.Definitions.Sound.{IsSound, AreDistinct, validate_layer-AreDistinct}
use danangmap_backend.Examples.{env_at}

-- A choice between two values, one of them the default.
abbrev choice : LayerField
choice = record {
  id = 70;
  revision_id = 2;
  key = "kind";
  type = "enum";
  required = false;
  is_public = true;
  sensitive = false;
  offline_cache = true;
  default_value = str "park";
  validation = null;
  options = "park" ∷ "school" ∷ [];
  definition = null;
  display_order = 0;
}

abbrev popup : PopupConfig
popup = record { title_field = some "kind"; subtitle_field = none; field_keys = none }

abbrev style : LayerStyle
style = record { point = true; point_cluster = false; line = false; polygon = false }

abbrev render : RenderConfig
render = record { min_zoom = none; max_zoom = none; cluster = false }

validate_layer-AreDistinct_example :
    AreDistinct (choice ∷ []) × All (IsSound (env_at 1 1)) (choice ∷ [])
unfolding validate_layer validate_definitions assert_limits validate_style has_duplicate
    assert_constraints matches_type exists_by number_lt
validate_layer-AreDistinct_example =
    validate_layer-AreDistinct (env_at 1 1) "point" ("point" ∷ []) (choice ∷ []) popup style render
      refl
