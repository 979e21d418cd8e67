-- ===== src/Layers/Definitions/Sound.antt =====
-- What `validateLayer` ensures of the fields that it accepts.
use danangmap_backend.Prelude.{
  or_else-none, String, ◌≡◌, sym, ap, ◌∙◌, All-map, Bool, true, false, not, ◌&&◌, List, [], ◌∷◌,
  none, All, exists_by, or_else, arith, if◌then◌else◌,
}
use danangmap_backend.Json.Numbers.{is_nullish}
use danangmap_backend.Domain.{AppError, schema_violation}
use danangmap_backend.Database.{LayerField}
use danangmap_backend.Database.Queries.{Env}
use danangmap_backend.Layers.Schema.{fails, matches_type, assert_constraints}
use danangmap_backend.Layers.Definitions.{
  PopupConfig, LayerStyle, RenderConfig, assert_limits, assert_default, has_key, validate_next,
  validate_definitions, validate_layer,
}

-- A sensitive field is neither public nor kept offline, and a default value is one that a feature may
-- have.
pub record IsSound (env : Env) (f : LayerField) : Type 0 where
  pub private : f.sensitive ≡ true → (f.is_public ≡ false) × (f.offline_cache ≡ false)
  pub typed : is_nullish f.default_value ≡ false → matches_type f.type f.default_value ≡ true
  pub constrained :
      is_nullish f.default_value ≡ false → assert_constraints env f f.default_value ≡ none

-- No two fields have the same key.
abbrev pub AreDistinct : List LayerField → Type 0
AreDistinct [] = Unit
AreDistinct (f ∷ fs) = All (λ g. has_key g.key (f ∷ []) ≡ false) fs × AreDistinct fs

fails-none : (b : Bool) (e : AppError) → fails b e ≡ none → b ≡ false
fails-none b e h = ground arith

default_passes :
    (env : Env) (f : LayerField)
    → assert_default env f ≡ none
    → is_nullish f.default_value ≡ false
    → (matches_type f.type f.default_value ≡ true)
      × (assert_constraints env f f.default_value ≡ none)
default_passes env f h e =
    let checked : or_else (fails (not (matches_type f.type f.default_value)) schema_violation)
          (assert_constraints env f f.default_value)
        ≡ none =
      sym (
        ap
          (λ b.
            if b
            then none
            else or_else (fails (not (matches_type f.type f.default_value)) schema_violation)
                (assert_constraints env f f.default_value))
          e)
      ∙ h in
    let (typed, constrained) = or_else-none _ _ checked in
    (ground (arith, fails-none _ _ typed), constrained)

-- One turn of the loop.
next_passes :
    (env : Env) (before : List LayerField) (f : LayerField)
    → validate_next env before f ≡ none
    → (has_key f.key before ≡ false) × IsSound env f
next_passes env before f h =
    let (fresh, h1) = or_else-none _ _ h in
    let (offline, h2) = or_else-none _ _ h1 in
    let (public, h3) = or_else-none _ _ h2 in
    let (_, default) = or_else-none (assert_limits f) (assert_default env f) h3 in
    (
      fails-none (has_key f.key before) schema_violation fresh,
      record {
        private = λ s. (
          ground (arith, fails-none (f.sensitive && f.is_public) schema_violation public),
          ground (arith, fails-none (f.sensitive && f.offline_cache) schema_violation offline),
        );
        typed = λ e. (default_passes env f default e).0;
        constrained = λ e. (default_passes env f default e).1;
      },
    )

-- What the loop ensures of the fields that come after the given ones.
definitions_pass :
    (env : Env) (before fs : List LayerField)
    → validate_definitions env before fs ≡ none
    → All (IsSound env) fs × All (λ f. has_key f.key before ≡ false) fs × AreDistinct fs
unfolding validate_definitions exists_by
definitions_pass env before [] h = (tt, tt, tt)
definitions_pass env before (f ∷ fs) h =
    let (first, rest) =
      or_else-none (validate_next env before f) (validate_definitions env (f ∷ before) fs) h in
    let (fresh, sound) = next_passes env before f first in
    let (others, apart, distinct) = definitions_pass env (f ∷ before) fs rest in
    (
      (sound, others),
      (fresh, All-map _ (λ g. has_key g.key before ≡ false) fs (λ g e. ground arith) apart),
      (All-map _ (λ g. has_key g.key (f ∷ []) ≡ false) fs (λ g e. ground arith) apart, distinct),
    )

-- A configuration that `validateLayer` accepts has fields of different keys; a sensitive one is neither
-- public nor cached offline, and a default value has the type and keeps the constraints of its field.
pub validate_layer-AreDistinct :
    (env : Env) (mode : String) (kinds : List String) (fs : List LayerField) (popup : PopupConfig)
    (style : LayerStyle) (render : RenderConfig)
    → validate_layer env mode kinds fs popup style render ≡ none
    → AreDistinct fs × All (IsSound env) fs
unfolding validate_layer
validate_layer-AreDistinct env mode kinds fs popup style render h =
    let (_, h1) = or_else-none _ _ h in
    let (_, h2) = or_else-none _ _ h1 in
    let (passed, _) = or_else-none _ _ h2 in
    let (sound, _, distinct) = definitions_pass env [] fs passed in (distinct, sound)
