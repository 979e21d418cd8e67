-- ===== src/Idempotency/Canonical.antt =====
-- `canonical` and `digest` of src/common/idempotency/idempotency.service.ts. The keys of a command's
-- payload are no array indices, so JavaScript keeps them in the order of `Object.fromEntries`.
use danangmap_backend.Prelude.{String, Bool, if◌then◌else◌}
use danangmap_backend.Json.{
  Json, Items, Fields, undefined, null, bool, num, real, str, ident, arr, obj, nil, cons, end,
  field, is_undefined,
}
use danangmap_backend.Database.Queries.{Env}

-- One step of the sort by `localeCompare`.
unfoldable pub insert_field : (String → String → Bool) → String → Json → Fields → Fields
insert_field before k v end = field k v end
insert_field before k v (field j w fs) =
    if before j k then field j w (insert_field before k v fs) else field k v (field j w fs)

unfoldable mutual
  unfolding insert_field

  pub canonical : (String → String → Bool) → Json → Json
  canonical before (arr vs) = arr (canonical_items before vs)
  canonical before (obj fs) = obj (canonical_fields before fs)
  canonical before undefined = undefined
  canonical before null = null
  canonical before (bool b) = bool b
  canonical before (num n) = num n
  canonical before (real x) = real x
  canonical before (str s) = str s
  canonical before (ident n) = ident n

  pub canonical_items : (String → String → Bool) → Items → Items
  canonical_items before nil = nil
  canonical_items before (cons v vs) = cons (canonical before v) (canonical_items before vs)

  -- The entries that have a value, sorted by key.
  pub canonical_fields : (String → String → Bool) → Fields → Fields
  canonical_fields before end = end
  canonical_fields before (field k v fs) =
      let rest = canonical_fields before fs in
      if is_undefined v then rest else insert_field before k (canonical before v) rest

-- `digest`
unfoldable pub digest : Env → Json → String
digest env v = env.sha256 (env.json_text (canonical env.locale_before v))
