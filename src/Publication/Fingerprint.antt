-- ===== src/Publication/Fingerprint.antt =====
-- src/publications/publication-fingerprint.service.ts: the digest of what a revision publishes besides
-- its features.
use danangmap_backend.Prelude.{
  ℕ, String, ◌&&◌, ◌||◌, [], ◌∷◌, List, Option, none, some, ◌==◌, ltb, leb, if◌then◌else◌, map,
  select_by,
}
use danangmap_backend.Json.{Json, bool, num, str, ident, arr, items, object}
use danangmap_backend.Domain.{defect}
use danangmap_backend.Database.{Db, Tx, Revision, LayerField, first_or}
use danangmap_backend.Database.Queries.{Env, revision}

-- ORDER BY field.display_order,field.id
insert_field : LayerField → List LayerField → List LayerField
insert_field f [] = f ∷ []
insert_field f (g ∷ gs) =
    if ltb f.display_order g.display_order || (f.display_order == g.display_order && leb f.id g.id)
    then f ∷ g ∷ gs
    else g ∷ insert_field f gs

by_display_order : List LayerField → List LayerField
by_display_order [] = []
by_display_order (f ∷ fs) = insert_field f (by_display_order fs)

abbrev field_json : LayerField → Json
field_json f = object (
    ("id", ident f.id)
    ∷ ("key", str f.key)
    ∷ ("type", str f.type)
    ∷ ("required", bool f.required)
    ∷ ("public", bool f.is_public)
    ∷ ("sensitive", bool f.sensitive)
    ∷ ("offlineCache", bool f.offline_cache)
    ∷ ("defaultValue", f.default_value)
    ∷ ("validation", f.validation)
    ∷ ("options", arr (items (map (λ o. str o) f.options)))
    ∷ ("definition", f.definition)
    ∷ ("displayOrder", num f.display_order)
    ∷ [])

-- The jsonb object that the query builds.
unfoldable pub fingerprint_json : Revision → Db → Json
unfolding insert_field by_display_order
fingerprint_json r db = object (
    ("id", ident r.id)
    ∷ ("layerId", ident r.layer_id)
    ∷ ("geometryMode", str r.geometry_mode)
    ∷ ("allowedGeometryKinds", arr (items (map (λ k. str k) r.allowed_geometry_kinds)))
    ∷ ("style", r.style)
    ∷ ("renderConfig", r.render_config)
    ∷ ("popupConfig", r.popup_config)
    ∷ ("schemaVersion", num r.schema_version)
    ∷ ("cursorSeq", num r.cursor_seq)
    ∷ (
      "fields",
      arr (
          items
            (map field_json (by_display_order (select_by (λ f. f.revision_id == r.id) db.fields)))),
    )
    ∷ [])

abbrev pub fingerprint : Env → Revision → Db → String
fingerprint env r db = env.sha256 (env.jsonb_text (fingerprint_json r db))

abbrev fingerprint? : Env → Option Revision → Db → Option String
fingerprint? env none db = none
fingerprint? env (some r) db = some (fingerprint env r db)

-- `calculate`
abbrev pub calculate : Env → ℕ → Tx String
calculate env revision_id = first_or (λ db. fingerprint? env (revision revision_id db) db) defect
