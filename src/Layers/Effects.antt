-- ===== src/Layers/Effects.antt =====
-- What one mutation of a batch changes: its feature, one row of the change feed if it is applied, and
-- neither a revision, a participant, a job nor a receipt.
use danangmap_backend.Prelude.{ℕ, String, ◌≡◌, refl, true, List, [], ◌∷◌, ◌++◌, none, some, arith}
use danangmap_backend.Database.{Db, ok}
use danangmap_backend.Database.Sync.{SyncResult, Change, create, update, delete}
use danangmap_backend.Database.Lookup.{>>=-eq-ok}
use danangmap_backend.Json.{Json}
use danangmap_backend.Database.{LayerField}
use danangmap_backend.Database.Queries.{Env, add_audit}
use danangmap_backend.Layers.{Mutation, FeatureInput, FeaturePatch}
use danangmap_backend.Layers.Patch.{
  CurrentFeature, merge_patch, merge_files, files, set_entry, patch_changed_paths,
}
use danangmap_backend.Layers.Mutations.{
  Context, change_row, insert_feature, insert_version, insert_change, create_feature,
}
use danangmap_backend.Layers.Edits.{apply_delete, update_identity, update_feature}
use danangmap_backend.Layers.Batch.{is_applied}

-- The tables that no mutation writes.
pub record Kept (before after : Db) : Type 0 where
  pub revisions : after.revisions ≡ before.revisions
  pub participants : after.participants ≡ before.participants
  pub jobs : after.jobs ≡ before.jobs
  pub mutations : after.mutations ≡ before.mutations

pub record Feeds (id cursor : ℕ) (before after : Db) : Type 0 where
  pub kept : Kept before after
  pub row : Change
  pub of_revision : row.revision_id ≡ id
  pub at_cursor : row.server_cursor ≡ cursor
  pub feed : after.changes ≡ before.changes ++ row ∷ []

pub create_feature-Feeds :
    (c : Context) (m : Mutation) (client : ℕ) (f : FeatureInput) (cursor : ℕ) (db d : Db)
    (r : SyncResult)
    → create_feature c m client f cursor db ≡ ok (r, d)
    → (is_applied r ≡ true) × Feeds c.revision.id cursor db d
unfolding create_feature insert_feature insert_version insert_change add_audit
create_feature-Feeds c m client f cursor db d r h = (
  ground arith,
  record {
    kept = record {
      revisions = ground arith;
      participants = ground arith;
      jobs = ground arith;
      mutations = ground arith;
    };
    row =
        change_row c cursor create (c.env.feature_uuid m.client_mutation_id)
          (some (c.env.version_uuid m.client_mutation_id)) ("geometry" ∷ "properties" ∷ []);
    of_revision = refl;
    at_cursor = refl;
    feed = ground arith;
  },
)

merge_files-reads :
    (env : Env) (version_id : ℕ) (patch : FeaturePatch) (fs : List LayerField)
    (properties x : List (String × Json)) (db d : Db)
    → merge_files env version_id patch fs properties db ≡ ok (x, d)
    → d ≡ db
unfolding merge_files
merge_files-reads env version_id patch [] properties x db d h = ground arith
merge_files-reads env version_id patch (f ∷ fs) properties x db d h = ground (
  arith,
  merge_files-reads env version_id patch fs properties x db d,
  merge_files-reads env version_id patch fs
      (set_entry f.key (files env version_id f.key db) properties) x db d,
)

pub merge_patch-reads :
    (env : Env) (fs : List LayerField) (current : CurrentFeature) (patch : FeaturePatch)
    (x : FeatureInput) (db d : Db)
    → merge_patch env fs current patch db ≡ ok (x, d)
    → d ≡ db
unfolding merge_patch
merge_patch-reads env fs current patch x db d h =
    let (p, d', e, k) = >>=-eq-ok (merge_files env current.version_id patch fs _) _ db h in
    ground (arith, k, merge_files-reads env current.version_id patch fs _ p db d' e)

pub update_feature-Feeds :
    (c : Context) (m : Mutation) (id : ℕ) (current : CurrentFeature) (patch : FeaturePatch)
    (cursor : ℕ) (next : FeatureInput) (db d : Db) (r : SyncResult)
    → update_feature c m id current patch cursor next db ≡ ok (r, d)
    → (is_applied r ≡ true) × Feeds c.revision.id cursor db d
unfolding update_feature update_identity insert_version insert_change add_audit
update_feature-Feeds c m id current patch cursor next db d r h = (
  ground arith,
  record {
    kept = record {
      revisions = ground arith;
      participants = ground arith;
      jobs = ground arith;
      mutations = ground arith;
    };
    row =
        change_row c cursor update id (some (c.env.version_uuid m.client_mutation_id))
          (patch_changed_paths c.env patch);
    of_revision = refl;
    at_cursor = refl;
    feed = ground arith;
  },
)

pub apply_delete-Feeds :
    (c : Context) (m : Mutation) (id cursor : ℕ) (db d : Db) (r : SyncResult)
    → apply_delete c m id cursor db ≡ ok (r, d)
    → (is_applied r ≡ true) × Feeds c.revision.id cursor db d
unfolding apply_delete insert_change add_audit
apply_delete-Feeds c m id cursor db d r h = (
  ground arith,
  record {
    kept = record {
      revisions = ground arith;
      participants = ground arith;
      jobs = ground arith;
      mutations = ground arith;
    };
    row = change_row c cursor delete id none [];
    of_revision = refl;
    at_cursor = refl;
    feed = ground arith;
  },
)
