-- ===== src/Layers/Conflicts.antt =====
-- Optimistic concurrency of src/layers/feature-sync.service.ts: what an update or a deletion has
-- compared, and what it has written.
use danangmap_backend.Prelude.{
  ℕ, suc, ◌+◌, ◌-◌, ◌≡◌, ◌≢◌, ◌⊎◌, inl, inr, refl, subst, true, false, some, List, ◌==◌, arith,
  Option-cases, Bool-cases,
}
use danangmap_backend.Database.{Db, Result, ok, err}
use danangmap_backend.Database.Sync.{SyncResult, SyncOperation, create, update, delete, conflict}
use danangmap_backend.Database.Lookup.{>>=-eq-ok}
use danangmap_backend.Layers.{Mutation, FeaturePatch}
use danangmap_backend.Layers.Patch.{CurrentFeature, merge_patch, changed_paths}
use danangmap_backend.Layers.Mutations.{Context, apply_create}
use danangmap_backend.Layers.Edits.{
  apply_update, update_feature, patched, apply_edit, apply_update_or_delete, apply_by,
  apply_mutation, addressed, current_feature,
}
use danangmap_backend.Layers.Batch.{is_applied, attempt, or_rejected}
use danangmap_backend.Layers.Effects.{
  Feeds, create_feature-Feeds, merge_patch-reads, update_feature-Feeds, apply_delete-Feeds,
}

-- A mutation is applied and enters the change feed, or nothing is written.
abbrev pub Outcome : ℕ → ℕ → SyncResult → Db → Db → Type 0
Outcome id cursor r db d =
    ((is_applied r ≡ true) × Feeds id cursor db d) ⊎ ((is_applied r ≡ false) × (d ≡ db))

apply_update-Feeds :
    (c : Context) (m : Mutation) (id : ℕ) (current : CurrentFeature) (cursor : ℕ) (db d : Db)
    (r : SyncResult) (patch : FeaturePatch)
    → apply_update c m id current patch cursor db ≡ ok (r, d)
    → (is_applied r ≡ true) × Feeds c.revision.id cursor db d
unfolding apply_update
apply_update-Feeds c m id current cursor db d r patch h =
    let (next, d', e, k) = >>=-eq-ok (merge_patch c.env c.fields current patch) _ db h in
    let same = merge_patch-reads c.env c.fields current patch next db d' e in
    update_feature-Feeds c m id current patch cursor next db d r
      (subst (λ x. update_feature c m id current patch cursor next x ≡ ok (r, d)) same k)

patched-Feeds :
    (c : Context) (m : Mutation) (id : ℕ) (current : CurrentFeature) (cursor : ℕ) (db d : Db)
    (r : SyncResult)
    → patched c m id current cursor db ≡ ok (r, d)
    → (is_applied r ≡ true) × Feeds c.revision.id cursor db d
patched-Feeds c m id current cursor db d r h = elim (Option-cases m.patch) [
  | inl e ↦ absurd (ground arith)
  | inr (patch, e) ↦ apply_update-Feeds c m id current cursor db d r patch (ground arith)
]

apply_edit-Feeds :
    (o : SyncOperation) (c : Context) (m : Mutation) (id : ℕ) (current : CurrentFeature)
    (cursor : ℕ) (db d : Db) (r : SyncResult)
    → apply_edit o c m id current cursor db ≡ ok (r, d)
    → (is_applied r ≡ true) × Feeds c.revision.id cursor db d
unfolding apply_edit
apply_edit-Feeds create c m id current cursor db d r h =
    patched-Feeds c m id current cursor db d r h
apply_edit-Feeds update c m id current cursor db d r h =
    patched-Feeds c m id current cursor db d r h
apply_edit-Feeds delete c m id current cursor db d r h = apply_delete-Feeds c m id cursor db d r h

-- All that an update or a deletion that throws nothing has found.
pub record Edited (c : Context) (m : Mutation) (mappings : List (ℕ × ℕ)) (cursor : ℕ)
    (r : SyncResult) (db d : Db) : Type 0 where
  pub base : ℕ
  pub names_base : m.base_version_id ≡ some base
  pub id : ℕ
  pub names_feature : addressed m mappings ≡ some id
  pub current : CurrentFeature
  pub found : current_feature c.env c.revision.id id db ≡ some current
  pub outcome :
      ((current.version_id ≡ base) × (is_applied r ≡ true) × Feeds c.revision.id cursor db d)
      ⊎ ((current.version_id ≢ base)
          × (r
              ≡ conflict m.client_mutation_id m.operation id
                  (cursor - 1)
                  current.version_id
                  (changed_paths c.env id base current db))
          × (d ≡ db))

-- An update or a deletion that throws nothing names a base version and a feature of the revision. It
-- is applied, with one row at the given cursor of the change feed, just where the base version is the
-- feature's current one; where it is not, the answer is a conflict that names the current version and
-- what has changed since, and nothing is written.
pub apply_update_or_delete-Edited :
    (c : Context) (m : Mutation) (mappings : List (ℕ × ℕ)) (cursor : ℕ) (db d : Db) (r : SyncResult)
    → apply_update_or_delete c m mappings cursor db ≡ ok (r, d)
    → Edited c m mappings cursor r db d
unfolding apply_update_or_delete
apply_update_or_delete-Edited c m mappings cursor db d r h = elim (Option-cases m.base_version_id) [
  | inl e ↦ absurd (ground arith)
  | inr (base, e) ↦ elim (Option-cases (addressed m mappings)) [
    | inl f ↦ absurd (ground arith)
    | inr (id, f) ↦ elim (Option-cases (current_feature c.env c.revision.id id db)) [
      | inl g ↦ absurd (ground arith)
      | inr (current, g) ↦ elim (Bool-cases (current.version_id == base)) [
        | inl q ↦ record {
          base = base;
          names_base = e;
          id = id;
          names_feature = f;
          current = current;
          found = g;
          outcome =
              let (a, w) =
                apply_edit-Feeds m.operation c m id current cursor db d r (ground arith) in
              inl (ground arith, a, w);
        }
        | inr q ↦ record {
          base = base;
          names_base = e;
          id = id;
          names_feature = f;
          current = current;
          found = g;
          outcome = inr (ground arith, ground arith, ground arith);
        }
      ]
    ]
  ]
]

apply_create-Feeds :
    (c : Context) (m : Mutation) (mappings : List (ℕ × ℕ)) (cursor : ℕ) (db d : Db) (r : SyncResult)
    → apply_create c m mappings cursor db ≡ ok (r, d)
    → (is_applied r ≡ true) × Feeds c.revision.id cursor db d
unfolding apply_create
apply_create-Feeds c m mappings cursor db d r h = elim (Option-cases m.client_feature_id) [
  | inl e ↦ absurd (ground arith)
  | inr (client, e) ↦ elim (Option-cases m.feature) [
    | inl f ↦ absurd (ground arith)
    | inr (feature, f) ↦ create_feature-Feeds c m client feature cursor db d r (ground arith)
  ]
]

Edited-Outcome :
    (c : Context) (m : Mutation) (mappings : List (ℕ × ℕ)) (cursor : ℕ) (db d : Db) (r : SyncResult)
    → Edited c m mappings cursor r db d
    → Outcome c.revision.id cursor r db d
Edited-Outcome c m mappings cursor db d r e = elim e.outcome [
  | inl (_, a, f) ↦ inl (a, f)
  | inr (_, a, f) ↦ inr (ground arith, f)
]

apply_mutation-Outcome :
    (c : Context) (m : Mutation) (mappings : List (ℕ × ℕ)) (cursor : ℕ) (db d : Db) (r : SyncResult)
    → apply_mutation c m mappings cursor db ≡ ok (r, d)
    → Outcome c.revision.id cursor r db d
unfolding apply_mutation
apply_mutation-Outcome c m mappings cursor db d r = go m.operation
  where
    go :
        (o : SyncOperation)
        → apply_by o c m mappings cursor db ≡ ok (r, d)
        → Outcome c.revision.id cursor r db d
    go create h = inl (apply_create-Feeds c m mappings cursor db d r h)
    go update h =
        Edited-Outcome c m mappings cursor db d r
          (apply_update_or_delete-Edited c m mappings cursor db d r h)
    go delete h =
        Edited-Outcome c m mappings cursor db d r
          (apply_update_or_delete-Edited c m mappings cursor db d r h)

-- The same for a mutation in its savepoint, which may be rejected.
pub attempt-Outcome :
    (c : Context) (m : Mutation) (mappings : List (ℕ × ℕ)) (cursor : ℕ) (db d : Db) (r : SyncResult)
    → attempt c m mappings cursor db ≡ ok (r, d)
    → Outcome c.revision.id (suc cursor) r db d
unfolding attempt
attempt-Outcome c m mappings cursor db d r h = go _ refl h
  where
    go :
        (x : Result (SyncResult × Db))
        → apply_mutation c m mappings (cursor + 1) db ≡ x
        → or_rejected m cursor db x ≡ ok (r, d)
        → Outcome c.revision.id (suc cursor) r db d
    go (ok (s, d')) e h =
        subst (λ n. Outcome c.revision.id n r db d) (omega arith)
          (apply_mutation-Outcome c m mappings (cursor + 1) db d r (ground arith))
    go (err x) e h = inr (ground arith, ground arith)
