-- ===== src/Layers/Naming.antt =====
-- Edits that name their feature by the identifier that the client gave it (`clientFeatureId` of
-- src/layers/feature-sync.service.ts).
use danangmap_backend.Prelude.{
  ℕ, Bool, ◌≡◌, ap, ◌∙◌, ◌&&◌, true, false, List, some, ◌==◌, exists_by, is_some, arith, inl, inr,
}
use danangmap_backend.Domain.{query_failed, uq_client_feature_mapping}
use danangmap_backend.Database.{Db, ok, err}
use danangmap_backend.Database.Sync.{SyncResult, ClientMutation}
use danangmap_backend.Layers.{Mutation}
use danangmap_backend.Layers.Mutations.{Context}
use danangmap_backend.Layers.Batch.{
  Progress, attempt, persist_receipt, sync_new, is_applied, is_of_client, same_some,
}
use danangmap_backend.Layers.Conflicts.{attempt-Outcome}

-- Whether the client has named a feature with this identifier in an earlier mutation.
abbrev pub is_named : Context → ℕ → List ClientMutation → Bool
is_named c client_feature_id rows =
    exists_by
      (λ r.
        is_of_client c.revision.id c.client_id r
        && is_some r.canonical_feature_id
        && same_some r.client_feature_id (some client_feature_id))
      rows

-- Whether the mutation has a receipt.
abbrev pub has_receipt : Context → ℕ → List ClientMutation → Bool
has_receipt c mutation_id rows =
    exists_by (λ r. is_of_client c.revision.id c.client_id r && r.mutation_id == mutation_id) rows

-- A new mutation that carries a clientFeatureId by which its client has already named a feature, and
-- that is applied in its savepoint, makes the whole batch throw: the receipt violates
-- uq_client_feature_mapping, outside of the savepoint.
pub named_edit_fails :
    (c : Context) (m : Mutation) (p : Progress) (client_feature_id : ℕ) (r : SyncResult) (db d : Db)
    → m.client_feature_id ≡ some client_feature_id
    → is_named c client_feature_id db.mutations ≡ true
    → has_receipt c m.client_mutation_id db.mutations ≡ false
    → attempt c m p.mappings p.cursor db ≡ ok (r, d)
    → is_applied r ≡ true
    → sync_new c m p db ≡ err (query_failed uq_client_feature_mapping)
unfolding sync_new persist_receipt
named_edit_fails c m p k r db d e named fresh h a =
    elim (attempt-Outcome c m p.mappings p.cursor db d r h) [
      | inl (_, f) ↦
          let known = ap (is_named c k) f.kept.mutations ∙ named in
          let new = ap (has_receipt c m.client_mutation_id) f.kept.mutations ∙ fresh in
          ground (arith, known, new)
      | inr (b, _) ↦ absurd (ground arith)
    ]
