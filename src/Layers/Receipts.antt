-- ===== src/Layers/Receipts.antt =====
-- The receipts of the mutations of a batch (`client_mutations` of src/layers/feature-sync.service.ts)
-- after its loop.
use danangmap_backend.Prelude.{
  ℕ, ◌≡◌, refl, sym, ap, ◌∙◌, Bool, ◌&&◌, false, List, [], ◌∷◌, ◌++◌, Option, none, some, ◌==◌,
  ==-refl, exists_by, find_by, or_else, find_by-append, arith, inl, inr, if◌then◌else◌,
}
use danangmap_backend.Database.{Db, ok}
use danangmap_backend.Database.Sync.{SyncResult, ClientMutation}
use danangmap_backend.Database.Lookup.{>>=-eq-ok}
use danangmap_backend.Layers.{Mutation}
use danangmap_backend.Layers.Mutations.{Context}
use danangmap_backend.Layers.Batch.{
  Progress, attempt, persist_receipt, receipt_row, sync_new, receipt_of, next_cursor, is_of_client,
  mutation_payload_hash,
}
use danangmap_backend.Layers.Conflicts.{attempt-Outcome}

-- The stored receipt of a mutation.
abbrev pub stored : ℕ → ℕ → ℕ → Db → Option ClientMutation
stored id client mutation_id db =
    find_by (λ r. is_of_client id client r && r.mutation_id == mutation_id) db.mutations

-- Each mutation has a receipt of its payload, with the result at its place.
abbrev pub Answered : Context → Db → List Mutation → List SyncResult → Type 0
Answered c db [] [] = Unit
Answered c db (m ∷ ms) (x ∷ xs) =
    ((row : ClientMutation) × (stored c.revision.id c.client_id m.client_mutation_id db ≡ some row)
      × (row.response_payload ≡ x)
      × (row.request_digest ≡ mutation_payload_hash c.env m))
    × Answered c db ms xs
Answered c db _ _ = ⊥

-- Receipts are only added.
abbrev pub Extends : Context → Db → Db → Type 0
Extends c before after =
    (i : ℕ) (row : ClientMutation)
    → stored c.revision.id c.client_id i before ≡ some row
    → stored c.revision.id c.client_id i after ≡ some row

-- The receipts that the batch has loaded are stored, and are of the same payloads.
abbrev pub Loaded : Context → List ClientMutation → Db → List Mutation → Type 0
Loaded c rs db [] = Unit
Loaded c rs db (m ∷ ms) =
    ((row : ClientMutation)
      → receipt_of m.client_mutation_id rs ≡ some row
      → (stored c.revision.id c.client_id m.client_mutation_id db ≡ some row)
        × (row.request_digest ≡ mutation_payload_hash c.env m))
    × Loaded c rs db ms

pub Loaded-Extends :
    (c : Context) (rs : List ClientMutation) (db d : Db) (ms : List Mutation)
    → Extends c db d
    → Loaded c rs db ms
    → Loaded c rs d ms
Loaded-Extends c rs db d [] e h = tt
Loaded-Extends c rs db d (m ∷ ms) e h = (
  λ row f. (e m.client_mutation_id row (h.0 row f).0, (h.0 row f).1),
  Loaded-Extends c rs db d ms e h.1,
)

find_by-none :
    (p : ClientMutation → Bool) (xs : List ClientMutation)
    → exists_by p xs ≡ false
    → find_by p xs ≡ none
unfolding find_by exists_by
find_by-none p [] h = refl
find_by-none p (x ∷ xs) h = ground (arith, find_by-none p xs)

stored-append :
    (id client i : ℕ) (db d : Db) (row : ClientMutation)
    → d.mutations ≡ db.mutations ++ row ∷ []
    → stored id client i d
      ≡ or_else
          (stored id client i db)
          (if is_of_client id client row && row.mutation_id == i then some row else none)
unfolding find_by
stored-append id client i db d row e =
    ap (find_by (λ r. is_of_client id client r && r.mutation_id == i)) e
    ∙ find_by-append (λ r. is_of_client id client r && r.mutation_id == i) db.mutations (row ∷ [])

pub record Receipted (c : Context) (m : Mutation) (p q : Progress) (db d : Db) : Type 0 where
  pub result : SyncResult
  pub results : q.results ≡ p.results ++ result ∷ []
  pub extends : Extends c db d
  pub row : ClientMutation
  pub has_row : stored c.revision.id c.client_id m.client_mutation_id d ≡ some row
  pub answers : row.response_payload ≡ result
  pub same_digest : row.request_digest ≡ mutation_payload_hash c.env m

pub sync_new-Receipted :
    (c : Context) (m : Mutation) (p q : Progress) (db d : Db)
    → sync_new c m p db ≡ ok (q, d)
    → Receipted c m p q db d
unfolding sync_new persist_receipt
sync_new-Receipted c m p q db d h =
    let (r, d', e, k) = >>=-eq-ok (attempt c m p.mappings p.cursor) _ db h in
    let row = receipt_row c m r (next_cursor p.cursor r) in
    let kept : d'.mutations ≡ db.mutations =
      elim (attempt-Outcome c m p.mappings p.cursor db d' r e) [
        | inl (_, f) ↦ f.kept.mutations
        | inr (_, same) ↦ ap (λ (x : Db). x.mutations) same
      ] in
    let added : d.mutations ≡ db.mutations ++ row ∷ [] = ground (arith, k, kept) in
    let fresh : exists_by
          (λ s. is_of_client c.revision.id c.client_id s && s.mutation_id == m.client_mutation_id)
          d'.mutations
        ≡ false =
      ground (arith, k) in
    record {
      result = r;
      results = ground (arith, k);
      extends =
          λ i old f. stored-append c.revision.id c.client_id i db d row added ∙ ground (arith, f);
      row = row;
      has_row =
          stored-append c.revision.id c.client_id m.client_mutation_id db d row added
          ∙ ground (
            arith,
            ==-refl c.revision.id,
            ==-refl c.client_id,
            ==-refl m.client_mutation_id,
            find_by-none
                (λ s.
                  is_of_client c.revision.id c.client_id s && s.mutation_id == m.client_mutation_id)
                db.mutations (ap (exists_by _) (sym kept) ∙ fresh),
          );
      answers = refl;
      same_digest = refl;
    }
