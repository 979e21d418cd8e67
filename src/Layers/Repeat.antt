-- ===== src/Layers/Repeat.antt =====
-- A batch that is sent again (`syncBatch` of src/layers/feature-sync.service.ts): after its loop every
-- mutation has a receipt, and a batch of receipts is answered from them.
use danangmap_backend.Prelude.{
  append-nil, append_assoc, ◌≡◌, refl, sym, ap, ◌∙◌, List, [], ◌∷◌, ◌++◌, some, arith, inl, inr,
  Option-cases,
}
use danangmap_backend.Database.{Db, ok}
use danangmap_backend.Database.Sync.{SyncResult, ClientMutation}
use danangmap_backend.Database.Lookup.{>>=-eq-ok}
use danangmap_backend.Layers.{Mutation}
use danangmap_backend.Layers.Mutations.{Context}
use danangmap_backend.Layers.Batch.{Progress, sync_item, sync_items, receipt_of, replayed_progress}
use danangmap_backend.Layers.Receipts.{
  stored, Answered, Extends, Loaded, Loaded-Extends, Receipted, sync_new-Receipted,
}

sync_item-Receipted :
    (c : Context) (rs : List ClientMutation) (m : Mutation) (ms : List Mutation) (p q : Progress)
    (db d : Db)
    → Loaded c rs db (m ∷ ms)
    → sync_item c rs m p db ≡ ok (q, d)
    → Receipted c m p q db d
unfolding sync_item
sync_item-Receipted c rs m ms p q db d l h =
    elim (Option-cases (receipt_of m.client_mutation_id rs)) [
      | inl e ↦ sync_new-Receipted c m p q db d (ground arith)
      | inr (row, e) ↦
          let (has, digest) = l.0 row e in
          let same : d ≡ db = ground arith in
          record {
            result = row.response_payload;
            results = ground arith;
            extends = λ i old f. ap (stored c.revision.id c.client_id i) same ∙ f;
            row = row;
            has_row = ap (stored c.revision.id c.client_id m.client_mutation_id) same ∙ has;
            answers = refl;
            same_digest = digest;
          }
    ]

-- After the loop every mutation of the batch has its receipt.
pub record AllAnswered (c : Context) (ms : List Mutation) (p q : Progress) (db d : Db)
    : Type 0 where
  pub out : List SyncResult
  pub results : q.results ≡ p.results ++ out
  pub answered : Answered c d ms out
  pub extends : Extends c db d

pub sync_items-AllAnswered :
    (c : Context) (rs : List ClientMutation) (ms : List Mutation) (p q : Progress) (db d : Db)
    → Loaded c rs db ms
    → sync_items c rs ms p db ≡ ok (q, d)
    → AllAnswered c ms p q db d
unfolding sync_items
sync_items-AllAnswered c rs [] p q db d l h =
    let same : d ≡ db = ground arith in
    record {
      out = [];
      results = ground (arith, append-nil p.results);
      answered = tt;
      extends = λ i row f. ap (stored c.revision.id c.client_id i) same ∙ f;
    }
sync_items-AllAnswered c rs (m ∷ ms) p q db d l h =
    let (p', d', e, k) = >>=-eq-ok (sync_item c rs m p) _ db h in
    let s = sync_item-Receipted c rs m ms p p' db d' l e in
    let t =
      sync_items-AllAnswered c rs ms p' q d' d (Loaded-Extends c rs db d' ms s.extends l.1) k in
    record {
      out = s.result ∷ t.out;
      results =
          t.results
          ∙ ap (λ xs. xs ++ t.out) s.results
          ∙ append_assoc p.results (s.result ∷ []) t.out;
      answered = (
        (s.row, t.extends m.client_mutation_id s.row s.has_row, s.answers, s.same_digest),
        t.answered,
      );
      extends = λ i row f. t.extends i row (s.extends i row f);
    }

-- The receipts that a batch loads are those stored for its mutations.
abbrev pub Holds : List ClientMutation → List Mutation → List SyncResult → Type 0
Holds rs [] [] = Unit
Holds rs (m ∷ ms) (x ∷ xs) =
    ((row : ClientMutation) × (receipt_of m.client_mutation_id rs ≡ some row)
      × (row.response_payload ≡ x))
    × Holds rs ms xs
Holds rs _ _ = ⊥

-- A loop over mutations that all have receipts answers from them and writes nothing.
pub sync_items-Holds :
    (c : Context) (rs : List ClientMutation) (ms : List Mutation) (out : List SyncResult)
    (p : Progress) (db : Db)
    → Holds rs ms out
    → (q : Progress) × (sync_items c rs ms p db ≡ ok (q, db))
      × (q.results ≡ p.results ++ out)
      × (q.cursor ≡ p.cursor)
      × (q.applied_count ≡ p.applied_count)
unfolding sync_items sync_item
sync_items-Holds c rs [] [] p db h = (p, refl, sym (append-nil p.results), refl, refl)
sync_items-Holds c rs (m ∷ ms) (x ∷ xs) p db h =
    let (row, e, f) = h.0 in
    let (q, run, results, cursor, count) =
      sync_items-Holds c rs ms xs (replayed_progress row p) db h.1 in
    (
      q,
      ground (arith, e, run),
      ground (arith, results, f, append_assoc p.results (x ∷ []) xs),
      cursor,
      count,
    )
sync_items-Holds c rs [] (x ∷ xs) p db h = absurd h
sync_items-Holds c rs (m ∷ ms) [] p db h = absurd h
