-- ===== src/Layers/Loading.antt =====
-- The receipts that `loadReceipts` of src/layers/feature-sync.service.ts finds for a batch.
use text.Mathlib.TextEquality.{eq_iff}
use danangmap_backend.Prelude.{
  ℕ, ◌≡◌, refl, sym, subst, ◌∙◌, Bool, ◌&&◌, true, List, [], ◌∷◌, none, some, ◌==◌, ==-refl,
  exists_by, find_by, select_by, arith, inl, inr, All, All-map, Bool-cases,
}
use danangmap_backend.Database.{Db}
use danangmap_backend.Database.Sync.{SyncResult, ClientMutation}
use danangmap_backend.Database.Queries.{Env}
use danangmap_backend.Layers.{Mutation}
use danangmap_backend.Layers.Mutations.{Context}
use danangmap_backend.Layers.Batch.{
  receipt_of, is_of_client, load_receipts, check_hashes, new_mutations, mutation_payload_hash,
}
use danangmap_backend.Layers.Receipts.{stored, Answered, Loaded}
use danangmap_backend.Layers.Repeat.{Holds}

module _ {ℓ} {A : Type ℓ} where
  find_by-select_by :
      (p q r : A → Bool) (xs : List A)
      → ((x : A) → (q x && p x) ≡ r x)
      → find_by p (select_by q xs) ≡ find_by r xs
  unfolding find_by select_by
  find_by-select_by p q r [] k = refl
  find_by-select_by p q r (x ∷ xs) k = ground (arith, k x, find_by-select_by p q r xs k)

-- Whether a batch has a mutation with this identifier.
abbrev pub has_mutation : List Mutation → ℕ → Bool
has_mutation ms i = exists_by (λ (m : Mutation). m.client_mutation_id == i) ms

same_test :
    (id client i : ℕ) (ms : List Mutation) (r : ClientMutation)
    → has_mutation ms i ≡ true
    → ((is_of_client id client r && has_mutation ms r.mutation_id) && r.mutation_id == i)
      ≡ (is_of_client id client r && r.mutation_id == i)
same_test id client i ms r h = elim (Bool-cases (r.mutation_id == i)) [
  | inl e ↦
      let same : has_mutation ms r.mutation_id ≡ true =
        subst (λ k. has_mutation ms k ≡ true) (ground arith) h in
      ground arith
  | inr e ↦ ground arith
]

pub receipt_of-load :
    (id client i : ℕ) (ms : List Mutation) (db : Db)
    → has_mutation ms i ≡ true
    → receipt_of i (load_receipts id client ms db) ≡ stored id client i db
receipt_of-load id client i ms db h =
    find_by-select_by (λ (r : ClientMutation). r.mutation_id == i)
      (λ r. is_of_client id client r && has_mutation ms r.mutation_id)
      (λ r. is_of_client id client r && r.mutation_id == i) db.mutations
      (λ r. same_test id client i ms r h)

abbrev pub Among : List Mutation → List Mutation → Type 0
Among all ms = All (λ (m : Mutation). has_mutation all m.client_mutation_id ≡ true) ms

has_mutation-cons :
    (n : Mutation) (ms : List Mutation) (i : ℕ)
    → has_mutation ms i ≡ true
    → has_mutation (n ∷ ms) i ≡ true
unfolding exists_by
has_mutation-cons n ms i h = ground arith

pub Among-itself : (ms : List Mutation) → Among ms ms
unfolding exists_by
Among-itself [] = tt
Among-itself (m ∷ ms) = (
  ground (arith, ==-refl m.client_mutation_id),
  All-map (λ (n : Mutation). has_mutation ms n.client_mutation_id ≡ true)
      (λ (n : Mutation). has_mutation (m ∷ ms) n.client_mutation_id ≡ true) ms
      (λ n h. has_mutation-cons m ms n.client_mutation_id h) (Among-itself ms),
)

-- The checks of the first loop, mutation by mutation.
pub check_hashes-cons :
    (env : Env) (rs : List ClientMutation) (m : Mutation) (ms : List Mutation)
    → check_hashes env rs (m ∷ ms) ≡ none
    → ((row : ClientMutation)
        → receipt_of m.client_mutation_id rs ≡ some row
        → row.request_digest ≡ mutation_payload_hash env m)
      × (m.payload_hash ≡ mutation_payload_hash env m)
      × (check_hashes env rs ms ≡ none)
unfolding check_hashes
check_hashes-cons env rs m ms h =
    let hash = mutation_payload_hash env m in
    (
      λ row e. ground (arith, eq_iff row.request_digest hash),
      ground (arith, eq_iff m.payload_hash hash),
      ground arith,
    )

pub check_hashes-Loaded :
    (c : Context) (all ms : List Mutation) (db : Db)
    → Among all ms
    → check_hashes c.env (load_receipts c.revision.id c.client_id all db) ms ≡ none
    → Loaded c (load_receipts c.revision.id c.client_id all db) db ms
check_hashes-Loaded c all [] db a h = tt
check_hashes-Loaded c all (m ∷ ms) db a h =
    let (digest, _, rest) =
      check_hashes-cons c.env (load_receipts c.revision.id c.client_id all db) m ms h in
    (
      λ row e. (
        sym (receipt_of-load c.revision.id c.client_id m.client_mutation_id all db a.0) ∙ e,
        digest row e,
      ),
      check_hashes-Loaded c all ms db a.1 rest,
    )

pub Answered-Holds :
    (c : Context) (all ms : List Mutation) (out : List SyncResult) (db : Db)
    → Among all ms
    → Answered c db ms out
    → Holds (load_receipts c.revision.id c.client_id all db) ms out
Answered-Holds c all [] [] db a h = tt
Answered-Holds c all (m ∷ ms) (x ∷ xs) db a h = (
  (h.0.0, receipt_of-load c.revision.id c.client_id m.client_mutation_id all db a.0 ∙ h.0.1, h.0.2),
  Answered-Holds c all ms xs db a.1 h.1,
)
Answered-Holds c all [] (x ∷ xs) db a h = h
Answered-Holds c all (m ∷ ms) [] db a h = h

pub Holds-new_mutations :
    (rs : List ClientMutation) (ms : List Mutation) (out : List SyncResult)
    → Holds rs ms out
    → new_mutations rs ms ≡ []
unfolding select_by
Holds-new_mutations rs [] [] h = refl
Holds-new_mutations rs (m ∷ ms) (x ∷ xs) h = ground (arith, h.0.1, Holds-new_mutations rs ms xs h.1)
Holds-new_mutations rs [] (x ∷ xs) h = absurd h
Holds-new_mutations rs (m ∷ ms) [] h = absurd h

-- The first loop accepts the batch again.
pub Answered-check_hashes :
    (later : Env) (c : Context) (rs : List ClientMutation) (all ms : List Mutation)
    (out : List SyncResult) (db : Db)
    → ((m : Mutation) → mutation_payload_hash later m ≡ mutation_payload_hash c.env m)
    → Among all ms
    → check_hashes c.env rs ms ≡ none
    → Answered c db ms out
    → check_hashes later (load_receipts c.revision.id c.client_id all db) ms ≡ none
unfolding check_hashes
Answered-check_hashes later c rs all [] [] db same a h k = refl
Answered-check_hashes later c rs all (m ∷ ms) (x ∷ xs) db same a h k =
    let (_, hash, rest) = check_hashes-cons c.env rs m ms h in
    let again = Answered-check_hashes later c rs all ms xs db same a.1 rest k.1 in
    let found = receipt_of-load c.revision.id c.client_id m.client_mutation_id all db a.0 ∙ k.0.1 in
    let digest : k.0.0.request_digest ≡ mutation_payload_hash later m = k.0.3 ∙ sym (same m) in
    let stated : m.payload_hash ≡ mutation_payload_hash later m = hash ∙ sym (same m) in
    ground (
      arith,
      found,
      again,
      eq_iff k.0.0.request_digest (mutation_payload_hash later m),
      eq_iff m.payload_hash (mutation_payload_hash later m),
    )
Answered-check_hashes later c rs all [] (x ∷ xs) db same a h k = absurd k
Answered-check_hashes later c rs all (m ∷ ms) [] db same a h k = absurd k
