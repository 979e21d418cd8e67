-- ===== src/Ledger.antt =====
-- An abstract view of the editorial tables, shared by src/workflow/workflow.service.ts and
-- src/publications/: for each revision its status, its author and its layer, and who took part in it
-- in which part. `Move` is what one command may do to it.
pub mod Separation
pub mod Authors
pub mod Final
use danangmap_backend.Prelude.{
  ℕ, ◌≡◌, ◌≢◌, ◌⊎◌, Bool, true, false, ◌&&◌, ◌||◌, Option, none, some, ◌==◌, if◌then◌else◌,
}
use danangmap_backend.Domain.{
  RevisionStatus, draft, in_review, changes_requested, approved, publishing, published,
  ParticipationType, edit, review, same_participation,
}
use danangmap_backend.Database.{Db, Revision}
use danangmap_backend.Database.Queries.{revision, participates}

pub record Entry : Type 0 where
  pub status : RevisionStatus
  pub created_by : ℕ
  pub layer_id : ℕ

pub record Ledger : Type 0 where
  pub entry : ℕ → Option Entry
  pub part : ℕ → ℕ → ParticipationType → Bool

abbrev pub entry_of : Option Revision → Option Entry
entry_of none = none
entry_of (some r) =
    some (record { status = r.status; created_by = r.created_by; layer_id = r.layer_id })

abbrev pub view : Db → Ledger
view db = record { entry = λ id. entry_of (revision id db); part = λ r u k. participates r u k db }

-- The transitions of a revision that need no participant.
pub data Edge : RevisionStatus → RevisionStatus → Type 0 where
  submits : Edge draft in_review
  admits : Edge approved publishing
  gives_up : Edge publishing approved

abbrev pub with_status : RevisionStatus → Option Entry → Option Entry
with_status to none = none
with_status to (some e) = some (record e { status = to })

abbrev pub Moves : ℕ → RevisionStatus → Ledger → Ledger → Type 0
Moves id to v w = (j : ℕ) → w.entry j ≡ (if j == id then with_status to (v.entry j) else v.entry j)

abbrev pub Joins : ℕ → ℕ → ParticipationType → Ledger → Ledger → Type 0
Joins id actor kind v w =
    (r u : ℕ) (k : ParticipationType)
    → w.part r u k ≡ (v.part r u k || (id == r && actor == u && same_participation kind k))

abbrev pub KeepsParts : Ledger → Ledger → Type 0
KeepsParts v w = (r u : ℕ) (k : ParticipationType) → w.part r u k ≡ v.part r u k

pub data Move (v w : Ledger) : Type 0 where
  -- Nothing changes: the answer comes from a receipt.
  rest : ((j : ℕ) → w.entry j ≡ v.entry j) → KeepsParts v w → Move v w
  advance :
      (id : ℕ) (e : Entry) (to : RevisionStatus)
      → v.entry id ≡ some e
      → Edge e.status to
      → Moves id to v w
      → KeepsParts v w
      → Move v w
  -- Somebody edits a draft.
  edits :
      (id actor : ℕ) (e : Entry)
      → v.entry id ≡ some e
      → e.status ≡ draft
      → ((j : ℕ) → w.entry j ≡ v.entry j)
      → Joins id actor edit v w
      → Move v w
  -- A reviewer who neither wrote nor edited the revision approves it.
  approves :
      (id actor : ℕ) (e : Entry)
      → v.entry id ≡ some e
      → e.status ≡ in_review
      → e.created_by ≢ actor
      → v.part id actor edit ≡ false
      → Moves id approved v w
      → Joins id actor review v w
      → Move v w
  -- Such a reviewer sends it back: it is closed, and its author edits a new draft.
  sends_back :
      (id actor fresh : ℕ) (e : Entry)
      → v.entry id ≡ some e
      → e.status ≡ in_review
      → e.created_by ≢ actor
      → v.part id actor edit ≡ false
      → v.entry fresh ≡ none
      → ((j : ℕ)
          → w.entry j ≡ (
              if j == fresh
              then some (record e { status = draft })
              else if j == id
              then with_status changes_requested (v.entry j)
              else v.entry j))
      → ((r u : ℕ) (k : ParticipationType)
          → w.part r u k ≡ (
              v.part r u k
              || (id == r && actor == u && same_participation review k)
              || (fresh == r && e.created_by == u && same_participation edit k)))
      → Move v w
  -- A publisher who took no editorial part in the revision publishes it.
  publishes :
      (id actor : ℕ) (e : Entry)
      → v.entry id ≡ some e
      → (e.status ≡ approved) ⊎ (e.status ≡ publishing)
      → v.part id actor edit ≡ false
      → v.part id actor review ≡ false
      → Moves id published v w
      → Joins id actor ParticipationType.publish v w
      → Move v w
