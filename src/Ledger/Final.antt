-- ===== src/Ledger/Final.antt =====
-- Statuses that a revision never leaves.
use danangmap_backend.Prelude.{ℕ, ◌≡◌, ◌⊎◌, ◌∙◌, some, arith}
use danangmap_backend.Domain.{RevisionStatus, changes_requested, published}
use danangmap_backend.Ledger.{
  Entry, Ledger, Edge, submits, admits, gives_up, Move, rest, advance, edits, approves, sends_back,
  publishes,
}

abbrev pub IsFinal : RevisionStatus → Type 0
IsFinal s = (s ≡ changes_requested) ⊎ (s ≡ published)

Edge-not-IsFinal : {from to : RevisionStatus} → Edge from to → ¬ IsFinal from
Edge-not-IsFinal submits h = ground arith
Edge-not-IsFinal admits h = ground arith
Edge-not-IsFinal gives_up h = ground arith

-- A published revision, and one sent back, keeps its status, its author and its layer in every move.
pub Move-final :
    (v w : Ledger) (id : ℕ) (e : Entry)
    → Move v w
    → v.entry id ≡ some e
    → IsFinal e.status
    → w.entry id ≡ some e
Move-final v w id e (rest m j) h f = m id ∙ h
Move-final v w id e (advance i e' to found edge m j) h f =
    ground (arith, m id, Edge-not-IsFinal edge)
Move-final v w id e (edits i actor e' found st m j) h f = m id ∙ h
Move-final v w id e (approves i actor e' found st other ne m j) h f = ground (arith, m id)
Move-final v w id e (sends_back i actor fresh e' found st other ne new m j) h f =
    ground (arith, m id)
Move-final v w id e (publishes i actor e' found st ne nr m j) h f = ground (arith, m id)
