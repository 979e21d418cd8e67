-- ===== src/Ledger/Separation.antt =====
-- Separation of duties on the abstract ledger.
use danangmap_backend.Prelude.{
  ℕ, ◌≡◌, ◌≢◌, ◌⊎◌, true, false, ◌&&◌, ◌||◌, none, some, ◌==◌, if◌then◌else◌, arith,
}
use danangmap_backend.Domain.{
  RevisionStatus, draft, published, ParticipationType, edit, review, same_participation,
}
use danangmap_backend.Ledger.{
  Entry, Ledger, Edge, submits, admits, gives_up, Move, rest, advance, edits, approves, sends_back,
  publishes, Moves, Joins, KeepsParts, with_status,
}

-- Nobody reviews what he wrote or edited, nobody publishes what he edited or reviewed; only a
-- revision that exists has participants, a draft has no reviewer, and only a published revision has a
-- publisher.
pub record IsSeparated (v : Ledger) : Type 0 where
  pub reviewer_apart : (r u : ℕ) → v.part r u review ≡ true → v.part r u edit ≡ false
  pub publisher_apart :
      (r u : ℕ)
      → v.part r u ParticipationType.publish ≡ true
      → (v.part r u edit ≡ false) × (v.part r u review ≡ false)
  pub author_apart : (r : ℕ) (e : Entry) → v.entry r ≡ some e → v.part r e.created_by review ≡ false
  pub known : (r u : ℕ) (k : ParticipationType) → v.entry r ≡ none → v.part r u k ≡ false
  pub draft_unreviewed :
      (r u : ℕ) (e : Entry) → v.entry r ≡ some e → e.status ≡ draft → v.part r u review ≡ false
  pub unpublished :
      (r u : ℕ) (e : Entry)
      → v.entry r ≡ some e
      → e.status ≢ published
      → v.part r u ParticipationType.publish ≡ false

Edge-ne-draft : {from to : RevisionStatus} → Edge from to → to ≢ draft
Edge-ne-draft submits = cc
Edge-ne-draft admits = cc
Edge-ne-draft gives_up = cc

Edge-ne-published : {from to : RevisionStatus} → Edge from to → from ≢ published
Edge-ne-published submits = cc
Edge-ne-published admits = cc
Edge-ne-published gives_up = cc

module _ (v w : Ledger) (s : IsSeparated v) where
  approves-IsSeparated :
      (id actor : ℕ) (e : Entry)
      → v.entry id ≡ some e
      → e.status ≡ RevisionStatus.in_review
      → e.created_by ≢ actor
      → v.part id actor edit ≡ false
      → Moves id RevisionStatus.approved v w
      → Joins id actor review v w
      → IsSeparated w
  approves-IsSeparated id actor e found st other ne m j = record {
    reviewer_apart = λ r u h. ground (arith, j r u review, j r u edit, s.reviewer_apart r u);
    publisher_apart = λ r u h. ground (
      arith,
      j r u review,
      j r u edit,
      j r u ParticipationType.publish,
      s.publisher_apart r u,
      s.unpublished id actor e found,
    );
    author_apart = λ r f h.
        ground (arith, m r, j r f.created_by review, s.author_apart r f, s.author_apart id e found);
    known = λ r u k h. ground (arith, m r, j r u k, s.known r u k);
    draft_unreviewed = λ r u f h d. ground (arith, m r, j r u review, s.draft_unreviewed r u f);
    unpublished = λ r u f h d. ground (
      arith,
      m r,
      j r u ParticipationType.publish,
      s.unpublished r u f,
      s.unpublished id u e found,
    );
  }

  rest-IsSeparated : ((j : ℕ) → w.entry j ≡ v.entry j) → KeepsParts v w → IsSeparated w
  rest-IsSeparated m j = record {
    reviewer_apart = λ r u h. ground (arith, j r u review, j r u edit, s.reviewer_apart r u);
    publisher_apart = λ r u h.
        ground
          (arith, j r u review, j r u edit, j r u ParticipationType.publish, s.publisher_apart r u);
    author_apart = λ r f h. ground (arith, m r, j r f.created_by review, s.author_apart r f);
    known = λ r u k h. ground (arith, m r, j r u k, s.known r u k);
    draft_unreviewed = λ r u f h d. ground (arith, m r, j r u review, s.draft_unreviewed r u f);
    unpublished =
        λ r u f h d. ground (arith, m r, j r u ParticipationType.publish, s.unpublished r u f);
  }

  edits-IsSeparated :
      (id actor : ℕ) (e : Entry)
      → v.entry id ≡ some e
      → e.status ≡ draft
      → ((j : ℕ) → w.entry j ≡ v.entry j)
      → Joins id actor edit v w
      → IsSeparated w
  edits-IsSeparated id actor e found st m j = record {
    reviewer_apart = λ r u h. ground (
      arith,
      j r u review,
      j r u edit,
      s.reviewer_apart r u,
      s.draft_unreviewed id actor e found st,
    );
    publisher_apart = λ r u h. ground (
      arith,
      j r u review,
      j r u edit,
      j r u ParticipationType.publish,
      s.publisher_apart r u,
      s.unpublished id actor e found,
    );
    author_apart = λ r f h. ground (arith, m r, j r f.created_by review, s.author_apart r f);
    known = λ r u k h. ground (arith, m r, j r u k, s.known r u k);
    draft_unreviewed = λ r u f h d. ground (arith, m r, j r u review, s.draft_unreviewed r u f);
    unpublished =
        λ r u f h d. ground (arith, m r, j r u ParticipationType.publish, s.unpublished r u f);
  }

  advance-IsSeparated :
      (id : ℕ) (e : Entry) (to : RevisionStatus)
      → v.entry id ≡ some e
      → Edge e.status to
      → Moves id to v w
      → KeepsParts v w
      → IsSeparated w
  advance-IsSeparated id e to found edge m j = record {
    reviewer_apart = λ r u h. ground (arith, j r u review, j r u edit, s.reviewer_apart r u);
    publisher_apart = λ r u h.
        ground
          (arith, j r u review, j r u edit, j r u ParticipationType.publish, s.publisher_apart r u);
    author_apart = λ r f h.
        ground (arith, m r, j r f.created_by review, s.author_apart r f, s.author_apart id e found);
    known = λ r u k h. ground (arith, m r, j r u k, s.known r u k);
    draft_unreviewed = λ r u f h d.
        ground (arith, m r, j r u review, s.draft_unreviewed r u f, Edge-ne-draft edge);
    unpublished = λ r u f h d. ground (
      arith,
      m r,
      j r u ParticipationType.publish,
      s.unpublished r u f,
      s.unpublished id u e found,
      Edge-ne-published edge,
    );
  }

  publishes-IsSeparated :
      (id actor : ℕ) (e : Entry)
      → v.entry id ≡ some e
      → (e.status ≡ RevisionStatus.approved) ⊎ (e.status ≡ RevisionStatus.publishing)
      → v.part id actor edit ≡ false
      → v.part id actor review ≡ false
      → Moves id published v w
      → Joins id actor ParticipationType.publish v w
      → IsSeparated w
  publishes-IsSeparated id actor e found st ne nr m j = record {
    reviewer_apart = λ r u h. ground (arith, j r u review, j r u edit, s.reviewer_apart r u);
    publisher_apart = λ r u h.
        ground
          (arith, j r u review, j r u edit, j r u ParticipationType.publish, s.publisher_apart r u);
    author_apart = λ r f h.
        ground (arith, m r, j r f.created_by review, s.author_apart r f, s.author_apart id e found);
    known = λ r u k h. ground (arith, m r, j r u k, s.known r u k);
    draft_unreviewed = λ r u f h d. ground (arith, m r, j r u review, s.draft_unreviewed r u f);
    unpublished =
        λ r u f h d. ground (arith, m r, j r u ParticipationType.publish, s.unpublished r u f);
  }

  sends_back-IsSeparated :
      (id actor fresh : ℕ) (e : Entry)
      → v.entry id ≡ some e
      → e.status ≡ RevisionStatus.in_review
      → e.created_by ≢ actor
      → v.part id actor edit ≡ false
      → v.entry fresh ≡ none
      → ((j : ℕ)
          → w.entry j ≡ (
              if j == fresh
              then some (record e { status = draft })
              else if j == id
              then with_status RevisionStatus.changes_requested (v.entry j)
              else v.entry j))
      → ((r u : ℕ) (k : ParticipationType)
          → w.part r u k ≡ (
              v.part r u k
              || (id == r && actor == u && same_participation review k)
              || (fresh == r && e.created_by == u && same_participation edit k)))
      → IsSeparated w
  sends_back-IsSeparated id actor fresh e found st other ne new m j = record {
    reviewer_apart = λ r u h.
        ground (arith, j r u review, j r u edit, s.reviewer_apart r u, s.known fresh u review new);
    publisher_apart = λ r u h. ground (
      arith,
      j r u review,
      j r u edit,
      j r u ParticipationType.publish,
      s.publisher_apart r u,
      s.unpublished id actor e found,
      s.known fresh u ParticipationType.publish new,
    );
    author_apart = λ r f h. ground (
      arith,
      m r,
      j r f.created_by review,
      s.author_apart r f,
      s.author_apart id e found,
      s.known fresh f.created_by review new,
    );
    known = λ r u k h. ground (arith, m r, j r u k, s.known r u k);
    draft_unreviewed = λ r u f h d.
        ground (arith, m r, j r u review, s.draft_unreviewed r u f, s.known fresh u review new);
    unpublished = λ r u f h d. ground (
      arith,
      m r,
      j r u ParticipationType.publish,
      s.unpublished r u f,
      s.unpublished id u e found,
      s.known fresh u ParticipationType.publish new,
    );
  }

-- Every move keeps the duties separated.
pub Move-IsSeparated : (v w : Ledger) → Move v w → IsSeparated v → IsSeparated w
Move-IsSeparated v w (rest m j) s = rest-IsSeparated v w s m j
Move-IsSeparated v w (advance id e to found edge m j) s =
    advance-IsSeparated v w s id e to found edge m j
Move-IsSeparated v w (edits id actor e found st m j) s =
    edits-IsSeparated v w s id actor e found st m j
Move-IsSeparated v w (approves id actor e found st other ne m j) s =
    approves-IsSeparated v w s id actor e found st other ne m j
Move-IsSeparated v w (sends_back id actor fresh e found st other ne new m j) s =
    sends_back-IsSeparated v w s id actor fresh e found st other ne new m j
Move-IsSeparated v w (publishes id actor e found st ne nr m j) s =
    publishes-IsSeparated v w s id actor e found st ne nr m j
