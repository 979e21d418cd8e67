-- ===== src/Ledger/Authors.antt =====
-- Authors as editors on the abstract ledger. Whoever creates a revision is recorded as its editor.
use danangmap_backend.Prelude.{ℕ, ◌≡◌, true, false, some, ==-refl, arith, Bool-cases, inl, inr}
use danangmap_backend.Domain.{ParticipationType, edit}
use danangmap_backend.Ledger.{
  Entry, Ledger, Move, rest, advance, edits, approves, sends_back, publishes,
}
use danangmap_backend.Ledger.Separation.{IsSeparated}

pub record AuthorsEdit (v : Ledger) : Type 0 where
  pub author_edits : (r : ℕ) (e : Entry) → v.entry r ≡ some e → v.part r e.created_by edit ≡ true

pub Move-AuthorsEdit : (v w : Ledger) → Move v w → AuthorsEdit v → AuthorsEdit w
Move-AuthorsEdit v w (rest m j) s = record {
  author_edits = λ r f h. ground (arith, m r, j r f.created_by edit, s.author_edits r f);
}
Move-AuthorsEdit v w (advance id e to found edge m j) s = record {
  author_edits = λ r f h.
      ground (arith, m r, j r f.created_by edit, s.author_edits r f, s.author_edits id e found);
}
Move-AuthorsEdit v w (edits id actor e found st m j) s = record {
  author_edits = λ r f h. ground (arith, m r, j r f.created_by edit, s.author_edits r f);
}
Move-AuthorsEdit v w (approves id actor e found st other ne m j) s = record {
  author_edits = λ r f h.
      ground (arith, m r, j r f.created_by edit, s.author_edits r f, s.author_edits id e found);
}
Move-AuthorsEdit v w (sends_back id actor fresh e found st other ne new m j) s = record {
  author_edits = λ r f h. ground (
    arith,
    m r,
    j r f.created_by edit,
    s.author_edits r f,
    s.author_edits id e found,
    ==-refl fresh,
    ==-refl e.created_by,
  );
}
Move-AuthorsEdit v w (publishes id actor e found st ne nr m j) s = record {
  author_edits = λ r f h.
      ground (arith, m r, j r f.created_by edit, s.author_edits r f, s.author_edits id e found);
}

-- An author who is an editor has not published his revision.
pub IsSeparated-author :
    (v : Ledger) (r : ℕ) (e : Entry)
    → IsSeparated v
    → AuthorsEdit v
    → v.entry r ≡ some e
    → v.part r e.created_by ParticipationType.publish ≡ false
IsSeparated-author v r e s a h =
    elim (Bool-cases (v.part r e.created_by ParticipationType.publish)) [
      | inl p ↦ absurd (ground (arith, s.publisher_apart r e.created_by p, a.author_edits r e h))
      | inr p ↦ p
    ]
