-- ===== src/Workflow/Lineage.antt =====
-- The lineage query of `assertPublicationBaseCurrent` in src/workflow/workflow.service.ts, against an
-- inductive description of what it looks for.
use danangmap_backend.Prelude.{
  ℕ, zero, suc, ◌<◌, ◌≡◌, refl, ◌≢◌, ◌↔◌, true, Option, none, some, ◌==◌, arith, find_by-le-max_by,
  Option-cases, inl, inr, Bool-cases,
}
use danangmap_backend.Domain.{RevisionStatus, published, is_published}
use danangmap_backend.Database.{Db, Revision}
use danangmap_backend.Database.Queries.{revision}
use danangmap_backend.Workflow.Guards.{nearest_published, lineage_fuel, base_revision}

-- `b` is the first published revision met on the way up from `o`.
pub data Nearest (db : Db) (b : ℕ) : Option ℕ → Type 0 where
  here :
      {o : Option ℕ} (id : ℕ) (r : Revision)
      → o ≡ some id
      → revision id db ≡ some r
      → r.status ≡ published
      → r.id ≡ b
      → Nearest db b o
  above :
      {o : Option ℕ} (id : ℕ) (r : Revision)
      → o ≡ some id
      → revision id db ≡ some r
      → r.status ≢ published
      → Nearest db b r.supersedes_revision_id
      → Nearest db b o

-- Along the lineage revision numbers fall.
abbrev pub IsRanked : Db → Type 0
IsRanked db =
    (id j : ℕ) (r s : Revision)
    → revision id db ≡ some r
    → r.supersedes_revision_id ≡ some j
    → revision j db ≡ some s
    → s.revision_no < r.revision_no

-- Enough fuel for a walk that starts at `o`.
abbrev Suffices : ℕ → Option ℕ → Db → Type 0
Suffices fuel o db =
    (id : ℕ) (r : Revision) → o ≡ some id → revision id db ≡ some r → r.revision_no < fuel

is_published-eq : (s : RevisionStatus) → is_published s ≡ true → s ≡ published
is_published-eq s h = ground arith

Nearest-sound :
    (fuel : ℕ) (o : Option ℕ) (db : Db) (b : ℕ)
    → nearest_published fuel o db ≡ some b
    → Nearest db b o
unfolding nearest_published
Nearest-sound zero o db b h = absurd (cc)
Nearest-sound (suc fuel) none db b h = absurd (cc)
Nearest-sound (suc fuel) (some id) db b h = elim (Option-cases (revision id db)) [
  | inl e ↦ absurd (ground arith)
  | inr (r, e) ↦ elim (Bool-cases (is_published r.status)) [
    | inl p ↦ here id r refl e (is_published-eq r.status p) (ground arith)
    | inr q ↦
        above id r refl e (ground arith)
          (Nearest-sound fuel r.supersedes_revision_id db b (ground arith))
  ]
]

Nearest-complete :
    (fuel : ℕ) (o : Option ℕ) (db : Db) (b : ℕ)
    → IsRanked db
    → Suffices fuel o db
    → Nearest db b o
    → nearest_published fuel o db ≡ some b
unfolding nearest_published
Nearest-complete zero o db b k n (here id r e f p q) = absurd (omega (arith, n id r e f))
Nearest-complete zero o db b k n (above id r e f p q) = absurd (omega (arith, n id r e f))
Nearest-complete (suc fuel) o db b k n (here id r e f p q) = ground arith
Nearest-complete (suc fuel) o db b k n (above id r e f p q) = ground (
  arith,
  Nearest-complete fuel r.supersedes_revision_id db b k
      (λ j s g h. omega (arith, k id j r s f g h, n id r e f)) q,
)

-- Where revision numbers fall along every lineage, the query answers with a revision exactly if it is
-- the first published one on the way up from the revision that is superseded.
pub base_revision_iff :
    (r : Revision) (db : Db) (b : ℕ)
    → IsRanked db
    → (base_revision r db ≡ some b) ↔ Nearest db b r.supersedes_revision_id
base_revision_iff r db b k = (
  Nearest-sound (lineage_fuel db) r.supersedes_revision_id db b,
  Nearest-complete (lineage_fuel db) r.supersedes_revision_id db b k (λ id s e f. omega (
    arith,
    find_by-le-max_by (λ (t : Revision). t.id == id) (λ t. t.revision_no) db.revisions s f,
  )),
)
