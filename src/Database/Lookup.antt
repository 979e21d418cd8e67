-- ===== src/Database/Lookup.antt =====
-- What an update of a table does to the lookups of Queries.
use danangmap_backend.Prelude.{
  ℕ, ◌≡◌, refl, ◌&&◌, ◌||◌, [], ◌∷◌, Option, none, some, ◌==◌, if◌then◌else◌, exists_by,
  find_by-update_where, find_by-holds, exists_by-append, arith, Option-cases, inl, inr,
}
use danangmap_backend.Domain.{ParticipationType, same_participation}
use danangmap_backend.Database.{Db, Revision, Tx, Result, ok, err, ◌>>=◌, commit, transaction}
use danangmap_backend.Database.Queries.{
  revision, participates, is_participant, update_revision, add_participant,
}

abbrev pub map? : {A : Type 0} → (A → A) → Option A → Option A
map? f none = none
map? f (some a) = some (f a)

pub revision-id : (id : ℕ) (db : Db) (r : Revision) → revision id db ≡ some r → r.id ≡ id
revision-id id db r e =
    ground (arith, find_by-holds (λ (r : Revision). r.id == id) db.revisions r e)

-- An UPDATE of one revision, seen through a lookup.
pub revision-update_revision :
    (j id : ℕ) (f : Revision → Revision) (db : Db)
    → ((r : Revision) → (f r).id ≡ r.id)
    → revision j (update_revision id f db)
      ≡ (if j == id then map? f (revision j db) else revision j db)
revision-update_revision j id f db k = elim (Option-cases (revision j db)) [
  | inl e ↦ ground (
    arith,
    e,
    find_by-update_where (λ (r : Revision). r.id == j) (λ r. r.id == id) f db.revisions
        (λ r. ground (arith, k r)),
  )
  | inr (r, e) ↦ ground (
    arith,
    e,
    revision-id j db r e,
    find_by-update_where (λ (r : Revision). r.id == j) (λ r. r.id == id) f db.revisions
        (λ r. ground (arith, k r)),
  )
]

pub participates-add_participant :
    (r u r' u' : ℕ) (k k' : ParticipationType) (db : Db)
    → participates r' u' k' (add_participant r u k db)
      ≡ (participates r' u' k' db || (r == r' && u == u' && same_participation k k'))
unfolding add_participant exists_by
participates-add_participant r u r' u' k k' db = ground (
  arith,
  exists_by-append (is_participant r' u' k') db.participants
      (record { revision_id = r; user_id = u; participation_type = k } ∷ []),
)

-- Inversion of a step that succeeded.
pub >>=-eq-ok :
    {A B : Type 0} (m : Tx A) (f : A → Tx B) (db : Db) {b : B} {db' : Db}
    → (m >>= f) db ≡ ok (b, db')
    → (a : A) × (d : Db) × (m db ≡ ok (a, d)) × (f a d ≡ ok (b, db'))
>>=-eq-ok {A} {B} m f db {b} {db'} h = go (m db) refl h
  where
    go :
        (r : Result (A × Db))
        → m db ≡ r
        → (elim r [ ok (a, d) ↦ f a d | err e ↦ err e ]) ≡ ok (b, db')
        → (a : A) × (d : Db) × (m db ≡ ok (a, d)) × (f a d ≡ ok (b, db'))
    go (ok (a, d)) e h = (a, d, e, h)
    go (err e') e h = absurd (ground arith)

commit_keeps :
    {A : Type 0} (P : Db → Type 0) (db : Db) (r : Result (A × Db))
    → P db
    → ((x : A) (db' : Db) → r ≡ ok (x, db') → P db')
    → P (commit db r).1
commit_keeps P db (ok (x, d)) p k = k x d refl
commit_keeps P db (err e) p k = p

-- What holds before a transaction and after its success holds after it: a throw rolls back.
pub transaction_keeps :
    {A : Type 0} (P : Db → Type 0) (m : Tx A) (db : Db)
    → P db
    → ((x : A) (db' : Db) → m db ≡ ok (x, db') → P db')
    → P (transaction m db).1
transaction_keeps P m db p k = commit_keeps P db (m db) p k
