-- ===== src/Publication/Scan/Order.antt =====
-- The order in which `publicBatch` of src/publications/publication-worker.repository.ts reads features.
use danangmap_backend.Prelude.{
  ℕ, zero, suc, ◌≤◌, ◌<◌, ◌≡◌, true, ◌&&◌, ◌==◌, leb, List, [], ◌∷◌, Option, none, some, length,
  arith, Option-cases, Bool-cases, inl, inr, find_by, All,
}
use danangmap_backend.Database.{Db, RevisionFeature}
use danangmap_backend.Database.Queries.{Env}
use danangmap_backend.Publication.Scan.{
  PublicRow, after?, public_row, insert_public, public_rows, limited, last_id, public_batch,
}

-- Rows of rising identifiers, the first at or above this one.
abbrev pub RisesFrom : ℕ → List PublicRow → Type 0
RisesFrom m [] = Unit
RisesFrom m (r ∷ rs) = (m ≤ r.feature_id) × RisesFrom r.feature_id rs

-- What is above a checkpoint.
abbrev pub IsPast : Option ℕ → PublicRow → Type 0
IsPast none r = Unit
IsPast (some last) r = last < r.feature_id

insert_public-RisesFrom :
    (m : ℕ) (r : PublicRow) (rs : List PublicRow)
    → m ≤ r.feature_id
    → RisesFrom m rs
    → RisesFrom m (insert_public r rs)
unfolding insert_public
insert_public-RisesFrom m r [] le h = (le, tt)
insert_public-RisesFrom m r (s ∷ ss) le h = elim (Bool-cases (leb r.feature_id s.feature_id)) [
  | inl e ↦ ground (arith, h.1)
  | inr e ↦ ground (arith, insert_public-RisesFrom s.feature_id r ss (ground arith) h.1)
]

pub insert_public-All :
    (P : PublicRow → Type 0) (r : PublicRow) (rs : List PublicRow)
    → P r
    → All P rs
    → All P (insert_public r rs)
unfolding insert_public
insert_public-All P r [] p h = (p, tt)
insert_public-All P r (s ∷ ss) p h = elim (Bool-cases (leb r.feature_id s.feature_id)) [
  | inl e ↦ ground (arith, p, h)
  | inr e ↦ ground (arith, h, insert_public-All P r ss p h.1)
]

limited-RisesFrom : (m n : ℕ) (rs : List PublicRow) → RisesFrom m rs → RisesFrom m (limited n rs)
unfolding limited
limited-RisesFrom m zero rs h = tt
limited-RisesFrom m (suc n) [] h = tt
limited-RisesFrom m (suc n) (r ∷ rs) h = (h.0, limited-RisesFrom r.feature_id n rs h.1)

pub limited-All :
    (P : PublicRow → Type 0) (n : ℕ) (rs : List PublicRow) → All P rs → All P (limited n rs)
unfolding limited
limited-All P zero rs h = tt
limited-All P (suc n) [] h = tt
limited-All P (suc n) (r ∷ rs) h = (h.0, limited-All P n rs h.1)

limited-length : (n : ℕ) (rs : List PublicRow) → length (limited n rs) ≤ n
unfolding limited
limited-length zero rs = omega arith
limited-length (suc n) [] = omega arith
limited-length (suc n) (r ∷ rs) = ground (arith, limited-length n rs)

pub last_id-le : (m : ℕ) (rs : List PublicRow) → RisesFrom m rs → m ≤ last_id m rs
unfolding last_id
last_id-le m [] h = omega arith
last_id-le m (r ∷ rs) h = ground (arith, last_id-le r.feature_id rs h.1)

pub public_row-id :
    (env : Env) (id : ℕ) (m : RevisionFeature) (db : Db) (r : PublicRow)
    → public_row env id m db ≡ some r
    → r.feature_id ≡ m.feature_id
public_row-id env id m db r h =
    elim (Option-cases (find_by (λ v. v.id == m.feature_version_id) db.feature_versions)) [
      | inl e ↦ absurd (ground arith)
      | inr (v, e) ↦ ground arith
    ]

after?-IsPast :
    (last : Option ℕ) (r : PublicRow) (id : ℕ)
    → r.feature_id ≡ id
    → after? last id ≡ true
    → IsPast last r
after?-IsPast none r id e h = tt
after?-IsPast (some last) r id e h = ground arith

public_rows-ordered :
    (env : Env) (id : ℕ) (last : Option ℕ) (ms : List RevisionFeature) (db : Db)
    → RisesFrom 0 (public_rows env id last ms db)
      × All (IsPast last) (public_rows env id last ms db)
unfolding public_rows
public_rows-ordered env id last [] db = (tt, tt)
public_rows-ordered env id last (m ∷ ms) db =
    let (rising, past) = public_rows-ordered env id last ms db in
    let rest = public_rows env id last ms db in
    elim (Bool-cases (m.revision_id == id && after? last m.feature_id)) [
      | inr e ↦ (ground (arith, e, rising), ground (arith, e, past))
      | inl e ↦ elim (Option-cases (public_row env id m db)) [
        | inl n ↦ (ground (arith, e, n, rising), ground (arith, e, n, past))
        | inr (r, n) ↦
            let p =
              after?-IsPast last r m.feature_id (public_row-id env id m db r n) (ground arith) in
            (
              ground (arith, e, n, insert_public-RisesFrom 0 r rest (omega arith) rising),
              ground (arith, e, n, insert_public-All (IsPast last) r rest p past),
            )
      ]
    ]

-- A batch rises, is past the checkpoint, and is at most as long as it may be.
pub public_batch-ordered :
    (env : Env) (id : ℕ) (last : Option ℕ) (limit : ℕ) (db : Db)
    → RisesFrom 0 (public_batch env id last limit db)
      × All (IsPast last) (public_batch env id last limit db)
      × (length (public_batch env id last limit db) ≤ limit)
unfolding public_batch
public_batch-ordered env id last limit db =
    let (rising, past) = public_rows-ordered env id last db.revision_features db in
    let rows = public_rows env id last db.revision_features db in
    (
      limited-RisesFrom 0 limit rows rising,
      limited-All (IsPast last) limit rows past,
      limited-length limit rows,
    )
