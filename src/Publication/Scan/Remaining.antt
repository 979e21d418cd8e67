-- ===== src/Publication/Scan/Remaining.antt =====
-- The features of a revision above a checkpoint, and what a batch of them leaves.
use danangmap_backend.Prelude.{
  ℕ, zero, suc, ◌≤◌, ◌<◌, ◌≡◌, refl, sym, subst, ap, ◌∙◌, true, false, ◌&&◌, ◌==◌, ltb, leb, List,
  [], ◌∷◌, ◌++◌, Option, none, some, All, All-map, select_by, arith, Bool, Bool-cases, Option-cases,
  inl, inr,
}
use danangmap_backend.Database.{Db, RevisionFeature}
use danangmap_backend.Database.Queries.{Env}
use danangmap_backend.Publication.Scan.{
  PublicRow, after?, public_row, insert_public, public_rows, limited, last_id,
}
use danangmap_backend.Publication.Scan.Order.{insert_public-All, public_row-id, limited-All}

-- The primary key of revision_features.
abbrev pub AreDistinct : List RevisionFeature → Type 0
AreDistinct [] = Unit
AreDistinct (m ∷ ms) =
    All (λ k. (k.revision_id == m.revision_id && k.feature_id == m.feature_id) ≡ false) ms
    × AreDistinct ms

-- Rows of strictly rising identifiers.
abbrev pub Climbs : List PublicRow → Type 0
Climbs [] = Unit
Climbs (r ∷ rs) = All (λ s. r.feature_id < s.feature_id) rs × Climbs rs

insert_public-Climbs :
    (r : PublicRow) (rs : List PublicRow)
    → All (λ s. (s.feature_id == r.feature_id) ≡ false) rs
    → Climbs rs
    → Climbs (insert_public r rs)
unfolding insert_public
insert_public-Climbs r [] ne h = (tt, tt)
insert_public-Climbs r (s ∷ ss) ne h = elim (Bool-cases (leb r.feature_id s.feature_id)) [
  | inl e ↦
      let lt : r.feature_id < s.feature_id = ground (arith, ne.0) in
      let above =
        All-map (λ t. s.feature_id < t.feature_id) (λ t. r.feature_id < t.feature_id) ss
          (λ t k. omega (arith, lt, k)) h.0 in
      ground (arith, e, h, lt, above)
  | inr e ↦
      let lt : s.feature_id < r.feature_id = ground (arith, e) in
      ground (
        arith,
        e,
        insert_public-All (λ t. s.feature_id < t.feature_id) r ss lt h.0,
        insert_public-Climbs r ss ne.1 h.1,
      )
]

public_rows-ne :
    (env : Env) (id f : ℕ) (ms : List RevisionFeature) (db : Db)
    → All (λ k. (k.revision_id == id && k.feature_id == f) ≡ false) ms
    → All (λ s. (s.feature_id == f) ≡ false) (public_rows env id none ms db)
unfolding public_rows
public_rows-ne env id f [] db h = tt
public_rows-ne env id f (m ∷ ms) db h =
    let rest = public_rows-ne env id f ms db h.1 in
    elim (Bool-cases (m.revision_id == id)) [
      | inr e ↦ ground (arith, e, rest)
      | inl e ↦ elim (Option-cases (public_row env id m db)) [
        | inl n ↦ ground (arith, e, n, rest)
        | inr (r, n) ↦
            let ne : (r.feature_id == f) ≡ false =
              ground (arith, e, h.0, public_row-id env id m db r n) in
            subst (All (λ s. (s.feature_id == f) ≡ false)) (ground (arith, e, n)) (
              insert_public-All (λ s. (s.feature_id == f) ≡ false) r (public_rows env id none ms db)
                ne rest)
      ]
    ]

pub public_rows-Climbs :
    (env : Env) (id : ℕ) (ms : List RevisionFeature) (db : Db)
    → AreDistinct ms
    → Climbs (public_rows env id none ms db)
unfolding public_rows
public_rows-Climbs env id [] db h = tt
public_rows-Climbs env id (m ∷ ms) db h =
    let rest = public_rows-Climbs env id ms db h.1 in
    elim (Bool-cases (m.revision_id == id)) [
      | inr e ↦ ground (arith, e, rest)
      | inl e ↦ elim (Option-cases (public_row env id m db)) [
        | inl n ↦ ground (arith, e, n, rest)
        | inr (r, n) ↦
            let same : m.revision_id ≡ id = ground (arith, e) in
            let others =
              subst
                (λ i. All (λ k. (k.revision_id == i && k.feature_id == m.feature_id) ≡ false) ms)
                same h.0 in
            let ne =
              subst (λ f. All (λ s. (s.feature_id == f) ≡ false) (public_rows env id none ms db))
                (sym (public_row-id env id m db r n))
                (public_rows-ne env id m.feature_id ms db others) in
            ground (arith, e, n, insert_public-Climbs r (public_rows env id none ms db) ne rest)
      ]
    ]

-- The rows after a checkpoint are those of all rows that are past it.
insert_public-dropped :
    (last : Option ℕ) (r : PublicRow) (rs : List PublicRow)
    → after? last r.feature_id ≡ false
    → select_by (λ s. after? last s.feature_id) (insert_public r rs)
      ≡ select_by (λ s. after? last s.feature_id) rs
unfolding insert_public select_by
insert_public-dropped last r [] h = ground arith
insert_public-dropped last r (s ∷ ss) h = ground (arith, insert_public-dropped last r ss h)

insert_public-kept :
    (last : Option ℕ) (r : PublicRow) (rs : List PublicRow)
    → after? last r.feature_id ≡ true
    → select_by (λ s. after? last s.feature_id) (insert_public r rs)
      ≡ insert_public r (select_by (λ s. after? last s.feature_id) rs)
unfolding insert_public select_by
insert_public-kept none r [] h = refl
insert_public-kept none r (s ∷ ss) h = ground (arith, insert_public-kept none r ss h)
insert_public-kept (some l) r [] h = ground arith
insert_public-kept (some l) r (s ∷ ss) h = ground (arith, insert_public-kept (some l) r ss h)

pub public_rows-select :
    (env : Env) (id : ℕ) (last : Option ℕ) (ms : List RevisionFeature) (db : Db)
    → public_rows env id last ms db
      ≡ select_by (λ s. after? last s.feature_id) (public_rows env id none ms db)
unfolding public_rows select_by
public_rows-select env id last [] db = refl
public_rows-select env id last (m ∷ ms) db =
    let rest = public_rows-select env id last ms db in
    let all = public_rows env id none ms db in
    elim (Bool-cases (m.revision_id == id)) [
      | inr e ↦ ground (arith, e, rest)
      | inl e ↦ elim (Option-cases (public_row env id m db)) [
        | inl n ↦ ground (arith, e, n, rest)
        | inr (r, n) ↦
            let same = public_row-id env id m db r n in
            elim (Bool-cases (after? last m.feature_id)) [
              | inl a ↦ ground (
                arith,
                e,
                n,
                a,
                rest,
                same,
                insert_public-kept last r all (ground (arith, a, same)),
              )
              | inr a ↦ ground (
                arith,
                e,
                n,
                a,
                rest,
                same,
                insert_public-dropped last r all (ground (arith, a, same)),
              )
            ]
      ]
    ]

select-All :
    (P : PublicRow → Type 0) (p : PublicRow → Bool) (rs : List PublicRow)
    → All P rs
    → All P (select_by p rs)
unfolding select_by
select-All P p [] h = tt
select-All P p (r ∷ rs) h = ground (arith, h, select-All P p rs h.1)

-- What the rows of a batch leave of rising rows is what is above its last one.
select-above :
    (l : ℕ) (rs : List PublicRow)
    → All (λ s. l < s.feature_id) rs
    → select_by (λ s. ltb l s.feature_id) rs ≡ rs
unfolding select_by
select-above l [] h = refl
select-above l (r ∷ rs) h = ground (arith, h.0, select-above l rs h.1)

pub last_id-above :
    (m : ℕ) (rs : List PublicRow)
    → All (λ s. m < s.feature_id) rs
    → Climbs rs
    → All (λ s. s.feature_id ≤ last_id m rs) rs × (m ≤ last_id m rs)
unfolding last_id
last_id-above m [] h c = (tt, omega arith)
last_id-above m (r ∷ rs) h c =
    let (rest, le) = last_id-above r.feature_id rs c.0 c.1 in ((le, rest), omega (arith, le, h.0))

limited-Climbs : (n : ℕ) (rs : List PublicRow) → Climbs rs → Climbs (limited n rs)
unfolding limited
limited-Climbs zero rs c = tt
limited-Climbs (suc n) [] c = tt
limited-Climbs (suc n) (r ∷ rs) c =
    (limited-All (λ s. r.feature_id < s.feature_id) n rs c.0, limited-Climbs n rs c.1)

-- The rows of a batch, and the rows above its last one, are all of them.
rows_split :
    (n : ℕ) (r : PublicRow) (rs : List PublicRow)
    → Climbs (r ∷ rs)
    → (r ∷ limited n rs)
        ++ select_by (λ s. ltb (last_id r.feature_id (limited n rs)) s.feature_id) (r ∷ rs)
      ≡ r ∷ rs
unfolding limited last_id select_by
rows_split zero r rs c =
    let skip : select_by (λ s. ltb r.feature_id s.feature_id) (r ∷ rs)
        ≡ select_by (λ s. ltb r.feature_id s.feature_id) rs =
      ground arith in
    ap (λ ss. r ∷ ss) (skip ∙ select-above r.feature_id rs c.0)
rows_split (suc n) r [] c = ground arith
rows_split (suc n) r (q ∷ rs) c =
    let (_, le) =
      last_id-above r.feature_id (limited (suc n) (q ∷ rs))
        (limited-All (λ s. r.feature_id < s.feature_id) (suc n) (q ∷ rs) c.0)
        (limited-Climbs (suc n) (q ∷ rs) c.1) in
    let l = last_id q.feature_id (limited n rs) in
    let skip : select_by (λ s. ltb l s.feature_id) (r ∷ q ∷ rs)
        ≡ select_by (λ s. ltb l s.feature_id) (q ∷ rs) =
      ground (arith, le) in
    ap (λ ss. r ∷ q ∷ (limited n rs ++ ss)) skip ∙ ap (λ ss. r ∷ ss) (rows_split n q rs c.1)

pub batch_split :
    (n : ℕ) (all : List PublicRow) (r : PublicRow) (rs : List PublicRow)
    → Climbs all
    → limited n all ≡ r ∷ rs
    → (r ∷ rs) ++ select_by (λ s. ltb (last_id r.feature_id rs) s.feature_id) all ≡ all
unfolding limited last_id
batch_split zero all r rs c h = absurd (ground arith)
batch_split (suc n) [] r rs c h = absurd (ground arith)
batch_split (suc n) (q ∷ all) r rs c h =
    subst (λ ss. ss ++ select_by (λ s. ltb (last_id 0 ss) s.feature_id) (q ∷ all) ≡ q ∷ all) h
      (rows_split n q all c)

pub select-Climbs :
    (p : PublicRow → Bool) (rs : List PublicRow) → Climbs rs → Climbs (select_by p rs)
unfolding select_by
select-Climbs p [] c = tt
select-Climbs p (r ∷ rs) c = elim (Bool-cases (p r)) [
  | inr e ↦ ground (arith, e, select-Climbs p rs c.1)
  | inl e ↦
      ground
        (arith, e, select-All (λ s. r.feature_id < s.feature_id) p rs c.0, select-Climbs p rs c.1)
]
