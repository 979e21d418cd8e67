-- ===== src/Publication/Scan/Coverage.antt =====
-- The loop of `build` leaves no feature out.
use danangmap_backend.Prelude.{◌≡◌, true, ◌&&◌, leb, List, ◌++◌, All, exists_by}
use danangmap_backend.Database.{Db}
use danangmap_backend.Database.Publication.{BatchRow}
use danangmap_backend.Publication.Scan.{PublicRow}

-- One of the batches reaches from below or at the feature to above or at it.
abbrev pub IsCovered : List BatchRow → PublicRow → Type 0
IsCovered bs s =
    exists_by (λ b. leb b.first_feature_id s.feature_id && leb s.feature_id b.last_feature_id) bs
    ≡ true

-- Batches are added, and each of the rows lies in one of them.
abbrev pub HasCovered : List PublicRow → Db → Db → Type 0
HasCovered rows db d =
    (added : List BatchRow) × (d.batches ≡ db.batches ++ added) × All (IsCovered added) rows
