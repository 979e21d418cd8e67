-- ===== src/Publication/Workers.antt =====
-- Workers that call src/publications/publication-worker.repository.ts, each call one transaction, in
-- any interleaving.
pub mod After
pub mod Valid
pub mod Fence
pub mod Progress
use danangmap_backend.Prelude.{ℕ, String, List, [], ◌∷◌, Option}
use danangmap_backend.Json.{Json}
use danangmap_backend.Database.{Db, transaction}
use danangmap_backend.Database.Publication.{BatchRow}
use danangmap_backend.Database.Queries.{Env}
use danangmap_backend.Publication.Jobs.{
  claim, heartbeat, set_prepared, commit_batch, mark_switching, release_for_retry,
  requeue_expired_leases,
}

pub data Call : Type 0 where
  claims : (id : ℕ) (owner : String) (lease : ℕ) → Call
  beats : (id token lease : ℕ) → Call
  prepares : (id token total lease : ℕ) → Call
  commits : (List BatchRow → Option String) → (row : BatchRow) (token lease : ℕ) → Call
  switches : (id token : ℕ) (checksum : String) (manifest : Json) (lease : ℕ) → Call
  releases : (id token delay : ℕ) → Call
  recovers : Call

-- The database after a call, which is the old one if the call threw.
abbrev pub step : Env → Call → Db → Db
step env (claims id owner lease) db = (transaction (claim env id owner lease) db).1
step env (beats id token lease) db = (transaction (heartbeat env id token lease) db).1
step env (prepares id token total lease) db =
    (transaction (set_prepared env id token total lease) db).1
step env (commits bounds row token lease) db =
    (transaction (commit_batch env bounds row token lease) db).1
step env (switches id token checksum manifest lease) db =
    (transaction (mark_switching env id token checksum manifest lease) db).1
step env (releases id token delay) db = (transaction (release_for_retry env id token delay) db).1
step env recovers db = (transaction (requeue_expired_leases env) db).1

unfoldable pub run : List (Env × Call) → Db → Db
run [] db = db
run ((env, c) ∷ cs) db = run cs (step env c db)
