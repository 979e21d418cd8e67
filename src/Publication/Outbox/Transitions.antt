-- ===== src/Publication/Outbox/Transitions.antt =====
-- The statements on the outbox against the trigger of
-- src/database/migrations/1761000013000-DurablePublicationJobs.ts that checks its transitions.
use danangmap_backend.Prelude.{
  ℕ, ◌≤◌, ◌≡◌, refl, true, Bool, List, [], ◌∷◌, Option, some, ◌==◌, find_by, update_where,
  find_by-update_where, arith, Bool-cases, Option-cases, ◌⊎◌, inl, inr,
}
use danangmap_backend.Database.{Db}
use danangmap_backend.Database.Publication.{
  OutboxRow, OutboxStatus, pending, dispatching, dispatched,
}
use danangmap_backend.Database.Queries.{Env}
use danangmap_backend.Publication.Outbox.{
  OutboxCall, claims, marks, releases, claim_outbox, mark_outbox_dispatched, release_outbox_claim,
  claimed_row, dispatched_row, released_row, is_claimed, is_held, dispatch_delay, outbox_step,
}

-- The changes of status that the trigger accepts in one update.
pub data Follows : OutboxStatus → OutboxStatus → Type 0 where
  stays : {s : OutboxStatus} → Follows s s
  opens : Follows pending dispatching
  returns : Follows dispatching pending
  marked : Follows dispatching dispatched

-- What the trigger asks of an update.
pub record IsTransition (before after : OutboxRow) : Type 0 where
  pub same_job : after.publication_job_id ≡ before.publication_job_id
  pub same_version : after.payload_version ≡ before.payload_version
  pub attempts_grow : before.attempts ≤ after.attempts
  pub status_follows : Follows before.status after.status

IsTransition-refl : (r : OutboxRow) → IsTransition r r
IsTransition-refl r = record {
  same_job = refl;
  same_version = refl;
  attempts_grow = omega arith;
  status_follows = stays;
}

is_claimed-Follows :
    (s : OutboxStatus) (now limit : ℕ) (rows : List OutboxRow) (r : OutboxRow)
    → r.status ≡ s
    → is_claimed now limit rows r ≡ true
    → Follows s dispatching
is_claimed-Follows pending now limit rows r e h = opens
is_claimed-Follows dispatching now limit rows r e h = stays
is_claimed-Follows dispatched now limit rows r e h = absurd (ground arith)

is_held-Follows :
    (s : OutboxStatus) (id token : ℕ) (r : OutboxRow)
    → r.status ≡ s
    → is_held id token r ≡ true
    → Follows s dispatched × Follows s pending
is_held-Follows pending id token r e h = absurd (ground arith)
is_held-Follows dispatching id token r e h = (marked, returns)
is_held-Follows dispatched id token r e h = absurd (ground arith)

-- Who may change a row: a claim, where it is pending or its lease has passed; a mark or a release, for the
-- token of its lease.
abbrev pub IsOwned : Env → OutboxCall → OutboxRow → OutboxRow → Type 0
IsOwned env (claims limit owner lease) r s =
    (s ≡ r)
    ⊎ (r.status ≡ pending)
    ⊎ ((t : ℕ) × (r.status ≡ dispatching) × (r.lease_expires_at ≡ some t) × (t ≤ env.now))
IsOwned env (marks id token) r s = (s ≡ r) ⊎ ((r.id ≡ id) × (r.lease_token ≡ some token))
IsOwned env (releases id token attempts code) r s =
    (s ≡ r) ⊎ ((r.id ≡ id) × (r.lease_token ≡ some token))

is_held-token :
    (id token : ℕ) (r : OutboxRow)
    → is_held id token r ≡ true
    → (r.id ≡ id) × (r.lease_token ≡ some token)
is_held-token id token r h = elim (Option-cases r.lease_token) [
  | inl e ↦ absurd (ground arith)
  | inr (t, e) ↦ (ground arith, ground arith)
]

is_claimed-free :
    (now limit : ℕ) (rows : List OutboxRow) (s : OutboxStatus) (r : OutboxRow)
    → r.status ≡ s
    → is_claimed now limit rows r ≡ true
    → (r.status ≡ pending)
      ⊎ ((t : ℕ) × (r.status ≡ dispatching) × (r.lease_expires_at ≡ some t) × (t ≤ now))
is_claimed-free now limit rows pending r e h = inl e
is_claimed-free now limit rows dispatching r e h = elim (Option-cases r.lease_expires_at) [
  | inl n ↦ absurd (ground arith)
  | inr (t, n) ↦ inr (t, e, n, ground arith)
]
is_claimed-free now limit rows dispatched r e h = absurd (ground arith)

abbrev pub outbox_row : ℕ → Db → Option OutboxRow
outbox_row id db = find_by (λ r. r.id == id) db.outbox

update_where-IsTransition :
    (id : ℕ) (p : OutboxRow → Bool) (f : OutboxRow → OutboxRow) (r : OutboxRow)
    (rows : List OutboxRow)
    → find_by (λ r. r.id == id) rows ≡ some r
    → ((r : OutboxRow) → (f r).id ≡ r.id)
    → (p r ≡ true → IsTransition r (f r))
    → (s : OutboxRow) × (find_by (λ r. r.id == id) (update_where p f rows) ≡ some s)
      × IsTransition r s
      × ((s ≡ r) ⊎ (p r ≡ true))
update_where-IsTransition id p f r rows e k t = elim (Bool-cases (p r)) [
  | inl h ↦ (
    f r,
    ground (
      arith,
      find_by-update_where (λ (r : OutboxRow). r.id == id) p f rows (λ r. ground (arith, k r)),
    ),
    t h,
    inr h,
  )
  | inr h ↦ (
    r,
    ground (
      arith,
      find_by-update_where (λ (r : OutboxRow). r.id == id) p f rows (λ r. ground (arith, k r)),
    ),
    IsTransition-refl r,
    inl refl,
  )
]

outbox_step-IsTransition :
    (env : Env) (c : OutboxCall) (id : ℕ) (r : OutboxRow) (db : Db)
    → outbox_row id db ≡ some r
    → (s : OutboxRow) × (outbox_row id (outbox_step env c db) ≡ some s)
      × IsTransition r s
      × IsOwned env c r s
unfolding claim_outbox mark_outbox_dispatched release_outbox_claim
outbox_step-IsTransition env (claims limit owner lease) id r db e =
    let (s, f, t, o) =
      update_where-IsTransition id (is_claimed env.now limit db.outbox)
        (claimed_row env owner lease) r db.outbox e (λ r. refl)
        (λ h. record {
          same_job = refl;
          same_version = refl;
          attempts_grow = omega arith;
          status_follows = is_claimed-Follows r.status env.now limit db.outbox r refl h;
        }) in
    (
      s,
      f,
      t,
      elim o [
        | inl k ↦ inl k
        | inr k ↦ inr (is_claimed-free env.now limit db.outbox r.status r refl k)
      ],
    )
outbox_step-IsTransition env (marks i token) id r db e =
    let (s, f, t, o) =
      update_where-IsTransition id (is_held i token) (dispatched_row env) r db.outbox e (λ r. refl)
        (λ h. record {
          same_job = refl;
          same_version = refl;
          attempts_grow = omega arith;
          status_follows = (is_held-Follows r.status i token r refl h).0;
        }) in
    (s, f, t, elim o [ inl k ↦ inl k | inr k ↦ inr (is_held-token i token r k) ])
outbox_step-IsTransition env (releases i token attempts code) id r db e =
    let (s, f, t, o) =
      update_where-IsTransition id (is_held i token)
        (released_row env (dispatch_delay attempts) code) r db.outbox e (λ r. refl)
        (λ h. record {
          same_job = refl;
          same_version = refl;
          attempts_grow = omega arith;
          status_follows = (is_held-Follows r.status i token r refl h).1;
        }) in
    (s, f, t, elim o [ inl k ↦ inl k | inr k ↦ inr (is_held-token i token r k) ])

-- Each call of a sequence leaves the row of this identifier, and takes it through one update that the
-- trigger accepts, as somebody who may change it.
abbrev pub IsAccepted : List (Env × OutboxCall) → ℕ → OutboxRow → Db → Type 0
IsAccepted [] id r db = Unit
IsAccepted (c ∷ cs) id r db =
    (s : OutboxRow) × (outbox_row id (outbox_step c.0 c.1 db) ≡ some s)
    × IsTransition r s
    × IsOwned c.0 c.1 r s
    × IsAccepted cs id s (outbox_step c.0 c.1 db)

-- In every sequence of claims, marks and releases, each single call takes a row of the outbox through
-- one update that the trigger accepts: the row keeps its job and its payload version, its attempts do
-- not fall, and its status stays, or goes from pending to dispatching, or from there back or to
-- dispatched. A claim changes the row only while it is pending or its lease has passed, a mark or a release
-- only under its identifier and the token of its lease.
pub outbox_calls-IsAccepted :
    (cs : List (Env × OutboxCall)) (id : ℕ) (r : OutboxRow) (db : Db)
    → outbox_row id db ≡ some r
    → IsAccepted cs id r db
outbox_calls-IsAccepted [] id r db e = tt
outbox_calls-IsAccepted (c ∷ cs) id r db e =
    let (s, f, t, o) = outbox_step-IsTransition c.0 c.1 id r db e in
    (s, f, t, o, outbox_calls-IsAccepted cs id s (outbox_step c.0 c.1 db) f)
