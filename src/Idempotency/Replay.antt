-- ===== src/Idempotency/Replay.antt =====
-- What a receipt promises.
use text.Mathlib.TextEquality.{eq_iff}
use danangmap_backend.Prelude.{
  ℕ, String, ◌≡◌, refl, ◌≢◌, ◌⊎◌, inl, inr, [], ◌∷◌, Option, none, some, arith, subst, ap,
  if◌then◌else◌, find_by, find_by-append, find_by-update_where, find_by-holds, Option-cases,
}
use danangmap_backend.Domain.{Operation, app, idempotency_key_reused, same_operation_refl}
use danangmap_backend.Database.{Db, Receipt, Response, Etag, ReceiptMetadata, ok, err, Tx, ◌>>=◌}
use danangmap_backend.Idempotency.{
  ReceiptClaim, is_receipt, receipt, owner_claim, replay_claim, pending_receipt, insert_pending,
  claim, settle, complete, once,
}
use danangmap_backend.Database.Lookup.{>>=-eq-ok}

module _ (a : ℕ) (o : Operation) (k : ℕ) where
  -- A receipt that a claim has just inserted.
  pub record FirstClaim (d : String) (c : ReceiptClaim) (db db' : Db) : Type 0 where
    pub unused : receipt a o k db ≡ none
    pub is_owner : c ≡ owner_claim
    pub inserted : db' ≡ insert_pending a o k d db

  -- A receipt that an earlier claim has left.
  pub record LaterClaim (d : String) (c : ReceiptClaim) (db db' : Db) : Type 0 where
    pub earlier : Receipt
    pub found : receipt a o k db ≡ some earlier
    pub same_request : earlier.request_digest ≡ d
    pub is_replay : c ≡ replay_claim earlier
    pub untouched : db' ≡ db

  pub claim-cases :
      (d : String) (c : ReceiptClaim) (db db' : Db)
      → claim a o k d db ≡ ok (c, db')
      → FirstClaim d c db db' ⊎ LaterClaim d c db db'
  unfolding claim
  claim-cases d c db db' h = elim (Option-cases (receipt a o k db)) [
    | inl e ↦ inl (record { unused = e; is_owner = ground arith; inserted = ground arith })
    | inr (r, e) ↦ inr (record {
      earlier = r;
      found = e;
      same_request = ground (arith, eq_iff r.request_digest d);
      is_replay = ground arith;
      untouched = ground arith;
    })
  ]

  pub claim-unused :
      (d : String) (db : Db)
      → receipt a o k db ≡ none
      → claim a o k d db ≡ ok (owner_claim, insert_pending a o k d db)
  unfolding claim
  claim-unused d db h = ground arith

  pub claim-used :
      (d : String) (db : Db) (r : Receipt)
      → receipt a o k db ≡ some r
      → r.request_digest ≡ d
      → claim a o k d db ≡ ok (replay_claim r, db)
  unfolding claim
  claim-used d db r h e = ground (arith, eq_iff r.request_digest d)

  -- Reuse of a key for another request is refused, whatever else the database holds.
  pub claim-reused :
      (d : String) (db : Db) (r : Receipt)
      → receipt a o k db ≡ some r
      → r.request_digest ≢ d
      → claim a o k d db ≡ err (app idempotency_key_reused)
  unfolding claim
  claim-reused d db r h e = ground (arith, eq_iff r.request_digest d)

  pub receipt-insert_pending :
      (d : String) (db : Db)
      → receipt a o k db ≡ none
      → receipt a o k (insert_pending a o k d db) ≡ some (pending_receipt a o k d)
  unfolding find_by
  receipt-insert_pending d db h = ground (
    arith,
    find_by-append (is_receipt a o k) db.receipts (pending_receipt a o k d ∷ []),
    same_operation_refl o,
  )

  pub receipt-complete :
      (p : Response) (code : ℕ) (e : Option Etag) (m : Option ReceiptMetadata) (db : Db)
      (r : Receipt)
      → receipt a o k db ≡ some r
      → receipt a o k (complete a o k p code e m db) ≡ some (settle p code e m r)
  unfolding complete
  receipt-complete p code e m db r h = ground (
    arith,
    find_by-holds (is_receipt a o k) db.receipts r h,
    find_by-update_where (is_receipt a o k) (is_receipt a o k) (settle p code e m) db.receipts
        (λ r. refl),
  )

  module _ {A : Type 0} (run : Tx A) (replay : ReceiptClaim → Tx A) where
    abbrev pub branch : ReceiptClaim → Tx A
    branch c = if c.owner then run else replay c

    branch-owner :
        (d : String) (c : ReceiptClaim) (db db' db'' : Db) (x : A)
        → FirstClaim d c db db'
        → branch c db' ≡ ok (x, db'')
        → run (insert_pending a o k d db) ≡ ok (x, db'')
    branch-owner d c db db' db'' x f h =
        subst (λ e. run e ≡ ok (x, db'')) f.inserted
          (subst (λ e. branch e db' ≡ ok (x, db'')) f.is_owner h)

    branch-replay :
        (d : String) (c : ReceiptClaim) (db db' db'' : Db) (x : A) (l : LaterClaim d c db db')
        → branch c db' ≡ ok (x, db'')
        → replay (replay_claim l.earlier) db ≡ ok (x, db'')
    branch-replay d c db db' db'' x l h =
        subst (λ e. replay (replay_claim l.earlier) e ≡ ok (x, db'')) l.untouched
          (subst (λ e. branch e db' ≡ ok (x, db'')) l.is_replay h)

    -- A command that succeeds has run with a receipt of its own, or was answered from an earlier one.
    pub once-cases :
        (d : String) (db db' : Db) (x : A)
        → once a o k d run replay db ≡ ok (x, db')
        → ((receipt a o k db ≡ none) × (run (insert_pending a o k d db) ≡ ok (x, db')))
          ⊎ ((r : Receipt) × (receipt a o k db ≡ some r)
              × (r.request_digest ≡ d)
              × (replay (replay_claim r) db ≡ ok (x, db')))
    once-cases d db db' x h =
        let (c, db₁, e, rest) = >>=-eq-ok (claim a o k d) branch db h in
        elim (claim-cases d c db db₁ e) [
          | inl f ↦ inl (f.unused, branch-owner d c db db₁ db' x f rest)
          | inr l ↦ inr (l.earlier, l.found, l.same_request, branch-replay d c db db₁ db' x l rest)
        ]

    pub once-unused :
        (d : String) (db : Db)
        → receipt a o k db ≡ none
        → once a o k d run replay db ≡ run (insert_pending a o k d db)
    once-unused d db h = ap (λ m. (◌>>=◌ (λ _. m) branch) db) (claim-unused d db h)

    pub once-used :
        (d : String) (db : Db) (r : Receipt)
        → receipt a o k db ≡ some r
        → r.request_digest ≡ d
        → once a o k d run replay db ≡ replay (replay_claim r) db
    once-used d db r h e = ap (λ m. (◌>>=◌ (λ _. m) branch) db) (claim-used d db r h e)

    pub once-reused :
        (d : String) (db : Db) (r : Receipt)
        → receipt a o k db ≡ some r
        → r.request_digest ≢ d
        → once a o k d run replay db ≡ err (app idempotency_key_reused)
    once-reused d db r h e = ap (λ m. (◌>>=◌ (λ _. m) branch) db) (claim-reused d db r h e)
