-- ===== src/Idempotency/Order.antt =====
-- The digest of a request forgets the order in which its properties were written.
use danangmap_backend.Prelude.{String, ◌≡◌, refl, ◌∙◌, ap, ◌≢◌, Bool, true, false, arith}
use danangmap_backend.Json.{Json, Fields, end, field, obj}
use danangmap_backend.Database.Queries.{Env}
use danangmap_backend.Idempotency.Canonical.{insert_field, canonical, canonical_fields, digest}

-- What the service relies on of `localeCompare`: it puts different keys in one order.
pub record IsKeyOrder (before : String → String → Bool) : Type 0 where
  pub asym : (a b : String) → before a b ≡ true → before b a ≡ false
  pub connected : (a b : String) → a ≢ b → before a b ≡ false → before b a ≡ true
  pub trans : (a b c : String) → before a b ≡ true → before b c ≡ true → before a c ≡ true

-- The same entries in another order.
pub data Reordered : Fields → Fields → Type 0 where
  same : (fs : Fields) → Reordered fs fs
  swapped :
      (k j : String) (v w : Json) (fs : Fields)
      → k ≢ j
      → Reordered (field k v (field j w fs)) (field j w (field k v fs))
  under :
      (k : String) (v : Json) {fs gs : Fields}
      → Reordered fs gs
      → Reordered (field k v fs) (field k v gs)
  chained : {fs gs hs : Fields} → Reordered fs gs → Reordered gs hs → Reordered fs hs

module _ (before : String → String → Bool) (o : IsKeyOrder before) where
  insert_field_comm :
      (k j : String) (v w : Json) (fs : Fields)
      → k ≢ j
      → insert_field before k v (insert_field before j w fs)
        ≡ insert_field before j w (insert_field before k v fs)
  unfolding insert_field
  insert_field_comm k j v w end ne = ground (arith, o.asym k j, o.connected k j ne, o.asym j k)
  insert_field_comm k j v w (field i x fs) ne = ground (
    arith,
    insert_field_comm k j v w fs ne,
    o.asym k j,
    o.connected k j ne,
    o.asym j k,
    o.asym i k,
    o.asym i j,
    o.trans i k j,
    o.trans i j k,
    o.trans k j i,
    o.trans j k i,
  )

  canonical_fields-Reordered :
      {fs gs : Fields} → Reordered fs gs → canonical_fields before fs ≡ canonical_fields before gs
  unfolding canonical_fields
  canonical_fields-Reordered (same fs) = refl
  canonical_fields-Reordered (swapped k j v w fs ne) = ground (
    arith,
    insert_field_comm k j (canonical before v) (canonical before w) (canonical_fields before fs) ne,
  )
  canonical_fields-Reordered (under k v r) = ground (arith, canonical_fields-Reordered r)
  canonical_fields-Reordered (chained r s) =
      canonical_fields-Reordered r ∙ canonical_fields-Reordered s

-- Two requests whose properties differ only in their order have the same digest, so the second one is
-- a repetition of the first.
pub digest-Reordered :
    (env : Env) (fs gs : Fields)
    → IsKeyOrder env.locale_before
    → Reordered fs gs
    → digest env (obj fs) ≡ digest env (obj gs)
unfolding digest canonical
digest-Reordered env fs gs o r =
    ap (λ x. env.sha256 (env.json_text (obj x))) (canonical_fields-Reordered env.locale_before o r)
