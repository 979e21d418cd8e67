-- ===== src/Layers/Runs.antt =====
-- Rows of revision_changes with consecutive cursors.
use danangmap_backend.Prelude.{
  ℕ, suc, ◌≤◌, ◌≡◌, refl, subst, sym, ◌≢◌, Bool, true, not, ◌&&◌, List, [], ◌∷◌, ◌++◌, max, leb,
  ◌==◌, select_by, arith, Bool-cases, inl, inr,
}
use danangmap_backend.Database.Sync.{Change}

-- The rows are of one revision and their cursors are those from `first + 1` to `last`, in order.
abbrev pub Runs : ℕ → ℕ → List Change → ℕ → Type 0
Runs id first [] last = first ≡ last
Runs id first (x ∷ xs) last =
    (x.revision_id ≡ id) × (x.server_cursor ≡ suc first) × Runs id (suc first) xs last

pub Runs-append :
    (id a b e : ℕ) (xs ys : List Change) → Runs id a xs b → Runs id b ys e → Runs id a (xs ++ ys) e
Runs-append id a b e [] ys h k = subst (λ n. Runs id n ys e) (sym h) k
Runs-append id a b e (x ∷ xs) ys h k = (h.0, h.1, Runs-append id (suc a) b e xs ys h.2 k)

pub Runs-le : (id a b : ℕ) (xs : List Change) → Runs id a xs b → a ≤ b
Runs-le id a b [] h = omega arith
Runs-le id a b (x ∷ xs) h = ground (arith, Runs-le id (suc a) b xs h.2)

-- What DELETE ... WHERE revision_id=$1 AND server_cursor <= floor leaves.
abbrev pub is_kept : ℕ → ℕ → Change → Bool
is_kept id floor c = not (c.revision_id == id && leb c.server_cursor floor)

pub Runs-eq :
    (id a a' b : ℕ) (xs ys : List Change) → a ≡ a' → xs ≡ ys → Runs id a xs b → Runs id a' ys b
Runs-eq id a a' b xs ys e f h = subst (λ n. Runs id n ys b) e (subst (λ zs. Runs id a zs b) f h)

pub Runs-drop :
    (id a b floor : ℕ) (xs : List Change)
    → Runs id a xs b
    → floor ≤ b
    → Runs id (max a floor) (select_by (is_kept id floor) xs) b
unfolding select_by
Runs-drop id a b floor [] h k = ground arith
Runs-drop id a b floor (x ∷ xs) h k =
    let rest = select_by (is_kept id floor) xs in
    let r = Runs-drop id (suc a) b floor xs h.2 k in
    elim (Bool-cases (leb (suc a) floor)) [
      | inl e ↦
          Runs-eq id (max (suc a) floor) (max a floor) b rest _ (ground arith) (ground arith) r
      | inr e ↦
          Runs-eq id a (max a floor) b (x ∷ rest) _ (ground arith) (ground arith)
            (h.0, h.1, Runs-eq id (max (suc a) floor) (suc a) b rest rest (ground arith) refl r)
    ]

-- The rows of one revision, in the order of the table.
abbrev pub feed : ℕ → List Change → List Change
feed id = select_by (λ c. c.revision_id == id)

module _ {ℓ} {A : Type ℓ} where
  pub select_by-append :
      (p : A → Bool) (xs ys : List A) → select_by p (xs ++ ys) ≡ select_by p xs ++ select_by p ys
  unfolding select_by
  select_by-append p [] ys = refl
  select_by-append p (x ∷ xs) ys = ground (arith, select_by-append p xs ys)

  pub select_by_comm :
      (p q : A → Bool) (xs : List A) → select_by p (select_by q xs) ≡ select_by q (select_by p xs)
  unfolding select_by
  select_by_comm p q [] = refl
  select_by_comm p q (x ∷ xs) = ground (arith, select_by_comm p q xs)

  pub select_by-implied :
      (p q : A → Bool) (xs : List A)
      → ((x : A) → p x ≡ true → q x ≡ true)
      → select_by p (select_by q xs) ≡ select_by p xs
  unfolding select_by
  select_by-implied p q [] k = refl
  select_by-implied p q (x ∷ xs) k = ground (arith, k x, select_by-implied p q xs k)

pub feed-Runs : (id a b : ℕ) (xs : List Change) → Runs id a xs b → feed id xs ≡ xs
unfolding select_by
feed-Runs id a b [] h = refl
feed-Runs id a b (x ∷ xs) h = ground (arith, feed-Runs id (suc a) b xs h.2)

pub feed-other : (id j a b : ℕ) (xs : List Change) → Runs id a xs b → j ≢ id → feed j xs ≡ []
unfolding select_by
feed-other id j a b [] h n = refl
feed-other id j a b (x ∷ xs) h n = ground (arith, feed-other id j (suc a) b xs h.2)
