-- ===== src/Prelude/Table.antt =====
-- A table is the list of its rows, oldest first. These are the statements the code sends:
-- SELECT ... LIMIT 1, EXISTS, count(*), SELECT ... WHERE and UPDATE ... WHERE.
use Prim.Native.Nat.{ℕ, suc, ◌+◌, ◌≤◌, ◌<◌, max}
use mathlib.Core.Path.{◌≡◌, refl}
use mathlib.Core.Bool.{Bool, true, false, ◌&&◌, ◌||◌}
use mathlib.Core.Option.{Option, none, some}
use mathlib.Core.List.{List, [], ◌∷◌, ◌++◌}
use native.Mathlib.Omega.{arith}
use danangmap_backend.Prelude.Tests.{if◌then◌else◌, ◌==◌}

abbrev pub All {ℓ κ} : {A : Type ℓ} → (A → Type κ) → List A → Type κ
All P [] = Unit
All P (x ∷ xs) = P x × All P xs

module _ {ℓ} {A : Type ℓ} where
  abbrev pub length : List A → ℕ
  length [] = 0
  length (x ∷ xs) = suc (length xs)

  unfoldable pub find_by : (A → Bool) → List A → Option A
  find_by p [] = none
  find_by p (x ∷ xs) = if p x then some x else find_by p xs

  unfoldable pub exists_by : (A → Bool) → List A → Bool
  exists_by p [] = false
  exists_by p (x ∷ xs) = p x || exists_by p xs

  unfoldable pub select_by : (A → Bool) → List A → List A
  select_by p [] = []
  select_by p (x ∷ xs) = let rest = select_by p xs in if p x then x ∷ rest else rest

  unfoldable pub update_where : (A → Bool) → (A → A) → List A → List A
  update_where p f [] = []
  update_where p f (x ∷ xs) = (if p x then f x else x) ∷ update_where p f xs

  -- max(column) over the rows that pass, 0 where none does.
  unfoldable pub max_by : (A → Bool) → (A → ℕ) → List A → ℕ
  max_by p f [] = 0
  max_by p f (x ∷ xs) = max (if p x then f x else 0) (max_by p f xs)

  -- sum(column) over the rows that pass.
  unfoldable pub sum_by : (A → Bool) → (A → ℕ) → List A → ℕ
  sum_by p f [] = 0
  sum_by p f (x ∷ xs) = (if p x then f x else 0) + sum_by p f xs

  abbrev pub or_else : Option A → Option A → Option A
  or_else none o = o
  or_else (some a) o = some a

  abbrev pub update? : (A → Bool) → (A → A) → Option A → Option A
  update? p f none = none
  update? p f (some a) = some (if p a then f a else a)

  pub or_else-none : (o p : Option A) → or_else o p ≡ none → (o ≡ none) × (p ≡ none)
  or_else-none none p h = (refl, h)
  or_else-none (some a) p h = absurd (ground arith)

  pub find_by-append :
      (p : A → Bool) (xs ys : List A) → find_by p (xs ++ ys) ≡ or_else (find_by p xs) (find_by p ys)
  unfolding find_by
  find_by-append p [] ys = refl
  find_by-append p (x ∷ xs) ys = ground (arith, find_by-append p xs ys)

  pub find_by-holds : (p : A → Bool) (xs : List A) (a : A) → find_by p xs ≡ some a → p a ≡ true
  unfolding find_by
  find_by-holds p [] a h = ground arith
  find_by-holds p (x ∷ xs) a h = ground (arith, find_by-holds p xs a)

  -- An UPDATE that leaves the searched column alone is seen as one of the row that is found.
  pub find_by-update_where :
      (p q : A → Bool) (f : A → A) (xs : List A)
      → ((a : A) → p (f a) ≡ p a)
      → find_by p (update_where q f xs) ≡ update? q f (find_by p xs)
  unfolding find_by update_where
  find_by-update_where p q f [] k = refl
  find_by-update_where p q f (x ∷ xs) k = ground (arith, k x, find_by-update_where p q f xs k)

  pub append-nil : (xs : List A) → xs ++ [] ≡ xs
  append-nil [] = refl
  append-nil (x ∷ xs) = ground (arith, append-nil xs)

  pub append_assoc : (xs ys zs : List A) → (xs ++ ys) ++ zs ≡ xs ++ (ys ++ zs)
  append_assoc [] ys zs = refl
  append_assoc (x ∷ xs) ys zs = ground (arith, append_assoc xs ys zs)

  pub exists_by-append :
      (p : A → Bool) (xs ys : List A) → exists_by p (xs ++ ys) ≡ (exists_by p xs || exists_by p ys)
  unfolding exists_by
  exists_by-append p [] ys = refl
  exists_by-append p (x ∷ xs) ys = ground (arith, exists_by-append p xs ys)

  pub All-append {κ} : (P : A → Type κ) (xs ys : List A) → All P xs → All P ys → All P (xs ++ ys)
  All-append P [] ys hx hy = hy
  All-append P (x ∷ xs) ys hx hy = (hx.0, All-append P xs ys hx.1 hy)

  pub find_by-All {κ} :
      (P : A → Type κ) (p : A → Bool) (xs : List A) (a : A) → All P xs → find_by p xs ≡ some a → P a
  unfolding find_by
  find_by-All P p [] a h e = absurd (ground arith)
  find_by-All P p (x ∷ xs) a h e = ground (arith, find_by-All P p xs a h.1)

  -- No row that passes holds more than the maximum.
  pub max_by-fresh :
      (p : A → Bool) (f : A → ℕ) (xs : List A) (n : ℕ)
      → max_by p f xs < n
      → exists_by (λ x. p x && f x == n) xs ≡ false
  unfolding max_by exists_by
  max_by-fresh p f [] n h = refl
  max_by-fresh p f (x ∷ xs) n h = ground (arith, max_by-fresh p f xs n)

  pub max_by-All :
      (p : A → Bool) (f : A → ℕ) (xs : List A) (n : ℕ)
      → max_by p f xs < n
      → All (λ x. p x ≡ true → f x < n) xs
  unfolding max_by
  max_by-All p f [] n h = tt
  max_by-All p f (x ∷ xs) n h = (λ e. ground arith, max_by-All p f xs n (ground arith))

  pub exists_by-All :
      (p : A → Bool) (xs : List A) → exists_by p xs ≡ false → All (λ x. p x ≡ false) xs
  unfolding exists_by
  exists_by-All p [] h = tt
  exists_by-All p (x ∷ xs) h = (ground arith, exists_by-All p xs (ground arith))

  pub All-exists_by :
      (p : A → Bool) (xs : List A) → All (λ x. p x ≡ false) xs → exists_by p xs ≡ false
  unfolding exists_by
  All-exists_by p [] h = refl
  All-exists_by p (x ∷ xs) h = ground (arith, All-exists_by p xs h.1)

  pub All-map {κ μ} :
      (P : A → Type κ) (Q : A → Type μ) (xs : List A) → ((x : A) → P x → Q x) → All P xs → All Q xs
  All-map P Q [] k h = tt
  All-map P Q (x ∷ xs) k h = (k x h.0, All-map P Q xs k h.1)

  pub All-update_where {κ} :
      (P : A → Type κ) (q : A → Bool) (f : A → A) (xs : List A)
      → ((x : A) → q x ≡ true → P x → P (f x))
      → All P xs
      → All P (update_where q f xs)
  unfolding update_where
  All-update_where P q f [] k h = tt
  All-update_where P q f (x ∷ xs) k h = (ground (arith, k x), All-update_where P q f xs k h.1)

  -- An UPDATE that leaves the tested and the measured column alone.
  pub max_by-update_where :
      (p : A → Bool) (f : A → ℕ) (q : A → Bool) (g : A → A) (xs : List A)
      → ((a : A) → p (g a) ≡ p a)
      → ((a : A) → f (g a) ≡ f a)
      → max_by p f (update_where q g xs) ≡ max_by p f xs
  unfolding max_by update_where
  max_by-update_where p f q g [] kp kf = refl
  max_by-update_where p f q g (x ∷ xs) kp kf =
      ground (arith, kp x, kf x, max_by-update_where p f q g xs kp kf)

  pub find_by-le-max_by :
      (p : A → Bool) (f : A → ℕ) (xs : List A) (a : A)
      → find_by p xs ≡ some a
      → f a ≤ max_by (λ _. true) f xs
  unfolding find_by max_by
  find_by-le-max_by p f [] a h = absurd (cc)
  find_by-le-max_by p f (x ∷ xs) a h = ground (arith, find_by-le-max_by p f xs a)
