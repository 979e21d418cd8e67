-- ===== src/Layers/Geometry/Inside.antt =====
-- Which coordinates `visit` of src/layers/geometry.service.ts accepts.
use danangmap_backend.Prelude.{
  or_else-none, ℕ, ◌*◌, ◌^◌, ◌≤◌, Bool, ◌≡◌, refl, ◌↔◌, true, none, arith, Bool-cases, inl, inr,
  is_some, ap, ◌∙◌, or_else,
}
use danangmap_backend.Json.{
  Json, Items, undefined, null, bool, num, real, str, ident, arr, obj, nil, cons, Number, finite,
  infinite,
}
use danangmap_backend.Json.Numbers.{number_of}
use danangmap_backend.Layers.Geometry.{is_within, all_numbers, is_position, visit, visit_items}

-- A finite number between minus and plus the limit.
pub data IsBetween (limit : ℕ) : Json → Type 0 where
  whole : (n : ℕ) → n ≤ limit → IsBetween limit (num n)
  decimal :
      (negative : Bool) (digits scale : ℕ)
      → digits ≤ limit * 10 ^ scale
      → IsBetween limit (real (finite negative digits scale))

pub data IsNumber : Json → Type 0 where
  whole : (n : ℕ) → IsNumber (num n)
  decimal : (x : Number) → IsNumber (real x)

abbrev AllNumbers : Items → Type 0
AllNumbers nil = Unit
AllNumbers (cons v vs) = IsNumber v × AllNumbers vs

-- Coordinates of any depth, each position of which is a longitude of at most 180 degrees and a latitude
-- of at most 90 degrees, east or west and north or south.
mutual
  pub data IsInside : Json → Type 0 where
    position :
        (longitude latitude : Json)
        → IsBetween 180 longitude
        → IsBetween 90 latitude
        → IsInside (arr (cons longitude (cons latitude nil)))
    nested : (vs : Items) → ¬ AllNumbers vs → AllInside vs → IsInside (arr vs)

  pub data AllInside : Items → Type 0 where
    done : AllInside nil
    more : (v : Json) (vs : Items) → IsInside v → AllInside vs → AllInside (cons v vs)

within-IsBetween : (n : ℕ) (v : Json) → is_within n (number_of v) ≡ true → IsBetween n v
within-IsBetween n (num m) h = IsBetween.whole m (ground arith)
within-IsBetween n (real (finite b d s)) h = IsBetween.decimal b d s (ground arith)
within-IsBetween n (real (infinite b)) h = absurd (ground arith)
within-IsBetween n undefined h = absurd (ground arith)
within-IsBetween n null h = absurd (ground arith)
within-IsBetween n (bool b) h = absurd (ground arith)
within-IsBetween n (str s) h = absurd (ground arith)
within-IsBetween n (ident i) h = absurd (ground arith)
within-IsBetween n (arr vs) h = absurd (ground arith)
within-IsBetween n (obj fs) h = absurd (ground arith)

IsBetween-within : (n : ℕ) (v : Json) → IsBetween n v → is_within n (number_of v) ≡ true
IsBetween-within n _ (IsBetween.whole m h) = ground arith
IsBetween-within n _ (IsBetween.decimal b d s h) = ground arith

IsNumber-number_of : {v : Json} → IsNumber v → is_some (number_of v) ≡ true
IsNumber-number_of (IsNumber.whole n) = refl
IsNumber-number_of (IsNumber.decimal x) = refl

number_of-IsNumber : (v : Json) → is_some (number_of v) ≡ true → IsNumber v
number_of-IsNumber (num m) h = IsNumber.whole m
number_of-IsNumber (real x) h = IsNumber.decimal x
number_of-IsNumber undefined h = absurd (ground arith)
number_of-IsNumber null h = absurd (ground arith)
number_of-IsNumber (bool b) h = absurd (ground arith)
number_of-IsNumber (str s) h = absurd (ground arith)
number_of-IsNumber (ident i) h = absurd (ground arith)
number_of-IsNumber (arr vs) h = absurd (ground arith)
number_of-IsNumber (obj fs) h = absurd (ground arith)

AllNumbers-all : (vs : Items) → AllNumbers vs → all_numbers vs ≡ true
unfolding all_numbers
AllNumbers-all nil h = refl
AllNumbers-all (cons v vs) h = ground (arith, IsNumber-number_of h.0, AllNumbers-all vs h.1)

all-AllNumbers : (vs : Items) → all_numbers vs ≡ true → AllNumbers vs
unfolding all_numbers
all-AllNumbers nil h = tt
all-AllNumbers (cons v vs) h =
    (number_of-IsNumber v (ground arith), all-AllNumbers vs (ground arith))

position-IsInside : (vs : Items) → is_position vs ≡ true → IsInside (arr vs)
position-IsInside nil h = absurd (ground arith)
position-IsInside (cons x nil) h = absurd (ground arith)
position-IsInside (cons x (cons y nil)) h =
    position x y (within-IsBetween 180 x (ground arith)) (within-IsBetween 90 y (ground arith))
position-IsInside (cons x (cons y (cons z vs))) h = absurd (ground arith)

mutual
  unfolding visit visit_items

  accepted-IsInside : (v : Json) → visit v ≡ none → IsInside v
  accepted-IsInside (arr vs) h = elim (Bool-cases (all_numbers vs)) [
    | inl e ↦ position-IsInside vs (ground arith)
    | inr e ↦
        nested vs (λ a. ground (arith, e, AllNumbers-all vs a))
          (accepted-AllInside vs (ground arith))
  ]
  accepted-IsInside undefined h = absurd (ground arith)
  accepted-IsInside null h = absurd (ground arith)
  accepted-IsInside (bool b) h = absurd (ground arith)
  accepted-IsInside (num n) h = absurd (ground arith)
  accepted-IsInside (real x) h = absurd (ground arith)
  accepted-IsInside (str s) h = absurd (ground arith)
  accepted-IsInside (ident i) h = absurd (ground arith)
  accepted-IsInside (obj fs) h = absurd (ground arith)

  accepted-AllInside : (vs : Items) → visit_items vs ≡ none → AllInside vs
  accepted-AllInside nil h = done
  accepted-AllInside (cons v vs) h =
      let (first, rest) = or_else-none (visit v) (visit_items vs) h in
      more v vs (accepted-IsInside v first) (accepted-AllInside vs rest)

within-number : (v : Json) (n : ℕ) → is_within n (number_of v) ≡ true → is_some (number_of v) ≡ true
within-number v n h = ground arith

position_accepted :
    (x y : Json)
    → is_within 180 (number_of x) ≡ true
    → is_within 90 (number_of y) ≡ true
    → visit (arr (cons x (cons y nil))) ≡ none
unfolding visit all_numbers
position_accepted x y h k = ground (arith, within-number x 180 h, within-number y 90 k)

mutual
  unfolding visit visit_items

  IsInside-visit : {v : Json} → IsInside v → visit v ≡ none
  IsInside-visit (position x y h k) =
      position_accepted x y (IsBetween-within 180 x h) (IsBetween-within 90 y k)
  IsInside-visit (nested vs e a) = elim (Bool-cases (all_numbers vs)) [
    | inl t ↦ absurd (e (all-AllNumbers vs t))
    | inr f ↦ ground (arith, f, AllInside-visit_items a)
  ]

  AllInside-visit_items : {vs : Items} → AllInside vs → visit_items vs ≡ none
  AllInside-visit_items done = refl
  AllInside-visit_items (more v vs i a) =
      ap (λ o. or_else o (visit_items vs)) (IsInside-visit i) ∙ AllInside-visit_items a

-- `visit` accepts coordinates just where every position in them, at any depth, is a pair of finite
-- numbers in the range of EPSG:4326.
pub visit_iff : (v : Json) → (visit v ≡ none) ↔ IsInside v
visit_iff v = (accepted-IsInside v, IsInside-visit)
