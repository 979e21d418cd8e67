-- ===== src/Json/Numbers.antt =====
-- The tests on JavaScript numbers and on parsed objects that src/layers/ makes.
use text.Mathlib.Text.{◌==◌ as str_eq}
use danangmap_backend.Prelude.{
  ◌*◌, ◌^◌, ◌%◌, String, Bool, true, false, not, ◌&&◌, ◌||◌, Option, none, some, ◌==◌, ltb,
  if◌then◌else◌,
}
use danangmap_backend.Json.{
  Json, Fields, Number, finite, infinite, undefined, null, num, real, obj, end, field,
}

-- The number that a value is, where it is one.
abbrev pub number_of : Json → Option Number
number_of (num n) = some (finite false n 0)
number_of (real x) = some x
number_of _ = none

-- `left < right`
unfoldable pub number_lt : Number → Number → Bool
number_lt (finite n d s) (finite n' d' s') =
    let a = d * 10 ^ s' in
    let b = d' * 10 ^ s in
    if n then (if n' then ltb b a else not (a == 0 && b == 0)) else (if n' then false else ltb a b)
number_lt (finite n d s) (infinite n') = not n'
number_lt (infinite n) (finite n' d' s') = n
number_lt (infinite n) (infinite n') = n && not n'

-- `left === right`
abbrev pub number_eq : Number → Number → Bool
number_eq a b = not (number_lt a b) && not (number_lt b a)

-- `Number.isFinite`
abbrev pub is_finite : Number → Bool
is_finite (finite n d s) = true
is_finite (infinite n) = false

-- `Number.isInteger`
abbrev pub is_integer : Number → Bool
is_integer (finite n d s) = (d % (10 ^ s)) == 0
is_integer (infinite n) = false

-- `value.key`
unfoldable pub member_of : String → Fields → Json
member_of key end = undefined
member_of key (field k v fs) = if str_eq k key then v else member_of key fs

abbrev pub member : String → Json → Json
member key (obj fs) = member_of key fs
member key _ = undefined

-- `key in value`
unfoldable pub has_member_of : String → Fields → Bool
has_member_of key end = false
has_member_of key (field k v fs) = str_eq k key || has_member_of key fs

abbrev pub has_member : String → Json → Bool
has_member key (obj fs) = has_member_of key fs
has_member key _ = false

-- `value == null`
abbrev pub is_nullish : Json → Bool
is_nullish undefined = true
is_nullish null = true
is_nullish _ = false
