-- ===== src/Adapter/Schema/Checks.antt =====
-- pkg/adapter/schema_validate.go: what each check that looks at one key accepts.
use execgo.Base.{
  ℕ, suc, ◌*◌, ◌^◌, ◌≤◌, String, ◌≡◌, refl, ◌↔◌, inl, inr, Bool, true, false, not, Option, none,
  some, List, [], ◌∷◌, arith, eq_iff, Option-cases, text_cases, has, has_iff, All, ℤ, pos, negsuc,
  ok, err, ◌>>◌, refuse_if,
}
use execgo.Base.Dict.{lookup}
use execgo.Adapter.Json.{Json, null, bool, num, str, arr, obj, entries, is_integral}
use execgo.Adapter.Schema.{
  Additional, unset, flag, typed, Keywords, json_type, JsonPath, SchemaError, must_be_one_of,
  Checked, is_integer, has_type, validate_type, validate_enum, check_enum, check_bounds, is_below,
  is_above, validate_number_bounds, bound_or_zero, require_keys, validate_required,
  allows_additional_properties,
}
use execgo.Adapter.Schema.Conforms.{
  IsInteger, HasType, InEnum, IsAtLeast, IsAtMost, InBounds, HasKeys, AllowsMore,
}
use native.Mathlib.Nat.{one-le-pow, mul-pos}

pub then_iff : (m k : Checked) → ((m >> k) ≡ ok tt) ↔ ((m ≡ ok tt) × (k ≡ ok tt))
then_iff (ok _) k = (λ e. (refl, e), λ e. e.1)
then_iff (err x) k = (λ e. absurd (cc e), λ e. absurd (cc e.0))

pub refuse_iff : (b : Bool) (e : SchemaError) → (refuse_if b e ≡ ok tt) ↔ (b ≡ false)
refuse_iff true e = (λ x. cc, λ x. cc)
refuse_iff false e = (λ x. refl, λ x. refl)

pub not_iff : (b : Bool) → (not b ≡ false) ↔ (b ≡ true)
not_iff b = ground arith

is_integer_iff : (v : Json) → (is_integer v ≡ true) ↔ IsInteger v
unfolding is_integer is_integral
is_integer_iff (num (pos n) k) = ground arith
is_integer_iff (num (negsuc n) k) = ground arith
is_integer_iff null = (λ e. cc, λ x. absurd x)
is_integer_iff (bool _) = (λ e. cc, λ x. absurd x)
is_integer_iff (str _) = (λ e. cc, λ x. absurd x)
is_integer_iff (arr _) = (λ e. cc, λ x. absurd x)
is_integer_iff (obj _) = (λ e. cc, λ x. absurd x)

has_type_iff : (want : String) (v : Json) → (has_type want v ≡ true) ↔ HasType want v
unfolding has_type
has_type_iff want v = elim (text_cases want "") [
  | inl (e, t) ↦ rw t (λ _. inl e, λ _. refl)
  | inr (n, t) ↦ elim (text_cases want "integer") [
    | inl (e, u) ↦
        let (f, g) = is_integer_iff v in
        rw (t, u)
          (
            λ x. inr (inl (e, f x)),
            λ h. elim h [
              | inl p ↦ absurd (n p)
              | inr r ↦ elim r [ inl p ↦ g p.1 | inr p ↦ absurd (p.1 e) ]
            ],
          )
    | inr (m, u) ↦
        let (f, g) = eq_iff (json_type v) want in
        rw (t, u)
          (
            λ x. inr (inr (n, m, f x)),
            λ h. elim h [
              | inl p ↦ absurd (n p)
              | inr r ↦ elim r [ inl p ↦ absurd (m p.0) | inr p ↦ g p.2 ]
            ],
          )
  ]
]

pub validate_type_iff :
    (k : Keywords) (v : Json) (path : JsonPath)
    → (validate_type k v path ≡ ok tt) ↔ HasType k.type v
unfolding validate_type
validate_type_iff k v path =
    let (a, b) = refuse_iff (not (has_type k.type v)) (SchemaError.must_be path k.type) in
    let (c, d) = not_iff (has_type k.type v) in
    let (e, f) = has_type_iff k.type v in (λ x. e (c (a x)), λ x. b (d (f x)))

check_enum_iff :
    (allowed : Option (List String)) (v : Json) (path : JsonPath)
    → (check_enum allowed v path ≡ ok tt) ↔ InEnum allowed v
check_enum_iff none v path = (λ _. tt, λ _. refl)
check_enum_iff (some allowed) (str s) path =
    let (a, b) = refuse_iff (not (has s allowed)) (must_be_one_of path allowed) in
    let (c, d) = not_iff (has s allowed) in
    let (e, f) = has_iff s allowed in (λ x. e (c (a x)), λ x. b (d (f x)))
check_enum_iff (some allowed) null path = (λ e. cc, λ x. absurd x)
check_enum_iff (some allowed) (bool _) path = (λ e. cc, λ x. absurd x)
check_enum_iff (some allowed) (num _ _) path = (λ e. cc, λ x. absurd x)
check_enum_iff (some allowed) (arr _) path = (λ e. cc, λ x. absurd x)
check_enum_iff (some allowed) (obj _) path = (λ e. cc, λ x. absurd x)

pub validate_enum_iff :
    (k : Keywords) (v : Json) (path : JsonPath) → (validate_enum k v path ≡ ok tt) ↔ InEnum k.enum v
unfolding validate_enum
validate_enum_iff k v path = check_enum_iff k.enum v path

one_le_scaled : (c k : ℕ) → 1 ≤ suc c * 2 ^ k
one_le_scaled c k =
    let one_le_power = one-le-pow k 2 (omega arith) in mul-pos (omega arith) one_le_power

is_below_iff : (n : ℤ) (k : ℕ) (min : Option ℤ) → (is_below n k min ≡ false) ↔ IsAtLeast min n k
unfolding is_below
is_below_iff n k none = (λ _. tt, λ _. refl)
is_below_iff (pos n) k (some (pos c)) = ground arith
is_below_iff (pos n) k (some (negsuc c)) = ground arith
is_below_iff (negsuc n) k (some (pos c)) = ground arith
is_below_iff (negsuc n) k (some (negsuc c)) = ground (arith, one_le_scaled c k)

is_above_iff : (n : ℤ) (k : ℕ) (max : Option ℤ) → (is_above n k max ≡ false) ↔ IsAtMost max n k
unfolding is_above
is_above_iff n k none = (λ _. tt, λ _. refl)
is_above_iff (pos n) k (some (pos c)) = ground arith
is_above_iff (pos n) k (some (negsuc c)) = ground arith
is_above_iff (negsuc n) k (some (pos c)) = ground arith
is_above_iff (negsuc n) k (some (negsuc c)) = ground (arith, one_le_scaled c k)

check_bounds_iff :
    (min max : Option ℤ) (v : Json) (path : JsonPath)
    → (check_bounds min max v path ≡ ok tt) ↔ InBounds min max v
check_bounds_iff min max (num n k) path =
    let low =
      refuse_if (is_below n k min) (SchemaError.must_be_at_least path (bound_or_zero min)) in
    let high =
      refuse_if (is_above n k max) (SchemaError.must_be_at_most path (bound_or_zero max)) in
    let (f, g) = then_iff low high in
    let (a, b) =
      refuse_iff (is_below n k min) (SchemaError.must_be_at_least path (bound_or_zero min)) in
    let (c, d) =
      refuse_iff (is_above n k max) (SchemaError.must_be_at_most path (bound_or_zero max)) in
    let (e, h) = is_below_iff n k min in
    let (i, j) = is_above_iff n k max in
    (λ x. let (y, z) = f x in (e (a y), i (c z)), λ (y, z). g (b (h y), d (j z)))
check_bounds_iff min max null path = (λ _. tt, λ _. refl)
check_bounds_iff min max (bool _) path = (λ _. tt, λ _. refl)
check_bounds_iff min max (str _) path = (λ _. tt, λ _. refl)
check_bounds_iff min max (arr _) path = (λ _. tt, λ _. refl)
check_bounds_iff min max (obj _) path = (λ _. tt, λ _. refl)

pub validate_number_bounds_iff :
    (k : Keywords) (v : Json) (path : JsonPath)
    → (validate_number_bounds k v path ≡ ok tt) ↔ InBounds k.minimum k.maximum v
unfolding validate_number_bounds
validate_number_bounds_iff k v path = check_bounds_iff k.minimum k.maximum v path

require_keys_iff :
    (fs : List (String × Json)) (ks : List String) (path : JsonPath)
    → (require_keys fs ks path ≡ ok tt) ↔ All (λ k. (v : Json) × (lookup k fs ≡ some v)) ks
unfolding require_keys
require_keys_iff fs [] path = (λ _. tt, λ _. refl)
require_keys_iff fs (k ∷ ks) path =
    let (f, g) = require_keys_iff fs ks path in
    elim (Option-cases (lookup k fs)) [
      | inl e ↦ rw (e, require_keys) (λ x. cc, λ h. absurd (cc (h.0.1)))
      | inr (v, e) ↦ rw (e, require_keys) (λ x. ((v, refl), f x), λ h. g h.1)
    ]

pub validate_required_iff :
    (k : Keywords) (v : Json) (path : JsonPath)
    → (validate_required k v path ≡ ok tt) ↔ HasKeys k.required v
unfolding validate_required
validate_required_iff k (obj fs) path = require_keys_iff (entries (obj fs)) k.required path
validate_required_iff k null path = (λ _. tt, λ _. refl)
validate_required_iff k (bool _) path = (λ _. tt, λ _. refl)
validate_required_iff k (num _ _) path = (λ _. tt, λ _. refl)
validate_required_iff k (str _) path = (λ _. tt, λ _. refl)
validate_required_iff k (arr _) path = (λ _. tt, λ _. refl)

pub allows_iff : (a : Additional) → (allows_additional_properties a ≡ true) ↔ AllowsMore a
unfolding allows_additional_properties
allows_iff unset = (λ _. tt, λ _. refl)
allows_iff (flag b) = (λ e. e, λ e. e)
allows_iff (typed _) = (λ e. cc, λ x. absurd x)
