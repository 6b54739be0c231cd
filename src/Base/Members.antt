-- ===== src/Base/Members.antt =====
-- Lists of texts: a membership test, how often a text stands in a list, and counting arguments.
use Prim.Native.Nat.{ℕ, suc, ◌+◌, ◌≤◌, ◌<◌}
use Prim.Native.String.{String}
use mathlib.Core.Path.{◌≡◌, refl, sym, subst}
use mathlib.Core.Logic.{◌≢◌, ◌⊎◌, ◌↔◌, inl, inr}
use mathlib.Core.Bool.{Bool, true, false, ◌||◌}
use mathlib.Core.List.{List, [], ◌∷◌, ◌++◌}
use native.Mathlib.Omega.{arith}
use text.Mathlib.TextEquality.{eq_iff}
use text.Mathlib.TextPositions.{eq_refl}
use execgo.Base.Tests.{◌==◌, if◌then◌else◌, Bool-cases}
use execgo.Base.Lists.{length, In, IsDistinct}

unfoldable pub has : String → List String → Bool
has v [] = false
has v (x ∷ xs) = (v == x) || has v xs

pub has_iff : (v : String) (xs : List String) → (has v xs ≡ true) ↔ In v xs
unfolding has
has_iff v [] = (λ e. cc, λ m. absurd m)
has_iff v (x ∷ xs) = ground (arith, eq_iff v x, has_iff v xs)

pub In-cases : (v : String) (xs : List String) → In v xs ⊎ (¬ In v xs)
In-cases v xs = elim (Bool-cases (has v xs)) [
  | inl e ↦ inl ((has_iff v xs).0 e)
  | inr e ↦ inr (λ m. cc ((has_iff v xs).1 m))
]

unfoldable pub has_repeat : List String → Bool
has_repeat [] = false
has_repeat (x ∷ xs) = has x xs || has_repeat xs

pub IsDistinct-of_has_repeat : (xs : List String) → has_repeat xs ≡ false → IsDistinct xs
unfolding has_repeat
IsDistinct-of_has_repeat [] e = tt
IsDistinct-of_has_repeat (x ∷ xs) e = elim (Bool-cases (has x xs)) [
  | inl h ↦ absurd (cc (rw (h, has_repeat) at e))
  | inr h ↦ (λ m. cc ((has_iff x xs).1 m), IsDistinct-of_has_repeat xs (rw (h, has_repeat) at e))
]

-- How often `v` stands in the list.
unfoldable pub count : String → List String → ℕ
count v [] = 0
count v (x ∷ xs) = if x == v then suc (count v xs) else count v xs

pub count-pos_of_In : (v : String) (xs : List String) → In v xs → 0 < count v xs
unfolding count
count-pos_of_In v [] m = absurd m
count-pos_of_In v (x ∷ xs) m = ground (arith, eq_iff x v, count-pos_of_In v xs)

pub In_of_count-pos : (v : String) (xs : List String) → 0 < count v xs → In v xs
unfolding count
In_of_count-pos v [] h = absurd (omega arith)
In_of_count-pos v (x ∷ xs) h = ground (arith, eq_iff x v, In_of_count-pos v xs)

pub count-append : (v : String) (xs ys : List String) → count v (xs ++ ys) ≡ count v xs + count v ys
unfolding count
count-append v [] ys = omega arith
count-append v (x ∷ xs) ys = ground (arith, count-append v xs ys)

-- The list without the first `v`.
drop_one : String → List String → List String
drop_one v [] = []
drop_one v (x ∷ xs) = if x == v then xs else x ∷ drop_one v xs

length-drop_one :
    (v : String) (xs : List String) → In v xs → suc (length (drop_one v xs)) ≡ length xs
unfolding drop_one
length-drop_one v [] m = absurd m
length-drop_one v (x ∷ xs) m = ground (arith, eq_iff x v, length-drop_one v xs)

In-drop_one : (u v : String) (xs : List String) → u ≢ v → In u xs → In u (drop_one v xs)
unfolding drop_one
In-drop_one u v [] h m = absurd m
In-drop_one u v (x ∷ xs) h (inl e) = ground (arith, eq_iff x v)
In-drop_one u v (x ∷ xs) h (inr m) = ground (arith, eq_iff x v, In-drop_one u v xs)

-- A list without repetitions is no longer than a list that holds its members.
pub length-le_of_subset :
    (xs ys : List String)
    → IsDistinct xs
    → ((v : String) → In v xs → In v ys)
    → length xs ≤ length ys
length-le_of_subset [] ys d h = omega arith
length-le_of_subset (x ∷ xs) ys d h = omega (
  arith,
  length-drop_one x ys (h x (inl refl)),
  length-le_of_subset xs (drop_one x ys) d.1
      (λ v m. In-drop_one v x ys (λ e. d.0 (subst (λ w. In w xs) e m)) (h v (inr m))),
)

-- And if it is as long, it holds every member of the other.
pub subset_of_length-le :
    (xs ys : List String)
    → IsDistinct xs
    → ((v : String) → In v xs → In v ys)
    → length ys ≤ length xs
    → (v : String) → In v ys
    → In v xs
subset_of_length-le xs ys d h le v m = elim (In-cases v xs) [
  | inl present ↦ present
  | inr absent ↦ absurd (
      omega (
        arith,
        length-le_of_subset (v ∷ xs) ys (absent, d)
            (λ u. λ (n : In u (v ∷ xs)). elim n [
              | inl e ↦ subst (λ w. In w ys) (sym e) m
              | inr k ↦ h u k
            ]),
      ))
]

pub count-eq_zero : (v : String) (xs : List String) → ¬ In v xs → count v xs ≡ 0
unfolding count
count-eq_zero v [] h = refl
count-eq_zero v (x ∷ xs) h =
    ground (arith, eq_iff x v, count-eq_zero v xs (λ m. h (inr m)), λ (e : v ≡ x). h (inl e))

pub count-le_one : (v : String) (xs : List String) → IsDistinct xs → count v xs ≤ 1
unfolding count
count-le_one v [] d = omega arith
count-le_one v (x ∷ xs) d = ground (
  arith,
  eq_iff x v,
  count-le_one v xs d.1,
  λ (e : x ≡ v). count-eq_zero v xs (subst (λ u. ¬ In u xs) e d.0),
)

pub IsDistinct-of_count : (xs : List String) → ((v : String) → count v xs ≤ 1) → IsDistinct xs
unfolding count
IsDistinct-of_count [] h = tt
IsDistinct-of_count (x ∷ xs) h = (
  λ m. absurd (ground (arith, h x, eq_refl x, count-pos_of_In x xs m)),
  IsDistinct-of_count xs (λ v. ground (arith, h v)),
)
