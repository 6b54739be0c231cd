-- ===== src/Adapter/Schema/Options.antt =====
-- pkg/adapter/schema_validate.go: how many options of oneOf match.
use execgo.Base.{
  ℕ, zero, suc, ◌+◌, ◌≡◌, refl, ap, ◌↔◌, ◌⊎◌, inl, inr, Option, none, some, List, [], ◌∷◌, arith,
  ok, err,
}
use execgo.Adapter.Schema.{
  JsonPath, SchemaError, Checked, Matches, count_matches, exactly_one, one_of,
}

-- How many of the options match.
abbrev pub matching : List Checked → ℕ
matching [] = 0
matching (ok _ ∷ rs) = suc (matching rs)
matching (err _ ∷ rs) = matching rs

matched-count_matches :
    (rs : List Checked) (m : Matches) → (count_matches rs m).matched ≡ m.matched + matching rs
unfolding count_matches
matched-count_matches [] m = omega arith
matched-count_matches (ok _ ∷ rs) m =
    let ih = matched-count_matches rs (record m { matched = suc m.matched }) in omega (arith, ih)
matched-count_matches (err e ∷ rs) m =
    matched-count_matches rs
      (record m { first_error = elim m.first_error [ none ↦ some e | some f ↦ some f ] })

one_match_iff :
    (n : ℕ) (f : Option SchemaError) (path : JsonPath)
    → (exactly_one (record { matched = n; first_error = f }) path ≡ ok tt) ↔ (n ≡ 1)
unfolding exactly_one
one_match_iff zero none path = (λ x. cc, λ x. cc)
one_match_iff zero (some e) path = (λ x. cc, λ x. cc)
one_match_iff (suc zero) f path = (λ x. refl, λ x. refl)
one_match_iff (suc (suc n)) f path = (λ x. cc, λ x. absurd (omega (arith, x)))

exactly_one_iff : (m : Matches) (path : JsonPath) → (exactly_one m path ≡ ok tt) ↔ (m.matched ≡ 1)
exactly_one_iff m path = one_match_iff m.matched m.first_error path

pub none_step :
    (r : Checked) (rs : List Checked) (P Q : Type 0)
    → (r ≡ ok tt) ↔ P
    → (matching rs ≡ 0) ↔ Q
    → (matching (r ∷ rs) ≡ 0) ↔ ((¬ P) × Q)
none_step (ok _) rs P Q (a, b) (c, d) = (λ x. absurd (omega (arith, x)), λ h. absurd (h.0 (a refl)))
none_step (err x) rs P Q (a, b) (c, d) = (λ e. (λ p. absurd (cc (b p)), c e), λ h. d h.1)

pub one_step :
    (r : Checked) (rs : List Checked) (P N Q : Type 0)
    → (r ≡ ok tt) ↔ P
    → (matching rs ≡ 0) ↔ N
    → (matching rs ≡ 1) ↔ Q
    → (matching (r ∷ rs) ≡ 1) ↔ ((P × N) ⊎ ((¬ P) × Q))
one_step (ok _) rs P N Q (a, b) (c, d) (f, g) = (
  λ e. inl (a refl, c (omega (arith, e))),
  λ h. elim h [ inl (p, n) ↦ ap suc (d n) | inr (n, q) ↦ absurd (n (a refl)) ],
)
one_step (err x) rs P N Q (a, b) (c, d) (f, g) = (
  λ e. inr (λ p. absurd (cc (b p)), f e),
  λ h. elim h [ inl (p, n) ↦ absurd (cc (b p)) | inr (n, q) ↦ g q ],
)

pub one_of_iff :
    (r : Checked) (rs : List Checked) (path : JsonPath)
    → (one_of (r ∷ rs) path ≡ ok tt) ↔ (matching (r ∷ rs) ≡ 1)
one_of_iff r rs path =
    let start : Matches = record { matched = 0; first_error = none } in
    let found = matched-count_matches (r ∷ rs) start in
    let (f, g) = exactly_one_iff (count_matches (r ∷ rs) start) path in
    (λ e. omega (arith, found, f e), λ e. g (omega (arith, found, e)))
