-- ===== src/Scheduler/Execute/Backoff.antt =====
-- pkg/scheduler/scheduler.go: the pause before a retry.
use execgo.Base.{
  ℕ, zero, suc, ◌+◌, ◌-◌, ◌*◌, ◌%◌, ◌^◌, ◌≤◌, ◌<◌, ◌≡◌, refl, sym, ap, ◌∙◌, inl, inr, arith, ltb,
  if◌then◌else◌, Bool-cases, pos,
}
use native.Mathlib.Nat.{pow-succ', pow-le-pow_right, mul-mod_left, mul_assoc}
use execgo.Scheduler.Execute.{max_backoff, to_signed, backoff}

two_pos : 0 < 2
two_pos = omega arith

pow_add : (a b : ℕ) → 2 ^ (a + b) ≡ 2 ^ a * 2 ^ b
pow_add zero b = let e : 0 + b ≡ b = omega arith in rw e (omega arith)
pow_add (suc a) b =
    let e : suc a + b ≡ suc (a + b) = omega arith in
    ap (λ m. 2 ^ m) e
    ∙ pow-succ' 2 (a + b)
    ∙ ap (λ x. 2 * x) (pow_add a b)
    ∙ sym (mul_assoc 2 (2 ^ a) (2 ^ b))
    ∙ ap (λ x. x * 2 ^ b) (sym (pow-succ' 2 a))

-- Below 2^63 the product is itself.
to_signed-small : (n : ℕ) → n < 9223372036854775808 → to_signed n ≡ pos n
unfolding to_signed
to_signed-small n small =
    let whole : n % 18446744073709551616 ≡ n = omega arith in rw whole (ground arith)

pow-le : (k : ℕ) → k ≤ 36 → 2 ^ k ≤ 68719476736
pow-le k le = pow-le-pow_right (omega arith) le

-- Up to the 37th retry the pause is 100 ms, doubled at each retry, and 10 s from the eighth on.
pub backoff-doubles :
    (k : ℕ) → k ≤ 36 → backoff k ≡ (if ltb 6 k then pos max_backoff else pos (100000000 * 2 ^ k))
unfolding backoff
backoff-doubles k le =
    let low = pow-le k le in
    let small : 100 * 2 ^ k * 1000000 < 9223372036854775808 = omega arith in
    rw (to_signed-small (100 * 2 ^ k * 1000000) small) (elim (Bool-cases (ltb 6 k)) [
      | inl e ↦
          let high : 128 ≤ 2 ^ k =
            let above : 7 ≤ k = ground arith in pow-le-pow_right two_pos above in
          rw e (ground arith)
      | inr e ↦
          let high : 2 ^ k ≤ 64 =
            let below : k ≤ 6 = ground arith in pow-le-pow_right two_pos below in
          rw e (ground arith)
    ])

-- From the 57th retry on there is no pause: the product wraps around to 0.
pub backoff_vanishes : (k : ℕ) → 56 ≤ k → backoff k ≡ pos 0
unfolding backoff to_signed
backoff_vanishes k le =
    let x = 2 ^ (k - 56) in
    let split : 2 ^ k ≡ 72057594037927936 * x =
      ap (λ m. 2 ^ m) (omega arith) ∙ pow_add 56 (k - 56) in
    let wraps : 100 * 2 ^ k * 1000000 % 18446744073709551616 ≡ 0 =
      ap (λ m. m % 18446744073709551616) (omega arith)
      ∙ mul-mod_left (390625 * x) 18446744073709551616 in
    rw wraps refl
