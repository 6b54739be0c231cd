-- ===== src/Adapter/Payload/Files.antt =====
-- pkg/adapter/adapter.go: the action that the aliases file.read and file.write fill in.
use execgo.Base.{
  String, ◌≡◌, refl, sym, ◌∙◌, subst, ◌≢◌, Option, none, some, eq_iff, ◌==◌, ok, ok_injective,
  bind_ok, if_either,
}
use execgo.Base.Dict.{Dict, lookup, lookup-insert_same, lookup-insert_other}
use execgo.Models.Runtime.{Raw}
use execgo.Adapter.Json.{Json, str, obj, to_fields}
use execgo.Adapter.Request.{Std, raw_object}
use execgo.Adapter.Payload.{
  input_with_default_action, with_default_action, action_or, normalize_os_input,
}
use execgo.Adapter.Payload.Runtime.{marshal_ok}

-- `m` is the object of the input, with `action` where it had no action.
pub record IsFilled (action : String) (object m : Dict Json) : Type 0 where
  pub filled : lookup "action" object ≡ none → lookup "action" m ≡ some (str action)
  pub kept : (k : String) (v : Json) → lookup k object ≡ some v → lookup k m ≡ some v
  pub rest_kept : (k : String) → "action" ≢ k → lookup k m ≡ lookup k object

action_or-IsFilled :
    (action : String) (object : Dict Json) (o : Option Json)
    → lookup "action" object ≡ o
    → IsFilled action object (action_or action object o)
action_or-IsFilled action object none e = record {
  filled = λ _. lookup-insert_same "action" (str action) object;
  kept = λ k v h.
      lookup-insert_other "action" k (str action) object
        (λ x. absurd (cc (sym (subst (λ y. lookup y object ≡ none) x e) ∙ h)))
      ∙ h;
  rest_kept = λ k n. lookup-insert_other "action" k (str action) object n;
}
action_or-IsFilled action object (some v) e = record {
  filled = λ n. absurd (cc (sym n ∙ e));
  kept = λ k w h. h;
  rest_kept = λ k n. refl;
}

-- What `out` is made of.
abbrev pub FilledInput : Std → String → Raw → Raw → Type 0
FilledInput std action raw out =
    (object : Dict Json) × (m : Dict Json) × (raw_object std raw ≡ ok object)
    × (std.encode (obj (to_fields m)) ≡ some out)
    × IsFilled action object m

input_with_default_action-IsFilled :
    (std : Std) (raw out : Raw) (action : String)
    → input_with_default_action std raw action ≡ ok out
    → FilledInput std action raw out
unfolding input_with_default_action with_default_action
input_with_default_action-IsFilled std raw out action e =
    let (object, a, e₁) = bind_ok (raw_object std raw) _ out e in
    let m = with_default_action action object in
    (
      object,
      m,
      a,
      marshal_ok std m out e₁,
      action_or-IsFilled action object (lookup "action" object) refl,
    )

-- When normalizeOSInput returns: for file.read and file.write the output encodes the object of
-- the input, with the action read or write where it had none and every other key as it was; for
-- any other kind it is the input.
pub normalize_os_input-IsFilled :
    (std : Std) (raw out : Raw) (raw_kind : String)
    → normalize_os_input std raw raw_kind ≡ ok out
    → ((std.to_lower (std.trim_space raw_kind) ≡ "file.read") → FilledInput std "read" raw out)
      × ((std.to_lower (std.trim_space raw_kind) ≡ "file.write") → FilledInput std "write" raw out)
      × ((std.to_lower (std.trim_space raw_kind) ≢ "file.read")
          → (std.to_lower (std.trim_space raw_kind) ≢ "file.write")
          → out ≡ raw)
unfolding normalize_os_input
normalize_os_input-IsFilled std raw out raw_kind e =
    let k = std.to_lower (std.trim_space raw_kind) in
    if_either (k == "file.read") _ _ out _ e
      (λ b e₁.
        let r = (eq_iff k "file.read").0 b in
        (
          λ _. input_with_default_action-IsFilled std raw out "read" e₁,
          λ w. absurd (cc (sym r ∙ w)),
          λ n _. absurd (n r),
        ))
      (λ b e₁.
        if_either (k == "file.write") _ _ out _ e₁
          (λ c e₂.
            let w = (eq_iff k "file.write").0 c in
            (
              λ r. absurd (cc (sym r ∙ w)),
              λ _. input_with_default_action-IsFilled std raw out "write" e₂,
              λ _ n. absurd (n w),
            ))
          (λ c e₂. (
            λ r. absurd (cc (sym b ∙ (eq_iff k "file.read").1 r)),
            λ w. absurd (cc (sym c ∙ (eq_iff k "file.write").1 w)),
            λ _ _. sym (ok_injective raw out e₂),
          )))
