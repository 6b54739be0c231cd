-- ===== src/Adapter/Payload/Completed.antt =====
-- pkg/adapter/adapter.go: the object of a raw input, with its default action.
use execgo.Base.{
  String, ◌≡◌, refl, sym, ap, ◌∙◌, ◌↔◌, ◌≢◌, ◌⊎◌, inl, inr, Bool-cases, Option, none, some, [], ◌∷◌,
  ◌++◌, ok, ok_injective, bind_ok, bind_intro, absurd_ok, ◌==◌,
}
use execgo.Base.Dict.{Dict, lookup, insert}
use execgo.Models.Runtime.{Raw}
use execgo.Adapter.Json.{Json, null, bool, num, arr, obj, str, fields, to_fields}
use execgo.Adapter.Request.{Std, raw_object}
use execgo.Adapter.Payload.{
  action_or, with_default_action, marshal, marshalled, input_with_default_action,
}
use execgo.Adapter.Payload.Runtime.{marshal_ok}

-- The raw input is `object`; no bytes, or null, are the empty object.
abbrev pub IsObject : Std → Raw → Dict Json → Type 0
IsObject std raw object =
    ((raw ≡ []) × (object ≡ []))
    ⊎ ((raw ≢ []) × (std.decode raw ≡ some null) × (object ≡ []))
    ⊎ ((raw ≢ []) × ((fs : _) × (std.decode raw ≡ some (obj fs)) × (object ≡ fields fs)))

-- `m` is the object, with the action at the end where it had none.
abbrev pub HasAction : String → Dict Json → Dict Json → Type 0
HasAction action object m =
    (((v : Json) × (lookup "action" object ≡ some v)) × (m ≡ object))
    ⊎ ((lookup "action" object ≡ none) × (m ≡ object ++ ("action", str action) ∷ []))

abbrev pub IsCompletedBy : Std → String → Raw → Raw → Type 0
IsCompletedBy std action raw out =
    (object : Dict Json) × (m : Dict Json) × IsObject std raw object
    × HasAction action object m
    × (std.encode (obj (to_fields m)) ≡ some out)

pub cons_no_nil : (b : _) (bs : Raw) → (b ∷ bs) ≢ []
cons_no_nil b bs e = cc

no-IsObject :
    (std : Std) (b : _) (bs : Raw) (object : Dict Json) (o : Option Json)
    → std.decode (b ∷ bs) ≡ o
    → o ≢ some null
    → ((fs : _) → o ≢ some (obj fs))
    → ¬ IsObject std (b ∷ bs) object
no-IsObject std b bs object o e n f (inl (x, y)) = cc
no-IsObject std b bs object o e n f (inr (inl (x, d, y))) = n (sym e ∙ d)
no-IsObject std b bs object o e n f (inr (inr (x, (fs, d, y)))) = f fs (sym e ∙ d)

cons-IsObject :
    (std : Std) (b : _) (bs : Raw) (object : Dict Json) (o : Option Json)
    → std.decode (b ∷ bs) ≡ o
    → (raw_object std (b ∷ bs) ≡ ok object) ↔ IsObject std (b ∷ bs) object
unfolding raw_object
cons-IsObject std b bs object (some null) e = (
  λ x. inr (inl (cons_no_nil b bs, e, sym (ok_injective _ _ (rw (e, raw_object) at x)))),
  λ h. elim h [
    | inl (x, y) ↦ absurd (cc x)
    | inr r ↦ elim r [
      | inl (x, d, y) ↦ rw (e, y, raw_object) refl
      | inr (x, (fs, d, y)) ↦ absurd (cc (sym e ∙ d))
    ]
  ],
)
cons-IsObject std b bs object (some (obj fs)) e = (
  λ x. inr (inr (cons_no_nil b bs, (fs, e, sym (ok_injective _ _ (rw (e, raw_object) at x))))),
  λ h. elim h [
    | inl (x, y) ↦ absurd (cc x)
    | inr r ↦ elim r [
      | inl (x, d, y) ↦ absurd (cc (sym e ∙ d))
      | inr (x, (gs, d, y)) ↦
          let same : fs ≡ gs = cc (sym e ∙ d) in rw (e, y, same, raw_object) refl
    ]
  ],
)
cons-IsObject std b bs object none e = (
  λ x. absurd (absurd_ok _ _ (rw (e, raw_object) at x)),
  λ h. absurd (no-IsObject std b bs object _ e (λ x. cc) (λ fs x. cc) h),
)
cons-IsObject std b bs object (some (bool q)) e = (
  λ x. absurd (absurd_ok _ _ (rw (e, raw_object) at x)),
  λ h. absurd (no-IsObject std b bs object _ e (λ x. cc) (λ fs x. cc) h),
)
cons-IsObject std b bs object (some (num n d)) e = (
  λ x. absurd (absurd_ok _ _ (rw (e, raw_object) at x)),
  λ h. absurd (no-IsObject std b bs object _ e (λ x. cc) (λ fs x. cc) h),
)
cons-IsObject std b bs object (some (str q)) e = (
  λ x. absurd (absurd_ok _ _ (rw (e, raw_object) at x)),
  λ h. absurd (no-IsObject std b bs object _ e (λ x. cc) (λ fs x. cc) h),
)
cons-IsObject std b bs object (some (arr q)) e = (
  λ x. absurd (absurd_ok _ _ (rw (e, raw_object) at x)),
  λ h. absurd (no-IsObject std b bs object _ e (λ x. cc) (λ fs x. cc) h),
)

raw_object_iff :
    (std : Std) (raw : Raw) (object : Dict Json)
    → (raw_object std raw ≡ ok object) ↔ IsObject std raw object
unfolding raw_object
raw_object_iff std [] object = (
  λ e. inl (refl, sym (ok_injective _ _ e)),
  λ h. elim h [
    | inl (x, y) ↦ rw y refl
    | inr r ↦ elim r [ inl (x, d, y) ↦ absurd (x refl) | inr (x, d) ↦ absurd (x refl) ]
  ],
)
raw_object_iff std (b ∷ bs) object = cons-IsObject std b bs object (std.decode (b ∷ bs)) refl

insert-missing :
    (k : String) (v : Json) (m : Dict Json) → lookup k m ≡ none → insert k v m ≡ m ++ (k, v) ∷ []
unfolding insert
insert-missing k v [] e = refl
insert-missing k v ((j, w) ∷ m) e = elim (Bool-cases (j == k)) [
  | inl t ↦ absurd (cc (rw t at e))
  | inr t ↦ rw (t, insert) (ap (λ u. (j, w) ∷ u) (insert-missing k v m (rw t at e)))
]

action_or_iff :
    (action : String) (object m : Dict Json) (o : Option Json)
    → lookup "action" object ≡ o
    → (action_or action object o ≡ m) ↔ HasAction action object m
action_or_iff action object m none e =
    let there = insert-missing "action" (str action) object e in
    (
      λ x. inr (e, sym x ∙ there),
      λ h. elim h [ inl ((v, d), y) ↦ absurd (cc (sym e ∙ d)) | inr (d, y) ↦ there ∙ sym y ],
    )
action_or_iff action object m (some v) e = (
  λ x. inl ((v, e), sym x),
  λ h. elim h [ inl (d, y) ↦ sym y | inr (d, y) ↦ absurd (cc (sym e ∙ d)) ],
)

pub completed_iff :
    (std : Std) (action : String) (raw out : Raw)
    → (input_with_default_action std raw action ≡ ok out) ↔ IsCompletedBy std action raw out
unfolding input_with_default_action with_default_action marshal
completed_iff std action raw out = (
  λ e.
      let (object, a, e₁) = bind_ok (raw_object std raw) _ out e in
      let m = with_default_action action object in
      (
        object,
        m,
        (raw_object_iff std raw object).0 a,
        (action_or_iff action object m (lookup "action" object) refl).0 refl,
        marshal_ok std m out e₁,
      ),
  λ (object, m, o, h, e).
      let same = (action_or_iff action object m (lookup "action" object) refl).1 h in
      bind_intro _ _ object out ((raw_object_iff std raw object).1 o)
        (ap (marshal std) same ∙ ap marshalled e),
)
