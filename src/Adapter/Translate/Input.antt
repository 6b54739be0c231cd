-- ===== src/Adapter/Translate/Input.antt =====
-- pkg/adapter/schema_validate.go: the input that ValidateActionRequest checks.
use execgo.Base.{
  String, ◌≡◌, refl, sym, ap, ◌∙◌, ◌↔◌, ◌≢◌, ◌⊎◌, inl, inr, false, Bool-cases, some, Option-cases,
  [], ◌∷◌, ok, ok_injective, absurd_ok, ◌==◌, text_cases,
}
use execgo.Models.Runtime.{Raw}
use execgo.Adapter.Json.{Json, obj, no_fields}
use execgo.Adapter.Request.{AgentActionRequest, Std}
use execgo.Adapter.Payload.{input_with_default_action, normalize_os_input}
use execgo.Adapter.Kinds.{resolve, normalize_action_kind}
use execgo.Adapter.Translate.{decode_input, checked_input, starts_with}
use execgo.Adapter.Payload.Completed.{IsCompletedBy, completed_iff, cons_no_nil}

-- What is checked, for an action whose kind is `k` in lower case and without spaces.
abbrev pub IsChecked : Std → String → Raw → Raw → Type 0
IsChecked std k raw out =
    ((k ≡ "file.read") × IsCompletedBy std "read" raw out)
    ⊎ ((k ≡ "file.write") × IsCompletedBy std "write" raw out)
    ⊎ ((k ≢ "file.read") × (k ≢ "file.write") × (out ≡ raw))

-- The value of the text; no bytes are the empty object.
abbrev pub IsDecoded : Std → Raw → Json → Type 0
IsDecoded std raw v = ((raw ≡ []) × (v ≡ obj no_fields)) ⊎ ((raw ≢ []) × (std.decode raw ≡ some v))

pub decode_input_iff :
    (std : Std) (raw : Raw) (v : Json) → (decode_input std raw ≡ ok v) ↔ IsDecoded std raw v
unfolding decode_input
decode_input_iff std [] v = (
  λ e. inl (refl, sym (ok_injective _ _ e)),
  λ h. elim h [ inl (x, y) ↦ rw y refl | inr (x, y) ↦ absurd (x refl) ],
)
decode_input_iff std (b ∷ bs) v = elim (Option-cases (std.decode (b ∷ bs))) [
  | inl e ↦ (
    λ x. absurd (absurd_ok _ _ (rw (e, decode_input) at x)),
    λ h. elim h [ inl (x, y) ↦ absurd (cc x) | inr (x, y) ↦ absurd (cc (sym e ∙ y)) ],
  )
  | inr (w, e) ↦ (
    λ x. inr (cons_no_nil b bs, e ∙ ap some (ok_injective _ _ (rw (e, decode_input) at x))),
    λ h. elim h [ inl (x, y) ↦ absurd (cc x) | inr (x, y) ↦ rw (y, decode_input) refl ],
  )
]

resolve_read : (raw kind : String) → resolve raw "file.read" ≡ ok kind → "os.file" ≡ kind
unfolding resolve
resolve_read raw kind e = ok_injective _ _ e

resolve_write : (raw kind : String) → resolve raw "file.write" ≡ ok kind → "os.file" ≡ kind
unfolding resolve
resolve_write raw kind e = ok_injective _ _ e

module _ (std : Std) (req : AgentActionRequest) (raw_kind kind : String)
    (n : normalize_action_kind std raw_kind ≡ ok kind) where
  abbrev k : String
  k = std.to_lower (std.trim_space raw_kind)

  checked_read :
      k ≡ "file.read"
      → checked_input std req raw_kind kind ≡ input_with_default_action std req.action.input "read"
  unfolding checked_input normalize_os_input normalize_action_kind
  checked_read e =
      let same = resolve_read raw_kind kind (ap (resolve raw_kind) (sym e) ∙ n) in
      rw (sym same, e) refl

  checked_write :
      k ≡ "file.write"
      → checked_input std req raw_kind kind ≡ input_with_default_action std req.action.input "write"
  unfolding checked_input normalize_os_input normalize_action_kind
  checked_write e =
      let same = resolve_write raw_kind kind (ap (resolve raw_kind) (sym e) ∙ n) in
      rw (sym same, e) refl

  checked_other :
      (k == "file.read") ≡ false
      → (k == "file.write") ≡ false
      → checked_input std req raw_kind kind ≡ ok req.action.input
  unfolding checked_input normalize_os_input
  checked_other r w = elim (Bool-cases (starts_with kind "os.")) [
    | inl s ↦ rw (s, r, w) refl
    | inr s ↦ rw s refl
  ]

  pub checked_input_iff :
      (out : Raw)
      → (checked_input std req raw_kind kind ≡ ok out)
        ↔ IsChecked std (std.to_lower (std.trim_space raw_kind)) req.action.input out
  checked_input_iff out =
      let input = req.action.input in
      elim (text_cases k "file.read") [
        | inl (r, b) ↦
            let done = completed_iff std "read" input out in
            (
              λ e. inl (r, done.0 (sym (checked_read r) ∙ e)),
              λ h. elim h [
                | inl (x, y) ↦ checked_read r ∙ done.1 y
                | inr o ↦ elim o [
                  | inl (x, y) ↦ absurd (cc (sym r ∙ x))
                  | inr (x, y, z) ↦ absurd (x r)
                ]
              ],
            )
        | inr (x, b) ↦ elim (text_cases k "file.write") [
          | inl (w, c) ↦
              let done = completed_iff std "write" input out in
              (
                λ e. inr (inl (w, done.0 (sym (checked_write w) ∙ e))),
                λ h. elim h [
                  | inl (r, y) ↦ absurd (x r)
                  | inr o ↦ elim o [
                    | inl (v, y) ↦ checked_write w ∙ done.1 y
                    | inr (v, y, z) ↦ absurd (y w)
                  ]
                ],
              )
          | inr (y, c) ↦ (
            λ e. inr (inr (x, y, sym (ok_injective input out (sym (checked_other b c) ∙ e)))),
            λ h. elim h [
              | inl (r, z) ↦ absurd (x r)
              | inr o ↦ elim o [
                | inl (w, z) ↦ absurd (y w)
                | inr (v, w, z) ↦ checked_other b c ∙ ap ok (sym z)
              ]
            ],
          )
        ]
      ]
