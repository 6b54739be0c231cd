-- ===== src/Executor/Remote/Retryable.antt =====
-- pkg/executor/runtime.go: the errors of the service that may be retried.
use execgo.Base.{String, ◌≡◌, refl, sym, subst, ◌⊎◌, inl, inr, true, has_iff, In}
use execgo.Models.Runtime.{ErrorCode}
use execgo.Executor.Remote.{ApiError, Outside}
use execgo.Executor.Remote.Codes.{
  known_codes, code_or_external, retryable_codes, map_runtime_error_code, is_retryable_runtime_code,
  convert_runtime_api_error,
}
use execgo.Base.Dict.{lookup}

abbrev pub MayPass : ErrorCode → Type 0
MayPass c =
    (c ≡ ErrorCode.timeout) ⊎ ((c ≡ ErrorCode.external_failure) ⊎ (c ≡ ErrorCode.resource_limit))

retryable_code :
    (code : String) → In code retryable_codes → MayPass (code_or_external (lookup code known_codes))
retryable_code code m = elim m [
  | inl e ↦ subst (λ c. MayPass (code_or_external (lookup c known_codes))) (sym e) (inl refl)
  | inr n ↦ elim n [
    | inl e ↦
        subst (λ c. MayPass (code_or_external (lookup c known_codes))) (sym e) (inr (inl refl))
    | inr p ↦ elim p [
      | inl e ↦
          subst (λ c. MayPass (code_or_external (lookup c known_codes))) (sym e) (inr (inr refl))
      | inr q ↦ absurd q
    ]
  ]
]

-- If convertRuntimeAPIError marks an error as retryable, its code is that of a timeout, an
-- external failure or a resource limit.
pub convert_runtime_api_error-MayPass :
    (out : Outside) (e : ApiError)
    → (convert_runtime_api_error out e).retryable ≡ true
    → MayPass (convert_runtime_api_error out e).code
unfolding convert_runtime_api_error is_retryable_runtime_code map_runtime_error_code
convert_runtime_api_error-MayPass out e h =
    retryable_code (out.trim_space e.code) ((has_iff (out.trim_space e.code) retryable_codes).0 h)
