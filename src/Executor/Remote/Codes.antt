-- ===== src/Executor/Remote/Codes.antt =====
-- pkg/executor/runtime.go: the errors of the runtime service.
use execgo.Base.{
  String, Bool, true, ◌||◌, not, Option, none, some, List, [], ◌∷◌, if◌then◌else◌, ◌==◌, has,
}
use execgo.Base.Dict.{Dict, lookup}
use execgo.Models.Runtime.{Raw, ErrorCode, RuntimeError}
use execgo.Adapter.Json.{str, obj, no_fields, field}
use execgo.Executor.Remote.{ApiError, Outside}

-- The cases of the switch of mapRuntimeErrorCode.
abbrev pub known_codes : Dict ErrorCode
known_codes =
    ("invalid_input", ErrorCode.invalid_input)
    ∷ ("launch_failed", ErrorCode.launch_failed)
    ∷ ("timeout", ErrorCode.timeout)
    ∷ ("cancelled", ErrorCode.cancelled)
    ∷ ("memory_limit_exceeded", ErrorCode.memory_limit)
    ∷ ("cpu_limit_exceeded", ErrorCode.cpu_limit)
    ∷ ("resource_limit_exceeded", ErrorCode.resource_limit)
    ∷ ("sandbox_setup_failed", ErrorCode.sandbox_setup)
    ∷ ("exit_nonzero", ErrorCode.exit_non_zero)
    ∷ ("denied", ErrorCode.denied)
    ∷ ("not_found", ErrorCode.not_found)
    ∷ ("internal", ErrorCode.internal)
    ∷ []

-- The default of the switch.
abbrev pub code_or_external : Option ErrorCode → ErrorCode
code_or_external none = ErrorCode.external_failure
code_or_external (some code) = code

abbrev pub retryable_codes : List String
retryable_codes = "timeout" ∷ "external_failure" ∷ "resource_limit_exceeded" ∷ []

module _ (out : Outside) where
  unfoldable pub map_runtime_error_code : String → ErrorCode
  map_runtime_error_code code = code_or_external (lookup (out.trim_space code) known_codes)

  unfoldable pub is_retryable_runtime_code : String → Bool
  is_retryable_runtime_code code = has (out.trim_space code) retryable_codes

  unfoldable pub convert_runtime_api_error : ApiError → RuntimeError
  convert_runtime_api_error e = record {
    code = map_runtime_error_code e.code;
    message = e.message;
    retryable = is_retryable_runtime_code e.code;
    source = "execgo-runtime";
    details =
        out.encode
          (obj (field "raw_error_code" (str e.code) (field "details" e.details no_fields)));
  }

  -- The third of the three forms of an error body: a text.
  abbrev pub error_of_text : Option String → Option RuntimeError
  error_of_text none = none
  error_of_text (some msg) =
      if not (out.trim_space msg == "")
      then some (record {
        code = ErrorCode.external_failure;
        message = msg;
        retryable = true;
        source = "execgo-runtime";
        details = [];
      })
      else none

  -- The second: an error with a code or a message.
  abbrev pub error_of_direct : Option ApiError → Option String → Option RuntimeError
  error_of_direct none msg = error_of_text msg
  error_of_direct (some e) msg =
      if not (e.code == "") || not (e.message == "")
      then some (convert_runtime_api_error e)
      else error_of_text msg

  -- The first: an envelope with an error in it.
  abbrev pub error_of_envelope :
      Option (Option ApiError) → Option ApiError → Option String → Option RuntimeError
  error_of_envelope (some (some e)) direct msg = some (convert_runtime_api_error e)
  error_of_envelope _ direct msg = error_of_direct direct msg

  unfoldable pub decode_runtime_api_error : Raw → Option RuntimeError
  decode_runtime_api_error body =
      error_of_envelope (out.decode_envelope body) (out.decode_error body) (out.decode_text body)
