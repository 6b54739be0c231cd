-- ===== src/Adapter/Kinds.antt =====
-- pkg/adapter/adapter.go: NormalizeActionKind.
pub mod Supported
use execgo.Base.{
  String, ◌≡◌, refl, sym, ap, ◌∙◌, subst, ◌≢◌, not, Option, none, some, Option-cases, List, [], ◌∷◌,
  map, if◌then◌else◌, ◌==◌, text_cases, has, has_iff, In, In-cases, All, inl, inr, eq_iff, Except,
  ok, err, arith,
}
use execgo.Base.Dict.{Dict, lookup}
use execgo.Adapter.Manifest.{supported_kinds}
use execgo.Adapter.Request.{ActionError, kind_required, unknown_kind, Std}

-- The cases of the switch that return a kind.
abbrev pub aliases : Dict String
aliases =
    ("shell", "os.shell")
    ∷ ("bash", "os.shell")
    ∷ ("terminal.command", "os.shell")
    ∷ ("file.read", "os.file")
    ∷ ("file.write", "os.file")
    ∷ ("http.request", "os.http")
    ∷ ("command", "runtime.command")
    ∷ ("script", "runtime.script")
    ∷ ("noop", "os.noop")
    ∷ ("dns", "os.dns")
    ∷ ("tcp", "os.tcp")
    ∷ ("sleep", "os.sleep")
    ∷ []

-- The loop over the kinds, where no case of the switch has returned.
abbrev pub alias_or_kind : String → String → Option String → Except ActionError String
alias_or_kind kind k (some alias) = ok alias
alias_or_kind kind k none = if not (has k supported_kinds) then err (unknown_kind kind) else ok k

-- The switch and the loop, on the kind in lower case and without spaces.
unfoldable pub resolve : String → String → Except ActionError String
resolve kind k = if k == "" then err kind_required else alias_or_kind kind k (lookup k aliases)

module _ (std : Std) where
  unfoldable pub normalize_action_kind : String → Except ActionError String
  normalize_action_kind kind = resolve kind (std.to_lower (std.trim_space kind))
