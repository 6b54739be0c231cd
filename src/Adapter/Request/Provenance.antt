-- ===== src/Adapter/Request/Provenance.antt =====
-- pkg/adapter/adapter.go: what the adapter stamps on a task wins over the metadata of the request.
use execgo.Base.{String, ◌≡◌, refl, ◌∙◌, ◌≢◌, inl, inr, some, [], ◌∷◌, arith, eq_iff, In, All-In}
use execgo.Base.Dict.{Dict, lookup, lookup-insert_same, lookup-insert_other}
use execgo.Adapter.Manifest.{schema_version, supported_kinds}
use execgo.Adapter.Request.{
  AgentActionRequest, Std, merge_entry, merge_into, merge_all, merge_string_maps, stamp, provenance,
}

-- strings.TrimSpace leaves a text without spaces as it is: these are the texts that the adapter uses.
pub record IsTrimming (std : Std) : Type 0 where
  pub fixed :
      (s : String)
      → In s ("adapter_schema" ∷ "adapter" ∷ "action_kind" ∷ schema_version ∷ supported_kinds)
      → std.trim_space s ≡ s

merge_entry_same :
    (k v : String) (m : Dict String) → k ≢ "" → v ≢ "" → lookup k (merge_entry k v m) ≡ some v
unfolding merge_entry
merge_entry_same k v m n p = ground (arith, eq_iff k "", eq_iff v "", lookup-insert_same k v m)

merge_entry_other :
    (k j v : String) (m : Dict String) → k ≢ j → lookup j (merge_entry k v m) ≡ lookup j m
unfolding merge_entry
merge_entry_other k j v m n = ground (arith, lookup-insert_other k j v m n)

stamp_other :
    (std : Std) (key id j : String) (m : Dict String)
    → key ≢ j
    → lookup j (stamp std key id m) ≡ lookup j m
unfolding stamp
stamp_other std key id j m n = ground (arith, lookup-insert_other key j (std.trim_space id) m n)

stamp_same :
    (std : Std) (key id : String) (m : Dict String)
    → std.trim_space id ≢ ""
    → lookup key (stamp std key id m) ≡ some (std.trim_space id)
unfolding stamp
stamp_same std key id m n =
    ground (arith, eq_iff (std.trim_space id) "", lookup-insert_same key (std.trim_space id) m)

-- The stamps of the adapter, on a map.
pub record IsStamped (std : Std) (req : AgentActionRequest) (kind : String) (m : Dict String)
    : Type 0 where
  pub version : lookup "adapter_schema" m ≡ some schema_version
  pub kind_stamp : lookup "action_kind" m ≡ some kind
  pub agent :
      std.trim_space req.agent_id ≢ "" → lookup "agent_id" m ≡ some (std.trim_space req.agent_id)
  pub session :
      std.trim_space req.session_id ≢ ""
      → lookup "session_id" m ≡ some (std.trim_space req.session_id)
  pub action :
      std.trim_space req.action_id ≢ "" → lookup "action_id" m ≡ some (std.trim_space req.action_id)

-- The three stamps on the ids of the request leave the other keys.
ids_other :
    (std : Std) (req : AgentActionRequest) (j : String) (m : Dict String)
    → "agent_id" ≢ j
    → "session_id" ≢ j
    → "action_id" ≢ j
    → lookup j (
        stamp std "action_id" req.action_id
          (stamp std "session_id" req.session_id (stamp std "agent_id" req.agent_id m)))
      ≡ lookup j m
ids_other std req j m a b c =
    stamp_other std "action_id" req.action_id j _ c
    ∙ stamp_other std "session_id" req.session_id j _ b
    ∙ stamp_other std "agent_id" req.agent_id j m a

supported_nonempty : (kind : String) → In kind supported_kinds → kind ≢ ""
supported_nonempty kind m =
    All-In (λ k. k ≢ "") kind supported_kinds
      (
        (λ e. cc),
        (
          (λ e. cc),
          (
            (λ e. cc),
            (
              (λ e. cc),
              (
                (λ e. cc),
                (
                  (λ e. cc),
                  ((λ e. cc), ((λ e. cc), ((λ e. cc), ((λ e. cc), ((λ e. cc), ((λ e. cc), tt)))))),
                ),
              ),
            ),
          ),
        ),
      )
      m

-- What the maps of the request and of the adapter give, merged.
merged_kind :
    (std : Std)
    → IsTrimming std
    → (base : Dict String) (name kind : String) → In kind supported_kinds
    → lookup "action_kind" (
        merge_into std base
          (("adapter_schema", schema_version) ∷ ("adapter", name) ∷ ("action_kind", kind) ∷ []))
      ≡ some kind
unfolding merge_into
merged_kind std h base name kind m =
    rw (h.fixed "action_kind" (inr (inr (inl refl))), h.fixed kind (inr (inr (inr (inr m)))))
      (merge_entry_same "action_kind" kind _ (λ e. cc) (supported_nonempty kind m))

merged_version :
    (std : Std)
    → IsTrimming std
    → (base : Dict String) (name kind : String)
    → lookup "adapter_schema" (
        merge_into std base
          (("adapter_schema", schema_version) ∷ ("adapter", name) ∷ ("action_kind", kind) ∷ []))
      ≡ some schema_version
unfolding merge_into
merged_version std h base name kind =
    rw
      (
        h.fixed "action_kind" (inr (inr (inl refl))),
        h.fixed "adapter" (inr (inl refl)),
        h.fixed "adapter_schema" (inl refl),
        h.fixed schema_version (inr (inr (inr (inl refl)))),
      )
      (merge_entry_other "action_kind" "adapter_schema" _ _ (λ e. cc)
        ∙ merge_entry_other "adapter" "adapter_schema" _ _ (λ e. cc)
        ∙ merge_entry_same "adapter_schema" schema_version _ (λ e. cc) (λ e. cc))

-- If strings.TrimSpace leaves the texts of the adapter as they are, then for every request and
-- supported kind: provenance maps adapter_schema to the version, action_kind to the kind, and
-- agent_id, session_id and action_id to the trimmed ids of the request where these are not empty,
-- whatever the metadata says.
pub provenance-IsStamped :
    (std : Std)
    → IsTrimming std
    → (req : AgentActionRequest) (kind : String) → In kind supported_kinds
    → IsStamped std req kind (provenance std req kind)
unfolding provenance merge_string_maps merge_all
provenance-IsStamped std h req kind m = record {
  version =
      ids_other std req "adapter_schema" _ (λ e. cc) (λ e. cc) (λ e. cc)
      ∙ merged_version std h _ _ kind;
  kind_stamp =
      ids_other std req "action_kind" _ (λ e. cc) (λ e. cc) (λ e. cc)
      ∙ merged_kind std h _ _ kind m;
  agent = λ n.
      stamp_other std "action_id" req.action_id "agent_id" _ (λ e. cc)
      ∙ stamp_other std "session_id" req.session_id "agent_id" _ (λ e. cc)
      ∙ stamp_same std "agent_id" req.agent_id _ n;
  session = λ n.
      stamp_other std "action_id" req.action_id "session_id" _ (λ e. cc)
      ∙ stamp_same std "session_id" req.session_id _ n;
  action = λ n. stamp_same std "action_id" req.action_id _ n;
}
