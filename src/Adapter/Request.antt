-- ===== src/Adapter/Request.antt =====
-- pkg/adapter/adapter.go: requests, errors, and the helpers on identifiers, text maps and JSON values.
pub mod Provenance
use execgo.Base.{
  String, Bool, true, false, ◌&&◌, not, Option, none, some, List, [], ◌∷◌, ◌++◌, map, if◌then◌else◌,
  ◌==◌, ℤ, Except, ok, err,
}
use execgo.Base.Dict.{Dict, insert}
use execgo.Models.Runtime.{Raw}
use execgo.Models.Task.{Task, TaskGraph}
use execgo.Models.Graph.{ValidationError}
use execgo.Models.Graph.Edges.{ids}
use execgo.Adapter.Json.{Json, null, str, arr, obj, items, fields, to_fields}
use execgo.Adapter.Schema.{SchemaError}
use execgo.Adapter.Manifest.{schema_version}

-- Metadata and the other maps are lists of their entries, in the order in which Go walks them.
pub record AgentAction : Type 0 where
  pub kind : String
  pub tool_name : String
  pub input : Raw
  pub depends_on : List String
  pub retry : ℤ
  pub timeout : ℤ

pub record AgentActionRequest : Type 0 where
  pub adapter : String
  pub agent_id : String
  pub session_id : String
  pub action_id : String
  pub action : AgentAction
  pub metadata : Dict String

pub record TranslationTrace : Type 0 where
  pub schema_version : String
  pub adapter : String
  pub agent_id : String
  pub session_id : String
  pub action_id : String
  pub source_kind : String
  pub normalized_kind : String
  pub task_ids : List String

-- `Accepted` is 0 here: the caller fills it in.
pub record AgentActionResponse : Type 0 where
  pub task_ids : List String
  pub task_graph : TaskGraph
  pub translation_trace : TranslationTrace

-- The messages that start with "invalid adapter action".
pub data ActionError : Type 0 where
  kind_required not_an_object not_valid_json tool_name_required : ActionError
  marshal_failed program_required script_required : ActionError
  input_required graph_not_parsed no_tasks : ActionError
  unknown_kind no_schema : String → ActionError
  refused_input : SchemaError → ActionError
  invalid_graph : ValidationError → ActionError

-- The task_graph.submit input, decoded: its "task_graph" and its "tasks", where they are not null.
pub record GraphInput : Type 0 where
  pub task_graph : Option TaskGraph
  pub tasks : Option (List Task)

-- What the adapter calls of the standard library: strings.TrimSpace and ToLower, json.Unmarshal into
-- `any` and into the struct of graphFromActionInput, json.Marshal, and the name
-- "adapter-<nanoseconds>" that the clock gives at this call.
pub record Std : Type 0 where
  pub trim_space : String → String
  pub to_lower : String → String
  pub decode : Raw → Option Json
  pub decode_graph : Raw → Option GraphInput
  pub encode : Json → Option Raw
  pub clock_id : String

-- `s, ok := item.(string)` on each entry, those that are no text left out.
unfoldable pub texts_of : List (String × Json) → Dict String
texts_of [] = []
texts_of ((k, str s) ∷ fs) = (k, s) ∷ texts_of fs
texts_of (_ ∷ fs) = texts_of fs

unfoldable pub string_map_value : Option Json → Dict String
string_map_value (some (obj fs)) = texts_of (fields fs)
string_map_value _ = []

-- The elements, where each is a text.
unfoldable pub all_texts : List Json → Option (List String)
all_texts [] = some []
all_texts (str s ∷ vs) = elim (all_texts vs) [ none ↦ none | some ss ↦ some (s ∷ ss) ]
all_texts (_ ∷ vs) = none

unfoldable pub string_slice_value : Option Json → Option (List String)
string_slice_value (some (arr vs)) = all_texts (items vs)
string_slice_value _ = none

-- map[string]string as a JSON value.
abbrev pub text_object : Dict String → Json
text_object m = obj (to_fields (map (λ e. (e.0, str e.1)) m))

unfoldable pub task_ids : TaskGraph → List String
task_ids g = ids g.tasks

-- One round of the loops of mergeStringMaps.
unfoldable pub merge_entry : String → String → Dict String → Dict String
merge_entry k v out = if not (k == "") && not (v == "") then insert k v out else out

module _ (std : Std) where
  unfoldable pub raw_object : Raw → Except ActionError (Dict Json)
  raw_object [] = ok []
  raw_object (b ∷ bs) = elim (std.decode (b ∷ bs)) [
    | some (obj fs) ↦ ok (fields fs)
    | some null ↦ ok []
    | _ ↦ err not_an_object
  ]

  unfoldable pub task_id : String → String
  task_id id =
      let trimmed = std.trim_space id in if not (trimmed == "") then trimmed else std.clock_id

  unfoldable pub adapter_name : String → String
  adapter_name name = let n = std.to_lower (std.trim_space name) in if n == "" then "generic" else n

  abbrev pub non_empty_text : String → Option String
  non_empty_text s = if s == "" then none else some s

  unfoldable pub string_value : Option Json → Option String
  string_value (some (str s)) = non_empty_text (std.trim_space s)
  string_value _ = none

  unfoldable pub merge_into : Dict String → Dict String → Dict String
  merge_into out [] = out
  merge_into out ((k, v) ∷ m) = merge_into (merge_entry (std.trim_space k) (std.trim_space v) out) m

  unfoldable pub merge_all : Dict String → List (Dict String) → Dict String
  merge_all out [] = out
  merge_all out (m ∷ ms) = merge_all (merge_into out m) ms

  unfoldable pub merge_string_maps : List (Dict String) → Dict String
  merge_string_maps ms = merge_all [] ms

  -- `if strings.TrimSpace(id) != "" { out[key] = strings.TrimSpace(id) }`
  unfoldable pub stamp : String → String → Dict String → Dict String
  stamp key id out =
      if not (std.trim_space id == "") then insert key (std.trim_space id) out else out

  unfoldable pub provenance : AgentActionRequest → String → Dict String
  provenance req kind =
      let own : Dict String =
        ("adapter_schema", schema_version)
        ∷ ("adapter", adapter_name req.adapter)
        ∷ ("action_kind", kind)
        ∷ [] in
      stamp "action_id" req.action_id (
        stamp "session_id" req.session_id
          (stamp "agent_id" req.agent_id (merge_string_maps (req.metadata ∷ own ∷ []))))
