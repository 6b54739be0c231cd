-- ===== src/Adapter/Manifest.antt =====
-- pkg/adapter/adapter.go, schema_validate.go: what the adapter says it can do, and the schema of a kind.
pub mod Tools
use execgo.Base.{String, Option, none, some, List, [], ◌∷◌, if◌then◌else◌, ◌==◌}
use execgo.Adapter.Schema.{Schema}
use execgo.Adapter.Actions.{
  shell_input_schema, file_input_schema, http_input_schema, dns_input_schema, tcp_input_schema,
  sleep_input_schema, noop_input_schema, runtime_command_input_schema, runtime_script_input_schema,
  mcp_call_input_schema, cli_run_input_schema, task_graph_submit_input_schema,
}

abbrev pub schema_version : String
schema_version = "adapter.v1"

abbrev pub supported_kinds : List String
supported_kinds =
    "os.shell" ∷ "os.file" ∷ "os.http" ∷ "os.dns" ∷ "os.tcp" ∷ "os.sleep" ∷ "os.noop"
    ∷ "runtime.command" ∷ "runtime.script" ∷ "mcp.call" ∷ "cli.run" ∷ "task_graph.submit" ∷ []

pub record AdapterCapabilitiesResponse : Type 0 where
  pub schema_version : String
  pub profiles : List String
  pub action_kinds : List String
  pub compatibility_notes : List String

unfoldable pub capabilities : AdapterCapabilitiesResponse
capabilities = record {
  schema_version = schema_version;
  profiles = "generic" ∷ "claudecode" ∷ "codex" ∷ "openclaw" ∷ [];
  action_kinds = supported_kinds;
  compatibility_notes =
      "POST /tasks remains the direct Task DSL path."
      ∷ "POST /adapters/actions translates structured mature-agent actions into TaskGraph submissions."
      ∷ "runtime.command and runtime.script use the runtime executor for process scheduling, resource limits, and sandbox policy."
      ∷ [];
}

pub record AgentToolSpec : Type 0 where
  pub name : String
  pub action_kind : String
  pub category : String
  pub description : String
  pub input_schema : Schema
  pub aliases : List String

pub record ToolManifestResponse : Type 0 where
  pub schema_version : String
  pub tools : List AgentToolSpec

abbrev pub tool : String → String → String → String → Schema → List String → AgentToolSpec
tool name action_kind category description input_schema aliases = record {
  name = name;
  action_kind = action_kind;
  category = category;
  description = description;
  input_schema = input_schema;
  aliases = aliases;
}

unfoldable pub tool_manifest : ToolManifestResponse
tool_manifest = record {
  schema_version = schema_version;
  tools =
      tool "execgo.os.shell" "os.shell" "os" "Run an allowlisted shell command or script"
        shell_input_schema ("shell" ∷ "bash" ∷ "terminal.command" ∷ [])
      ∷ tool "execgo.os.file" "os.file" "os" "Read, write, append, delete, or stat a file"
          file_input_schema ("file.read" ∷ "file.write" ∷ [])
      ∷ tool "execgo.os.http" "os.http" "os" "Issue an HTTP request" http_input_schema
          ("http.request" ∷ [])
      ∷ tool "execgo.os.dns" "os.dns" "os" "Perform a DNS lookup" dns_input_schema []
      ∷ tool "execgo.os.tcp" "os.tcp" "os" "Probe a TCP endpoint" tcp_input_schema []
      ∷ tool "execgo.os.sleep" "os.sleep" "os" "Delay execution for a duration" sleep_input_schema
          []
      ∷ tool "execgo.os.noop" "os.noop" "os" "No-op action for testing and placeholders"
          noop_input_schema []
      ∷ tool "execgo.runtime.command" "runtime.command" "runtime"
          "Submit a command to execgo-runtime with resource and sandbox policy"
          runtime_command_input_schema ("command" ∷ [])
      ∷ tool "execgo.runtime.script" "runtime.script" "runtime"
          "Submit a script to execgo-runtime with resource and sandbox policy"
          runtime_script_input_schema ("script" ∷ [])
      ∷ tool "execgo.mcp.call" "mcp.call" "mcp" "Call an MCP tool through ExecGo"
          mcp_call_input_schema []
      ∷ tool "execgo.cli.run" "cli.run" "cli-skills" "Run a local CLI skill command"
          cli_run_input_schema []
      ∷ tool "execgo.task_graph.submit" "task_graph.submit" "task-dsl"
          "Submit a prebuilt ExecGo TaskGraph" task_graph_submit_input_schema []
      ∷ [];
}

-- The loop of inputSchemaForKind.
unfoldable pub find_schema : String → List AgentToolSpec → Option Schema
find_schema kind [] = none
find_schema kind (t ∷ ts) =
    if t.action_kind == kind then some t.input_schema else find_schema kind ts

unfoldable pub input_schema_for_kind : String → Option Schema
input_schema_for_kind kind = find_schema kind tool_manifest.tools
