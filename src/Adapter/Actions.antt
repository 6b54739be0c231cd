-- ===== src/Adapter/Actions.antt =====
-- pkg/adapter/adapter.go: the input schema of each kind of action.
pub mod TextMaps
use execgo.Base.{String, Bool, true, false, none, some, List, [], ◌∷◌, pos}
use execgo.Adapter.Schema.{
  unset, flag, Keywords, Schema, schema, Properties, no_properties, ItemSchema, any_items,
  every_item, Schemas, no_schemas, also, if_then, unconditional,
}
use execgo.Adapter.Inputs.{
  no_keywords, simple, properties_of, schemas_of, set_properties, Extra, nothing, with_one_of,
  with_all_of, object_input_schema, free_object_input, string_input, string_input_with_default,
  string_array_input, string_map_input, enum_input, integer_input,
}

-- map[string]any{"required": []string{name}}
abbrev pub requires : String → Schema
requires name = simple (record no_keywords { required = name ∷ [] }) any_items

unfoldable pub shell_input_schema : Schema
shell_input_schema =
    object_input_schema
      (properties_of (
        (
          "command",
          string_input
              "Command to execute directly. The command basename is checked against ExecGo's shell allowlist unless shell policy is open.",
        )
        ∷ ("args", string_array_input "Arguments passed to command without shell interpolation.")
        ∷ ("dir", string_input "Optional working directory for the command or script.")
        ∷ ("script", string_input "Script body to execute through the selected runner.")
        ∷ (
          "runner",
          enum_input ("auto" ∷ "direct" ∷ "powershell" ∷ "cmd" ∷ "sh" ∷ []) "auto"
              "Script runner. direct is valid only with command/args, not with script.",
        )
        ∷ []))
      [] false (with_one_of (schemas_of (requires "command" ∷ requires "script" ∷ [])))

-- "if" the action writes or appends, "then" there must be a content.
abbrev pub content_rule : Schema
content_rule =
    let writes = simple (record no_keywords { enum = some ("write" ∷ "append" ∷ []) }) any_items in
    let written =
      schema no_keywords (properties_of (("action", writes) ∷ [])) any_items no_schemas no_schemas
        unconditional in
    schema no_keywords no_properties any_items no_schemas no_schemas
      (if_then written (requires "content"))

unfoldable pub file_input_schema : Schema
file_input_schema =
    object_input_schema
      (properties_of (
        (
          "action",
          enum_input ("read" ∷ "write" ∷ "append" ∷ "delete" ∷ "stat" ∷ []) ""
              "Filesystem action to perform.",
        )
        ∷ ("path", string_input "File path. ExecGo cleans the path before executing the action.")
        ∷ ("content", string_input "Content used by write and append actions.")
        ∷ []))
      ("action" ∷ "path" ∷ []) false (with_all_of (schemas_of (content_rule ∷ [])))

unfoldable pub http_input_schema : Schema
http_input_schema =
    object_input_schema
      (properties_of (
        (
          "url",
          simple
              (record no_keywords { type = "string"; format = "uri"; description = "Request URL." })
              any_items,
        )
        ∷ ("method", string_input_with_default "HTTP method. Defaults to GET." "GET")
        ∷ ("headers", string_map_input "HTTP headers to set on the request.")
        ∷ ("body", string_input "Optional request body.")
        ∷ []))
      ("url" ∷ []) false nothing

unfoldable pub dns_input_schema : Schema
dns_input_schema =
    object_input_schema
      (properties_of (
        ("name", string_input "DNS name to resolve.")
        ∷ (
          "record",
          enum_input ("ip" ∷ "txt" ∷ "cname" ∷ []) "ip" "DNS record kind. Defaults to ip.",
        )
        ∷ []))
      ("name" ∷ []) false nothing

unfoldable pub tcp_input_schema : Schema
tcp_input_schema =
    object_input_schema
      (properties_of (
        ("address", string_input "TCP endpoint in host:port form.")
        ∷ (
          "timeout_ms",
          integer_input "Dial timeout in milliseconds. Defaults to 5000." (some (pos 1))
              (some (pos 60000)) (some (pos 5000)),
        )
        ∷ []))
      ("address" ∷ []) false nothing

unfoldable pub sleep_input_schema : Schema
sleep_input_schema =
    object_input_schema
      (properties_of (
        (
          "duration_ms",
          integer_input "Delay duration in milliseconds." (some (pos 0)) (some (pos 600000)) none,
        )
        ∷ []))
      ("duration_ms" ∷ []) false nothing

unfoldable pub noop_input_schema : Schema
noop_input_schema =
    object_input_schema
      (properties_of (("message", string_input "Optional message echoed in the result.") ∷ [])) []
      false nothing

unfoldable pub runtime_execution_input_schema : Schema
runtime_execution_input_schema =
    object_input_schema
      (properties_of (
        ("kind", enum_input ("command" ∷ "script" ∷ []) "" "Runtime execution kind.")
        ∷ ("program", string_input "Executable path or program name for command execution.")
        ∷ ("args", string_array_input "Arguments passed to program.")
        ∷ ("script", string_input "Script body for script execution.")
        ∷ (
          "interpreter",
          string_array_input "Interpreter command and arguments for script execution.",
        )
        ∷ ("env", string_map_input "Environment variables for the runtime execution.")
        ∷ []))
      [] true nothing

unfoldable pub runtime_input_schema : Properties → Schemas → Schema
runtime_input_schema flat_properties options =
    object_input_schema
      (set_properties flat_properties (
        properties_of (
          (
            "task_id",
            string_input
                "Optional runtime task id. ExecGo injects the adapter action_id when present.",
          )
          ∷ ("execution", runtime_execution_input_schema)
          ∷ ("limits", free_object_input "execgo-runtime limits object, forwarded as-is.")
          ∷ ("sandbox", free_object_input "execgo-runtime sandbox object, forwarded as-is.")
          ∷ ("policy", free_object_input "execgo-runtime policy object, forwarded as-is.")
          ∷ (
            "control_context",
            free_object_input "execgo-runtime control_context object, forwarded as-is.",
          )
          ∷ (
            "metadata",
            string_map_input "Runtime metadata. ExecGo merges adapter provenance into this map.",
          )
          ∷ [])))
      [] false (with_one_of options)

unfoldable pub runtime_command_input_schema : Schema
runtime_command_input_schema =
    runtime_input_schema
      (properties_of (
        (
          "program",
          string_input "Executable path or program name for a flat runtime.command input.",
        )
        ∷ ("args", string_array_input "Arguments passed to program.")
        ∷ ("env", string_map_input "Environment variables merged into the execution object.")
        ∷ []))
      (schemas_of (requires "program" ∷ requires "execution" ∷ []))

unfoldable pub runtime_script_input_schema : Schema
runtime_script_input_schema =
    runtime_input_schema
      (properties_of (
        ("script", string_input "Script body for a flat runtime.script input.")
        ∷ (
          "interpreter",
          string_array_input
              "Interpreter command and arguments, for example [\"/bin/sh\", \"-c\"].",
        )
        ∷ ("env", string_map_input "Environment variables merged into the execution object.")
        ∷ []))
      (schemas_of (requires "script" ∷ requires "execution" ∷ []))

unfoldable pub mcp_call_input_schema : Schema
mcp_call_input_schema =
    object_input_schema
      (properties_of (
        ("tool_name", string_input "MCP tool name. Required here when action.tool_name is not set.")
        ∷ []))
      [] true nothing

unfoldable pub cli_run_input_schema : Schema
cli_run_input_schema =
    object_input_schema
      (properties_of (
        ("command", string_input "Local CLI command to execute.")
        ∷ ("args", string_array_input "Arguments passed to the local CLI command.")
        ∷ []))
      ("command" ∷ []) false nothing

unfoldable pub task_input_schema : Schema
task_input_schema =
    object_input_schema
      (properties_of (
        ("id", string_input "Unique task id within the graph.")
        ∷ (
          "type",
          string_input
              "Executor type, for example os, runtime, mcp, cli-skills, or a legacy type such as shell/file/http/noop.",
        )
        ∷ (
          "tool_name",
          string_input
              "Tool name used with category-style task types, for example shell, file, http, noop.",
        )
        ∷ ("execution_category", string_input "Optional executor category.")
        ∷ ("params", free_object_input "Legacy task parameters.")
        ∷ ("input", free_object_input "Category/tool input payload.")
        ∷ (
          "depends_on",
          string_array_input "Task ids that must finish successfully before this task runs.",
        )
        ∷ ("retry", integer_input "Retry count." (some (pos 0)) none none)
        ∷ ("timeout", integer_input "Timeout in milliseconds." (some (pos 1)) none none)
        ∷ ("annotations", string_map_input "Task annotations for audit and provenance.")
        ∷ []))
      ("id" ∷ "type" ∷ []) true nothing

unfoldable pub task_array_input_schema : Schema
task_array_input_schema =
    simple (record no_keywords { type = "array"; description = "ExecGo Task DSL tasks." })
      (every_item task_input_schema)

unfoldable pub task_graph_submit_input_schema : Schema
task_graph_submit_input_schema =
    object_input_schema
      (properties_of (
        ("tasks", task_array_input_schema)
        ∷ (
          "task_graph",
          object_input_schema (properties_of (("tasks", task_array_input_schema) ∷ []))
              ("tasks" ∷ []) false nothing,
        )
        ∷ []))
      [] false (with_one_of (schemas_of (requires "tasks" ∷ requires "task_graph" ∷ [])))
