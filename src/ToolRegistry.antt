-- ===== src/ToolRegistry.antt =====
-- core/agent/tools.py: the registry of an agent's tools and the stubs that stand in for them. The
-- descriptions and the schemas of the parameters are texts; an argument is a text with its name. The
-- text of an exception is the exception.
pub mod Stubs
use Prim.Native.String.{◌++◌ as append}
use mathlib.Core.Option.{get_or}
use trustmem.Prelude.{
  ℕ, String, Bool, true, false, Option, none, some, List, [], ◌∷◌, ◌≡◌, refl, lookup, insert,
  lookup-insert, contains, length, map, str_eq, str_eq_iff, if◌then◌else◌, arith, Option-cases,
  Bool-cases, inl, inr, ◌⊎◌,
}
use trustmem.Result.{Error, key_error, type_error, Result, ok, raise}
use trustmem.Labels.{Trust, t0_untrusted, tool_required_trust}
use trustmem.Labels.Lattice.{trust_leb}

pub data ToolError : Type 0 where
  unknown_tool no_implementation : String → ToolError
  failed : Error → ToolError

pub record ToolResult : Type 0 where
  pub tool_name : String
  pub success : Bool
  pub output : String
  pub error : Option ToolError
  pub is_stub : Bool

abbrev pub Kwargs : Type 0
Kwargs = List (String × String)

pub record ToolDefinition : Type 0 where
  pub name : String
  pub description : String
  pub parameters : String
  pub required_trust : Trust
  pub requires_hitl : Bool
  pub func : Option (Kwargs → Result ToolResult)

-- An output of a stub: a fixed text, or one around the argument `query`.
pub data Template : Type 0 where
  plain : String → Template
  around_query : String → String → Template

abbrev formatted : Template → Kwargs → Result String
formatted (plain text) kwargs = ok text
formatted (around_query front back) kwargs = elim (lookup "query" kwargs) [
  | none ↦ raise key_error
  | some query ↦ ok (append front (append query back))
]

abbrev stub_result : String → Result String → Result ToolResult
stub_result name (raise e) = raise e
stub_result name (ok text) =
    ok (record { tool_name = name; success = true; output = text; error = none; is_stub = true })

-- `_register_stub`: the stub gives `args` to `format` itself, so an argument of that name is refused.
unfoldable pub stub : String → Template → Kwargs → Result ToolResult
unfolding lookup
stub name template kwargs = elim (lookup "args" kwargs) [
  | none ↦ stub_result name (formatted template kwargs)
  | some v ↦ raise type_error
]

abbrev pub stub_templates : List (String × Template)
stub_templates =
    ("web_search", around_query "[STUB] 搜索 '" "': 未接入真实情报源，无可用威胁情报。")
    ∷ ("intel_fetch", plain "[STUB] 情报源未接入真实数据，无可用 IOC 返回。")
    ∷ ("log_query", plain "[STUB] SIEM 日志源未接入真实数据，无日志事件返回。")
    ∷ ("asset_query", plain "[STUB] 资产台账未接入真实数据，无可用资产清单。")
    ∷ ("file_read", plain "[STUB] 文件读取未执行：无真实文件系统接入。")
    ∷ ("file_write", plain "[STUB] 文件写入未执行：无真实落盘，未产生任何文件。")
    ∷ ("exec_command", plain "[STUB] 命令未执行：无真实执行环境接入。")
    ∷ ("firewall_block", plain "[STUB] 防火墙封禁未执行：无真实网络设备接入，未阻断任何 IP。")
    ∷ ("host_isolate", plain "[STUB] 主机隔离未执行：无真实隔离能力，未隔离任何主机。")
    ∷ []

-- `_STUB_TOOLS.get(name)`
unfoldable pub stub_of : String → Option (Kwargs → Result ToolResult)
unfolding lookup
stub_of name = elim (lookup name stub_templates) [
  | none ↦ none
  | some template ↦ some (stub name template)
]

abbrev pub tool_require_hitl : List String
tool_require_hitl = "firewall_block" ∷ "host_isolate" ∷ "exec_command" ∷ "risk_level_publish" ∷ []

abbrev pub ToolRegistry : Type 0
ToolRegistry = List (String × ToolDefinition)

unfoldable pub register : ToolRegistry → ToolDefinition → ToolRegistry
unfolding insert
register tools tool = insert tool.name tool tools

-- The arguments of `register_builtin`.
pub record Builtin : Type 0 where
  pub name : String
  pub description : String
  pub parameters : String
  pub required_trust : Option Trust
  pub requires_hitl : Option Bool
  pub func : Option (Kwargs → Result ToolResult)

abbrev pub or_stub :
    Option (Kwargs → Result ToolResult) → String → Option (Kwargs → Result ToolResult)
or_stub none name = stub_of name
or_stub (some f) name = some f

unfoldable pub definition_of : Builtin → ToolDefinition
unfolding stub_of lookup contains
definition_of b = record {
  name = b.name;
  description = b.description;
  parameters = b.parameters;
  required_trust =
      get_or b.required_trust (get_or (lookup b.name tool_required_trust) t0_untrusted);
  requires_hitl = get_or b.requires_hitl (contains b.name tool_require_hitl);
  func = or_stub b.func b.name;
}

unfoldable pub register_builtin : ToolRegistry → Builtin → ToolRegistry
unfolding register definition_of
register_builtin tools b = register tools (definition_of b)

unfoldable pub get : ToolRegistry → String → Option ToolDefinition
unfolding lookup
get tools name = lookup name tools

unfoldable pub for_trust : ToolRegistry → Trust → List ToolDefinition
for_trust [] t = []
for_trust ((name, tool) ∷ tools) t =
    let rest = for_trust tools t in if trust_leb tool.required_trust t then tool ∷ rest else rest

abbrev refused : String → ToolError → ToolResult
refused name e = record {
  tool_name = name;
  success = false;
  output = "";
  error = some e;
  is_stub = false;
}

abbrev caught : String → Result ToolResult → ToolResult
caught name (raise e) = refused name (failed e)
caught name (ok r) = r

abbrev pub call_tool : String → Option (Kwargs → Result ToolResult) → Kwargs → ToolResult
call_tool name none kwargs = refused name (no_implementation name)
call_tool name (some f) kwargs = caught name (f kwargs)

unfoldable pub execute : ToolRegistry → String → Kwargs → ToolResult
unfolding get
execute tools tool_name kwargs = elim (get tools tool_name) [
  | none ↦ refused tool_name (unknown_tool tool_name)
  | some tool ↦ call_tool tool_name tool.func kwargs
]
