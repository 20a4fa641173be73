-- ===== src/ToolRegistry/Stubs.antt =====
-- core/agent/tools.py: what is executed where no tool was given an implementation.
use trustmem.Prelude.{
  String, true, none, some, List, [], ◌∷◌, ◌≡◌, refl, lookup, lookup-insert, All, str_eq, arith,
  Option-cases, Bool-cases, inl, inr, ap,
}
use trustmem.Result.{Result, Result-cases, ok}
use trustmem.ToolRegistry.{
  Template, ToolResult, Kwargs, ToolDefinition, stub, stub_templates, stub_of, ToolRegistry,
  register, Builtin, definition_of, register_builtin, get, execute, call_tool,
}

unfoldable pub register_all : ToolRegistry → List Builtin → ToolRegistry
register_all tools [] = tools
register_all tools (b ∷ bs) = register_all (register_builtin tools b) bs

-- Every tool is the stub of its name, or has no implementation.
abbrev AreStubs : ToolRegistry → Type 0
AreStubs tools =
    (name : String) (tool : ToolDefinition)
    → lookup name tools ≡ some tool
    → tool.func ≡ stub_of tool.name

definition_of-func : (b : Builtin) → b.func ≡ none → (definition_of b).func ≡ stub_of b.name
unfolding definition_of
definition_of-func b h = ground (arith, h)

definition_of-name : (b : Builtin) → (definition_of b).name ≡ b.name
unfolding definition_of
definition_of-name b = refl

register_builtin-AreStubs :
    (tools : ToolRegistry) (b : Builtin)
    → b.func ≡ none
    → AreStubs tools
    → AreStubs (register_builtin tools b)
unfolding register_builtin register
register_builtin-AreStubs tools b h s name tool found =
    let after = lookup-insert (definition_of b).name name (definition_of b) tools in
    elim (Bool-cases (str_eq (definition_of b).name name)) [
      | inl same ↦
          let is_new : tool ≡ definition_of b = ground (arith, found, after, same) in
          rw is_new (cc (definition_of-func b h, definition_of-name b))
      | inr other ↦ s name tool (ground (arith, found, after, other))
    ]

register_all-AreStubs :
    (tools : ToolRegistry) (bs : List Builtin)
    → All (λ b. b.func ≡ none) bs
    → AreStubs tools
    → AreStubs (register_all tools bs)
unfolding register_all
register_all-AreStubs tools [] h s = s
register_all-AreStubs tools (b ∷ bs) h s =
    register_all-AreStubs (register_builtin tools b) bs h.1
      (register_builtin-AreStubs tools b h.0 s)

stub-is_stub :
    (name : String) (template : Template) (kwargs : Kwargs) (r : ToolResult)
    → stub name template kwargs ≡ ok r
    → r.is_stub ≡ true
unfolding stub
stub-is_stub name template kwargs r h = ground (arith, h)

none-AreStubs : AreStubs []
unfolding lookup
none-AreStubs name tool found = absurd (cc found)

stub_of-is_stub :
    (name : String) (f : Kwargs → Result ToolResult) (kwargs : Kwargs) (r : ToolResult)
    → stub_of name ≡ some f
    → f kwargs ≡ ok r
    → r.is_stub ≡ true
unfolding stub_of
stub_of-is_stub name f kwargs r h k = elim (Option-cases (lookup name stub_templates)) [
  | inl e ↦ absurd (ground (arith, h, e))
  | inr (template, e) ↦
      let same : f ≡ stub name template = ground (arith, h, e) in
      stub-is_stub name template kwargs r (cc (k, ap (λ g. g kwargs) same))
]

call_tool-is_stub :
    (name : String) (tool : ToolDefinition) (kwargs : Kwargs)
    → tool.func ≡ stub_of tool.name
    → (call_tool name tool.func kwargs).success ≡ true
    → (call_tool name tool.func kwargs).is_stub ≡ true
call_tool-is_stub name tool kwargs h won = elim (Option-cases tool.func) [
  | inl e ↦ absurd (ground (arith, won, e))
  | inr (f, e) ↦ elim (Result-cases (f kwargs)) [
    | inl (err, raised) ↦ absurd (ground (arith, won, e, raised))
    | inr (r, given) ↦ rw (e, given) (stub_of-is_stub tool.name f kwargs r (cc (h, e)) given)
  ]
]

-- Where no tool was given an implementation: a tool that reports a success, whatever was registered
-- under whatever name, marks its result as that of a stub.
pub execute-is_stub :
    (bs : List Builtin) (tool_name : String) (kwargs : Kwargs)
    → All (λ b. b.func ≡ none) bs
    → (execute (register_all [] bs) tool_name kwargs).success ≡ true
    → (execute (register_all [] bs) tool_name kwargs).is_stub ≡ true
unfolding execute get
execute-is_stub bs tool_name kwargs h won =
    elim (Option-cases (lookup tool_name (register_all [] bs))) [
      | inl e ↦ absurd (ground (arith, won, e))
      | inr (tool, e) ↦
          let stubs = register_all-AreStubs [] bs h none-AreStubs tool_name tool e in
          rw (execute, e) (call_tool-is_stub tool_name tool kwargs stubs (ground (arith, won, e)))
    ]
