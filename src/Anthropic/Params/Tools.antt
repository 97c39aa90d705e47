-- ===== src/Anthropic/Params/Tools.antt =====
-- internal/provider/anthropic/service.go: the loop of `messageParams` over the tools.
use Prim.Native.Nat.{◌-◌}
use claude_oauth_proxy.Base.{
  ℕ, suc, String, not, ◌||◌, Option, none, some, List, [], ◌∷◌, ◌==◌, if◌then◌else◌, nat_eq,
  is_empty,
}
use claude_oauth_proxy.Openai.{Tool}
use claude_oauth_proxy.Anthropic.Types.{ToolParam}

module _ {S : Type 0} (parse_schema : String → Option S) where
  -- A schema that cannot be read is left out.
  abbrev pub tool_param : ℕ → ℕ → Tool → ToolParam S
  tool_param total idx tool = record {
    name = tool.function.name;
    description =
        if is_empty tool.function.description then none else some tool.function.description;
    input_schema =
        if is_empty tool.function.parameters then none else parse_schema tool.function.parameters;
    cached = nat_eq idx (total - 1);
  }

  -- The tools from the index `idx` on; `total` is the length of the whole list.
  unfoldable pub convert_tools : ℕ → ℕ → List Tool → List (ToolParam S)
  convert_tools total idx [] = []
  convert_tools total idx (tool ∷ tools) =
      let rest = convert_tools total (suc idx) tools in
      if not (tool.kind == "function") || is_empty tool.function.name
      then rest
      else tool_param total idx tool ∷ rest
