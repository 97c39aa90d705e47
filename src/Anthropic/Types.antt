-- ===== src/Anthropic/Types.antt =====
-- internal/provider/anthropic/service.go: the fields of the SDK's requests that the program sets, and
-- the client's configuration.
use claude_oauth_proxy.Base.{ℤ, String, Bool, Option, List}

-- `cached` says whether an ephemeral cache breakpoint is set.
pub record TextBlock : Type 0 where
  pub text : String
  pub cached : Bool

-- The input of a tool use is the raw JSON; a tool result may have no text.
pub data ContentBlock : Type 0 where
  of_text : TextBlock → ContentBlock
  of_tool_use : (id name input : String) → ContentBlock
  of_tool_result : (tool_use_id : String) → Option String → ContentBlock

pub record MessageParam : Type 0 where
  pub role : String
  pub content : List ContentBlock

pub record ToolParam (S : Type 0) : Type 0 where
  pub name : String
  pub description : Option String
  pub input_schema : Option S
  pub cached : Bool

-- `thinking` is the token budget, where extended thinking is on.
pub record MessageNewParams (F S : Type 0) : Type 0 where
  pub model : String
  pub max_tokens : ℤ
  pub messages : List MessageParam
  pub temperature : Option F
  pub top_p : Option F
  pub stop_sequences : List String
  pub system : List TextBlock
  pub tools : List (ToolParam S)
  pub thinking : Option ℤ

-- Without the HTTP client and the clock.
pub record Config : Type 0 where
  pub base_url : String
  pub beta_header : String
  pub billing_header : String
  pub cc_version : String
  pub user_agent : String
  pub sdk_version : String
  pub runtime_version : String
  pub stainless_os : String
  pub stainless_arch : String
  pub request_timeout : ℤ
