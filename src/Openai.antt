-- ===== src/Openai.antt =====
-- internal/openai/types.go: the OpenAI-compatible requests and responses. The floating-point numbers
-- are a parameter `F`; an int64 is an integer, in range where the program relies on it.
pub mod Content
use claude_oauth_proxy.Base.{ℕ, ℤ, pos, String, Bool, Option, none, List}

pub record FunctionCall : Type 0 where
  pub name : String
  pub arguments : String

pub record ToolCall : Type 0 where
  pub index : Option ℤ
  pub id : String
  pub kind : String
  pub function : FunctionCall

-- `MessageContent` is its one field, the text.
pub record ChatCompletionMessage : Type 0 where
  pub role : String
  pub content : String
  pub name : String
  pub tool_calls : List ToolCall
  pub tool_call_id : String

-- `parameters` is the raw JSON text, empty where there is none.
pub record ToolFunction : Type 0 where
  pub name : String
  pub description : String
  pub parameters : String

pub record Tool : Type 0 where
  pub kind : String
  pub function : ToolFunction

pub record ChatCompletionRequest (F : Type 0) : Type 0 where
  pub model : String
  pub messages : List ChatCompletionMessage
  pub max_tokens : ℤ
  pub temperature : Option F
  pub top_p : Option F
  pub stop : List String
  pub stream : Bool
  pub user : String
  pub tools : List Tool
  pub reasoning_effort : String

pub record ModelInfo : Type 0 where
  pub id : String
  pub object : String
  pub created : ℤ
  pub owned_by : String
  pub name : String

pub record ModelsResponse : Type 0 where
  pub object : String
  pub models : List ModelInfo

pub record CostDetails (F : Type 0) : Type 0 where
  pub input_cost : F
  pub output_cost : F
  pub cache_write_cost : F
  pub cache_read_cost : F
  pub total_cost : F
  pub currency : String
  pub model : String
  pub input_price_per_1m : F
  pub output_price_per_1m : F

-- The two details are records of one number.
pub record Usage (F : Type 0) : Type 0 where
  pub prompt_tokens : ℤ
  pub completion_tokens : ℤ
  pub total_tokens : ℤ
  pub cached_tokens : Option ℤ
  pub reasoning_tokens : Option ℤ
  pub cache_creation_input_tokens : ℤ
  pub cache_read_input_tokens : ℤ
  pub cost : Option (CostDetails F)

abbrev pub usage_zero : {F : Type 0} → Usage F
usage_zero = record {
  prompt_tokens = pos 0;
  completion_tokens = pos 0;
  total_tokens = pos 0;
  cached_tokens = none;
  reasoning_tokens = none;
  cache_creation_input_tokens = pos 0;
  cache_read_input_tokens = pos 0;
  cost = none;
}

pub record ChatCompletionChoice : Type 0 where
  pub index : ℕ
  pub message : ChatCompletionMessage
  pub finish_reason : String

pub record ChatCompletionResponse (F : Type 0) : Type 0 where
  pub id : String
  pub object : String
  pub created : ℤ
  pub model : String
  pub choices : List ChatCompletionChoice
  pub usage : Usage F

pub record ChatCompletionDelta : Type 0 where
  pub role : String
  pub content : String
  pub tool_calls : List ToolCall

pub record ChatCompletionChunkChoice : Type 0 where
  pub index : ℕ
  pub delta : ChatCompletionDelta
  pub finish_reason : Option String

pub record ChatCompletionChunk (F : Type 0) : Type 0 where
  pub id : String
  pub object : String
  pub created : ℤ
  pub model : String
  pub choices : List ChatCompletionChunkChoice
  pub usage : Option (Usage F)

pub record ErrorPayload : Type 0 where
  pub message : String
  pub kind : String
  pub code : String
