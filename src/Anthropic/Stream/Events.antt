-- ===== src/Anthropic/Stream/Events.antt =====
-- The SDK's stream events, with the fields that internal/provider/anthropic/service.go reads.
use claude_oauth_proxy.Base.{ℤ, String}

pub data Delta : Type 0 where
  text_delta : String → Delta
  thinking_delta : String → Delta
  input_json_delta : String → Delta
  other_delta : Delta

-- Token counts: input, output, cache creation and cache read.
pub data Event : Type 0 where
  content_block_start : (kind id name : String) → Event
  content_block_delta : Delta → Event
  message_start : (input output creation cached : ℤ) → Event
  message_delta : (output creation cached : ℤ) → Event
  message_stop : Event
  other_event : Event
