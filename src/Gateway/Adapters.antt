-- ===== src/Gateway/Adapters.antt =====
-- pkg/gateway/anthropic_adapter.go and openai_adapter.go: the window as a provider's payload.
use veraxis_memory_admissibi.Prelude.{
  ◌≡◌, Bool, true, ◌||◌, not, List, [], ◌∷◌, ◌++◌, map, if◌then◌else◌,
}
use veraxis_memory_admissibi.Prelude.Bytes.{GoString, text, bytes_eq}
use veraxis_memory_admissibi.Prelude.Result.{Result, ok, err}
use veraxis_memory_admissibi.Gateway.{LlmMessage}

pub record AnthropicMessage : Type 0 where
  pub role : GoString
  pub content : GoString

pub record AnthropicRequestPayload : Type 0 where
  pub model : GoString
  pub system : GoString
  pub messages : List AnthropicMessage

pub record OpenAiMessage : Type 0 where
  pub role : GoString
  pub content : GoString

pub record OpenAiRequestPayload : Type 0 where
  pub model : GoString
  pub messages : List OpenAiMessage

pub data AdapterError : Type 0 where
  unsupported_role : AdapterError

-- `msg.Role == "system"`, and the roles that the provider takes.
abbrev pub is_system : LlmMessage → Bool
is_system m = bytes_eq m.role (text "system")

abbrev pub is_turn : LlmMessage → Bool
is_turn m = bytes_eq m.role (text "user") || bytes_eq m.role (text "assistant")

abbrev pub to_anthropic : LlmMessage → AnthropicMessage
to_anthropic m = record { role = m.role; content = m.content }

abbrev pub to_open_ai : LlmMessage → OpenAiMessage
to_open_ai m = record { role = m.role; content = m.content }

-- The system prompt behind one more system message.
abbrev pub add_system : GoString → GoString → GoString
add_system prompt content =
    if not (bytes_eq prompt []) then prompt ++ ((10 ∷ []) ++ content) else content

-- The loop of `Convert`, from the prompt and the messages that it has so far.
unfoldable pub anthropic_loop :
    GoString
    → List AnthropicMessage
    → List LlmMessage
    → Result AdapterError (GoString × List AnthropicMessage)
anthropic_loop prompt done [] = ok (prompt, done)
anthropic_loop prompt done (m ∷ rest) =
    let with_system = anthropic_loop (add_system prompt m.content) done rest in
    let with_turn = anthropic_loop prompt (done ++ to_anthropic m ∷ []) rest in
    if is_system m then with_system else if not (is_turn m) then err unsupported_role else with_turn

unfoldable pub anthropic_payload :
    GoString
    → Result AdapterError (GoString × List AnthropicMessage)
    → Result AdapterError AnthropicRequestPayload
anthropic_payload model (err e) = err e
anthropic_payload model (ok (prompt, done)) =
    ok (record { model = model; system = prompt; messages = done })

unfoldable pub anthropic_convert :
    GoString → List LlmMessage → Result AdapterError AnthropicRequestPayload
unfolding anthropic_loop anthropic_payload
anthropic_convert model messages = anthropic_payload model (anthropic_loop [] [] messages)

unfoldable pub open_ai_convert : GoString → List LlmMessage → OpenAiRequestPayload
open_ai_convert model messages = record { model = model; messages = map to_open_ai messages }

-- The messages that are not a system prompt.
abbrev pub turns : List LlmMessage → List LlmMessage
turns [] = []
turns (m ∷ rest) = let later = turns rest in if is_system m then later else m ∷ later

abbrev pub IsSupported : LlmMessage → Type 0
IsSupported m = (is_system m || is_turn m) ≡ true
