-- ===== src/Chat/LlmManager.antt =====
-- crates/xiaozhi-chat/src/llm_manager.rs, with completion.rs and the messages of crates/xiaozhi-llm and
-- the hint of mcp_tools.rs: how a chat turn asks the model, runs its tools and speaks its answer. What
-- the model, the tools and the other tasks do is an argument, by the round of the loop.
pub mod Stream
pub mod Request
pub mod Joined
pub mod Paired
pub mod Asked
pub mod Aborted
pub mod Talking
pub mod Replying
mod Tests
use xiaozhi_esp32_server_rus.Common.{
  ℕ, ◌+◌, Bool, true, false, not, ◌&&◌, ◌||◌, Option, none, some, List, [], ◌∷◌, ◌++◌, map, any,
  ltb, length, if◌then◌else◌,
}
use xiaozhi_esp32_server_rus.Common.Text.{Text, codes, is_empty, trim, contains}
use xiaozhi_esp32_server_rus.Common.Json.{
  Json, string, array, object, JsonItems, none_left, item, end, field,
}
use xiaozhi_esp32_server_rus.Llm.Common.{MessageRole, ChatMessage}
use xiaozhi_esp32_server_rus.Llm.Common

pub record ToolCall : Type 0 where
  pub id : Text
  pub name : Text
  pub arguments : Json

pub record LlmCompletion : Type 0 where
  pub content : Text
  pub tool_calls : List ToolCall

-- Without the schema of its arguments.
pub record ToolInfo : Type 0 where
  pub name : Text
  pub description : Text

pub record McpToolLlmOutcome : Type 0 where
  pub text : Text
  pub stop_llm : Bool

abbrev plain : MessageRole → Text → ChatMessage
plain role content = record {
  role = role;
  content = content;
  name = none;
  tool_call_id = none;
  extra = [];
}

unfoldable pub system : Text → ChatMessage
system content = plain MessageRole.system content

unfoldable pub assistant : Text → ChatMessage
assistant content = plain MessageRole.assistant content

unfoldable pub tool : Text → Text → ChatMessage
tool content id = record (plain MessageRole.tool content) { tool_call_id = some id }

abbrev pub has_tool_calls : List ToolCall → Bool
has_tool_calls [] = false
has_tool_calls (c ∷ cs) = true

-- `print` is the text of a JSON value.
abbrev call_value : (Json → Text) → ToolCall → Json
call_value print c = object (
    field (codes "id") (string c.id) (
      field (codes "type") (string (codes "function")) (
        field (codes "function")
          (object (
            field (codes "name") (string c.name)
              (field (codes "arguments") (string (print c.arguments)) end)))
          end)))

abbrev call_values : (Json → Text) → List ToolCall → JsonItems
call_values print [] = none_left
call_values print (c ∷ cs) = item (call_value print c) (call_values print cs)

unfoldable pub to_assistant_message : (Json → Text) → LlmCompletion → ChatMessage
to_assistant_message print c =
    if has_tool_calls c.tool_calls
    then record (assistant c.content) {
      extra = (codes "tool_calls", array (call_values print c.tool_calls)) ∷ [];
    }
    else assistant c.content

abbrev food_delivery_keywords : List Text
food_delivery_keywords =
    codes "外卖"
    ∷ codes "点餐"
    ∷ codes "订餐"
    ∷ codes "吃什么"
    ∷ codes "点个"
    ∷ codes "叫外卖"
    ∷ codes "叫餐"
    ∷ codes "下单"
    ∷ codes "想吃"
    ∷ codes "午餐"
    ∷ codes "晚餐"
    ∷ codes "早餐"
    ∷ codes "夜宵"
    ∷ codes "附近吃"
    ∷ codes "推荐吃"
    ∷ codes "点一份"
    ∷ codes "帮我点"
    ∷ []

abbrev food_tool_hints : List Text
food_tool_hints =
    codes "外卖"
    ∷ codes "点餐"
    ∷ codes "订餐"
    ∷ codes "餐厅"
    ∷ codes "菜单"
    ∷ codes "菜品"
    ∷ codes "waimai"
    ∷ codes "delivery"
    ∷ codes "restaurant"
    ∷ codes "food"
    ∷ codes "order"
    ∷ codes "meal"
    ∷ codes "dish"
    ∷ []

unfoldable pub tool_matches_food_delivery : (Text → Text) → ToolInfo → Bool
tool_matches_food_delivery lower t =
    any (λ hint. contains (lower hint) (lower (t.name ++ codes " " ++ t.description)))
      food_tool_hints

abbrev pub no_tools : List ToolInfo → Bool
no_tools [] = true
no_tools (t ∷ ts) = false

unfoldable pub user_text_prefers_food_delivery_tools : (Text → Text) → Text → List ToolInfo → Bool
user_text_prefers_food_delivery_tools lower user_text tools =
    let text = trim user_text in
    if is_empty text || no_tools tools
    then false
    else if not (any (λ kw. contains kw text) food_delivery_keywords)
    then false
    else any (tool_matches_food_delivery lower) tools || ltb 4 (length tools)

abbrev pub food_delivery_tool_retry_hint : Text
food_delivery_tool_retry_hint = codes "请调用可用的外卖/点餐相关工具查询真实数据后再回答用户，不要仅凭常识编造商家、菜品或价格。"

unfoldable pub build_mcp_system_hint : (Text → Text) → List ToolInfo → Option Text
build_mcp_system_hint lower tools =
    if no_tools tools
    then none
    else some (
        codes "你可以通过 function calling 调用已注册的工具完成查询与操作。涉及实时数据、外部服务或设备能力时，应优先调用工具，不要凭空编造。"
        ++ (if any (tool_matches_food_delivery lower) tools
            then codes " 当用户询问外卖、点餐、吃什么、订餐、附近餐厅等需求时，必须先调用外卖/点餐相关工具获取真实信息后再回复。"
            else []))

abbrev pub fallback : Text
fallback = codes "抱歉，我刚刚没想好怎么说，请再说一遍。"

-- What a turn does to the rest, in the order of the calls.
pub data Effect : Type 0 where
  clear_session_abort : Effect
  complete_with_context : List ChatMessage → Effect
  response_with_context : List ChatMessage → Effect
  execute_mcp_tool_for_llm : ToolCall → Effect
  enqueue_tts_start finish_tts_turn : Effect
  handle_text_response : Text → Bool → Effect
  persist_assistant_reply : Text → Effect
