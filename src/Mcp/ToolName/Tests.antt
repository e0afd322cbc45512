-- ===== src/Mcp/ToolName/Tests.antt =====
-- Names of tools at the inputs of the tests of tool_name.rs.
use xiaozhi_esp32_server_rus.Common.{ℕ, ◌≡◌, ◌⊎◌, refl, List, [], ◌∷◌, map, none, some}
use xiaozhi_esp32_server_rus.Common.Text.{
  Text, codes, text_eq, trim_start_by, trim_end_by, is_whitespace, is_ascii_alphanumeric, utf8_len,
}
use xiaozhi_esp32_server_rus.Common.Assoc.{Assoc, lookup, insert}
use xiaozhi_esp32_server_rus.Common.Json.{null}
use xiaozhi_esp32_server_rus.Mcp.ToolName.{
  McpTool, decimal, decimal_from, hex_digits, replace_chars, has_alnum, short_stable_hash,
  truncate_llm_tool_name, sanitize_llm_tool_name, unique_llm_tool_name, prepare_tools_for_llm,
  resolve_tool_invoke_name, cut_base, choose_name, search_name, candidate_at,
}
use xiaozhi_esp32_server_rus.Mcp.ToolName.Unique.{unique-total}
use xiaozhi_esp32_server_rus.Mcp.ToolName.Aliases.{origins, prepare_tools_resolves}

abbrev hash : Text → ℕ
hash s = 11259375

dotted : sanitize_llm_tool_name hash (codes "self.get_status") ≡ codes "self_get_status"
unfolding sanitize_llm_tool_name truncate_llm_tool_name replace_chars has_alnum trim_start_by
    trim_end_by is_whitespace is_ascii_alphanumeric utf8_len
dotted = refl

no_letters : sanitize_llm_tool_name hash (codes "工具") ≡ codes "tool_00abcdef"
unfolding sanitize_llm_tool_name truncate_llm_tool_name replace_chars has_alnum short_stable_hash
    hex_digits trim_start_by trim_end_by is_whitespace is_ascii_alphanumeric utf8_len
no_letters = refl

printed : decimal 120 ≡ codes "120"
unfolding decimal decimal_from
printed = refl

second_choice :
    unique_llm_tool_name hash (codes "a") (codes "a.") ((codes "a", codes "a") ∷ [])
    ≡ some (codes "a_00abcdef", (codes "a", codes "a") ∷ (codes "a_00abcdef", codes "a.") ∷ [])
unfolding unique_llm_tool_name choose_name search_name candidate_at cut_base short_stable_hash
    hex_digits lookup insert text_eq trim_start_by trim_end_by
second_choice = refl

unique-total_example :
    (name : Text) × (unique_llm_tool_name hash
        (codes "a")
        (codes "a.")
        ((codes "a", codes "a") ∷ [])
      ≡ some (name, insert name (codes "a.") ((codes "a", codes "a") ∷ [])))
    × ((lookup name ((codes "a", codes "a") ∷ []) ≡ none)
        ⊎ (lookup name ((codes "a", codes "a") ∷ []) ≡ some (codes "a.")))
unique-total_example = unique-total hash (codes "a") (codes "a.") ((codes "a", codes "a") ∷ [])

abbrev tool : Text → McpTool
tool name = record { name = name; description = []; input_schema = null }

abbrev tools : List McpTool
tools = tool (codes "a") ∷ tool (codes " ") ∷ tool (codes "a.") ∷ []

prepare_tools_resolves_example :
    (out : List McpTool) × (aliases : Assoc Text) × (prepare_tools_for_llm hash tools
      ≡ some (out, aliases))
    × (map (λ t. resolve_tool_invoke_name aliases t.name) out ≡ origins tools)
prepare_tools_resolves_example = prepare_tools_resolves hash tools
