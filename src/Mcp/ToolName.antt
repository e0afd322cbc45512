-- ===== src/Mcp/ToolName.antt =====
-- crates/xiaozhi-mcp/src/tool_name.rs: names of tools for language models. The state of
-- `DefaultHasher` after a text, whose algorithm std leaves open, is the parameter `hash`.
pub mod Valid
pub mod Unique
pub mod Aliases
mod Tests
use Prim.Native.Nat.{max}
use xiaozhi_esp32_server_rus.Common.{
  ℕ, zero, suc, ◌+◌, ◌-◌, ◌/◌, ◌%◌, Bool, true, false, not, ◌&&◌, ◌||◌, List, [], ◌∷◌, ◌++◌, Option,
  none, some, leb, ltb, ◌==◌, if◌then◌else◌, length, take,
}
use xiaozhi_esp32_server_rus.Common.Text.{
  Text, codes, text_eq, is_empty, trim, trim_by, trim_end_by, is_ascii_alphanumeric, utf8_len,
}
use xiaozhi_esp32_server_rus.Common.Assoc.{Assoc, lookup, insert}
use xiaozhi_esp32_server_rus.Common.Json.{Json}

pub record McpTool : Type 0 where
  pub name : Text
  pub description : Text
  pub input_schema : Json

abbrev llm_tool_name_max_len : ℕ
llm_tool_name_max_len = 64

abbrev pub is_llm_tool_name_alnum : ℕ → Bool
is_llm_tool_name_alnum c = is_ascii_alphanumeric c

abbrev pub is_llm_tool_name_punct : ℕ → Bool
is_llm_tool_name_punct c = (c == 95) || (c == 45)

-- `format!("{:08x}", n)` for a number of 32 bits, and `format!("{n}")`.
abbrev pub hex_digit : ℕ → ℕ
hex_digit d = if ltb d 10 then 48 + d else 87 + d

pub hex_digits : ℕ → ℕ → Text
hex_digits zero n = []
hex_digits (suc k) n = hex_digits k (n / 16) ++ (hex_digit (n % 16) ∷ [])

pub decimal_from : ℕ → ℕ → Text
decimal_from zero n = []
decimal_from (suc fuel) n =
    let front = decimal_from fuel (n / 10) in
    if ltb n 10 then (48 + n) ∷ [] else front ++ ((48 + n % 10) ∷ [])

-- A number has no more digits than its value and one.
pub decimal : ℕ → Text
unfolding decimal_from
decimal n = decimal_from (suc n) n

abbrev pub is_underscore : ℕ → Bool
is_underscore c = c == 95

abbrev pub is_dash : ℕ → Bool
is_dash c = c == 45

-- The loop over the characters; the flag is `last_was_replacement`.
pub replace_chars : Bool → Text → Text
replace_chars last [] = []
replace_chars last (c ∷ s) =
    let kept = c ∷ replace_chars false s in
    let skipped = replace_chars true s in
    if is_llm_tool_name_alnum c || is_llm_tool_name_punct c
    then kept
    else if not last
    then 95 ∷ skipped
    else skipped

pub has_alnum : Text → Bool
has_alnum [] = false
has_alnum (c ∷ s) = is_llm_tool_name_alnum c || has_alnum s

-- A base that is cut to `n` characters and ends in neither `_` nor `-`, or `tool` if nothing is left.
abbrev pub or_tool : Text → Text
or_tool [] = codes "tool"
or_tool (c ∷ s) = c ∷ s

pub cut_base : Text → ℕ → Text
cut_base name n = or_tool (trim_end_by is_llm_tool_name_punct (take n name))

abbrev pub trim_marks : Text → Text
trim_marks s = trim_by is_dash (trim_by is_underscore s)

abbrev pub with_name : Text → Assoc Text → Option Text → Option (Text × Assoc Text)
with_name original used none = none
with_name original used (some name) = some (name, insert name original used)

abbrev pub renamed : McpTool → Text → McpTool
renamed tool llm_name = record tool { name = llm_name }

abbrev pub with_alias : Text → Text → Assoc Text → Assoc Text
with_alias llm_name origin aliases =
    if not (text_eq llm_name origin) then insert llm_name origin aliases else aliases

abbrev pub in_front :
    McpTool → Option (List McpTool × Assoc Text) → Option (List McpTool × Assoc Text)
in_front tool none = none
in_front tool (some (out, aliases)) = some (tool ∷ out, aliases)

abbrev or_name : Text → Option Text → Text
or_name name none = name
or_name name (some origin) = origin

-- `resolve_tool_invoke_name` of crates/xiaozhi-chat/src/manager.rs: the tool that a name of the
-- model's stands for.
pub resolve_tool_invoke_name : Assoc Text → Text → Text
resolve_tool_invoke_name aliases name = or_name name (lookup name aliases)

module _ (hash : Text → ℕ) where
  pub short_stable_hash : Text → Text
  short_stable_hash value = hex_digits 8 (hash value % 4294967296)

  abbrev pub hash_suffix : Text → Text
  hash_suffix original = 95 ∷ short_stable_hash original

  abbrev pub hashed_name : Text → Text
  hashed_name original = codes "tool_" ++ short_stable_hash original

  pub truncate_llm_tool_name : Text → Text → Text
  unfolding cut_base
  truncate_llm_tool_name name original =
      let suffix = hash_suffix original in
      if leb (utf8_len name) llm_tool_name_max_len
      then name
      else cut_base name (max (llm_tool_name_max_len - length suffix) 1) ++ suffix

  pub sanitize_llm_tool_name : Text → Text
  unfolding replace_chars truncate_llm_tool_name
  sanitize_llm_tool_name name =
      let trimmed = trim name in
      let sanitized = trim_marks (replace_chars false trimmed) in
      if is_empty trimmed
      then []
      else truncate_llm_tool_name
          (if is_empty sanitized || not (has_alnum trimmed) then hashed_name trimmed else sanitized)
          trimmed

  -- `used.get(&candidate).is_none_or(|prev| prev == original)`
  abbrev pub is_free : Text → Text → Assoc Text → Bool
  is_free candidate original used = elim (lookup candidate used) [
    | none ↦ true
    | some prev ↦ text_eq prev original
  ]

  abbrev extra_suffix : ℕ → Text
  extra_suffix zero = []
  extra_suffix (suc i) = 95 ∷ decimal (suc i + 1)

  pub candidate_at : Text → Text → ℕ → Text
  unfolding cut_base
  candidate_at base original i =
      let suffix = hash_suffix original in
      let room = llm_tool_name_max_len - (length suffix + length (extra_suffix i)) in
      cut_base base (max room 1) ++ (suffix ++ extra_suffix i)

  -- The rounds of the loop from the `i`-th on; `none` is a lack of fuel.
  pub search_name : ℕ → Text → Text → Assoc Text → ℕ → Option Text
  search_name zero base original used i = none
  search_name (suc fuel) base original used i =
      let later = search_name fuel base original used (suc i) in
      if is_free (candidate_at base original i) original used
      then some (candidate_at base original i)
      else later

  abbrev pub first_candidate : Text → Text → Text
  first_candidate candidate original =
      if is_empty candidate then hashed_name original else candidate

  -- The name that is chosen; the caller's map takes it with the original.
  pub choose_name : Text → Text → Assoc Text → Option Text
  unfolding search_name
  choose_name candidate original used =
      if is_free (first_candidate candidate original) original used
      then some (first_candidate candidate original)
      else search_name (suc (suc (length used)))
          (or_tool (trim_marks (first_candidate candidate original))) original used 0

  pub unique_llm_tool_name : Text → Text → Assoc Text → Option (Text × Assoc Text)
  unfolding choose_name
  unique_llm_tool_name candidate original used =
      with_name original used (choose_name candidate original used)

  -- The loop over the tools, with `used` and `aliases` as they are before a tool.
  pub prepare_from : Assoc Text → Assoc Text → List McpTool → Option (List McpTool × Assoc Text)
  unfolding unique_llm_tool_name
  prepare_from used aliases [] = some ([], aliases)
  prepare_from used aliases (tool ∷ tools) =
      let origin = trim tool.name in
      let skipped = prepare_from used aliases tools in
      if is_empty origin
      then skipped
      else elim (unique_llm_tool_name (sanitize_llm_tool_name origin) origin used) [
        | none ↦ none
        | some (llm_name, now_used) ↦
            in_front (renamed tool llm_name)
              (prepare_from now_used (with_alias llm_name origin aliases) tools)
      ]

  pub prepare_tools_for_llm : List McpTool → Option (List McpTool × Assoc Text)
  unfolding prepare_from
  prepare_tools_for_llm tools = prepare_from [] [] tools
