-- ===== src/Mcp/ToolName/Aliases.antt =====
-- The list of tools and the aliases of `prepare_tools_for_llm` in tool_name.rs.
use xiaozhi_esp32_server_rus.Common.{
  ℕ, ◌≡◌, ◌⊎◌, refl, ap, inl, inr, not, List, [], ◌∷◌, map, none, some, arith, keep, Bool-cases,
}
use xiaozhi_esp32_server_rus.Common.Text.{Text, text_eq_iff, trim, is_empty}
use xiaozhi_esp32_server_rus.Common.Assoc.{Assoc, lookup, insert, lookup-insert}
use xiaozhi_esp32_server_rus.Mcp.ToolName.{
  McpTool, resolve_tool_invoke_name, sanitize_llm_tool_name, renamed, with_alias, prepare_from,
  prepare_tools_for_llm,
}
use xiaozhi_esp32_server_rus.Mcp.ToolName.Unique.{unique-total}

-- The names of the tools that are not blank, trimmed.
pub origins : List McpTool → List Text
origins tools = keep (λ o. not (is_empty o)) (map (λ t. trim t.name) tools)

record IsResolved (used aliases : Assoc Text) : Type 0 where
  bound : (n o : Text) → lookup n used ≡ some o → resolve_tool_invoke_name aliases n ≡ o
  unbound : (n : Text) → lookup n used ≡ none → lookup n aliases ≡ none

module _ (name origin : Text) (used aliases : Assoc Text) where
  step-IsResolved :
      (lookup name used ≡ none) ⊎ (lookup name used ≡ some origin)
      → IsResolved used aliases
      → IsResolved (insert name origin used) (with_alias name origin aliases)
  unfolding resolve_tool_invoke_name
  step-IsResolved free v = record {
    bound = λ n o h. ground (
      arith,
      free,
      lookup-insert name n origin used,
      lookup-insert name n origin aliases,
      text_eq_iff name n,
      text_eq_iff name origin,
      v.bound n o,
      v.unbound n,
    );
    unbound = λ n h. ground (
      arith,
      lookup-insert name n origin used,
      lookup-insert name n origin aliases,
      text_eq_iff name n,
      v.unbound n,
    );
  }

  inserted : lookup name (insert name origin used) ≡ some origin
  inserted = ground (arith, lookup-insert name name origin used, text_eq_iff name name)

  kept_bound :
      (n o : Text)
      → (lookup name used ≡ none) ⊎ (lookup name used ≡ some origin)
      → lookup n used ≡ some o
      → lookup n (insert name origin used) ≡ some o
  kept_bound n o free h =
      ground (arith, free, h, lookup-insert name n origin used, text_eq_iff name n)

module _ (hash : Text → ℕ) where
  prepare_from-resolves :
      (used aliases : Assoc Text) (tools : List McpTool)
      → IsResolved used aliases
      → (out : List McpTool) × (final : Assoc Text) × (prepare_from hash used aliases tools
          ≡ some (out, final))
        × (map (λ t. resolve_tool_invoke_name final t.name) out ≡ origins tools)
        × ((n o : Text) → lookup n used ≡ some o → resolve_tool_invoke_name final n ≡ o)
  unfolding prepare_from origins
  prepare_from-resolves used aliases [] v = ([], aliases, refl, refl, v.bound)
  prepare_from-resolves used aliases (tool ∷ tools) v =
      elim (Bool-cases (is_empty (trim tool.name))) [
        | inl e ↦ rw e (prepare_from-resolves used aliases tools v)
        | inr e ↦
            (let origin = trim tool.name in
              let (name, chosen, free) =
                unique-total hash (sanitize_llm_tool_name hash origin) origin used in
              let (out, final, done, same, keeps) =
                prepare_from-resolves (insert name origin used) (with_alias name origin aliases)
                  tools (step-IsResolved name origin used aliases free v) in
              rw (e, chosen, done)
                (
                  renamed tool name ∷ out,
                  final,
                  refl,
                  rw (keeps name origin (inserted name origin used aliases)) (ap (◌∷◌ origin) same),
                  λ n o h. keeps n o (kept_bound name origin used aliases n o free h),
                ))
      ]

  -- The list that the model is given has one tool for each tool with a name that is not blank, in
  -- their order, and each of its names is resolved to the trimmed name of that tool.
  pub prepare_tools_resolves :
      (tools : List McpTool)
      → (out : List McpTool) × (aliases : Assoc Text) × (prepare_tools_for_llm hash tools
          ≡ some (out, aliases))
        × (map (λ t. resolve_tool_invoke_name aliases t.name) out ≡ origins tools)
  unfolding prepare_tools_for_llm lookup
  prepare_tools_resolves tools =
      let (out, aliases, done, same, keeps) =
        prepare_from-resolves [] [] tools (record { bound = empty_map; unbound = λ n h. h }) in
      (out, aliases, done, same)
    where
      empty_map : (n o : Text) → lookup n [] ≡ some o → resolve_tool_invoke_name [] n ≡ o
      empty_map n o h = cc
