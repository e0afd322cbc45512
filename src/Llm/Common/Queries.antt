-- ===== src/Llm/Common/Queries.antt =====
-- Which message `build_provider_query` of llm_common.rs takes.
use xiaozhi_esp32_server_rus.Common.{
  ◌≡◌, refl, sym, ap, ◌∙◌, Bool, true, false, not, ◌&&◌, List, [], ◌∷◌, ◌++◌, append-nil,
  append_assoc, some, arith, all, all-append,
}
use xiaozhi_esp32_server_rus.Common.Text.{trim, is_empty}
use xiaozhi_esp32_server_rus.Llm.Common.{
  ChatMessage, is_user, find_text, reversed, build_provider_query,
}

-- A message that cannot be a query: not the user's, or blank.
abbrev is_no_query : ChatMessage → Bool
is_no_query m = not (is_user m.role && not (is_empty (trim m.content)))

reversed-append :
    (before after : List ChatMessage)
    → reversed (before ++ after) ≡ reversed after ++ reversed before
reversed-append [] after = sym (append-nil (reversed after))
reversed-append (m ∷ before) after =
    ap (λ ms. ms ++ (m ∷ [])) (reversed-append before after)
    ∙ append_assoc (reversed after) (reversed before) (m ∷ [])

all-reversed :
    (p : ChatMessage → Bool) (ms : List ChatMessage) → all p ms ≡ true → all p (reversed ms) ≡ true
all-reversed p [] h = refl
all-reversed p (m ∷ ms) h = ground (arith, all-append p (reversed ms) (m ∷ []), all-reversed p ms)

find_text-skip :
    (ms rest : List ChatMessage)
    → all is_no_query ms ≡ true
    → find_text (λ m. is_user m.role) (ms ++ rest) ≡ find_text (λ m. is_user m.role) rest
unfolding find_text
find_text-skip [] rest h = refl
find_text-skip (m ∷ ms) rest h = ground (arith, find_text-skip ms rest)

reversed_around :
    (before after : List ChatMessage) (m : ChatMessage)
    → reversed (before ++ (m ∷ after)) ≡ reversed after ++ (m ∷ reversed before)
reversed_around before after m =
    reversed-append before (m ∷ after) ∙ append_assoc (reversed after) (m ∷ []) (reversed before)

found_here :
    (m : ChatMessage) (rest : List ChatMessage)
    → is_user m.role ≡ true
    → is_empty (trim m.content) ≡ false
    → find_text (λ n. is_user n.role) (m ∷ rest) ≡ some (trim m.content)
unfolding find_text
found_here m rest u h = rw (u, h) refl

-- The query is the last message of the user's that is not blank, without the blanks at its ends.
build_provider_query_lem :
    (before after : List ChatMessage) (m : ChatMessage)
    → is_user m.role ≡ true
    → is_empty (trim m.content) ≡ false
    → all is_no_query after ≡ true
    → build_provider_query (before ++ (m ∷ after)) ≡ trim m.content
unfolding build_provider_query
build_provider_query_lem before after m u h none_later =
    rw
      (
        reversed_around before after m,
        find_text-skip (reversed after) (m ∷ reversed before)
            (all-reversed is_no_query after none_later),
        found_here m (reversed before) u h,
      )
      refl
