-- ===== src/Llm/Common/Tests.antt =====
-- The functions of llm_common.rs at small inputs.
use xiaozhi_esp32_server_rus.Common.{
  ◌≡◌, ◌<◌, refl, arith, true, false, [], ◌∷◌, ◌++◌, none, some, all, ◌+◌,
}
use xiaozhi_esp32_server_rus.Common.Text.{
  Text, codes, text_eq, trim, is_empty, trim_start_by, trim_end_by, is_whitespace,
  is_ascii_alphanumeric, utf8_len,
}
use xiaozhi_esp32_server_rus.Common.Assoc.{lookup, insert}
use xiaozhi_esp32_server_rus.Llm.Common.{
  MessageRole, ChatMessage, Digest, build_stable_user_id, sanitize_user_id_part, replace_others,
  normalize_api_token, split_at_byte, eq_ignore_ascii_case, get_conversation_id,
  set_conversation_id,
}

zero_digits : all is_ascii_alphanumeric (codes "0000000000000000") ≡ true
unfolding is_ascii_alphanumeric
zero_digits = refl

abbrev zeros : Digest
zeros = record {
  digest = λ s. codes "0000000000000000";
  sixteen = λ s. refl;
  digits = λ s. zero_digits;
}

same_session : build_stable_user_id zeros (codes "xiaozhi") (codes "s.1!") ≡ codes "xiaozhi_s.1"
unfolding build_stable_user_id sanitize_user_id_part replace_others trim_start_by trim_end_by
    is_whitespace is_ascii_alphanumeric utf8_len
same_session = refl

bearer : normalize_api_token (codes "Bearer abc") ≡ some (codes "abc")
unfolding normalize_api_token split_at_byte eq_ignore_ascii_case trim_start_by trim_end_by
    is_whitespace utf8_len
bearer = refl

remembered :
    get_conversation_id (set_conversation_id [] (codes "s") (codes "c")) (codes "s") ≡ codes "c"
unfolding get_conversation_id set_conversation_id lookup insert text_eq trim_start_by trim_end_by
    is_whitespace
remembered = refl

no_blanks : trim (codes "密钥值") ≡ codes "密钥" ++ (0x503c ∷ [])
unfolding trim_start_by trim_end_by is_whitespace
no_blanks = refl

six_bytes : utf8_len (codes "密钥") < 7
unfolding utf8_len
six_bytes = omega arith

nine_bytes : 7 < utf8_len (codes "密钥") + 3
unfolding utf8_len
nine_bytes = omega arith

abbrev said : MessageRole → Text → ChatMessage
said role content = record {
  role = role;
  content = content;
  name = none;
  tool_call_id = none;
  extra = [];
}

hi_said : is_empty (trim (codes " hi ")) ≡ false
unfolding trim_start_by trim_end_by is_whitespace
hi_said = refl
