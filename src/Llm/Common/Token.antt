-- ===== src/Llm/Common/Token.antt =====
-- Where `normalize_api_token` of llm_common.rs cuts a token inside a character.
use xiaozhi_esp32_server_rus.Common.{
  ℕ, zero, suc, ◌+◌, ◌-◌, ◌≤◌, ◌<◌, ◌≡◌, refl, inl, inr, true, [], ◌∷◌, ◌++◌, none, arith, leb,
  Bool-cases,
}
use xiaozhi_esp32_server_rus.Common.Text.{Text, trim, utf8_len, len_utf8}
use xiaozhi_esp32_server_rus.Llm.Common.{split_at_byte, normalize_api_token}

utf8_len_within :
    (front : Text) (c : ℕ) (back : Text)
    → utf8_len front + len_utf8 c ≤ utf8_len (front ++ (c ∷ back))
unfolding utf8_len
utf8_len_within [] c back = omega arith
utf8_len_within (d ∷ front) c back = omega (arith, utf8_len_within front c back)

split_at_byte-none :
    (n : ℕ) (front : Text) (c : ℕ) (back : Text)
    → utf8_len front < n
    → n < utf8_len front + len_utf8 c
    → split_at_byte n (front ++ (c ∷ back)) ≡ none
unfolding split_at_byte utf8_len
split_at_byte-none zero front c back lo hi = absurd (omega arith)
split_at_byte-none (suc n) [] c back lo hi = elim (Bool-cases (leb (len_utf8 c) (suc n))) [
  | inl e ↦ absurd (ground arith)
  | inr e ↦ rw e refl
]
split_at_byte-none (suc n) (d ∷ front) c back lo hi = elim (Bool-cases (leb (len_utf8 d) (suc n))) [
  | inl e ↦ rw (e, split_at_byte-none (suc n - len_utf8 d) front c back (below e) (above e)) refl
  | inr e ↦ rw e refl
]
  where
    below : leb (len_utf8 d) (suc n) ≡ true → utf8_len front < suc n - len_utf8 d
    below e = omega arith

    above : leb (len_utf8 d) (suc n) ≡ true → suc n - len_utf8 d < utf8_len front + len_utf8 c
    above e = omega arith

-- A token in which a character of several bytes lies across the seventh byte, once blanks at its ends
-- are taken off, makes the function panic.
normalize-straddled :
    (token front back : Text) (c : ℕ)
    → trim token ≡ front ++ (c ∷ back)
    → utf8_len front < 7
    → 7 < utf8_len front + len_utf8 c
    → normalize_api_token token ≡ none
unfolding normalize_api_token
normalize-straddled token front back c e lo hi =
    rw (e, long, split_at_byte-none 7 front c back lo hi) refl
  where
    long : leb 7 (utf8_len (front ++ (c ∷ back))) ≡ true
    long = ground (arith, utf8_len_within front c back)
