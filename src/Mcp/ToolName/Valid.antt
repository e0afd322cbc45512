-- ===== src/Mcp/ToolName/Valid.antt =====
-- Which names `sanitize_llm_tool_name` of tool_name.rs makes.
use xiaozhi_esp32_server_rus.Common.{
  ℕ, zero, suc, ◌+◌, ◌/◌, ◌%◌, ◌≤◌, ◌<◌, ◌≡◌, refl, ap, inl, inr, Bool, true, false, not, ◌||◌, [],
  ◌∷◌, ◌++◌, arith, leb, length, length-append, take, all, all-append, all-take, length-take-le,
  Bool-cases,
}
use xiaozhi_esp32_server_rus.Common.Text.{
  all-trim_by, all-trim_end_by, length-utf8_len, Text, is_empty, trim, trim_by, trim_end_by,
  is_ascii_alphanumeric, utf8_len,
}
use xiaozhi_esp32_server_rus.Mcp.ToolName.{
  is_llm_tool_name_punct, is_llm_tool_name_alnum, hex_digit, hex_digits, is_underscore, is_dash,
  replace_chars, has_alnum, or_tool, cut_base, trim_marks, short_stable_hash, hash_suffix,
  hashed_name, truncate_llm_tool_name, sanitize_llm_tool_name,
}

abbrev is_allowed : ℕ → Bool
is_allowed c = is_llm_tool_name_alnum c || is_llm_tool_name_punct c

-- A name that the interfaces of the models take.
pub record IsToolName (s : Text) : Type 0 where
  pub allowed : all is_allowed s ≡ true
  pub not_empty : 0 < length s
  pub short : length s ≤ 64

hex_digit-alnum : (d : ℕ) → d < 16 → is_ascii_alphanumeric (hex_digit d) ≡ true
unfolding is_ascii_alphanumeric
hex_digit-alnum d h = ground arith

hex_digits-allowed : (k n : ℕ) → all is_allowed (hex_digits k n) ≡ true
unfolding hex_digits
hex_digits-allowed zero n = refl
hex_digits-allowed (suc k) n = ground (
  arith,
  all-append is_allowed (hex_digits k (n / 16)) (hex_digit (n % 16) ∷ []),
  hex_digits-allowed k (n / 16),
  hex_digit-alnum (n % 16) (omega arith),
)

length-hex_digits : (k n : ℕ) → length (hex_digits k n) ≡ k
unfolding hex_digits
length-hex_digits zero n = refl
length-hex_digits (suc k) n = omega (
  arith,
  length-append (hex_digits k (n / 16)) (hex_digit (n % 16) ∷ []),
  length-hex_digits k (n / 16),
)

replace_chars-allowed : (last : Bool) (s : Text) → all is_allowed (replace_chars last s) ≡ true
unfolding replace_chars
replace_chars-allowed last [] = refl
replace_chars-allowed last (c ∷ s) =
    ground (arith, replace_chars-allowed false s, replace_chars-allowed true s)

module _ (p : ℕ → Bool) where
  length-trim_end_by : (s : Text) → length (trim_end_by p s) ≤ length s
  unfolding trim_end_by
  length-trim_end_by [] = omega arith
  length-trim_end_by (c ∷ s) = ground (arith, length-trim_end_by s)

or_tool_lem :
    (s : Text) (n : ℕ)
    → 4 ≤ n
    → all is_allowed s ≡ true
    → length s ≤ n
    → (all is_allowed (or_tool s) ≡ true) × (0 < length (or_tool s)) × (length (or_tool s) ≤ n)
unfolding is_ascii_alphanumeric
or_tool_lem [] n four h le = (refl, omega arith, omega arith)
or_tool_lem (c ∷ s) n four h le = (h, omega arith, le)

-- A base of at most `n` characters that is not empty, for an `n` of at least four.
cut_base_lem :
    (name : Text) (n : ℕ)
    → 4 ≤ n
    → all is_allowed name ≡ true
    → (all is_allowed (cut_base name n) ≡ true)
      × (0 < length (cut_base name n))
      × (length (cut_base name n) ≤ n)
unfolding cut_base
cut_base_lem name n four h =
    or_tool_lem (trim_end_by is_llm_tool_name_punct (take n name)) n four
      (all-trim_end_by is_llm_tool_name_punct is_allowed (take n name)
        (all-take is_allowed n name h))
      (omega
        (arith, length-trim_end_by is_llm_tool_name_punct (take n name), length-take-le n name))

trim_marks-allowed : (s : Text) → all is_allowed s ≡ true → all is_allowed (trim_marks s) ≡ true
trim_marks-allowed s h =
    all-trim_by is_dash is_allowed (trim_by is_underscore s)
      (all-trim_by is_underscore is_allowed s h)

not_empty_length : (s : Text) → is_empty s ≡ false → 0 < length s
not_empty_length [] h = cc
not_empty_length (c ∷ s) h = omega arith

-- A cut base with what stands behind it.
cut_base-IsToolName :
    (name behind : Text) (n : ℕ)
    → 4 ≤ n
    → all is_allowed name ≡ true
    → all is_allowed behind ≡ true
    → n + length behind ≤ 64
    → IsToolName (cut_base name n ++ behind)
cut_base-IsToolName name behind n four h k le =
    let (ok_, some_, short_) = cut_base_lem name n four h in
    let len = length-append (cut_base name n) behind in
    record {
      allowed = ground (arith, all-append is_allowed (cut_base name n) behind);
      not_empty = omega arith;
      short = omega arith;
    }

module _ (hash : Text → ℕ) where
  hash_suffix-allowed : (t : Text) → all is_allowed (hash_suffix hash t) ≡ true
  unfolding short_stable_hash is_ascii_alphanumeric
  hash_suffix-allowed t = hex_digits-allowed 8 (hash t % 4294967296)

  length-hash_suffix : (t : Text) → length (hash_suffix hash t) ≡ 9
  unfolding short_stable_hash
  length-hash_suffix t = ap suc (length-hex_digits 8 (hash t % 4294967296))

  hashed_name-IsToolName : (t : Text) → IsToolName (hashed_name hash t)
  unfolding short_stable_hash is_ascii_alphanumeric
  hashed_name-IsToolName t = record {
    allowed = hex_digits-allowed 8 (hash t % 4294967296);
    not_empty = omega arith;
    short = omega (arith, length-hex_digits 8 (hash t % 4294967296));
  }

  truncate-IsToolName :
      (name original : Text)
      → all is_allowed name ≡ true
      → 0 < length name
      → IsToolName (truncate_llm_tool_name hash name original)
  unfolding truncate_llm_tool_name
  truncate-IsToolName name original h some_ = elim (Bool-cases (leb (utf8_len name) 64)) [
    | inl e ↦
        rw e
          (record { allowed = h; not_empty = some_; short = ground (arith, length-utf8_len name) })
    | inr e ↦
        rw (e, length-hash_suffix original)
          (cut_base-IsToolName name (hash_suffix hash original) 55 (omega arith) h
            (hash_suffix-allowed original) (omega (arith, length-hash_suffix original)))
  ]

  -- The name that is made of a name that is not blank has one to 64 characters, each an ASCII letter
  -- or digit, `_` or `-`.
  sanitize-IsToolName :
      (name : Text) → is_empty (trim name) ≡ false → IsToolName (sanitize_llm_tool_name hash name)
  unfolding sanitize_llm_tool_name
  sanitize-IsToolName name h =
      let sanitized = trim_marks (replace_chars false (trim name)) in
      rw h (elim (Bool-cases (is_empty sanitized || not (has_alnum (trim name)))) [
        | inl e ↦ rw e (
            truncate-IsToolName (hashed_name hash (trim name)) (trim name)
              (hashed_name-IsToolName (trim name)).allowed
              (hashed_name-IsToolName (trim name)).not_empty)
        | inr e ↦ rw e (
            truncate-IsToolName sanitized (trim name)
              (trim_marks-allowed (replace_chars false (trim name))
                (replace_chars-allowed false (trim name)))
              (not_empty_length sanitized (ground arith)))
      ])
