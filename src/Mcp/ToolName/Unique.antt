-- ===== src/Mcp/ToolName/Unique.antt =====
-- Why `unique_llm_tool_name` of tool_name.rs ends: its candidates differ, so one of them is free.
use xiaozhi_esp32_server_rus.Common.{
  ℕ, zero, suc, ◌+◌, ◌-◌, ◌*◌, ◌/◌, ◌%◌, ◌≤◌, ◌<◌, ◌≡◌, ◌⊎◌, refl, sym, ap, ◌∙◌, inl, inr, Bool,
  true, false, not, ◌&&◌, [], ◌∷◌, ◌++◌, append_assoc, none, some, arith, leb, ltb, ◌==◌,
  if◌then◌else◌, length, all, all-append, Bool-cases, Option-cases,
}
use xiaozhi_esp32_server_rus.Common.Text.{Text, text_eq, text_eq_iff}
use xiaozhi_esp32_server_rus.Common.Assoc.{Assoc, lookup, insert, remove, lookup-remove}
use xiaozhi_esp32_server_rus.Mcp.ToolName.{
  decimal, decimal_from, or_tool, cut_base, trim_marks, hash_suffix, is_free, candidate_at,
  search_name, first_candidate, choose_name, with_name, unique_llm_tool_name,
}

read : ℕ → Text → ℕ
read n [] = n
read n (c ∷ s) = read (n * 10 + (c - 48)) s

read-snoc : (n : ℕ) (s : Text) (c : ℕ) → read n (s ++ (c ∷ [])) ≡ read n s * 10 + (c - 48)
unfolding read
read-snoc n [] c = refl
read-snoc n (d ∷ s) c = read-snoc (n * 10 + (d - 48)) s c

read-decimal_from : (fuel n : ℕ) → n < fuel → read 0 (decimal_from fuel n) ≡ n
unfolding decimal_from read
read-decimal_from zero n h = absurd (omega arith)
read-decimal_from (suc fuel) n h = elim (Bool-cases (ltb n 10)) [
  | inl e ↦ rw e (omega arith)
  | inr e ↦
      rw
        (
          e,
          read-snoc 0 (decimal_from fuel (n / 10)) (48 + n % 10),
          read-decimal_from fuel (n / 10) (ground arith),
        )
        (omega arith)
]

read-decimal : (n : ℕ) → read 0 (decimal n) ≡ n
unfolding decimal
read-decimal n = read-decimal_from (suc n) n (omega arith)

is_digit : ℕ → Bool
is_digit c = leb 48 c && leb c 57

decimal_from-is_digit : (fuel n : ℕ) → all is_digit (decimal_from fuel n) ≡ true
unfolding decimal_from is_digit
decimal_from-is_digit zero n = refl
decimal_from-is_digit (suc fuel) n = ground (
  arith,
  all-append is_digit (decimal_from fuel (n / 10)) ((48 + n % 10) ∷ []),
  decimal_from-is_digit fuel (n / 10),
)

-- The text behind the last `_`, or all of it.
last_part : Text → Text
last_part [] = []
last_part (c ∷ s) =
    let rest = last_part s in
    if all (λ d. not (d == 95)) s then (if c == 95 then s else c ∷ s) else rest

has_no_mark : (s : Text) → all is_digit s ≡ true → all (λ d. not (d == 95)) s ≡ true
unfolding is_digit
has_no_mark [] h = refl
has_no_mark (c ∷ s) h = ground (arith, has_no_mark s)

mark_inside : (x d : Text) → all (λ d. not (d == 95)) (x ++ (95 ∷ d)) ≡ false
mark_inside [] d = refl
mark_inside (c ∷ x) d = ground (arith, mark_inside x d)

last_part-append : (x d : Text) → all is_digit d ≡ true → last_part (x ++ (95 ∷ d)) ≡ d
unfolding last_part
last_part-append [] d h = rw (has_no_mark d h) refl
last_part-append (c ∷ x) d h = rw (mark_inside x d) (last_part-append x d h)

last_part-append_two : (x y d : Text) → all is_digit d ≡ true → last_part (x ++ (y ++ (95 ∷ d))) ≡ d
last_part-append_two x y d h =
    ap last_part (sym (append_assoc x y (95 ∷ d))) ∙ last_part-append (x ++ y) d h

decimal-is_digit : (n : ℕ) → all is_digit (decimal n) ≡ true
unfolding decimal
decimal-is_digit n = decimal_from-is_digit (suc n) n

-- A map shrinks when a key that it has is removed.
module _ {V : Type 0} where
  length-remove_le : (k : Text) (m : Assoc V) → length (remove k m) ≤ length m
  unfolding remove
  length-remove_le k [] = omega arith
  length-remove_le k ((j, v) ∷ m) = ground (arith, length-remove_le k m)

  length-remove :
      (k : Text) (v : V) (m : Assoc V) → lookup k m ≡ some v → length (remove k m) < length m
  unfolding remove lookup
  length-remove k v [] h = cc
  length-remove k v ((j, w) ∷ m) h = ground (arith, length-remove_le k m, length-remove k v m)

module _ (hash : Text → ℕ) (base original : Text) where
  abbrev candidate : ℕ → Text
  candidate = candidate_at hash base original

  number_of : (i : ℕ) → read 0 (last_part (candidate (suc i))) ≡ suc i + 1
  unfolding candidate_at
  number_of i =
      ap (read 0) (
        last_part-append_two (cut_base base _) (hash_suffix hash original) (decimal (suc i + 1))
          (decimal-is_digit (suc i + 1)))
      ∙ read-decimal (suc i + 1)

  candidate-differs : (i j : ℕ) → i < j → text_eq (candidate (suc i)) (candidate (suc j)) ≡ false
  candidate-differs i j h = elim (Bool-cases (text_eq (candidate (suc i)) (candidate (suc j)))) [
    | inl e ↦ absurd (apart ((text_eq_iff (candidate (suc i)) (candidate (suc j))).0 e))
    | inr e ↦ e
  ]
    where
      apart : candidate (suc i) ≡ candidate (suc j) → ⊥
      apart e =
          let same = ap (λ t. read 0 (last_part t)) e in
          omega (arith, number_of i, number_of j, same)

  taken-some :
      (name : Text) (used : Assoc Text)
      → is_free hash name original used ≡ false
      → (prev : Text) × (lookup name used ≡ some prev)
  taken-some name used h = elim (Option-cases (lookup name used)) [
    | inl e ↦ absurd (ground arith)
    | inr e ↦ e
  ]

  -- As many rounds are enough as some map has entries that holds the same of the candidates to come.
  search_name-some :
      (fuel i : ℕ) (used rest : Assoc Text)
      → length rest < fuel
      → ((j : ℕ) → i ≤ j → lookup (candidate (suc j)) rest ≡ lookup (candidate (suc j)) used)
      → (name : Text) × (search_name hash fuel base original used (suc i) ≡ some name)
        × (is_free hash name original used ≡ true)
  unfolding search_name
  search_name-some zero i used rest le same = absurd (omega arith)
  search_name-some (suc fuel) i used rest le same =
      elim (Bool-cases (is_free hash (candidate (suc i)) original used)) [
        | inl e ↦ (candidate (suc i), rw e refl, e)
        | inr e ↦ rw e (
            let (prev, bound) = taken-some (candidate (suc i)) used e in
            search_name-some fuel (suc i) used (remove (candidate (suc i)) rest)
              (omega
                (arith, length-remove (candidate (suc i)) prev rest (same i (omega arith) ∙ bound)))
              (λ j le.
                lookup-remove (candidate (suc i)) (candidate (suc j)) rest
                ∙ (ap (λ b. if b then none else lookup (candidate (suc j)) rest)
                      (candidate-differs i j (omega arith))
                    ∙ same j (omega arith))))
      ]

  search_name-enough :
      (used : Assoc Text)
      → (name : Text) × (search_name hash (suc (suc (length used))) base original used 0
          ≡ some name)
        × (is_free hash name original used ≡ true)
  unfolding search_name
  search_name-enough used = elim (Bool-cases (is_free hash (candidate 0) original used)) [
    | inl e ↦ (candidate 0, rw e refl, e)
    | inr e ↦ rw e (search_name-some (suc (length used)) 0 used used (omega arith) (λ j le. refl))
  ]

module _ (hash : Text → ℕ) where
  choose_name-total :
      (candidate original : Text) (used : Assoc Text)
      → (name : Text) × (choose_name hash candidate original used ≡ some name)
        × ((lookup name used ≡ none) ⊎ (lookup name used ≡ some original))
  unfolding choose_name
  choose_name-total candidate original used =
      let first = first_candidate hash candidate original in
      elim (Bool-cases (is_free hash first original used)) [
        | inl e ↦ (first, rw e refl, free-lookup first e)
        | inr e ↦ rw e (
            let (name, found, free) =
              search_name-enough hash (or_tool (trim_marks first)) original used in
            (name, found, free-lookup name free))
      ]
    where
      free-lookup :
          (name : Text)
          → is_free hash name original used ≡ true
          → (lookup name used ≡ none) ⊎ (lookup name used ≡ some original)
      free-lookup name e = elim (Option-cases (lookup name used)) [
        | inl n ↦ inl n
        | inr (prev, p) ↦ inr (ground (arith, text_eq_iff prev original))
      ]

  -- Whatever names are used, a name is found; it is new or stood for the same original before, and
  -- stands for the original in the map that is returned.
  pub unique-total :
      (candidate original : Text) (used : Assoc Text)
      → (name : Text) × (unique_llm_tool_name hash candidate original used
          ≡ some (name, insert name original used))
        × ((lookup name used ≡ none) ⊎ (lookup name used ≡ some original))
  unfolding unique_llm_tool_name
  unique-total candidate original used =
      let (name, found, free) = choose_name-total candidate original used in
      (name, ap (with_name original used) found, free)
