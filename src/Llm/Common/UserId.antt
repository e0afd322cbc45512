-- ===== src/Llm/Common/UserId.antt =====
-- Which ids `build_stable_user_id` of llm_common.rs makes.
use xiaozhi_esp32_server_rus.Common.{
  ◌+◌, ◌≤◌, ◌<◌, ◌≡◌, refl, inl, inr, Bool, true, false, [], ◌∷◌, ◌++◌, arith, leb, ltb,
  if◌then◌else◌, length, length-append, take, all, all-append, all-take, length-take-le, Bool-cases,
}
use xiaozhi_esp32_server_rus.Common.Text.{
  Text, codes, is_empty, trim, is_ascii_alphanumeric, utf8_len, all-trim_by, length-utf8_len,
}
use xiaozhi_esp32_server_rus.Llm.Common.{
  Digest, is_kept, is_mark, replace_others, sanitize_user_id_part, or_default, build_stable_user_id,
}

-- An id that the services take.
pub record IsUserId (s : Text) : Type 0 where
  pub kept : all is_kept s ≡ true
  pub not_empty : 0 < length s
  pub short : length s ≤ 64

replace_others-kept : (last : Bool) (s : Text) → all is_kept (replace_others last s) ≡ true
unfolding replace_others
replace_others-kept last [] = refl
replace_others-kept last (c ∷ s) =
    ground (arith, replace_others-kept false s, replace_others-kept true s)

sanitize-kept : (s : Text) → all is_kept (sanitize_user_id_part s) ≡ true
unfolding sanitize_user_id_part
sanitize-kept s = elim (Bool-cases (is_empty (trim s))) [
  | inl e ↦ rw e refl
  | inr e ↦ rw e (
      all-trim_by is_mark is_kept (replace_others false (trim s))
        (replace_others-kept false (trim s)))
]

or_default-kept :
    (s d : Text) → all is_kept s ≡ true → all is_kept d ≡ true → all is_kept (or_default s d) ≡ true
or_default-kept [] d h k = k
or_default-kept (c ∷ s) d h k = h

alnum-kept : (s : Text) → all is_ascii_alphanumeric s ≡ true → all is_kept s ≡ true
alnum-kept [] h = refl
alnum-kept (c ∷ s) h = ground (arith, alnum-kept s)

fallbacks : (all is_kept (codes "xiaozhi") ≡ true) × (all is_kept (codes "anonymous") ≡ true)
unfolding is_ascii_alphanumeric
fallbacks = (refl, refl)

cut_kept :
    (p : Text)
    → all is_kept p ≡ true
    → (all is_kept (if ltb 47 (length p) then take 47 p else p) ≡ true)
      × (length (if ltb 47 (length p) then take 47 p else p) ≤ 47)
cut_kept p h = elim (Bool-cases (ltb 47 (length p))) [
  | inl e ↦ rw e (all-take is_kept 47 p h, length-take-le 47 p)
  | inr e ↦ rw e (h, ground arith)
]

joined-IsUserId :
    (a b : Text)
    → all is_kept a ≡ true
    → all is_kept b ≡ true
    → length a + length b ≤ 63
    → IsUserId (a ++ (95 ∷ b))
joined-IsUserId a b h k le =
    let len = length-append a (95 ∷ b) in
    record {
      kept = ground (arith, all-append is_kept a (95 ∷ b));
      not_empty = omega arith;
      short = omega arith;
    }

-- The id has one to 64 characters, each an ASCII letter or digit, `_`, `-` or `.`, whatever the prefix
-- and the session are.
build-IsUserId :
    (hash : Digest) (prefix session : Text) → IsUserId (build_stable_user_id hash prefix session)
unfolding build_stable_user_id
build-IsUserId hash prefix session =
    let a = or_default (sanitize_user_id_part prefix) (codes "xiaozhi") in
    let b = or_default (sanitize_user_id_part session) (codes "anonymous") in
    let d = hash.digest (prefix ++ (58 ∷ session)) in
    let a_kept =
      or_default-kept (sanitize_user_id_part prefix) (codes "xiaozhi") (sanitize-kept prefix)
        fallbacks.0 in
    let b_kept =
      or_default-kept (sanitize_user_id_part session) (codes "anonymous") (sanitize-kept session)
        fallbacks.1 in
    elim (Bool-cases (leb (utf8_len (a ++ (95 ∷ b))) 64)) [
      | inl e ↦ rw e (
          joined-IsUserId a b a_kept b_kept
            (ground (arith, length-utf8_len (a ++ (95 ∷ b)), length-append a (95 ∷ b))))
      | inr e ↦
          rw (e, hash.sixteen (prefix ++ (58 ∷ session)))
            (joined-IsUserId _ d (cut_kept a a_kept).0
              (alnum-kept d (hash.digits (prefix ++ (58 ∷ session))))
              (omega (arith, (cut_kept a a_kept).1, hash.sixteen (prefix ++ (58 ∷ session)))))
    ]
