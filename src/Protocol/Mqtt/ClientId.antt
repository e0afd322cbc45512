-- ===== src/Protocol/Mqtt/ClientId.antt =====
-- The MAC address inside a client id, and cutting a text at `@@@`.
use xiaozhi_esp32_server_rus.Common.{
  ℕ, zero, suc, ◌-◌, ◌≡◌, ◌≢◌, refl, true, not, List, [], ◌∷◌, ◌++◌, some, arith, ◌==◌, all, length,
  Bool-cases, inl, inr,
}
use xiaozhi_esp32_server_rus.Common.Text.{Text, split, split_from, starts_with}
use xiaozhi_esp32_server_rus.Protocol.Mqtt.{separator, mac_from_client_id, mac_of_parts}

-- No `@` in a text.
abbrev NoAt : Text → Type 0
NoAt s = all (λ c. not (c == b'@')) s ≡ true

split_piece :
    (p s : Text) → NoAt p → split separator (p ++ (separator ++ s)) ≡ p ∷ split separator s
unfolding split_from
split_piece [] s h = refl
split_piece (c ∷ p) s h = ground (arith, split_piece p s)

split_from-cons :
    (sep : Text) (k : ℕ) (s : Text) → (p : Text) × (ps : List Text) × (split_from sep k s ≡ p ∷ ps)
unfolding split_from
split_from-cons sep k [] = ([], [], refl)
split_from-cons sep (suc k) (c ∷ s) = split_from-cons sep k s
split_from-cons sep zero (c ∷ s) = elim (Bool-cases (starts_with sep (c ∷ s))) [
  | inl e ↦ ([], split_from sep (length sep - 1) s, rw e refl)
  | inr e ↦ let (p, ps, q) = split_from-cons sep 0 s in (c ∷ p, ps, rw (e, q) refl)
]

three_parts :
    (gid mac last : Text) (ps : List Text)
    → mac ≢ []
    → mac_of_parts (gid ∷ mac ∷ last ∷ ps) ≡ some mac
unfolding mac_of_parts
three_parts gid [] last ps h = absurd (h refl)
three_parts gid (c ∷ mac) last ps h = refl

-- A client id made of a group, a MAC and a rest, joined by `@@@`, yields the MAC, when the group and
-- the MAC have no `@` and the MAC is not empty.
mac-join :
    (gid mac rest : Text)
    → NoAt gid
    → NoAt mac
    → mac ≢ []
    → mac_from_client_id (gid ++ (separator ++ (mac ++ (separator ++ rest)))) ≡ some mac
unfolding mac_from_client_id
mac-join gid mac rest g m h =
    let (last, ps, e) = split_from-cons separator 0 rest in
    rw (split_piece gid (mac ++ (separator ++ rest)) g, split_piece mac rest m, e)
      (three_parts gid mac last ps h)
