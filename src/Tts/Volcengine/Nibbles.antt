-- ===== src/Tts/Volcengine/Nibbles.antt =====
-- The two nibbles of a byte, checked over all bytes.
use Prim.Native.Nat.{bit_and}
use xiaozhi_esp32_server_rus.Common.{
  ℕ, zero, suc, ◌+◌, ◌*◌, ◌/◌, ◌%◌, ◌<◌, ◌≤◌, ◌≡◌, refl, Bool, true, ◌&&◌, arith, ◌==◌, ==_iff,
}
use xiaozhi_esp32_server_rus.Tts.Volcengine.{pack_nibbles}

-- A test at every number up to `top`.
passes : (ℕ → Bool) → ℕ → Bool
passes test zero = test 0
passes test (suc top) = let lower = passes test top in lower && test (suc top)

passes_at : (test : ℕ → Bool) (top b : ℕ) → b ≤ top → passes test top ≡ true → test b ≡ true
unfolding passes
passes_at test zero b le h = let e : b ≡ 0 = omega arith in rw e h
passes_at test (suc top) b le h = ground (arith, passes_at test top b)

masked : ℕ → Bool
masked b = bit_and b 15 == b % 16

joined : ℕ → Bool
unfolding pack_nibbles
joined b = pack_nibbles (b / 16) (b % 16) == b

every_masked : passes masked 255 ≡ true
unfolding passes masked
every_masked = refl

every_joined : passes joined 255 ≡ true
unfolding passes joined
every_joined = refl

pub low_nibble : (b : ℕ) → b < 256 → bit_and b 15 ≡ b % 16
unfolding masked
low_nibble b h = (==_iff _ _).0 (passes_at masked 255 b (omega arith) every_masked)

pack_byte : (b : ℕ) → b < 256 → pack_nibbles (b / 16) (b % 16) ≡ b
unfolding joined
pack_byte b h = (==_iff _ _).0 (passes_at joined 255 b (omega arith) every_joined)

pub pack_nibbles_lem : (hi lo : ℕ) → hi < 16 → lo < 16 → pack_nibbles hi lo ≡ hi * 16 + lo
pack_nibbles_lem hi lo h l =
    let high : (hi * 16 + lo) / 16 ≡ hi = omega arith in
    let low : (hi * 16 + lo) % 16 ≡ lo = omega arith in
    rw (high, low) at (pack_byte (hi * 16 + lo) (omega arith))
