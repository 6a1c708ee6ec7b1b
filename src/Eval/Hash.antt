-- ===== src/Eval/Hash.antt =====
-- Bucketing of users: server/internal/eval/hash.go. A `uint32` is a number below 2 ^ 32, with the
-- reduction written out; a shift to the right is a division.
use Prim.Native.Nat.{bit_or, bit_xor}
use featuresignals_unified.Base.{
  ℕ, ◌+◌, ◌-◌, ◌*◌, ◌/◌, ◌%◌, ◌^◌, ◌<◌, ◌≡◌, refl, List, [], ◌∷◌, ◌++◌, length, arith,
}
use featuresignals_unified.Base.Text.{Text, bytes}

abbrev u32 : ℕ → ℕ
u32 n = n % 2 ^ 32

rotl32 : ℕ → ℕ → ℕ
rotl32 x r = bit_or (u32 (x * 2 ^ r)) (x / 2 ^ (32 - r))

fmix32 : ℕ → ℕ
fmix32 h0 =
    let h1 = bit_xor h0 (h0 / 2 ^ 16) in
    let h2 = u32 (h1 * 0x85ebca6b) in
    let h3 = bit_xor h2 (h2 / 2 ^ 13) in let h4 = u32 (h3 * 0xc2b2ae35) in bit_xor h4 (h4 / 2 ^ 16)

-- `k1 *= c1; k1 = rotl32(k1, 15); k1 *= c2`
scramble : ℕ → ℕ
unfolding rotl32
scramble k = u32 (rotl32 (u32 (k * 0xcc9e2d51)) 15 * 0x1b873593)

-- One round of the body on a block of four bytes, read little-endian.
mix_block : ℕ → ℕ → ℕ → ℕ → ℕ → ℕ
unfolding rotl32 scramble
mix_block h a b c d =
    let k = bit_or (bit_or (bit_or a (u32 (b * 2 ^ 8))) (u32 (c * 2 ^ 16))) (u32 (d * 2 ^ 24)) in
    u32 (rotl32 (bit_xor h (scramble k)) 13 * 5 + 0xe6546b64)

-- The body's loop, then the `switch` on the one, two or three bytes that are left.
mix_bytes : ℕ → List ℕ → ℕ
unfolding mix_block
mix_bytes h (a ∷ b ∷ c ∷ d ∷ rest) = mix_bytes (mix_block h a b c d) rest
mix_bytes h (a ∷ b ∷ c ∷ []) =
    bit_xor h (scramble (bit_xor (bit_xor (u32 (c * 2 ^ 16)) (u32 (b * 2 ^ 8))) a))
mix_bytes h (a ∷ b ∷ []) = bit_xor h (scramble (bit_xor (u32 (b * 2 ^ 8)) a))
mix_bytes h (a ∷ []) = bit_xor h (scramble a)
mix_bytes h [] = h

murmur_hash3 : Text → ℕ → ℕ
unfolding mix_bytes fmix32
murmur_hash3 key seed = fmix32 (bit_xor (mix_bytes seed key) (u32 (length key)))

-- The bucket of a user for a flag, in basis points.
unfoldable pub bucket_user : Text → Text → ℕ
unfolding murmur_hash3
bucket_user flag_key user_key = murmur_hash3 (flag_key ++ bytes "." ++ user_key) 0 % 10000

pub bucket_user-lt : (flag_key user_key : Text) → bucket_user flag_key user_key < 10000
unfolding bucket_user
bucket_user-lt flag_key user_key = omega arith

-- Published test vectors of MurmurHash3_x86_32.
murmur_hash3_vectors :
    (murmur_hash3 (bytes "") 0 ≡ 0)
    × (murmur_hash3 (bytes "") 1 ≡ 0x514e28b7)
    × (murmur_hash3 (bytes "test") 0 ≡ 0xba6bd213)
    × (murmur_hash3 (bytes "hello") 0 ≡ 0x248bfa47)
    × (murmur_hash3 (bytes "hello, world") 0 ≡ 0x149bbb7f)
unfolding murmur_hash3
murmur_hash3_vectors = (refl, refl, refl, refl, refl)
