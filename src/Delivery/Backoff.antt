-- ===== src/Delivery/Backoff.antt =====
-- JitteredBackoff of server/internal/retry/backoff.go. A Duration is an int64, kept as its 64 bits.
use Prim.Native.Nat.{min}
use featuresignals_unified.Base.{
  ℕ, zero, suc, ◌+◌, ◌-◌, ◌*◌, ◌/◌, ◌%◌, ◌≤◌, ◌<◌, ◌≡◌, Option, none, some, ltb, arith,
  if◌then◌else◌, Bool-cases, inl, inr, ap, ◌∙◌,
}
use featuresignals_unified.Base.Int.{ℤ, pos, negsuc, ltb_ℤ}

abbrev pub two63 : ℕ
two63 = 9223372036854775808

abbrev pub signed : ℕ → ℤ
signed x = if ltb x two63 then pos x else negsuc (2 * two63 - x - 1)

-- `a * b` on int64
abbrev mul64 : ℕ → ℕ → ℕ
mul64 a b = a * b % (2 * two63)

-- The loop, with the number of rounds left.
unfoldable pub grow : ℕ → ℕ → ℕ → ℕ → ℕ
grow zero factor cap backoff = backoff
grow (suc n) factor cap backoff =
    let next = mul64 backoff factor in
    let rest = grow n factor cap next in if ltb_ℤ (signed cap) (signed next) then cap else rest

-- The attempt, from 1 on, as the number of rounds.
abbrev pub rounds : ℤ → ℕ
rounds (pos n) = n - 1
rounds (negsuc n) = 0

abbrev capped : ℕ → ℕ → ℕ
capped cap backoff = if ltb_ℤ (signed cap) (signed backoff) then cap else backoff

-- `backoff + rand.Int64N(backoff / 2)`, which panics when half of the backoff is not positive;
-- `int64n` is the generator.
abbrev jittered : (ℕ → ℕ) → ℕ → Option ℕ
jittered int64n backoff =
    if ltb_ℤ (pos 1) (signed backoff)
    then some ((backoff + int64n (backoff / 2)) % (2 * two63))
    else none

unfoldable pub jittered_backoff : (ℕ → ℕ) → ℤ → ℕ → ℕ → ℕ → Option ℕ
jittered_backoff int64n attempt base factor cap =
    jittered int64n (capped cap (grow (rounds attempt) factor cap base))

abbrev pub power : ℕ → ℕ → ℕ
power factor zero = 1
power factor (suc n) = factor * power factor n

-- The backoff of an attempt without the jitter.
abbrev pub planned : ℕ → ℕ → ℕ → ℕ → ℕ
planned n base factor cap = min cap (base * power factor n)

mul_mono : (a b c : ℕ) → a ≤ b → a * c ≤ b * c
mul_mono a b zero le = omega arith
mul_mono a b (suc c) le = omega (arith, mul_mono a b c le)

power_positive : (factor n : ℕ) → 1 ≤ factor → 1 ≤ power factor n
power_positive factor zero grows = omega arith
power_positive factor (suc n) grows =
    omega (arith, mul_mono 1 factor (power factor n) grows, power_positive factor n grows)

-- Below 2 ^ 63 the bits are the number.
signed_small : (x : ℕ) → x < two63 → signed x ≡ pos x
signed_small x lt = ground arith

mul64_small : (a b : ℕ) → a * b < two63 → mul64 a b ≡ a * b
mul64_small a b lt = omega arith

mul_assoc : (a b c : ℕ) → a * b * c ≡ a * (b * c)
mul_assoc a b c = omega arith

module _ (factor cap : ℕ) (grows : 1 ≤ factor) (small : cap * factor < two63) where
  grow-planned :
      (n backoff : ℕ) → backoff ≤ cap → grow n factor cap backoff ≡ planned n backoff factor cap
  unfolding grow
  grow-planned zero backoff le = omega arith
  grow-planned (suc n) backoff le =
      let fits : backoff * factor < two63 = omega (arith, small, mul_mono backoff cap factor le) in
      let cap_fits : cap < two63 = omega (arith, small, mul_mono 1 factor cap grows) in
      let assoc = mul_assoc backoff factor (power factor n) in
      let more = mul_mono 1 (power factor n) (backoff * factor) (power_positive factor n grows) in
      elim (Bool-cases (ltb cap (backoff * factor))) [
        | inl t ↦
            rw
              (
                mul64_small backoff factor fits,
                signed_small (backoff * factor) fits,
                signed_small cap cap_fits,
              )
              (ground (arith, t, assoc, more))
        | inr f ↦
            let next = grow-planned n (backoff * factor) (ground (arith, f)) in
            rw
              (
                mul64_small backoff factor fits,
                signed_small (backoff * factor) fits,
                signed_small cap cap_fits,
              )
              (ground (arith, f, assoc, next))
      ]

capped_small : (cap b : ℕ) → cap < two63 → b ≤ cap → capped cap b ≡ b
capped_small cap b fits le = rw (signed_small cap fits, signed_small b (omega arith)) (ground arith)

jittered_in :
    (int64n : ℕ → ℕ) (e : ℕ)
    → ((n : ℕ) → 1 ≤ n → int64n n < n)
    → 2 ≤ e
    → 2 * e < two63
    → (b : ℕ) × (jittered int64n e ≡ some b) × (e ≤ b) × (b < e + e / 2)
jittered_in int64n e law two fits =
    let jitter = law (e / 2) (omega arith) in
    (
      e + int64n (e / 2),
      rw (signed_small e (omega arith)) (ground (arith, jitter)),
      omega arith,
      omega (arith, jitter),
    )

-- With a generator that keeps below its bound, a base of at least 2 ns and at most the cap, a
-- factor of at least 2, and a cap that cannot overflow when it is multiplied by the factor: the
-- wait before an attempt is at least the base times the factor to the attempts before it, or the
-- cap if that is less, and less than one and a half times that.
pub jittered_backoff-planned :
    (int64n : ℕ → ℕ) (attempt : ℤ) (base factor cap : ℕ)
    → ((n : ℕ) → 1 ≤ n → int64n n < n)
    → 2 ≤ base
    → base ≤ cap
    → 2 ≤ factor
    → cap * factor < two63
    → (b : ℕ) × (jittered_backoff int64n attempt base factor cap ≡ some b)
      × (planned (rounds attempt) base factor cap ≤ b)
      × (b
          < planned (rounds attempt) base factor cap + planned (rounds attempt) base factor cap / 2)
unfolding jittered_backoff
jittered_backoff-planned int64n attempt base factor cap law two le grows small =
    let n = rounds attempt in
    let e = planned n base factor cap in
    let positive = power_positive factor n (omega (arith, grows)) in
    let more = mul_mono 1 (power factor n) base positive in
    let twice = mul_mono 2 factor cap grows in
    let e_small : 2 * e < two63 = omega (arith, small, twice) in
    let step : capped cap (grow n factor cap base) ≡ e =
      ap (capped cap) (grow-planned factor cap (omega (arith, grows)) small n base le)
      ∙ capped_small cap e (omega (arith, small, twice)) (omega arith) in
    rw step (jittered_in int64n e law (omega (arith, more, two, le)) e_small)
