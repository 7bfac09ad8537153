-- ===== src/Loop/Offsets/Rounding.antt =====
-- How exact loop_offset_ticks (src/loop_timestamps.cpp) is.
use moqxr.Common.{ℕ, ◌+◌, ◌*◌, ◌/◌, ◌%◌, ◌^◌, ◌≤◌, ◌<◌, ◌≡◌, arith}
use native.Mathlib.Nat.{add-mul, mul_assoc}
use moqxr.Common.Bytes.{u64_mod}
use moqxr.Loop.Offsets.{loop_offset_ticks}

mul_parts : (e w r t : ℕ) → e ≡ 1000000 * w + r → e * t ≡ 1000000 * (w * t) + r * t
mul_parts e w r t h = rw (h, add-mul, mul_assoc)

small_product : (r t : ℕ) → r < 1000000 → t < 2 ^ 32 → r * t < 1000000 * 2 ^ 32
small_product r t h k = grind arith

-- Splitting off the whole seconds loses nothing.
split_seconds :
    (elapsed timescale : ℕ)
    → elapsed / 1000000 * timescale + (elapsed % 1000000 * timescale + 500000) / 1000000
      ≡ (elapsed * timescale + 500000) / 1000000
split_seconds elapsed timescale =
    omega (arith, mul_parts elapsed (elapsed / 1000000) (elapsed % 1000000) timescale (omega arith))

exact :
    (duration cycle timescale : ℕ)
    → duration * cycle < 2 ^ 64
    → timescale < 2 ^ 32
    → loop_offset_ticks duration cycle timescale
      ≡ (duration * cycle * timescale + 500000) / 1000000 % u64_mod
unfolding loop_offset_ticks
exact duration cycle timescale fits small =
    let elapsed = duration * cycle in
    let whole : elapsed % u64_mod ≡ elapsed = omega arith in
    let rest = small_product (elapsed % 1000000) timescale (omega arith) small in
    let room : (elapsed % 1000000 * timescale + 500000) % u64_mod
        ≡ elapsed % 1000000 * timescale + 500000 =
      omega (arith, rest) in
    rw (whole, room, split_seconds elapsed timescale)

-- Where the elapsed time and the offset fit 64 bits and the timescale 32, the offset of a cycle is
-- the whole number of ticks nearest to the exact time: at most half a tick above it, and less than
-- half a tick below.
pub loop_offset_ticks-nearest :
    (duration cycle timescale : ℕ)
    → duration * cycle < 2 ^ 64
    → timescale < 2 ^ 32
    → (duration * cycle * timescale + 500000) / 1000000 < 2 ^ 64
    → let ticks = loop_offset_ticks duration cycle timescale in
      (ticks * 1000000 ≤ duration * cycle * timescale + 500000)
      × (duration * cycle * timescale < ticks * 1000000 + 500000)
loop_offset_ticks-nearest duration cycle timescale fits small room =
    omega (arith, exact duration cycle timescale fits small)

later_time : (d c t : ℕ) → d * c * t ≤ d * (c + 1) * t
later_time d c t = grind arith

-- Under the same conditions for the later cycle, the offset of the next cycle is not below the
-- offset of the cycle before.
loop_offset_ticks_mono :
    (duration cycle timescale : ℕ)
    → duration * (cycle + 1) < 2 ^ 64
    → timescale < 2 ^ 32
    → (duration * (cycle + 1) * timescale + 500000) / 1000000 < 2 ^ 64
    → loop_offset_ticks duration cycle timescale ≤ loop_offset_ticks duration (cycle + 1) timescale
loop_offset_ticks_mono duration cycle timescale fits small room =
    let before : duration * cycle ≤ duration * (cycle + 1) = grind arith in
    omega (
      arith,
      exact duration cycle timescale (omega arith) small,
      exact duration (cycle + 1) timescale fits small,
      later_time duration cycle timescale,
    )
