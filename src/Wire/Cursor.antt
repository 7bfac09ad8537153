-- ===== src/Wire/Cursor.antt =====
-- The cursor of moqt_control_messages.cpp over a span of bytes: the bound check `fits` and the loop
-- that both integer decoders run. A span is the list of its bytes and the cursor an offset into it;
-- `a | b` of values with no common bit is `a + b`.
use moqxr.Common.{
  ℕ, zero, suc, ◌+◌, ◌-◌, ◌*◌, ◌%◌, ◌^◌, ◌≤◌, ◌<◌, ◌≡◌, refl, Bool, ◌&&◌, List, [], ◌∷◌, ◌++◌,
  arith, leb, length, get_or, get_or-append, get_or_front, All,
}
use moqxr.Common.Bytes.{IsByte, IsU64, u64_mod}
use native.Mathlib.Nat.{pow-suc, add_assoc}

unfoldable pub fits : ℕ → ℕ → ℕ → Bool
fits offset length end = leb offset end && leb length (end - offset)

-- for (index; ...; ++index) value = (value << 8) | bytes[offset + index], in 64 bits, for the
-- rounds that are left.
unfoldable pub accumulate : ℕ → List ℕ → ℕ → ℕ → ℕ
accumulate zero bytes i value = value
accumulate (suc rounds) bytes i value =
    accumulate rounds bytes (i + 1) ((value * 256) % u64_mod + get_or bytes i 0)

-- The loop reads only what stands behind the cursor.
pub accumulate-append :
    (rounds : ℕ) (out xs : List ℕ) (i value : ℕ)
    → accumulate rounds (out ++ xs) (length out + i) value ≡ accumulate rounds xs i value
unfolding accumulate
accumulate-append zero out xs i value = refl
accumulate-append (suc rounds) out xs i value =
    rw (get_or-append out xs i 0, add_assoc (length out) i 1)
      (accumulate-append rounds out xs (i + 1) ((value * 256) % u64_mod + get_or xs i 0))

-- The loop reads nothing behind its rounds.
pub accumulate_front :
    (rounds : ℕ) (bytes rest : List ℕ) (i value : ℕ)
    → i + rounds ≤ length bytes
    → accumulate rounds (bytes ++ rest) i value ≡ accumulate rounds bytes i value
unfolding accumulate
accumulate_front zero bytes rest i value h = refl
accumulate_front (suc rounds) bytes rest i value h =
    rw (get_or_front bytes rest i 0 (omega arith))
      (accumulate_front rounds bytes rest (i + 1) _ (omega arith))

pub get_or-IsByte : (bytes : List ℕ) (i : ℕ) → All IsByte bytes → IsByte (get_or bytes i 0)
get_or-IsByte [] i h = omega arith
get_or-IsByte (x ∷ xs) zero h = h.0
get_or-IsByte (x ∷ xs) (suc i) h = get_or-IsByte xs i h.1

pub accumulate-IsU64 :
    (rounds : ℕ) (bytes : List ℕ) (i value : ℕ)
    → All IsByte bytes
    → IsU64 value
    → IsU64 (accumulate rounds bytes i value)
unfolding accumulate
accumulate-IsU64 zero bytes i value h lt = lt
accumulate-IsU64 (suc rounds) bytes i value h lt =
    accumulate-IsU64 rounds bytes (i + 1) _ h (omega (arith, get_or-IsByte bytes i h))

scale : (bound rounds : ℕ) → bound * 256 ^ suc rounds ≡ bound * 256 * 256 ^ rounds
scale bound rounds = rw pow-suc (omega arith)

pow_pos : (rounds : ℕ) → 0 < 256 ^ rounds
pow_pos zero = omega arith
pow_pos (suc rounds) = rw pow-suc (omega (arith, pow_pos rounds))

le-mul_pos : (a p : ℕ) → 0 < p → a ≤ a * p
le-mul_pos a p h = grind arith

-- Each round makes the value at most 256 times as large, and nothing is lost while that fits.
pub accumulate-lt :
    (rounds : ℕ) (bytes : List ℕ) (i value bound : ℕ)
    → All IsByte bytes
    → value < bound
    → bound * 256 ^ rounds ≤ u64_mod
    → accumulate rounds bytes i value < bound * 256 ^ rounds
unfolding accumulate
accumulate-lt zero bytes i value bound h lt fit = omega arith
accumulate-lt (suc rounds) bytes i value bound h lt fit =
    let fit' : bound * 256 * 256 ^ rounds ≤ u64_mod = rw (scale bound rounds) at fit in
    let room = le-mul_pos (bound * 256) (256 ^ rounds) (pow_pos rounds) in
    rw (scale bound rounds) (
      accumulate-lt rounds bytes (i + 1) _ (bound * 256) h (omega (arith, get_or-IsByte bytes i h))
        fit')
