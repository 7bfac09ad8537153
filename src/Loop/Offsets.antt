-- ===== src/Loop/Offsets.antt =====
-- loop_offset_ticks and rebase_loc_timestamps of src/loop_timestamps.cpp.
pub mod Rounding
use moqxr.Common.{ℕ, ◌+◌, ◌*◌, ◌/◌, ◌%◌, List, [], ◌∷◌, ◌==◌, if◌then◌else◌}
use moqxr.Common.Bytes.{u64_mod, add64}
use moqxr.Wire.Objects.{ObjectProperty, PropertyValue, integer, octets}

abbrev microseconds_per_second : ℕ
microseconds_per_second = 1000000

unfoldable pub loop_offset_ticks : ℕ → ℕ → ℕ → ℕ
loop_offset_ticks cycle_duration_us cycle timescale =
    let elapsed_us = cycle_duration_us * cycle % u64_mod in
    let whole_seconds = elapsed_us / microseconds_per_second in
    let remainder_us = elapsed_us % microseconds_per_second in
    (whole_seconds * timescale
      + ((remainder_us * timescale + 500000) % u64_mod) / microseconds_per_second)
    % u64_mod

abbrev rebase_value : ℕ → PropertyValue → PropertyValue
rebase_value delta_ticks (integer value) = integer (add64 value delta_ticks)
rebase_value delta_ticks (octets value) = octets value

unfoldable pub rebase_loc_timestamps : ℕ → List ObjectProperty → List ObjectProperty
rebase_loc_timestamps delta_ticks [] = []
rebase_loc_timestamps delta_ticks (property ∷ properties) =
    (if property.id == 16
      then record property { value = rebase_value delta_ticks property.value }
      else property)
    ∷ rebase_loc_timestamps delta_ticks properties
