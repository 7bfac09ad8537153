-- ===== src/Loop/Locmaf/Wrapping.antt =====
-- rebase_locmaf_timestamps (src/loop_timestamps.cpp) on properties whose last length is read from
-- behind their end.
use moqxr.Common.{
  ℕ, zero, suc, ◌-◌, ◌%◌, ◌^◌, ◌<◌, ◌≡◌, refl, ap, ◌∙◌, false, some, List, arith, ltb,
}
use moqxr.Common.Bytes.{add64, sub64}
use moqxr.Loop.Varint.{read_locmaf_varint}
use moqxr.Loop.Locmaf.{out_of_fuel, rebase_properties}
use moqxr.Loop.Locmaf.Steps.{property_step-bytes}

-- Where a property with an odd id stands in the properties, its length is read up to a place behind
-- their end, within a payload of fewer than 2^62 bytes, and the length is 2^64 less the bytes from
-- the property to that place, the loop over the properties does not end: with any number of rounds
-- it comes back to the property.
pub rebase_properties-wraps :
    (payload : List ℕ) (length_offset begin end delta_ticks cursor id cursor' next : ℕ)
    → cursor < end
    → read_locmaf_varint payload cursor ≡ some (id, cursor')
    → id % 2 ≡ 1
    → read_locmaf_varint payload cursor' ≡ some (2 ^ 64 - (next - cursor), next)
    → end < next
    → next < 2 ^ 62
    → (fuel : ℕ)
    → rebase_properties fuel payload length_offset begin end delta_ticks cursor ≡ out_of_fuel
unfolding rebase_properties
rebase_properties-wraps payload lo begin end delta cursor id cursor' next more p odd q past short
      zero =
    refl
rebase_properties-wraps payload lo begin end delta cursor id cursor' next more p odd q past short
      (suc fuel) =
    let passes : ltb (sub64 end next) (2 ^ 64 - (next - cursor)) ≡ false = ground arith in
    let back : add64 next (2 ^ 64 - (next - cursor)) ≡ cursor = omega arith in
    property_step-bytes payload lo begin end delta _ cursor id cursor' more p
      (2 ^ 64 - (next - cursor)) next odd q passes
    ∙ ap (rebase_properties fuel payload lo begin end delta) back
    ∙ rebase_properties-wraps payload lo begin end delta cursor id cursor' next more p odd q past
        short fuel
