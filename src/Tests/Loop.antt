-- ===== src/Tests/Loop.antt =====
-- Timestamps of a looped input on concrete input.
use moqxr.Common.{
  ℕ, ◌+◌, ◌-◌, ◌*◌, ◌^◌, ◌≤◌, ◌<◌, ◌≡◌, refl, Option, some, List, [], ◌∷◌, arith, length, All,
}
use moqxr.Common.Bytes.{IsByte, add64}
use moqxr.Wire.Vi64.{append_vi64, decode_vi64_impl}
use moqxr.Loop.Varint.{read_locmaf_varint, locmaf_varint}
use moqxr.Loop.Varint.Equivalence.{locmaf_varint-vi64}
use moqxr.Loop.Offsets.{loop_offset_ticks}
use moqxr.Loop.Offsets.Rounding.{loop_offset_ticks-nearest}
use moqxr.Loop.Locmaf.{answers, out_of_fuel, rebase_locmaf_timestamps, rebase_properties}
use moqxr.Loop.Locmaf.Format.{Entry, value_entry, bytes_entry, IsOther, object}
use moqxr.Loop.Locmaf.Objects.{rebase_locmaf-object}
use moqxr.Loop.Locmaf.Wrapping.{rebase_properties-wraps}

locmaf_varint-vi64_example :
    (locmaf_varint 20000 ≡ append_vi64 [] 20000)
    × (read_locmaf_varint (9 ∷ 0x80 ∷ 0xc8 ∷ []) 1 ≡ decode_vi64_impl (9 ∷ 0x80 ∷ 0xc8 ∷ []) 1)
locmaf_varint-vi64_example =
    locmaf_varint-vi64 20000 (9 ∷ 0x80 ∷ 0xc8 ∷ []) 1 (omega arith) (omega arith)

-- 2.000016 seconds, three times, in ticks of 1/90000 second.
loop_offset_ticks-nearest_example :
    (loop_offset_ticks 2000016 3 90000 * 1000000 ≤ 2000016 * 3 * 90000 + 500000)
    × (2000016 * 3 * 90000 < loop_offset_ticks 2000016 3 90000 * 1000000 + 500000)
loop_offset_ticks-nearest_example =
    loop_offset_ticks-nearest 2000016 3 90000 (omega arith) (omega arith) (omega arith)

ticks_test : loop_offset_ticks 2000016 3 90000 ≡ 540004
unfolding loop_offset_ticks
ticks_test = refl

abbrev unchanged : List ℕ → ℕ → Option (List ℕ)
unchanged bytes delta_ticks = some bytes

abbrev boxes : List (List ℕ)
boxes = (1 ∷ 2 ∷ []) ∷ []

abbrev before : List Entry
before = value_entry 2 7 ∷ bytes_entry 3 (9 ∷ []) ∷ []

object-AreBytes : All IsByte (object boxes before 100 [] (8 ∷ []))
unfolding locmaf_varint
object-AreBytes = omega arith

object-length : length (object boxes before 100 [] (8 ∷ [])) ≡ 14
unfolding locmaf_varint
object-length = refl

before-AreOther : All IsOther before
before-AreOther = omega arith

-- The new base time takes two bytes, the old one takes one.
rebase_locmaf-object_example :
    rebase_locmaf_timestamps unchanged 20 (object boxes before 100 [] (8 ∷ [])) 100
    ≡ answers (some (object boxes before (add64 100 100) [] (8 ∷ [])))
rebase_locmaf-object_example =
    rebase_locmaf-object unchanged boxes before 100 100 [] (8 ∷ []) 20 object-AreBytes
      (rw object-length (omega arith)) before-AreOther (omega arith)
      (rw object-length (omega arith))

-- A full object with one byte of properties, the id 1; the length behind it is 2^64 - 10.
abbrev wrapping : List ℕ
wrapping = 2 ∷ 1 ∷ 1 ∷ 0xff ∷ 0xff ∷ 0xff ∷ 0xff ∷ 0xff ∷ 0xff ∷ 0xff ∷ 0xff ∷ 0xf6 ∷ []

wrapping_id : read_locmaf_varint wrapping 2 ≡ some (1, 3)
unfolding read_locmaf_varint
wrapping_id = refl

wrapping_length : read_locmaf_varint wrapping 3 ≡ some (2 ^ 64 - (12 - 2), 12)
unfolding read_locmaf_varint
wrapping_length = refl

rebase_properties-wraps_example : rebase_properties 1000 wrapping 1 2 3 500 2 ≡ out_of_fuel
rebase_properties-wraps_example =
    rebase_properties-wraps wrapping 1 2 3 500 2 1 3 12 (omega arith) wrapping_id refl
      wrapping_length (omega arith) (omega arith) 1000
