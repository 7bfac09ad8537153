-- ===== src/Loop/Locmaf.antt =====
-- rebase_locmaf_timestamps of src/loop_timestamps.cpp. `none` is the answer false, with the payload
-- unchanged; what rebase_cmaf_timestamps answers for the chunk of a raw object is an argument. Both
-- loops take fuel.
pub mod Format
pub mod Steps
pub mod Rebased
pub mod Objects
pub mod Wrapping
use moqxr.Common.{
  ℕ, zero, suc, ◌+◌, ◌-◌, ◌%◌, Bool, true, false, not, Option, none, some, List, [], ◌∷◌, ◌++◌, ltb,
  leb, ◌==◌, if◌then◌else◌, length, take, drop,
}
use moqxr.Common.Bytes.{add64, sub64}
use moqxr.Loop.Varint.{read_locmaf_varint, locmaf_varint}

-- How a function ends: with its answer, or without fuel.
pub data Run {ℓ} (A : Type ℓ) : Type ℓ where
  answers : A → Run A
  out_of_fuel : Run A

-- What follows the boxes in front of the object.
pub data Opening : Type 0 where
  refused : Opening
  -- a delta object, type 3
  delta : Opening
  -- a raw object, type 4, with the cursor behind the type
  raw : ℕ → Opening
  -- a full object, type 2
  full : ℕ → Opening

unfoldable pub open_step : List ℕ → (ℕ → Run Opening) → ℕ → Run Opening
open_step payload again cursor = elim (read_locmaf_varint payload cursor) [
  | none ↦ answers refused
  | some (type, cursor') ↦
      if type == 1
      then elim (read_locmaf_varint payload cursor') [
        | none ↦ answers refused
        | some (size, cursor'') ↦
            if ltb (length payload - cursor'') size
            then answers refused
            else again (cursor'' + size)
      ]
      else if type == 3
      then answers delta
      else if type == 4
      then answers (raw cursor')
      else if not (type == 2)
      then answers refused
      else answers (full cursor')
]

unfoldable pub open_object : ℕ → List ℕ → ℕ → Run Opening
open_object zero payload cursor = out_of_fuel
open_object (suc fuel) payload cursor = open_step payload (open_object fuel payload) cursor

abbrev pub slice : List ℕ → ℕ → ℕ → List ℕ
slice payload begin end = take (end - begin) (drop begin payload)

-- The payload with the value between two cursors replaced, and the length of its properties.
unfoldable pub replace_value :
    List ℕ
    → (length_offset properties_begin properties_end value_offset cursor : ℕ) → List ℕ
    → List ℕ
replace_value payload length_offset properties_begin properties_end value_offset cursor encoded =
    take length_offset payload
    ++ (locmaf_varint (properties_end - properties_begin - (cursor - value_offset) + length encoded)
        ++ (slice payload properties_begin value_offset ++ (encoded ++ drop cursor payload)))

-- One round of the loop over the properties.
unfoldable pub property_step :
    List ℕ
    → (length_offset properties_begin properties_end delta_ticks : ℕ) → (ℕ → Run (Option (List ℕ)))
    → ℕ
    → Run (Option (List ℕ))
property_step payload length_offset properties_begin properties_end delta_ticks again cursor =
    if not (ltb cursor properties_end)
    then answers none
    else elim (read_locmaf_varint payload cursor) [
      | none ↦ answers none
      | some (id, cursor') ↦
          if id % 2 == 1
          then elim (read_locmaf_varint payload cursor') [
            | none ↦ answers none
            | some (size, cursor'') ↦
                if ltb (sub64 properties_end cursor'') size
                then answers none
                else again (add64 cursor'' size)
          ]
          else elim (read_locmaf_varint payload cursor') [
            | none ↦ answers none
            | some (value, cursor'') ↦
                if ltb properties_end cursor''
                then answers none
                else if not (id == 10)
                then again cursor''
                else answers (
                    some (
                      replace_value payload length_offset properties_begin properties_end cursor'
                        cursor'' (locmaf_varint (add64 value delta_ticks))))
          ]
    ]

unfoldable pub rebase_properties :
    ℕ
    → List ℕ
    → (length_offset properties_begin properties_end delta_ticks : ℕ) → ℕ
    → Run (Option (List ℕ))
rebase_properties zero payload length_offset begin end delta_ticks cursor = out_of_fuel
rebase_properties (suc fuel) payload length_offset begin end delta_ticks cursor =
    property_step payload length_offset begin end delta_ticks
      (rebase_properties fuel payload length_offset begin end delta_ticks) cursor

unfoldable pub rebase_full : ℕ → List ℕ → ℕ → ℕ → Run (Option (List ℕ))
rebase_full fuel payload delta_ticks cursor = elim (read_locmaf_varint payload cursor) [
  | none ↦ answers none
  | some (properties_length, cursor') ↦
      if ltb (length payload - cursor') properties_length
      then answers none
      else rebase_properties fuel payload cursor cursor' (cursor' + properties_length) delta_ticks
          cursor'
]

abbrev put_chunk : List ℕ → ℕ → Option (List ℕ) → Option (List ℕ)
put_chunk payload cursor none = none
put_chunk payload cursor (some chunk) = some (take cursor payload ++ chunk)

module _ (rebase_cmaf : List ℕ → ℕ → Option (List ℕ)) where
  abbrev rebase_opened : ℕ → List ℕ → ℕ → Opening → Run (Option (List ℕ))
  rebase_opened fuel payload delta_ticks refused = answers none
  rebase_opened fuel payload delta_ticks delta = answers (some payload)
  rebase_opened fuel payload delta_ticks (raw cursor) =
      answers (put_chunk payload cursor (rebase_cmaf (drop cursor payload) delta_ticks))
  rebase_opened fuel payload delta_ticks (full cursor) = rebase_full fuel payload delta_ticks cursor

  unfoldable pub rebase_locmaf_timestamps : ℕ → List ℕ → ℕ → Run (Option (List ℕ))
  rebase_locmaf_timestamps fuel payload delta_ticks = elim (open_object fuel payload 0) [
    | answers opening ↦ rebase_opened fuel payload delta_ticks opening
    | out_of_fuel ↦ out_of_fuel
  ]
