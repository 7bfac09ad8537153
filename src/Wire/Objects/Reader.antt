-- ===== src/Wire/Objects/Reader.antt =====
-- How a subscriber reads the objects that encode_subgroup_object of src/transport/moqt_control_messages.cpp
-- writes: an independent description of their format, by the drafts' texts under docs/.
use moqxr.Common.{
  ℕ, ◌+◌, ◌<◌, ◌≡◌, Bool, true, false, Option, none, some, List, [], ◌++◌, arith, if◌then◌else◌,
  length, take, drop, ◌>>=◌,
}
use moqxr.Draft.{DraftVersion}
use moqxr.Wire.Cursor.{fits}
use moqxr.Wire.Moqint.{decode_moqint_impl, moqint_limit}
use moqxr.Wire.Moqint.RoundTrip.{Stands}
use moqxr.Wire.Fields.Strings.{
  string_bytes, string_length-Stands, string_fits, string_value, string_end,
}
use moqxr.Wire.Objects.{is_no_payload}

-- A length with that many bytes behind it, and the cursor behind them.
unfoldable pub read_sized : List ℕ → ℕ → DraftVersion → Option (List ℕ × ℕ)
read_sized bytes offset draft = elim (decode_moqint_impl bytes offset draft) [
  | none ↦ none
  | some (size, offset') ↦
      if fits offset' size (length bytes)
      then some (take size (drop offset' bytes), offset' + size)
      else none
]

abbrev pub next_id : Option ℕ → ℕ → ℕ
next_id none delta = delta
next_id (some previous) delta = previous + delta + 1

unfoldable pub read_properties : List ℕ → ℕ → DraftVersion → Bool → Option (List ℕ × ℕ)
read_properties bytes offset draft true = read_sized bytes offset draft
read_properties bytes offset draft false = some ([], offset)

-- The cursor behind an integer, whatever its value.
abbrev pub skip_moqint : List ℕ → ℕ → DraftVersion → Option ℕ
skip_moqint bytes offset draft = elim (decode_moqint_impl bytes offset draft) [
  | none ↦ none
  | some (value, offset') ↦ some offset'
]

-- In every draft an Object Status stands behind a payload length of zero.
unfoldable pub skip_status : List ℕ → ℕ → DraftVersion → List ℕ → Option ℕ
skip_status bytes offset draft payload =
    if is_no_payload payload then skip_moqint bytes offset draft else some offset

-- What a subscriber reads: the id, the properties, the payload, and the cursor behind the object.
unfoldable pub read_object :
    List ℕ → ℕ → DraftVersion → Option ℕ → Bool → Option (ℕ × List ℕ × List ℕ × ℕ)
read_object bytes offset draft previous present = do
  (delta, offset1) ← decode_moqint_impl bytes offset draft
  (properties, offset2) ← read_properties bytes offset1 draft present
  (payload, offset3) ← read_sized bytes offset2 draft
  offset4 ← skip_status bytes offset3 draft payload
  some (next_id previous delta, properties, payload, offset4)

pub read_sized-Stands :
    (draft : DraftVersion) (bytes : List ℕ) (offset : ℕ) (value rest : List ℕ)
    → length value < moqint_limit draft
    → Stands bytes offset (string_bytes draft value ++ rest)
    → read_sized bytes offset draft ≡ some (value, offset + length (string_bytes draft value))
unfolding read_sized
read_sized-Stands draft bytes offset value rest h s = ground (
  arith,
  string_length-Stands draft bytes offset value rest h s,
  string_fits draft bytes offset value rest h s,
  string_value draft bytes offset value rest h s,
  string_end draft bytes offset value rest h s,
)

pub properties-Stands :
    (draft : DraftVersion) (present : Bool) (properties : List ℕ) (bytes : List ℕ) (offset : ℕ)
    (rest : List ℕ)
    → length properties < moqint_limit draft
    → Stands bytes offset ((if present then string_bytes draft properties else []) ++ rest)
    → read_properties bytes offset draft present
      ≡ some (
        (if present then properties else []),
        offset + length (if present then string_bytes draft properties else []),
      )
unfolding read_properties
properties-Stands draft true properties bytes offset rest h s =
    read_sized-Stands draft bytes offset properties rest h s
properties-Stands draft false properties bytes offset rest h s = ground arith
