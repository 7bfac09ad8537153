-- ===== src/Mp4/Boxes.antt =====
-- parse_box_range of src/mp4_box.cpp and the boxes that it makes. Bytes are read where the guards of
-- the source have checked that they are there. Sums of sizes are taken in 64 bits.
pub mod Tiling
pub mod Wrapping
use moqxr.Common.{
  ℕ, zero, suc, ◌+◌, ◌-◌, ◌*◌, Bool, true, false, ◌||◌, Option, none, some, List, [], ◌∷◌, ltb, leb,
  ◌==◌, if◌then◌else◌, length, get_or, take, drop,
}
use moqxr.Common.Bytes.{add64}
use moqxr.Common.Texts.{Text, one_of}
use moqxr.Wire.Cursor.{accumulate}

mutual
  -- The type, the offset and size of the span, those of the payload, and the children.
  pub data Mp4Box : Type 0 where
    box : (type : Text) (offset size payload_offset payload_size : ℕ) → Boxes → Mp4Box

  pub data Boxes : Type 0 where
    nil : Boxes
    cons : Mp4Box → Boxes → Boxes

abbrev container_boxes : List Text
container_boxes =
    (b'm' ∷ b'o' ∷ b'o' ∷ b'v' ∷ [])
    ∷ (b't' ∷ b'r' ∷ b'a' ∷ b'k' ∷ [])
    ∷ (b'm' ∷ b'd' ∷ b'i' ∷ b'a' ∷ [])
    ∷ (b'm' ∷ b'i' ∷ b'n' ∷ b'f' ∷ [])
    ∷ (b's' ∷ b't' ∷ b'b' ∷ b'l' ∷ [])
    ∷ (b'm' ∷ b'o' ∷ b'o' ∷ b'f' ∷ [])
    ∷ (b't' ∷ b'r' ∷ b'a' ∷ b'f' ∷ [])
    ∷ (b'm' ∷ b'v' ∷ b'e' ∷ b'x' ∷ [])
    ∷ (b'e' ∷ b'd' ∷ b't' ∷ b's' ∷ [])
    ∷ (b'd' ∷ b'i' ∷ b'n' ∷ b'f' ∷ [])
    ∷ (b'm' ∷ b'e' ∷ b't' ∷ b'a' ∷ [])
    ∷ []

unfoldable pub is_container_type : Text → Bool
unfolding one_of
is_container_type type = one_of type container_boxes

unfoldable pub read_be32 : List ℕ → ℕ → ℕ
read_be32 bytes offset =
    get_or bytes offset 0 * 16777216
    + get_or bytes (offset + 1) 0 * 65536
    + get_or bytes (offset + 2) 0 * 256
    + get_or bytes (offset + 3) 0

unfoldable pub read_be64 : List ℕ → ℕ → ℕ
unfolding accumulate
read_be64 bytes offset = accumulate 8 bytes offset 0

-- The sizes of the header and of the box; `none` where the 64-bit size is cut off.
unfoldable pub box_sizes : List ℕ → ℕ → ℕ → Option (ℕ × ℕ)
unfolding read_be32 read_be64
box_sizes bytes cursor end =
    let small_size = read_be32 bytes cursor in
    if small_size == 1
    then (if ltb end (add64 cursor 16) then none else some (16, read_be64 bytes (add64 cursor 8)))
    else if small_size == 0
    then some (8, end - cursor)
    else some (8, small_size)

-- The boxes, or the exception that was thrown.
pub data Parsed : Type 0 where
  parsed : Boxes → Parsed
  throws : Parsed
  out_of_fuel : Parsed

abbrev then_boxes : Parsed → (Boxes → Parsed) → Parsed
then_boxes (parsed boxes) next = next boxes
then_boxes throws next = throws
then_boxes out_of_fuel next = out_of_fuel

-- One round of the loop with the sizes known; `again` is the parser on another range.
unfoldable pub parse_box : List ℕ → (ℕ → ℕ → Parsed) → ℕ → ℕ → ℕ → ℕ → Parsed
unfolding is_container_type
parse_box bytes again cursor end header_size box_size =
    let type = take 4 (drop (cursor + 4) bytes) in
    let payload_offset = cursor + header_size in
    let payload_size = box_size - header_size in
    if ltb box_size header_size || ltb end (add64 cursor box_size)
    then throws
    else then_boxes
        (if is_container_type type
          then again payload_offset (add64 payload_offset payload_size)
          else parsed nil)
        (λ children. then_boxes (again (add64 cursor box_size) end) (λ rest.
          parsed (cons (box type cursor box_size payload_offset payload_size children) rest)))

unfoldable pub parse_step : List ℕ → (ℕ → ℕ → Parsed) → ℕ → ℕ → Parsed
parse_step bytes again cursor end =
    if leb (add64 cursor 8) end
    then elim (box_sizes bytes cursor end) [
      | none ↦ throws
      | some (header_size, box_size) ↦ parse_box bytes again cursor end header_size box_size
    ]
    else parsed nil

unfoldable pub parse_box_range : ℕ → List ℕ → ℕ → ℕ → Parsed
unfolding parse_step
parse_box_range zero bytes cursor end = out_of_fuel
parse_box_range (suc fuel) bytes cursor end =
    parse_step bytes (parse_box_range fuel bytes) cursor end

-- parse_mp4_boxes, with a byte of fuel for every byte.
unfoldable pub parse_mp4_boxes : List ℕ → Parsed
unfolding parse_box_range
parse_mp4_boxes bytes = parse_box_range (suc (length bytes)) bytes 0 (length bytes)
