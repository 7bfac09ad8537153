-- ===== src/Mp4/Boxes/Tiling.antt =====
-- The boxes of parse_box_range (src/mp4_box.cpp) lie one behind the other in their range.
use moqxr.Common.{
  ℕ, zero, suc, ◌+◌, ◌-◌, ◌^◌, ◌≤◌, ◌<◌, ◌≡◌, refl, Bool, true, not, ◌||◌, Option, none, some, List,
  arith, ltb, leb, ◌==◌, if◌then◌else◌, length, All, Bool-cases, Option-cases, inl, inr, take, drop,
}
use moqxr.Common.Bytes.{IsByte, add64, all_below, all_below_sound}
use moqxr.Common.Texts.{Text}
use moqxr.Wire.Cursor.{get_or-IsByte}
use moqxr.Mp4.Boxes.{
  box, Boxes, nil, cons, Parsed, parsed, throws, out_of_fuel, read_be32, read_be64, parse_mp4_boxes,
  box_sizes, parse_box, parse_step, parse_box_range, is_container_type, then_boxes,
}

-- The boxes begin where they should, each lies behind the one before and within the range, its
-- payload is its end, and its children lie within its payload in the same way.
abbrev Tiles : ℕ → ℕ → Boxes → Type 0
Tiles begin end nil = Unit {0}
Tiles begin end (cons (box type offset size payload_offset payload_size children) rest) =
    (offset ≡ begin)
    × (offset + 8 ≤ payload_offset)
    × (payload_offset + payload_size ≡ offset + size)
    × (offset + size ≤ end)
    × Tiles payload_offset (payload_offset + payload_size) children
    × Tiles (offset + size) end rest

-- What a parse of a range may come to.
abbrev pub Answers : ℕ → ℕ → Parsed → Type 0
Answers begin end (parsed boxes) = Tiles begin end boxes
Answers begin end throws = Unit {0}
Answers begin end out_of_fuel = ⊥

module _ (type : Text) (cursor size payload_offset payload_size end : ℕ)
    (header : cursor + 8 ≤ payload_offset) (ends : payload_offset + payload_size ≡ cursor + size)
    (inside : cursor + size ≤ end) where
  joined :
      (children rest : Parsed)
      → Answers payload_offset (payload_offset + payload_size) children
      → Answers (cursor + size) end rest
      → Answers cursor end (
          then_boxes children (λ c.
            then_boxes rest
              (λ r. parsed (cons (box type cursor size payload_offset payload_size c) r))))
  joined (parsed c) (parsed r) h k = (refl, header, ends, inside, h, k)
  joined (parsed c) throws h k = tt
  joined throws rest h k = tt
  joined out_of_fuel rest h k = absurd h
  joined (parsed c) out_of_fuel h k = absurd k

-- No box that the bytes could show has a 64-bit size of 2^63 or more.
abbrev small_sizes : List ℕ → Bool
small_sizes bytes =
    all_below (length bytes)
      (λ i. not (read_be32 bytes i == 1) || ltb (read_be64 bytes (i + 8)) 9223372036854775808)

module _ (bytes : List ℕ) (are_bytes : All IsByte bytes) (short : length bytes < 2 ^ 62)
    (small : small_sizes bytes ≡ true) where
  be32_lt : (i : ℕ) → read_be32 bytes i < 2 ^ 32
  unfolding read_be32
  be32_lt i = omega (
    arith,
    get_or-IsByte bytes i are_bytes,
    get_or-IsByte bytes (i + 1) are_bytes,
    get_or-IsByte bytes (i + 2) are_bytes,
    get_or-IsByte bytes (i + 3) are_bytes,
  )

  abbrev SizesFit : Option (ℕ × ℕ) → Type 0
  SizesFit none = Unit {0}
  SizesFit (some (header_size, box_size)) =
      (8 ≤ header_size) × (header_size ≤ 16) × (box_size < 2 ^ 63)

  sizes_fit :
      (cursor end : ℕ)
      → cursor + 8 ≤ end
      → end ≤ length bytes
      → SizesFit (box_sizes bytes cursor end)
  unfolding box_sizes
  sizes_fit cursor end h k =
      ground (arith, be32_lt cursor, all_below_sound (length bytes) _ cursor small)

  module _ (again : ℕ → ℕ → Parsed) (fuel : ℕ)
      (answers : (c e : ℕ)
        → e ≤ length bytes
        → c < 2 ^ 63
        → e - c < fuel
        → Answers c e (again c e)) where
    children_answer :
        (type : Text) (payload_offset payload_size : ℕ)
        → payload_offset + payload_size ≤ length bytes
        → payload_size < fuel
        → Answers payload_offset (payload_offset + payload_size) (
            if is_container_type type
            then again payload_offset (add64 payload_offset payload_size)
            else parsed nil)
    children_answer type payload_offset payload_size h k =
        let sum : add64 payload_offset payload_size ≡ payload_offset + payload_size = omega arith in
        elim (Bool-cases (is_container_type type)) [
          | inl holds ↦ rw (holds, sum) (answers payload_offset _ h (omega arith) (omega arith))
          | inr leaf ↦ rw leaf tt
        ]

    box-Answers :
        (cursor end header_size box_size : ℕ)
        → 8 ≤ header_size
        → box_size < 2 ^ 63
        → cursor + 8 ≤ end
        → end ≤ length bytes
        → end - cursor ≤ fuel
        → Answers cursor end (parse_box bytes again cursor end header_size box_size)
    unfolding parse_box
    box-Answers cursor end header_size box_size h s c e f =
        let sum : add64 cursor box_size ≡ cursor + box_size = omega arith in
        elim (Bool-cases (ltb box_size header_size || ltb end (add64 cursor box_size))) [
          | inl bad ↦ rw bad tt
          | inr good ↦
              let fits : header_size ≤ box_size = ground (arith, good) in
              let inside : cursor + box_size ≤ end = ground (arith, rw sum at good) in
              rw (good, sum)
                (joined (take 4 (drop (cursor + 4) bytes)) cursor box_size (cursor + header_size)
                  (box_size - header_size) end (omega arith) (omega arith) inside _ _
                  (children_answer (take 4 (drop (cursor + 4) bytes)) (cursor + header_size)
                    (box_size - header_size) (omega arith) (omega arith))
                  (answers (cursor + box_size) end e (omega arith) (omega arith)))
        ]

    step-Answers :
        (cursor end : ℕ)
        → end ≤ length bytes
        → end - cursor ≤ fuel
        → cursor < 2 ^ 63
        → Answers cursor end (parse_step bytes again cursor end)
    unfolding parse_step
    step-Answers cursor end e f u =
        let sum : add64 cursor 8 ≡ cursor + 8 = omega arith in
        elim (Bool-cases (leb (add64 cursor 8) end)) [
          | inl more ↦
              let room : cursor + 8 ≤ end = ground (arith, rw sum at more) in
              elim (Option-cases (box_sizes bytes cursor end)) [
                | inl cut ↦ rw (more, cut) tt
                | inr ((header_size, box_size), p) ↦
                    let fit : SizesFit (some (header_size, box_size)) =
                      rw p at (sizes_fit cursor end room e) in
                    rw (more, p) (box-Answers cursor end header_size box_size fit.0 fit.2 room e f)
              ]
          | inr done ↦ rw done tt
        ]

  range-Answers :
      (fuel cursor end : ℕ)
      → end ≤ length bytes
      → cursor < 2 ^ 63
      → end - cursor < fuel
      → Answers cursor end (parse_box_range fuel bytes cursor end)
  unfolding parse_box_range
  range-Answers zero cursor end e u f = absurd (omega arith)
  range-Answers (suc fuel) cursor end e u f =
      step-Answers (parse_box_range fuel bytes) fuel (λ c d. range-Answers fuel c d) cursor end e
        (omega arith) u

-- On fewer than 2^62 bytes, where no place that holds the 32-bit number 1 is followed, 8 bytes on, by
-- a 64-bit number of 2^63 or more,
-- parse_mp4_boxes throws or returns boxes; these begin at 0 and lie one behind the other within the
-- bytes, and the children of each lie in the same way within its payload, which is its end.
pub parse_mp4_boxes-Answers :
    (bytes : List ℕ)
    → All IsByte bytes
    → length bytes < 2 ^ 62
    → small_sizes bytes ≡ true
    → Answers 0 (length bytes) (parse_mp4_boxes bytes)
unfolding parse_mp4_boxes
parse_mp4_boxes-Answers bytes are_bytes short small =
    range-Answers bytes are_bytes short small (suc (length bytes)) 0 (length bytes) (omega arith)
      (omega arith) (omega arith)
