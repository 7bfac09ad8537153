-- ===== src/Tests/Mp4.antt =====
-- Boxes of MP4 files on concrete bytes.
use moqxr.Common.{ℕ, ◌-◌, ◌^◌, ◌≡◌, refl, false, some, List, [], ◌∷◌, ◌++◌, arith, All}
use moqxr.Common.Bytes.{IsByte, all_below}
use moqxr.Mp4.Boxes.{
  box, nil, cons, parsed, out_of_fuel, box_sizes, read_be32, parse_box, is_container_type,
  parse_box_range, parse_mp4_boxes,
}
use moqxr.Mp4.Boxes.Tiling.{Answers, parse_mp4_boxes-Answers}
use moqxr.Mp4.Boxes.Wrapping.{parse_box_range-wraps}

abbrev free : List ℕ
free = b'f' ∷ b'r' ∷ b'e' ∷ b'e' ∷ []

abbrev moof : List ℕ
moof = b'm' ∷ b'o' ∷ b'o' ∷ b'f' ∷ []

-- A moof box with one free box in it.
abbrev nested : List ℕ
nested = 0 ∷ 0 ∷ 0 ∷ 16 ∷ (moof ++ (0 ∷ 0 ∷ 0 ∷ 8 ∷ free))

nested-AreBytes : All IsByte nested
nested-AreBytes = omega arith

parse_mp4_boxes-Answers_example : Answers 0 16 (parse_mp4_boxes nested)
unfolding all_below read_be32
parse_mp4_boxes-Answers_example = parse_mp4_boxes-Answers nested nested-AreBytes (omega arith) refl

nested_test :
    parse_mp4_boxes nested
    ≡ parsed (cons (box moof 0 16 8 8 (cons (box free 8 8 16 0 nil) nil)) nil)
unfolding parse_mp4_boxes box_sizes parse_box
nested_test = refl

-- A free box, and another with the 64-bit size 2^64 - 8.
abbrev wrapping : List ℕ
wrapping =
    0
    ∷ 0
    ∷ 0
    ∷ 8
    ∷ (free
        ++ (0 ∷ 0 ∷ 0 ∷ 1 ∷ (free ++ (0xff ∷ 0xff ∷ 0xff ∷ 0xff ∷ 0xff ∷ 0xff ∷ 0xff ∷ 0xf8 ∷ []))))

first_sizes : box_sizes wrapping 0 24 ≡ some (8, 8)
unfolding box_sizes
first_sizes = refl

second_sizes : box_sizes wrapping 8 24 ≡ some (16, 2 ^ 64 - 8)
unfolding box_sizes
second_sizes = refl

free-IsLeaf : is_container_type free ≡ false
unfolding is_container_type
free-IsLeaf = refl

parse_box_range-wraps_example : parse_box_range 1000 wrapping 0 24 ≡ out_of_fuel
parse_box_range-wraps_example =
    parse_box_range-wraps wrapping 8 24 first_sizes second_sizes free-IsLeaf free-IsLeaf
      (omega arith) (omega arith) (omega arith) 1000
