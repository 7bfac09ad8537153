-- ===== src/Mp4/Boxes/Wrapping.antt =====
-- parse_box_range (src/mp4_box.cpp) on a 64-bit size with which the sum of cursor and size wraps.
use moqxr.Common.{
  ℕ, zero, suc, ◌+◌, ◌-◌, ◌^◌, ◌≤◌, ◌<◌, ◌≡◌, refl, true, false, ◌||◌, some, List, arith, ltb, leb,
  take, drop,
}
use moqxr.Common.Bytes.{add64}
use moqxr.Mp4.Boxes.{
  Parsed, out_of_fuel, box_sizes, parse_box, parse_step, parse_box_range, is_container_type,
}

-- A box with no children whose cursor, wrapped, is followed by nothing that ends the loop.
leaf_box :
    (bytes : List ℕ) (again : ℕ → ℕ → Parsed) (cursor end header_size box_size next : ℕ)
    → leb (add64 cursor 8) end ≡ true
    → box_sizes bytes cursor end ≡ some (header_size, box_size)
    → is_container_type (take 4 (drop (cursor + 4) bytes)) ≡ false
    → (ltb box_size header_size || ltb end (add64 cursor box_size)) ≡ false
    → add64 cursor box_size ≡ next
    → again next end ≡ out_of_fuel
    → parse_step bytes again cursor end ≡ out_of_fuel
unfolding parse_step parse_box
leaf_box bytes again cursor end header_size box_size next room sizes leaf good sum stuck =
    rw (room, sizes, good, leaf, sum, stuck)

module _ (bytes : List ℕ) (first end : ℕ) (plain : box_sizes bytes 0 end ≡ some (8, first))
    (huge : box_sizes bytes first end ≡ some (16, 2 ^ 64 - first))
    (leaf : is_container_type (take 4 (drop 4 bytes)) ≡ false)
    (leaf' : is_container_type (take 4 (drop (first + 4) bytes)) ≡ false) (header : 8 ≤ first)
    (inside : first + 16 ≤ end) (short : end < 2 ^ 62) where
  both_stuck :
      (fuel : ℕ)
      → (parse_box_range fuel bytes 0 end ≡ out_of_fuel)
        × (parse_box_range fuel bytes first end ≡ out_of_fuel)
  unfolding parse_box_range
  both_stuck zero = (refl, refl)
  both_stuck (suc fuel) =
      let (front, back) = both_stuck fuel in
      (
        leaf_box bytes (parse_box_range fuel bytes) 0 end 8 first first (ground arith) plain leaf
            (ground arith) (omega arith) back,
        leaf_box bytes (parse_box_range fuel bytes) first end 16 (2 ^ 64 - first) 0 (ground arith)
            huge leaf' (ground arith) (omega arith) front,
      )

-- Where a box without children, of a 32-bit size, is followed by one without children whose 64-bit
-- size is 2^64 less the cursor, parse_box_range does not end, on fewer than 2^62 bytes: with any
-- number of rounds it comes back to the first box.
pub parse_box_range-wraps :
    (bytes : List ℕ) (first end : ℕ)
    → box_sizes bytes 0 end ≡ some (8, first)
    → box_sizes bytes first end ≡ some (16, 2 ^ 64 - first)
    → is_container_type (take 4 (drop 4 bytes)) ≡ false
    → is_container_type (take 4 (drop (first + 4) bytes)) ≡ false
    → 8 ≤ first
    → first + 16 ≤ end
    → end < 2 ^ 62
    → (fuel : ℕ) → parse_box_range fuel bytes 0 end ≡ out_of_fuel
parse_box_range-wraps bytes first end plain huge leaf leaf' header inside short fuel =
    (both_stuck bytes first end plain huge leaf leaf' header inside short fuel).0
