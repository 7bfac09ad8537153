-- ===== src/Loop/Locmaf/Rebased.antt =====
-- rebase_locmaf_timestamps (src/loop_timestamps.cpp) on a full object in its form.
use moqxr.Common.{
  ℕ, zero, suc, ◌+◌, ◌-◌, ◌^◌, ◌≤◌, ◌<◌, ◌≡◌, refl, sym, ap, ◌∙◌, false, Option, some, List, [],
  ◌∷◌, ◌++◌, arith, ltb, length, length-append, append_assoc, All,
}
use moqxr.Common.Bytes.{IsByte, IsU64, add64, sub64}
use moqxr.Loop.Varint.{locmaf_varint}
use moqxr.Loop.Locmaf.{Run, answers, full, open_object, rebase_properties, replace_value}
use moqxr.Loop.Locmaf.Steps.{
  open_step-full, open_step-box, property_step-bytes, property_step-value, property_step-base,
}
use moqxr.Loop.Locmaf.Format.{
  Entry, value_entry, bytes_entry, entries_bytes, IsOther, boxes_bytes, read-at, behind,
  locmaf_varint_size,
}

module _ (payload : List ℕ) (h : All IsByte payload) (short : length payload < 2 ^ 62) where
  total :
      (front rest : List ℕ) → payload ≡ front ++ rest → length payload ≡ length front + length rest
  total front rest e = ap length e ∙ length-append front rest

  -- What stands behind a first integer, a second, and some bytes.
  module _ (front : List ℕ) (a b : ℕ) (bytes rest : List ℕ)
      (e : payload ≡ front ++ (locmaf_varint a ++ (locmaf_varint b ++ (bytes ++ rest)))) where
    abbrev past_one : List ℕ
    past_one = front ++ locmaf_varint a

    abbrev past_two : List ℕ
    past_two = past_one ++ locmaf_varint b

    abbrev past_bytes : List ℕ
    past_bytes = past_two ++ bytes

    stands_one : payload ≡ past_one ++ (locmaf_varint b ++ (bytes ++ rest))
    stands_one = behind payload front (locmaf_varint a) _ e

    stands_two : payload ≡ past_two ++ (bytes ++ rest)
    stands_two = behind payload past_one (locmaf_varint b) _ stands_one

    stands_bytes : payload ≡ past_bytes ++ rest
    stands_bytes = behind payload past_two bytes rest stands_two

    bytes_fit : length past_two + length bytes ≤ length payload
    bytes_fit = omega (arith, total past_bytes rest stands_bytes, length-append past_two bytes)

    length-past_bytes : length past_two + length bytes ≡ length past_bytes
    length-past_bytes = sym (length-append past_two bytes)

  pub opened :
      (boxes : List (List ℕ)) (fuel : ℕ) (front tail : List ℕ)
      → length boxes < fuel
      → payload ≡ front ++ (boxes_bytes boxes ++ (locmaf_varint 2 ++ tail))
      → open_object fuel payload (length front)
        ≡ answers (full (length (front ++ (boxes_bytes boxes ++ locmaf_varint 2))))
  unfolding open_object
  opened boxes zero front tail lt e = absurd (omega arith)
  opened [] (suc fuel) front tail lt e =
      open_step-full payload _ (length front) _ (read-at payload h front 2 tail (omega arith) e)
  opened (box ∷ boxes) (suc fuel) front tail lt e =
      let rest = boxes_bytes boxes ++ (locmaf_varint 2 ++ tail) in
      let n = length box in
      let e1 : payload ≡ front ++ (locmaf_varint 1 ++ (locmaf_varint n ++ (box ++ rest))) =
        e ∙ simp append_assoc in
      let fit = bytes_fit front 1 n box rest e1 in
      let front' = past_bytes front 1 n box rest e1 in
      open_step-box payload (open_object fuel payload) (length front) _ n _
        (read-at payload h front 1 _ (omega arith) e1)
        (read-at payload h (front ++ locmaf_varint 1) n _ (omega (arith, fit))
          (stands_one front 1 n box rest e1))
        (omega (arith, fit))
      ∙ ap (open_object fuel payload) (length-past_bytes front 1 n box rest e1)
      ∙ opened boxes fuel front' tail (omega arith) (stands_bytes front 1 n box rest e1)
      ∙ ap (λ (l : List ℕ). answers (full (length l))) (simp append_assoc)

  length-past_two :
      (front : List ℕ) (a b : ℕ)
      → length ((front ++ locmaf_varint a) ++ locmaf_varint b)
        ≡ length front + length (locmaf_varint a) + length (locmaf_varint b)
  length-past_two front a b = omega (
    arith,
    length-append (front ++ locmaf_varint a) (locmaf_varint b),
    length-append front (locmaf_varint a),
  )

  module _ (length_offset begin end delta base : ℕ) (rest : List ℕ) (u : IsU64 base)
      (inside : end ≤ length payload) where
    abbrev pub replaced : ℕ → ℕ → Run (Option (List ℕ))
    replaced value_offset cursor = answers (
        some (
          replace_value payload length_offset begin end value_offset cursor
            (locmaf_varint (add64 base delta))))

    abbrev pub base_bytes : List ℕ
    base_bytes = locmaf_varint 10 ++ (locmaf_varint base ++ rest)

    pub walked :
        (before : List Entry) (fuel : ℕ) (front : List ℕ)
        → length before < fuel
        → All IsOther before
        → payload ≡ front ++ (entries_bytes before ++ base_bytes)
        → length front
            + length (entries_bytes before)
            + length (locmaf_varint 10)
            + length (locmaf_varint base)
          ≤ end
        → rebase_properties fuel payload length_offset begin end delta (length front)
          ≡ replaced
              (length (front ++ (entries_bytes before ++ locmaf_varint 10)))
              (length ((front ++ (entries_bytes before ++ locmaf_varint 10)) ++ locmaf_varint base))
    unfolding rebase_properties
    walked before zero front lt others e room = absurd (omega arith)
    walked [] (suc fuel) front lt others e room =
        property_step-base payload length_offset begin end delta _ (length front) 10
          (length (front ++ locmaf_varint 10))
          (omega (arith, room, locmaf_varint_size 10 (omega arith)))
          (read-at payload h front 10 _ (omega arith) e) base _ (omega arith)
          (read-at payload h (front ++ locmaf_varint 10) base rest u
            (behind payload front (locmaf_varint 10) _ e))
          (omega (arith, room, length-past_two front 10 base)) refl
    walked (value_entry id value ∷ before) (suc fuel) front lt others e room =
        let later = entries_bytes before ++ base_bytes in
        let e1 : payload ≡ front ++ (locmaf_varint id ++ (locmaf_varint value ++ ([] ++ later))) =
          e ∙ simp append_assoc in
        let (even, other, small, small') = others.0 in
        let sizes = length-past_two front id value in
        let entry = length-append (locmaf_varint id) (locmaf_varint value) in
        let all = length-append (locmaf_varint id ++ locmaf_varint value) (entries_bytes before) in
        property_step-value payload length_offset begin end delta _ (length front) id _
          (omega (arith, room, locmaf_varint_size 10 (omega arith)))
          (read-at payload h front id _ small e1) value _ even
          (read-at payload h (front ++ locmaf_varint id) value later small'
            (stands_one front id value [] later e1))
          (omega (arith, room, sizes, entry, all)) other
        ∙ walked before fuel _ (omega arith) others.1 (stands_two front id value [] later e1)
            (omega (arith, room, sizes, entry, all))
        ∙ ap (λ (l : List ℕ). replaced (length l) (length (l ++ locmaf_varint base)))
            (simp append_assoc)
    walked (bytes_entry id bytes ∷ before) (suc fuel) front lt others e room =
        let later = entries_bytes before ++ base_bytes in
        let n = length bytes in
        let e1 : payload ≡ front ++ (locmaf_varint id ++ (locmaf_varint n ++ (bytes ++ later))) =
          e ∙ simp append_assoc in
        let (odd, small) = others.0 in
        let sizes = length-past_two front id n in
        let entry = length-append (locmaf_varint id) (locmaf_varint n ++ bytes) in
        let entry' = length-append (locmaf_varint n) bytes in
        let all =
          length-append (locmaf_varint id ++ (locmaf_varint n ++ bytes)) (entries_bytes before) in
        let behind_bytes = length-past_bytes front id n bytes later e1 in
        let two = length ((front ++ locmaf_varint id) ++ locmaf_varint n) in
        let within : two + n ≤ end = omega (arith, room, sizes, entry, entry', all) in
        let left : sub64 end two ≡ end - two = omega (arith, within, inside, short) in
        let fits : ltb (sub64 end two) n ≡ false = rw left (ground (arith, within)) in
        let next : add64 two n ≡ length (past_bytes front id n bytes later e1) =
          omega (arith, behind_bytes, within, inside, short) in
        property_step-bytes payload length_offset begin end delta _ (length front) id _
          (omega (arith, room, locmaf_varint_size 10 (omega arith)))
          (read-at payload h front id _ small e1) n _ odd
          (read-at payload h (front ++ locmaf_varint id) n (bytes ++ later)
            (omega (arith, within, inside, short)) (stands_one front id n bytes later e1))
          fits
        ∙ ap (rebase_properties fuel payload length_offset begin end delta) next
        ∙ walked before fuel _ (omega arith) others.1 (stands_bytes front id n bytes later e1)
            (omega (arith, room, sizes, entry, entry', all, behind_bytes))
        ∙ ap (λ (l : List ℕ). replaced (length l) (length (l ++ locmaf_varint base)))
            (simp append_assoc)
