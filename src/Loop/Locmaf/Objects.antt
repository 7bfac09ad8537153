-- ===== src/Loop/Locmaf/Objects.antt =====
-- rebase_locmaf_timestamps (src/loop_timestamps.cpp) on a whole object.
use moqxr.Common.{
  ℕ, ◌+◌, ◌-◌, ◌^◌, ◌≤◌, ◌<◌, ◌≡◌, refl, sym, ap, ◌∙◌, Option, some, List, [], ◌∷◌, ◌++◌, arith,
  length, length-append, append_assoc, All, drop, take-append_self, drop-append_self,
}
use moqxr.Common.Bytes.{IsByte, IsU64, add64}
use moqxr.Loop.Varint.{locmaf_varint}
use moqxr.Loop.Locmaf.{
  answers, full, open_object, rebase_properties, replace_value, rebase_full,
  rebase_locmaf_timestamps, slice,
}
use moqxr.Loop.Locmaf.Format.{
  Entry, value_entry, bytes_entry, entry_bytes, entries_bytes, IsOther, boxes_bytes, properties,
  object, read-at, locmaf_varint_size,
}
use moqxr.Loop.Locmaf.Steps.{rebase_full-step, rebase_locmaf-full}
use moqxr.Loop.Locmaf.Rebased.{opened, walked}

slice-append :
    (front part rest : List ℕ)
    → slice (front ++ (part ++ rest)) (length front) (length (front ++ part)) ≡ part
slice-append front part rest =
    let size : length (front ++ part) - length front ≡ length part =
      omega (arith, length-append front part) in
    rw (size, drop-append_self front (part ++ rest), take-append_self part rest)

replace-eq :
    (front size part base after body encoded : List ℕ)
    → let begin = length (front ++ size) in
      replace_value
        (front ++ (size ++ (part ++ (base ++ (after ++ body)))))
        (length front)
        begin
        (begin + length (part ++ (base ++ after)))
        (length ((front ++ size) ++ part))
        (length (((front ++ size) ++ part) ++ base))
        encoded
      ≡ front
        ++ (locmaf_varint (length (part ++ (encoded ++ after)))
            ++ (part ++ (encoded ++ (after ++ body))))
unfolding replace_value
replace-eq front size part base after body encoded =
    let tail = after ++ body in
    let payload = front ++ (size ++ (part ++ (base ++ tail))) in
    let begin = length (front ++ size) in
    let value_offset = length ((front ++ size) ++ part) in
    let cursor = length (((front ++ size) ++ part) ++ base) in
    let kept : slice payload begin value_offset ≡ part =
      ap (λ (p : List ℕ). slice p begin value_offset)
        (sym (append_assoc front size (part ++ (base ++ tail))))
      ∙ slice-append (front ++ size) part (base ++ tail) in
    let left : drop cursor payload ≡ tail =
      ap (drop cursor) (simp append_assoc)
      ∙ drop-append_self (((front ++ size) ++ part) ++ base) tail in
    let count : begin
          + length (part ++ (base ++ after))
          - begin
          - (cursor - value_offset)
          + length encoded
        ≡ length (part ++ (encoded ++ after)) =
      omega (
        arith,
        length-append part (base ++ after),
        length-append part (encoded ++ after),
        length-append base after,
        length-append encoded after,
        length-append ((front ++ size) ++ part) base,
      ) in
    rw (take-append_self front (size ++ (part ++ (base ++ tail))), count, kept, left)

boxes_few : (boxes : List (List ℕ)) → length boxes ≤ length (boxes_bytes boxes)
boxes_few [] = omega arith
boxes_few (box ∷ boxes) = omega (
  arith,
  length-append (locmaf_varint 1) (locmaf_varint (length box) ++ (box ++ boxes_bytes boxes)),
  length-append (locmaf_varint (length box)) (box ++ boxes_bytes boxes),
  length-append box (boxes_bytes boxes),
  locmaf_varint_size 1 (omega arith),
  boxes_few boxes,
)

entry_some : (entry : Entry) → IsOther entry → 1 ≤ length (entry_bytes entry)
entry_some (value_entry id value) o =
    omega (arith, length-append (locmaf_varint id) (locmaf_varint value), locmaf_varint_size id o.2)
entry_some (bytes_entry id bytes) o = omega (
  arith,
  length-append (locmaf_varint id) (locmaf_varint (length bytes) ++ bytes),
  locmaf_varint_size id o.1,
)

entries_few :
    (entries : List Entry) → All IsOther entries → length entries ≤ length (entries_bytes entries)
entries_few [] o = omega arith
entries_few (entry ∷ entries) o = omega (
  arith,
  length-append (entry_bytes entry) (entries_bytes entries),
  entry_some entry o.0,
  entries_few entries o.1,
)

module _ (rebase_cmaf : List ℕ → ℕ → Option (List ℕ)) (boxes : List (List ℕ)) (before : List Entry)
    (base delta : ℕ) (after body : List ℕ) (fuel : ℕ)
    (are_bytes : All IsByte (object boxes before base after body))
    (short : length (object boxes before base after body) < 2 ^ 62) (others : All IsOther before)
    (u : IsU64 base) (enough : length (object boxes before base after body) < fuel) where
  abbrev payload : List ℕ
  payload = object boxes before base after body

  abbrev front : List ℕ
  front = boxes_bytes boxes ++ locmaf_varint 2

  abbrev plain : List ℕ
  plain = properties before base after

  at_size : payload ≡ front ++ (locmaf_varint (length plain) ++ (plain ++ body))
  at_size = simp append_assoc

  sizes :
      length payload
      ≡ length front + length (locmaf_varint (length plain)) + length plain + length body
  sizes =
      ap length at_size
      ∙ omega (
        arith,
        length-append front (locmaf_varint (length plain) ++ (plain ++ body)),
        length-append (locmaf_varint (length plain)) (plain ++ body),
        length-append plain body,
      )

  plain_sizes :
      length plain
      ≡ length (entries_bytes before)
        + length (locmaf_varint 10)
        + length (locmaf_varint base)
        + length after
  plain_sizes = omega (
    arith,
    length-append (entries_bytes before) (locmaf_varint 10 ++ (locmaf_varint base ++ after)),
    length-append (locmaf_varint 10) (locmaf_varint base ++ after),
    length-append (locmaf_varint base) after,
  )

  abbrev start : List ℕ
  start = front ++ locmaf_varint (length plain)

  start_size : length start ≡ length front + length (locmaf_varint (length plain))
  start_size = length-append front (locmaf_varint (length plain))

  at_properties :
      payload
      ≡ start
        ++ (entries_bytes before ++ (locmaf_varint 10 ++ (locmaf_varint base ++ (after ++ body))))
  at_properties = simp append_assoc

  finds_object : open_object fuel payload 0 ≡ answers (full (length front))
  finds_object =
      opened payload are_bytes short boxes fuel [] _
        (omega (
          arith,
          sizes,
          boxes_few boxes,
          length-append (boxes_bytes boxes) (locmaf_varint 2),
          enough,
        ))
        refl

  abbrev part : List ℕ
  part = entries_bytes before ++ locmaf_varint 10

  finds_base :
      rebase_properties fuel payload
        (length front)
        (length start)
        (length start + length plain)
        delta
        (length start)
      ≡ answers (
          some (
            replace_value payload
              (length front)
              (length start)
              (length start + length plain)
              (length (start ++ part))
              (length ((start ++ part) ++ locmaf_varint base))
              (locmaf_varint (add64 base delta))))
  finds_base =
      walked payload are_bytes short (length front) (length start) (length start + length plain)
        delta base (after ++ body) u (omega (arith, sizes, start_size)) before fuel start
        (omega (arith, sizes, plain_sizes, entries_few before others, enough)) others at_properties
        (omega (arith, plain_sizes))

  rebases_full :
      rebase_full fuel payload delta (length front)
      ≡ answers (
          some (
            replace_value payload
              (length front)
              (length start)
              (length start + length plain)
              (length (start ++ part))
              (length ((start ++ part) ++ locmaf_varint base))
              (locmaf_varint (add64 base delta))))
  rebases_full =
      rebase_full-step fuel payload delta (length front) (length plain) (length start)
        (read-at payload are_bytes front (length plain) (plain ++ body)
          (omega (arith, sizes, short)) at_size)
        (omega (arith, sizes, start_size))
      ∙ finds_base

  replaced_payload :
      (encoded : List ℕ)
      → replace_value payload
          (length front)
          (length start)
          (length start + length plain)
          (length (start ++ part))
          (length ((start ++ part) ++ locmaf_varint base))
          encoded
        ≡ front
          ++ (locmaf_varint (length (part ++ (encoded ++ after)))
              ++ (part ++ (encoded ++ (after ++ body))))
  replaced_payload encoded =
      let size = locmaf_varint (length plain) in
      let value = locmaf_varint base in
      let payload' = front ++ (size ++ (part ++ (value ++ (after ++ body)))) in
      let replace = λ (p : List ℕ) (n : ℕ).
        replace_value p (length front) (length start) (length start + n) (length (start ++ part))
          (length ((start ++ part) ++ value)) encoded in
      ap (λ (p : List ℕ). replace p (length plain)) (simp append_assoc)
      ∙ ap (λ (l : List ℕ). replace payload' (length l))
          (sym (append_assoc (entries_bytes before) (locmaf_varint 10) (value ++ after)))
      ∙ replace-eq front size part value after body encoded

-- A full object of bytes, shorter than 2^62 and with fuel for more rounds than it has bytes, whose
-- properties before the base time are in their form, is rewritten as the same object with the base
-- time moved on by the ticks, modulo 2^64: the boxes, the other properties and the rest stay, and the
-- length of the properties is the new one.
pub rebase_locmaf-object :
    (rebase_cmaf : List ℕ → ℕ → Option (List ℕ)) (boxes : List (List ℕ)) (before : List Entry)
    (base delta : ℕ) (after body : List ℕ) (fuel : ℕ)
    → All IsByte (object boxes before base after body)
    → length (object boxes before base after body) < 2 ^ 62
    → All IsOther before
    → IsU64 base
    → length (object boxes before base after body) < fuel
    → rebase_locmaf_timestamps rebase_cmaf fuel (object boxes before base after body) delta
      ≡ answers (some (object boxes before (add64 base delta) after body))
rebase_locmaf-object rebase_cmaf boxes before base delta after body fuel b s o u enough =
    rebase_locmaf-full rebase_cmaf fuel _ delta _
      (finds_object rebase_cmaf boxes before base delta after body fuel b s o u enough)
    ∙ rebases_full rebase_cmaf boxes before base delta after body fuel b s o u enough
    ∙ ap (λ p. answers (some p))
        (replaced_payload rebase_cmaf boxes before base delta after body fuel b s o u enough
            (locmaf_varint (add64 base delta))
          ∙ simp append_assoc)
