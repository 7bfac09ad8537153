-- ===== src/Wire/Fields.antt =====
-- The fields of control messages in moqt_control_messages.cpp: strings, track namespaces, reason
-- phrases, and the recorded cause of a failed decode. A text is the list of its bytes; the variable
-- g_decode_fault is an argument and a result. Running out of memory is not modelled.
pub mod Namespaces
pub mod Strings
pub mod Parts
use moqxr.Common.{
  ℕ, zero, suc, ◌+◌, ◌-◌, ◌*◌, ◌/◌, ◌%◌, ◌^◌, ◌≤◌, ◌<◌, ◌≡◌, ◌≢◌, ◌⊎◌, inl, inr, refl, sym, ap, ◌∙◌,
  subst, Bool, true, false, not, ◌&&◌, ◌||◌, Option, none, some, List, [], ◌∷◌, ◌++◌, map, arith,
  ltb, leb, ◌==◌, if◌then◌else◌, length, get_or, take, drop, All, get_or-append, length-append,
  append-nil, append_assoc, Bool-cases, Option-cases, ◌>>=◌,
}
use moqxr.Common.Bytes.{sub64}
use moqxr.Draft.{DraftVersion, is_draft18_or_later, is_draft23_or_later}
use moqxr.Wire.Cursor.{fits}
use moqxr.Wire.Moqint.{push_moqint, decode_moqint_impl}

-- kFaultInvalidTrackNamespace, kFaultDeltaEncodingOverflow and kFaultFieldLengthExceeded
abbrev fault_invalid_track_namespace : ℕ
fault_invalid_track_namespace = 0x302

abbrev pub fault_delta_encoding_overflow : ℕ
fault_delta_encoding_overflow = 0x400

abbrev pub fault_field_length_exceeded : ℕ
fault_field_length_exceeded = 0x401

-- The fault afterwards.
unfoldable pub note_decode_fault : DraftVersion → ℕ → ℕ → ℕ
note_decode_fault draft code fault =
    if not (is_draft23_or_later draft)
    then fault
    else if (fault == 0)
        || (code == fault_delta_encoding_overflow)
        || (code == fault_field_length_exceeded)
    then code
    else fault

unfoldable pub append_string : List ℕ → DraftVersion → List ℕ → List ℕ
append_string out draft value = push_moqint out draft (length value) ++ value

abbrev pub slash : ℕ
slash = 47

-- A part that is not empty is put in front of those that follow.
unfoldable pub emit_part : List ℕ → List (List ℕ) → List (List ℕ)
emit_part [] parts = parts
emit_part (c ∷ cs) parts = (c ∷ cs) ∷ parts

-- The loop of split_track_namespace: `part` is what stands between `start` and the cursor.
unfoldable pub split_parts : List ℕ → List ℕ → List (List ℕ)
split_parts part [] = emit_part part []
split_parts part (c ∷ cs) =
    if c == slash then emit_part part (split_parts [] cs) else split_parts (part ++ c ∷ []) cs

abbrev pub or_whole : List ℕ → List (List ℕ) → List (List ℕ)
or_whole whole [] = whole ∷ []
or_whole whole (part ∷ parts) = part ∷ parts

unfoldable pub split_track_namespace : List ℕ → List (List ℕ)
split_track_namespace track_namespace = or_whole track_namespace (split_parts [] track_namespace)

unfoldable pub append_strings : List ℕ → DraftVersion → List (List ℕ) → List ℕ
append_strings out draft [] = out
append_strings out draft (part ∷ parts) = append_strings (append_string out draft part) draft parts

unfoldable pub append_track_namespace : List ℕ → DraftVersion → List ℕ → List ℕ
append_track_namespace out draft track_namespace =
    let parts = split_track_namespace track_namespace in
    append_strings (push_moqint out draft (length parts)) draft parts

-- One round of the loop of decode_track_namespace: the field and the cursor behind it, with the fault.
unfoldable pub decode_field : List ℕ → ℕ → DraftVersion → ℕ → ℕ → Option (List ℕ × ℕ) × ℕ
decode_field bytes offset draft namespace_length fault =
    elim (decode_moqint_impl bytes offset draft) [
      | none ↦ (none, fault)
      | some (size, offset') ↦
          if not (fits offset' size (length bytes))
          then (none, fault)
          else if is_draft18_or_later draft && (size == 0)
          then (none, note_decode_fault draft fault_invalid_track_namespace fault)
          else if is_draft18_or_later draft && ltb (sub64 4096 namespace_length) size
          then (none, note_decode_fault draft fault_field_length_exceeded fault)
          else (some (take size (drop offset' bytes), offset' + size), fault)
    ]

-- The loop with `left` fields left.
unfoldable pub decode_fields :
    ℕ → List ℕ → ℕ → DraftVersion → ℕ → ℕ → Option (List (List ℕ) × ℕ) × ℕ
decode_fields zero bytes offset draft namespace_length fault = (some ([], offset), fault)
decode_fields (suc left) bytes offset draft namespace_length fault =
    let (found, fault') = decode_field bytes offset draft namespace_length fault in
    elim found [
      | none ↦ (none, fault')
      | some (field, offset') ↦
          let (rest, fault'') =
            decode_fields left bytes offset' draft (namespace_length + length field) fault' in
          (
            elim rest [ none ↦ none | some (fields, offset'') ↦ some (field ∷ fields, offset'') ],
            fault'',
          )
    ]

unfoldable pub decode_track_namespace :
    List ℕ → ℕ → DraftVersion → ℕ → Option (List (List ℕ) × ℕ) × ℕ
decode_track_namespace bytes offset draft fault = elim (decode_moqint_impl bytes offset draft) [
  | none ↦ (none, fault)
  | some (entry_count, offset') ↦
      if is_draft18_or_later draft && ltb 32 entry_count
      then (none, note_decode_fault draft fault_invalid_track_namespace fault)
      else decode_fields entry_count bytes offset' draft 0 fault
]

unfoldable pub decode_reason_phrase : List ℕ → ℕ → DraftVersion → ℕ → Option (List ℕ × ℕ) × ℕ
decode_reason_phrase bytes offset draft fault = elim (decode_moqint_impl bytes offset draft) [
  | none ↦ (none, fault)
  | some (size, offset') ↦
      if is_draft23_or_later draft && ltb 1024 size
      then (none, note_decode_fault draft fault_field_length_exceeded fault)
      else if not (fits offset' size (length bytes))
      then (none, fault)
      else (some (take size (drop offset' bytes), offset' + size), fault)
]
