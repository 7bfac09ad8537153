-- ===== src/Wire/Objects/Written.antt =====
-- The bytes of an object that write_object lays out, a part of encode_subgroup_object
-- (src/transport/moqt_control_messages.cpp), as a subscriber reads them.
use moqxr.Common.{
  ℕ, ◌+◌, ◌<◌, ◌≡◌, refl, ap, ◌∙◌, Bool, not, ◌&&◌, Option, some, List, [], ◌∷◌, ◌++◌, arith,
  if◌then◌else◌, length, length-append, append-nil, append_assoc, ◌>>=◌,
}
use moqxr.Draft.{DraftVersion}
use moqxr.Wire.Moqint.{uses_moq_vi64, push_moqint, moqint_limit}
use moqxr.Wire.Moqint.RoundTrip.{
  moqint_bytes, push_moqint-eq, Stands, Stands-next, decode_moqint-Stands,
}
use moqxr.Wire.Fields.Strings.{string_bytes}
use moqxr.Wire.Objects.{write_object, is_no_payload}
use moqxr.Wire.Objects.Reader.{
  read_properties, skip_moqint, skip_status, read_object, next_id, read_sized-Stands,
  properties-Stands,
}

abbrev status_bytes : DraftVersion → List ℕ → List ℕ
status_bytes draft payload =
    if uses_moq_vi64 draft && is_no_payload payload then moqint_bytes draft 0 else []

tail-eq :
    (draft : DraftVersion) (payload head : List ℕ)
    → (if uses_moq_vi64 draft && is_no_payload payload
          then push_moqint (head ++ moqint_bytes draft (length payload)) draft 0
          else head ++ moqint_bytes draft (length payload))
        ++ payload
      ≡ head ++ (string_bytes draft payload ++ status_bytes draft payload)
unfolding string_bytes
tail-eq draft [] head = ground (
  arith,
  push_moqint-eq draft (head ++ moqint_bytes draft 0) 0,
  append_assoc head (moqint_bytes draft 0) (moqint_bytes draft 0),
  append-nil (head ++ moqint_bytes draft 0),
  append-nil (head ++ (moqint_bytes draft 0 ++ moqint_bytes draft 0)),
  append-nil (moqint_bytes draft 0),
)
tail-eq draft (c ∷ cs) head = ground (
  arith,
  append_assoc head (moqint_bytes draft (length (c ∷ cs))) (c ∷ cs),
  append-nil (moqint_bytes draft (length (c ∷ cs)) ++ c ∷ cs),
)

-- No Object Status is written behind the payload length of zero.
abbrev pub lacks_status : DraftVersion → List ℕ → Bool
lacks_status draft payload = not (uses_moq_vi64 draft) && is_no_payload payload

-- Where a subscriber that is behind the object goes on: it takes the next integer for a status that
-- the object lacks.
abbrev pub behind_status : List ℕ → ℕ → DraftVersion → List ℕ → Option ℕ
behind_status bytes offset draft payload =
    if lacks_status draft payload then skip_moqint bytes offset draft else some offset

module _ (draft : DraftVersion) (delta : ℕ) (present : Bool) (properties payload : List ℕ)
    (delta_fits : delta < moqint_limit draft)
    (properties_fit : length properties < moqint_limit draft)
    (payload_fits : length payload < moqint_limit draft) where
  described : List ℕ
  described = if present then string_bytes draft properties else []

  status : List ℕ
  status = status_bytes draft payload

  object_bytes : List ℕ
  object_bytes = moqint_bytes draft delta ++ (described ++ (string_bytes draft payload ++ status))

  zero_fits : 0 < moqint_limit draft
  zero_fits = ground arith

  described-eq :
      (if present
        then push_moqint (moqint_bytes draft delta) draft (length properties) ++ properties
        else moqint_bytes draft delta)
      ≡ moqint_bytes draft delta ++ described
  unfolding described string_bytes
  described-eq = ground (
    arith,
    push_moqint-eq draft (moqint_bytes draft delta) (length properties) properties_fit,
    append_assoc (moqint_bytes draft delta) (moqint_bytes draft (length properties)) properties,
    append-nil (moqint_bytes draft delta),
  )

  write-eq : write_object draft delta present properties payload ≡ object_bytes
  unfolding write_object object_bytes status
  write-eq =
      rw
        (
          push_moqint-eq draft [] delta delta_fits,
          described-eq,
          push_moqint-eq draft (moqint_bytes draft delta ++ described) (length payload)
              payload_fits,
          tail-eq draft payload (moqint_bytes draft delta ++ described),
        )
        (append_assoc (moqint_bytes draft delta) described
          (string_bytes draft payload ++ status_bytes draft payload))

  module _ (bytes : List ℕ) (offset : ℕ) (rest : List ℕ)
      (stands : Stands bytes offset (object_bytes ++ rest)) where
    abbrev after_delta : ℕ
    after_delta = offset + length (moqint_bytes draft delta)

    abbrev after_properties : ℕ
    after_properties = after_delta + length described

    abbrev after_payload : ℕ
    after_payload = after_properties + length (string_bytes draft payload)

    at_delta : Stands bytes offset (
        moqint_bytes draft delta ++ (described ++ (string_bytes draft payload ++ (status ++ rest))))
    unfolding object_bytes
    at_delta = let (front, e, len) = stands in (front, e ∙ ap (◌++◌ front) (simp append_assoc), len)

    at_properties :
        Stands bytes after_delta (described ++ (string_bytes draft payload ++ (status ++ rest)))
    at_properties = Stands-next bytes offset (moqint_bytes draft delta) _ at_delta

    at_payload : Stands bytes after_properties (string_bytes draft payload ++ (status ++ rest))
    at_payload = Stands-next bytes after_delta described _ at_properties

    at_status : Stands bytes after_payload (status ++ rest)
    at_status = Stands-next bytes after_properties (string_bytes draft payload) _ at_payload

    properties_read :
        read_properties bytes after_delta draft present
        ≡ some ((if present then properties else []), after_properties)
    unfolding described
    properties_read =
        properties-Stands draft present properties bytes after_delta
          (string_bytes draft payload ++ (status ++ rest)) properties_fit at_properties

    status_read :
        skip_status bytes after_payload draft payload
        ≡ behind_status bytes (after_payload + length status) draft payload
    unfolding skip_status status
    status_read =
        ground (arith, decode_moqint-Stands draft bytes after_payload 0 rest zero_fits, at_status)

    object_end : after_payload + length status ≡ offset + length object_bytes
    unfolding object_bytes
    object_end = omega (
      arith,
      length-append (moqint_bytes draft delta)
          (described ++ (string_bytes draft payload ++ status)),
      length-append described (string_bytes draft payload ++ status),
      length-append (string_bytes draft payload) status,
    )

    object_read :
        (previous : Option ℕ)
        → read_object bytes offset draft previous present ≡ (do
          end ← behind_status bytes (offset + length object_bytes) draft payload
          some (next_id previous delta, (if present then properties else []), payload, end))
    unfolding read_object
    object_read previous = ground (
      arith,
      decode_moqint-Stands draft bytes offset delta _ delta_fits at_delta,
      properties_read,
      read_sized-Stands draft bytes after_properties payload (status ++ rest) payload_fits
          at_payload,
      status_read,
      object_end,
    )

  pub written_read :
      (object front rest : List ℕ) (previous : Option ℕ)
      → object ≡ write_object draft delta present properties payload
      → read_object (front ++ object ++ rest) (length front) draft previous present ≡ (do
        end ← behind_status (front ++ object ++ rest) (length (front ++ object)) draft payload
        some (next_id previous delta, (if present then properties else []), payload, end))
  written_read object front rest previous written =
      let whole : object ≡ object_bytes = written ∙ write-eq in
      let stands : Stands (front ++ object ++ rest) (length front) (object_bytes ++ rest) = (
        front,
        append_assoc front object rest ∙ ap (λ (x : List ℕ). front ++ (x ++ rest)) whole,
        refl,
      ) in
      ground (
        arith,
        object_read (front ++ object ++ rest) (length front) rest stands previous,
        length-append front object,
        ap length whole,
      )
