-- ===== src/Session/PeerStreams/Chunks.antt =====
-- The type that PeerUnidirectionalStreams (src/transport/moqt_session.cpp) reads does not depend on how
-- the transport cuts the stream.
use moqxr.Common.{
  ℕ, ◌-◌, ◌≤◌, ◌≡◌, refl, sym, ap, ◌∙◌, true, false, not, Option, none, some, List, [], ◌∷◌, ◌++◌,
  arith, if◌then◌else◌, length, take, take-append, take_short, take-min, length-take, append_assoc,
  append-nil, All, Bool-cases, Option-cases, inl, inr,
}
use moqxr.Common.Bytes.{sub64}
use moqxr.Draft.{DraftVersion, is_draft18_or_later}
use moqxr.Wire.Vi64.{decode_vi64_impl}
use moqxr.Wire.Vi64.Prefixes.{decode_vi64_front, decode_vi64_short}
use moqxr.Session.Violations.{session_violation, session_violation-ok}
use moqxr.Session.Drafts.{decode_moqint, is_known_peer_unidirectional_stream_type}
use moqxr.Session.ControlReader.{Read, chunk}
use moqxr.Session.PeerStreams.{
  new_stream, longer_prefix, note_type, note_chunk, StreamEnd, returns, finished, stays,
  read_stream_loop, invalid_stream_header_error_code, is_nil,
}

-- What is known of a stream: nothing yet, its type, or that the session was closed over it, with the
-- codes of the close.
pub data Known : Type 0 where
  untyped : Known
  typed : ℕ → Known
  closed : List ℕ → Known
  ended : Known

abbrev known_of : Option ℕ → Known
known_of none = untyped
known_of (some type) = typed type

abbrev pub known_at : StreamEnd → Known
known_at (returns reply state) = closed reply.closes
known_at finished = ended
known_at (stays state) = known_of state.type

-- The description: the type is the integer that stands first, within nine bytes.
abbrev pub type_known : DraftVersion → ℕ → Option (ℕ × ℕ) → Known
type_known draft fault none = untyped
type_known draft fault (some (type, offset)) =
    if is_known_peer_unidirectional_stream_type type draft
    then typed type
    else closed
        (session_violation draft fault invalid_stream_header_error_code
          "received unknown unidirectional stream type").closes

abbrev pub chunks : List (List ℕ) → List Read
chunks [] = []
chunks (c ∷ cs) = chunk c false ∷ chunks cs

abbrev pub joined : List (List ℕ) → List ℕ
joined [] = []
joined (c ∷ cs) = c ++ joined cs

-- A chunk with no bytes ends the loop over the reads.
abbrev HasBytes : List ℕ → Type 0
HasBytes bytes = 1 ≤ length bytes

longer_prefix-eq :
    (prefix bytes : List ℕ)
    → length prefix ≤ 8
    → longer_prefix prefix bytes ≡ take 9 (prefix ++ bytes)
unfolding longer_prefix
longer_prefix-eq prefix bytes short =
    let room : sub64 9 (length prefix) ≡ 9 - length prefix = omega arith in
    rw (room, take-append 9 prefix bytes, take_short 9 prefix (omega arith))
      (ap (◌++◌ prefix) (take-min (9 - length prefix) bytes))

module _ (draft : DraftVersion) (fault : ℕ) (late : is_draft18_or_later draft ≡ true) where
  decode-vi64 : (bytes : List ℕ) → decode_moqint bytes 0 draft ≡ decode_vi64_impl bytes 0
  unfolding decode_moqint
  decode-vi64 bytes = ground (arith, late)

  has_bytes : (c : List ℕ) → HasBytes c → is_nil c ≡ false
  has_bytes [] h = absurd (omega arith)
  has_bytes (b ∷ c) h = refl

  -- Once the type is known it stays.
  typed_loop :
      (type : ℕ) (cs : List (List ℕ)) (prefix : List ℕ)
      → All HasBytes cs
      → known_at
          (read_stream_loop draft fault (chunks cs) (record { prefix = prefix; type = some type }))
        ≡ typed type
  unfolding read_stream_loop note_chunk
  typed_loop type [] prefix h = refl
  typed_loop type (c ∷ cs) prefix h = rw (has_bytes c h.0) (typed_loop type cs prefix h.1)

  -- A chunk in which the type becomes whole.
  reads_type :
      (type offset : ℕ) (prefix c : List ℕ) (cs : List (List ℕ))
      → All HasBytes (c ∷ cs)
      → known_at (
          if not (note_type draft fault prefix false (some (type, offset))).0.status.ok
          then returns
              (note_type draft fault prefix false (some (type, offset))).0
              (note_type draft fault prefix false (some (type, offset))).1
          else if is_nil c
          then stays (note_type draft fault prefix false (some (type, offset))).1
          else read_stream_loop draft fault
              (chunks cs)
              (note_type draft fault prefix false (some (type, offset))).1)
        ≡ type_known draft fault (some (type, offset))
  reads_type type offset prefix c cs h =
      elim (Bool-cases (is_known_peer_unidirectional_stream_type type draft)) [
        | inl allowed ↦ rw (allowed, has_bytes c h.0) (typed_loop type cs [] h.1)
        | inr refuses ↦
            rw (refuses, session_violation-ok draft invalid_stream_header_error_code fault _)
      ]

  untyped_loop :
      (cs : List (List ℕ)) (prefix : List ℕ)
      → decode_vi64_impl prefix 0 ≡ none
      → All HasBytes cs
      → known_at
          (read_stream_loop draft fault (chunks cs) (record { prefix = prefix; type = none }))
        ≡ type_known draft fault (decode_vi64_impl (take 9 (prefix ++ joined cs)) 0)
  unfolding read_stream_loop note_chunk
  untyped_loop [] prefix p h =
      rw (append-nil prefix, take_short 9 prefix (omega (arith, decode_vi64_short prefix p)), p)
  untyped_loop (c ∷ cs) prefix p h =
      let q = take 9 (prefix ++ c) in
      let e : longer_prefix prefix c ≡ q = longer_prefix-eq prefix c (decode_vi64_short prefix p) in
      let all : take 9 (prefix ++ (c ++ joined cs))
          ≡ q ++ take (9 - length (prefix ++ c)) (joined cs) =
        ap (take 9) (sym (append_assoc prefix c (joined cs)))
        ∙ take-append 9 (prefix ++ c) (joined cs) in
      elim (Option-cases (decode_vi64_impl q 0)) [
        | inl none_yet ↦
            let whole : q ≡ prefix ++ c =
              take_short 9 (prefix ++ c)
                (omega (arith, length-take 9 (prefix ++ c), decode_vi64_short q none_yet)) in
            rw (e, decode-vi64 q, none_yet, has_bytes c h.0)
              (untyped_loop cs q none_yet h.1
                ∙ ap (λ bytes. type_known draft fault (decode_vi64_impl (take 9 bytes) 0))
                    (ap (λ front. front ++ joined cs) whole ∙ append_assoc prefix c (joined cs)))
        | inr ((type, offset), found) ↦
            rw (e, decode-vi64 q, found, all, decode_vi64_front q _ (type, offset) found)
              (reads_type type offset q c cs h)
      ]

  -- From draft 18 on, however the bytes of a new stream are cut into chunks that are not empty: while
  -- the integer at its front, of at most nine bytes, is not whole, nothing is known of the stream; then
  -- its type is that integer, whatever follows, or if a stream may not have that type the session is
  -- closed, from draft 23 on with INVALID_STREAM_HEADER and before with the code of a violation.
  pub read_stream_loop-chunks :
      (cs : List (List ℕ))
      → All HasBytes cs
      → known_at (read_stream_loop draft fault (chunks cs) new_stream)
        ≡ type_known draft fault (decode_moqint (take 9 (joined cs)) 0 draft)
  unfolding decode_vi64_impl
  read_stream_loop-chunks cs h = rw (decode-vi64 (take 9 (joined cs))) (untyped_loop cs [] refl h)
