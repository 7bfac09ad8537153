-- ===== src/Session/PeerStreams.antt =====
-- PeerUnidirectionalStreams of src/transport/moqt_session.cpp: the session reads the type of every
-- unidirectional stream that the peer opens, and throws the rest of its bytes away. What the transport
-- answers to accept_stream and read_stream is a list, with nothing behind its end; the fault is the
-- one that protocol_violation would take.
pub mod Chunks
use Prim.Native.String.{String}
use moqxr.Common.{
  ℕ, ◌-◌, Bool, true, false, not, Option, none, some, List, [], ◌∷◌, ◌++◌, ltb, ◌==◌, if◌then◌else◌,
  length, min, take,
}
use moqxr.Common.Bytes.{sub64}
use moqxr.Draft.{DraftVersion, is_draft18_or_later}
use moqxr.Failover.{TransportStatus}
use moqxr.Session.Violations.{Reply, goes_on, session_violation}
use moqxr.Session.Drafts.{decode_moqint, is_known_peer_unidirectional_stream_type}
use moqxr.Session.ControlReader.{Read, chunk, no_data, fails}

-- kInvalidStreamHeaderErrorCode
abbrev pub invalid_stream_header_error_code : ℕ
invalid_stream_header_error_code = 0x200

pub record StreamState : Type 0 where
  pub prefix : List ℕ
  pub type : Option ℕ

abbrev pub new_stream : StreamState
new_stream = record { prefix = []; type = none }

abbrev violates : DraftVersion → ℕ → String → Reply
violates draft fault message =
    session_violation draft fault invalid_stream_header_error_code message

-- The bytes of the type that are known behind a chunk.
unfoldable pub longer_prefix : List ℕ → List ℕ → List ℕ
longer_prefix prefix bytes = prefix ++ take (min (length bytes) (sub64 9 (length prefix))) bytes

abbrev note_type : DraftVersion → ℕ → List ℕ → Bool → Option (ℕ × ℕ) → Reply × StreamState
note_type draft fault prefix fin (some (type, offset)) =
    if not (is_known_peer_unidirectional_stream_type type draft)
    then (
      violates draft fault "received unknown unidirectional stream type",
      record { prefix = prefix; type = none },
    )
    else (goes_on, record { prefix = []; type = some type })
note_type draft fault prefix fin none =
    if fin
    then (
      violates draft fault "received truncated unidirectional stream type",
      record { prefix = prefix; type = none },
    )
    else (goes_on, record { prefix = prefix; type = none })

unfoldable pub note_chunk : DraftVersion → ℕ → StreamState → List ℕ → Bool → Reply × StreamState
note_chunk draft fault state bytes fin = elim state.type [
  | none ↦
      let prefix = longer_prefix state.prefix bytes in
      note_type draft fault prefix fin (decode_moqint prefix 0 draft)
  | some type ↦ (goes_on, state)
]

-- How the loop over the reads of one stream ends.
pub data StreamEnd : Type 0 where
  returns : Reply → StreamState → StreamEnd
  finished : StreamEnd
  stays : StreamState → StreamEnd

abbrev is_nil : List ℕ → Bool
is_nil [] = true
is_nil (b ∷ bytes) = false

unfoldable pub read_stream_loop : DraftVersion → ℕ → List Read → StreamState → StreamEnd
read_stream_loop draft fault [] state = stays state
read_stream_loop draft fault (no_data ∷ reads) state = stays state
read_stream_loop draft fault (fails status ∷ reads) state =
    returns (record { closes = []; status = record status { ok = false } }) state
read_stream_loop draft fault (chunk bytes fin ∷ reads) state =
    let (reply, state') = note_chunk draft fault state bytes fin in
    let later = read_stream_loop draft fault reads state' in
    if not reply.status.ok
    then returns reply state'
    else if fin
    then finished
    else if is_nil bytes
    then stays state'
    else later

-- A std::map by stream id: a list of streams by ascending id.
abbrev pub Streams : Type 0
Streams = List (ℕ × StreamState)

-- streams_.try_emplace(stream_id)
unfoldable pub emplace_stream : ℕ → Streams → Streams
emplace_stream stream_id [] = (stream_id, new_stream) ∷ []
emplace_stream stream_id ((id, state) ∷ streams) =
    if ltb stream_id id
    then (stream_id, new_stream) ∷ (id, state) ∷ streams
    else if stream_id == id
    then (id, state) ∷ streams
    else (id, state) ∷ emplace_stream stream_id streams

-- What accept_stream answers.
pub data Accept : Type 0 where
  accepted : ℕ → Accept
  none_waits : Accept
  refused : TransportStatus → Accept

-- The loop that accepts; with the status to return, if there is one.
unfoldable pub accept_loop : List Accept → Streams → Option TransportStatus × Streams
accept_loop [] streams = (none, streams)
accept_loop (none_waits ∷ answers) streams = (none, streams)
accept_loop (refused status ∷ answers) streams = (some (record status { ok = false }), streams)
accept_loop (accepted stream_id ∷ answers) streams =
    accept_loop answers (emplace_stream stream_id streams)

abbrev after_stream : ℕ → StreamEnd → Streams → Reply × Streams → Reply × Streams
after_stream id (returns reply state) streams later = (reply, (id, state) ∷ streams)
after_stream id finished streams later = later
after_stream id (stays state) streams later = (later.0, (id, state) ∷ later.1)

-- The loop over the streams, with the reads of each.
unfoldable pub streams_loop : DraftVersion → ℕ → (ℕ → List Read) → Streams → Reply × Streams
streams_loop draft fault reads [] = (goes_on, [])
streams_loop draft fault reads ((id, state) ∷ streams) =
    after_stream id (read_stream_loop draft fault (reads id) state) streams
      (streams_loop draft fault reads streams)

abbrev after_accepts :
    DraftVersion → ℕ → (ℕ → List Read) → Option TransportStatus × Streams → Reply × Streams
after_accepts draft fault reads (some status, streams) =
    (record { closes = []; status = status }, streams)
after_accepts draft fault reads (none, streams) = streams_loop draft fault reads streams

unfoldable pub poll_streams :
    DraftVersion → ℕ → List Accept → (ℕ → List Read) → Streams → Reply × Streams
unfolding streams_loop
poll_streams draft fault accepts reads streams =
    if not (is_draft18_or_later draft)
    then (goes_on, streams)
    else after_accepts draft fault reads (accept_loop accepts streams)
