-- ===== src/Media/Pending/Contents.antt =====
-- PendingMediaQueue (src/transport/pending_media_queue.h) in terms of the bytes that each stream
-- still has to send.
use moqxr.Common.{
  ℕ, ◌+◌, ◌≤◌, ◌≡◌, ◌⊎◌, inl, inr, refl, ap, Bool, true, not, ◌&&◌, ◌||◌, none, some, List, [], ◌∷◌,
  ◌++◌, arith, ltb, leb, ◌==◌, if◌then◌else◌, length, drop, length-append, append-nil, append_assoc,
  Bool-cases, Option-cases,
}
use moqxr.Common.{nat_eq, length-drop, drop-append-le, drop-drop, drop-length}
use moqxr.Common.Bytes.{sub64}
use moqxr.Common.Assoc.{
  lookup, total, total-erase, weight_of, Distinct, lookup-insert, lookup-erase, AllValues-lookup,
}
use moqxr.Media.Pending.{
  PendingMediaWrite, PendingMediaQueue, PendingMediaFront, available, empty, expired, accepted,
  would_block, oversized, is_expired, remaining_bytes, remaining_of, try_push, clear_stream,
  inspect_writes, inspect_front, writes_of, put_writes, consumed_of, advance, consume_front,
  consume,
}
use moqxr.Media.Pending.Invariant.{IsValid, IsSound, IsKept, fresh}

-- The bytes of a deque that are still to be sent.
pub unsent : List PendingMediaWrite → List ℕ
unsent [] = []
unsent (w ∷ ws) = drop w.offset w.bytes ++ unsent ws

-- The bytes that a stream still has to send.
pub contents : PendingMediaQueue → ℕ → List ℕ
contents q id = unsent (writes_of (lookup id q.streams))

unsent-append : (xs ys : List PendingMediaWrite) → unsent (xs ++ ys) ≡ unsent xs ++ unsent ys
unfolding unsent
unsent-append [] ys = refl
unsent-append (x ∷ xs) ys = rw (unsent-append xs ys, append_assoc)

length-unsent : (ws : List PendingMediaWrite) → length (unsent ws) ≡ remaining_of ws
unfolding unsent remaining_of remaining_bytes
length-unsent [] = refl
length-unsent (w ∷ ws) = ground (
  arith,
  length-append (drop w.offset w.bytes) (unsent ws),
  length-drop w.offset w.bytes,
  length-unsent ws,
)

unsent-fresh : (w : PendingMediaWrite) → unsent (fresh w ∷ []) ≡ w.bytes
unfolding unsent
unsent-fresh w = append-nil w.bytes

contents-put :
    (q : PendingMediaQueue) (id j n : ℕ) (ws : List PendingMediaWrite)
    → Distinct q.streams
    → contents (record q { queued_bytes = n; streams = put_writes id ws q.streams }) j
      ≡ (if id == j then unsent ws else contents q j)
unfolding contents unsent
contents-put q id j n [] d = ground (arith, lookup-erase id j q.streams d)
contents-put q id j n (w ∷ ws) d = ground (arith, lookup-insert id j (w ∷ ws) q.streams)

contents-found :
    (q : PendingMediaQueue) (id : ℕ) (ws : List PendingMediaWrite)
    → lookup id q.streams ≡ some ws
    → contents q id ≡ unsent ws
unfolding contents
contents-found q id ws e = rw e

-- Whether a write is admitted, in terms of what is queued.
pub has_room : PendingMediaQueue → PendingMediaWrite → Bool
has_room q write = leb (q.queued_bytes + length write.bytes) q.capacity

-- On a valid queue a write is accepted exactly when its bytes fit beside those queued, and is
-- otherwise oversized or blocked according to the capacity; an accepted write appends its bytes to
-- its own stream, and every other stream, and every stream where it is not accepted, keeps its
-- bytes.
pub try_push-contents :
    (q : PendingMediaQueue) (write : PendingMediaWrite) (j : ℕ)
    → IsValid q
    → ((try_push q write).0 ≡ (
        if has_room q write
        then accepted
        else if ltb q.capacity (length write.bytes)
        then oversized
        else would_block))
      × (contents (try_push q write).1 j ≡ (
          if has_room q write && write.stream_id == j
          then contents q j ++ write.bytes
          else contents q j))
unfolding try_push contents has_room
try_push-contents q write j v =
    let old = writes_of (lookup write.stream_id q.streams) in
    ground (
      arith,
      lookup-insert write.stream_id j (old ++ fresh write ∷ []) q.streams,
      unsent-append old (fresh write ∷ []),
      unsent-fresh write,
    )

module _ (w : PendingMediaWrite) (ws : List PendingMediaWrite) (sound : IsSound w) (bytes : ℕ) where
  consumed-le :
      (consumed_of w bytes ≤ bytes) × (consumed_of w bytes ≤ length (drop w.offset w.bytes))
  unfolding consumed_of remaining_bytes
  consumed-le = ground (arith, length-drop w.offset w.bytes)

  advance-unsent :
      unsent (advance w ws (consumed_of w bytes)) ≡ drop (consumed_of w bytes) (unsent (w ∷ ws))
  unfolding advance unsent
  advance-unsent = ground (
    arith,
    drop-append-le (consumed_of w bytes) (drop w.offset w.bytes) (unsent ws) consumed-le.1,
    drop-drop (consumed_of w bytes) w.offset w.bytes,
    drop-length (w.offset + consumed_of w bytes) w.bytes,
  )

  consumed-counted :
      (id : ℕ) (m : List (ℕ × List PendingMediaWrite))
      → lookup id m ≡ some (w ∷ ws)
      → consumed_of w bytes ≤ total remaining_of m
  unfolding consumed_of remaining_of
  consumed-counted id m e =
      ground (arith, total-erase remaining_of id m, ap (weight_of remaining_of) e)

  unsent-empty : length w.bytes ≡ 0 → unsent (w ∷ ws) ≡ unsent ws
  unfolding unsent
  unsent-empty e = rw (drop-length w.offset w.bytes (omega arith))

consume_front-contents :
    (q : PendingMediaQueue) (id bytes j : ℕ) (w : PendingMediaWrite) (ws : List PendingMediaWrite)
    → lookup id q.streams ≡ some (w ∷ ws)
    → IsValid q
    → let r = consume_front q id bytes w ws in
      (contents r.1 j ≡ (if id == j then drop r.0 (contents q j) else contents q j))
      × (r.0 ≤ bytes)
      × (r.1.queued_bytes + r.0 ≡ q.queued_bytes)
unfolding consume_front
consume_front-contents q id bytes j w ws e v =
    let sound = (AllValues-lookup IsKept id q.streams v.kept e).1 in
    let next = advance w ws (consumed_of w bytes) in
    ground (
      arith,
      v.bounded,
      v.word,
      contents-found q id (w ∷ ws) e,
      contents-put q id j q.queued_bytes ws v.distinct,
      contents-put q id j (sub64 q.queued_bytes (consumed_of w bytes)) next v.distinct,
      advance-unsent w ws sound.0 bytes,
      consumed-le w ws sound.0 bytes,
      consumed-counted w ws sound.0 bytes id q.streams e,
      unsent-empty w ws sound.0 bytes,
    )

-- On a valid queue consume takes from the front of its stream as many unsent bytes as it reports,
-- which are at most the bytes asked for; other streams keep theirs, and the queued count falls by
-- the number reported.
pub consume-contents :
    (q : PendingMediaQueue) (id bytes j : ℕ)
    → IsValid q
    → (contents (consume q id bytes).1 j
        ≡ (if id == j then drop (consume q id bytes).0 (contents q j) else contents q j))
      × ((consume q id bytes).0 ≤ bytes)
      × ((consume q id bytes).1.queued_bytes + (consume q id bytes).0 ≡ q.queued_bytes)
unfolding consume
consume-contents q id bytes j v = elim (Option-cases (lookup id q.streams)) [
  | inl e ↦ ground (arith, e)
  | inr ([], e) ↦ ground (arith, e)
  | inr (w ∷ ws, e) ↦ ground (arith, e, consume_front-contents q id bytes j w ws e v)
]

-- On a valid queue clear_stream reports the number of unsent bytes of its stream and takes them
-- away; other streams keep theirs, and the queued count falls by that number.
clear_stream-contents :
    (q : PendingMediaQueue) (id j : ℕ)
    → IsValid q
    → ((clear_stream q id).0 ≡ length (contents q id))
      × (contents (clear_stream q id).1 j ≡ (if id == j then [] else contents q j))
      × ((clear_stream q id).1.queued_bytes + (clear_stream q id).0 ≡ q.queued_bytes)
unfolding clear_stream contents unsent
clear_stream-contents q id j v = elim (Option-cases (lookup id q.streams)) [
  | inl e ↦ ground (arith, e)
  | inr (ws, e) ↦ ground (
    arith,
    e,
    v.word,
    v.bounded,
    v.counted,
    length-unsent ws,
    lookup-erase id j q.streams v.distinct,
    total-erase remaining_of id q.streams,
    ap (weight_of remaining_of) e,
  )
]

-- What inspect_front may answer: nothing queued; a write whose unsent bytes come first, in a queue
-- that is left alone; or the whole stream given up, which happens only while nothing of its first
-- write has been sent and a deadline of it has passed.
abbrev pub Answers : PendingMediaQueue → ℕ → ℕ → PendingMediaFront × PendingMediaQueue → Type 0
Answers q id now r =
    ((r.0.status ≡ empty) × (lookup id q.streams ≡ none) × (r.1 ≡ q))
    ⊎ ((w : PendingMediaWrite) × (ws : List PendingMediaWrite) × (r.0.status ≡ available)
        × (r.0.write ≡ some w)
        × (contents q id ≡ drop w.offset w.bytes ++ unsent ws)
        × (not (w.offset == 0) || not (is_expired w now) ≡ true)
        × (r.1 ≡ q))
    ⊎ ((w : PendingMediaWrite) × (ws : List PendingMediaWrite) × (r.0.status ≡ expired)
        × (lookup id q.streams ≡ some (w ∷ ws))
        × (w.offset ≡ 0)
        × (is_expired w now ≡ true)
        × (r.1 ≡ (clear_stream q id).1))

first_unsent :
    (q : PendingMediaQueue) (id : ℕ) (w : PendingMediaWrite) (ws : List PendingMediaWrite)
    → lookup id q.streams ≡ some (w ∷ ws)
    → contents q id ≡ drop w.offset w.bytes ++ unsent ws
unfolding unsent
first_unsent q id w ws e = contents-found q id (w ∷ ws) e

-- On a valid queue inspect_front answers in one of the three ways of Answers: nothing is queued; a
-- write is available, whose unsent bytes come first; or the stream is given up because a deadline
-- of its unstarted first write has passed.
pub inspect_front-Answers :
    (q : PendingMediaQueue) (id now : ℕ) → IsValid q → Answers q id now (inspect_front q id now)
unfolding inspect_front inspect_writes
inspect_front-Answers q id now v = elim (Option-cases (lookup id q.streams)) [
  | inl e ↦ inl (ground (arith, e))
  | inr ([], e) ↦ absurd ((AllValues-lookup IsKept id q.streams v.kept e).0 refl)
  | inr (w ∷ ws, e) ↦ elim (Bool-cases (w.offset == 0 && is_expired w now)) [
    | inl gone ↦ inr (
        inr (
          w,
          ws,
          ground (arith, e, gone),
          e,
          ground (arith, gone),
          ground (arith, gone),
          ground (arith, e, gone),
        ))
    | inr stays ↦ inr (
        inl (
          w,
          ws,
          ground (arith, e, stays),
          ground (arith, e, stays),
          first_unsent q id w ws e,
          ground (arith, stays),
          ground (arith, e, stays),
        ))
  ]
]
