-- ===== src/Media/Pending/Invariant.antt =====
-- The invariant of PendingMediaQueue (src/transport/pending_media_queue.h) and its operations.
use moqxr.Common.{
  ℕ, ◌+◌, ◌≤◌, ◌<◌, ◌≡◌, ◌≢◌, ◌⊎◌, inl, inr, refl, ap, Option, none, some, List, [], ◌∷◌, ◌++◌,
  arith, ◌==◌, length, All, Bool-cases, Option-cases,
}
use moqxr.Common.{nat_eq, All-append}
use moqxr.Common.Bytes.{IsU64}
use moqxr.Common.Assoc.{
  lookup, total, weight_of, Distinct, AllValues, total-insert, total-erase, Distinct-insert,
  Distinct-erase, AllValues-lookup, AllValues-insert, AllValues-erase,
}
use moqxr.Media.Pending.{
  PendingMediaWrite, PendingMediaQueue, new, remaining_bytes, remaining_of, try_push, clear_stream,
  clear_connection, inspect_writes, inspect_front, writes_of, put_writes, consumed_of, advance,
  consume_front, consume,
}

-- Part of the write is still to be sent, or it has no bytes at all.
abbrev pub IsSound : PendingMediaWrite → Type 0
IsSound write =
    (write.offset < length write.bytes) ⊎ ((write.offset ≡ 0) × (length write.bytes ≡ 0))

-- A deque in the map holds a write.
abbrev pub IsKept : List PendingMediaWrite → Type 0
IsKept writes = (writes ≢ []) × All IsSound writes

pub record IsValid (q : PendingMediaQueue) : Type 0 where
  pub counted : q.queued_bytes ≡ total remaining_of q.streams
  pub bounded : q.queued_bytes ≤ q.capacity
  pub word : IsU64 q.capacity
  pub distinct : Distinct q.streams
  pub kept : AllValues IsKept q.streams

pub new-IsValid : (capacity : ℕ) → IsU64 capacity → IsValid (new capacity)
unfolding new
new-IsValid capacity h = ground arith

remaining_of-append :
    (xs ys : List PendingMediaWrite) → remaining_of (xs ++ ys) ≡ remaining_of xs + remaining_of ys
unfolding remaining_of
remaining_of-append [] ys = omega arith
remaining_of-append (x ∷ xs) ys = omega (arith, remaining_of-append xs ys)

weight-writes_of :
    (o : Option (List PendingMediaWrite)) → weight_of remaining_of o ≡ remaining_of (writes_of o)
unfolding remaining_of
weight-writes_of none = refl
weight-writes_of (some ws) = refl

Sound-writes_of :
    (id : ℕ) (streams : List (ℕ × List PendingMediaWrite))
    → AllValues IsKept streams
    → All IsSound (writes_of (lookup id streams))
Sound-writes_of id streams h = elim (Option-cases (lookup id streams)) [
  | inl e ↦ rw e tt
  | inr (ws, e) ↦ rw e ((AllValues-lookup IsKept id streams h e).1)
]

-- The write as it is queued.
abbrev pub fresh : PendingMediaWrite → PendingMediaWrite
fresh write = record write { offset = 0 }

remaining-fresh : (write : PendingMediaWrite) → remaining_of (fresh write ∷ []) ≡ length write.bytes
unfolding remaining_of remaining_bytes
remaining-fresh write = ground arith

fresh-IsSound : (write : PendingMediaWrite) → IsSound (fresh write)
fresh-IsSound write = ground arith

append-IsKept :
    (ws : List PendingMediaWrite) (w : PendingMediaWrite)
    → All IsSound ws
    → IsSound w
    → IsKept (ws ++ w ∷ [])
append-IsKept ws w h k = (ends ws, All-append IsSound ws (w ∷ []) h (k, tt))
  where
    ends : (ws : List PendingMediaWrite) → ws ++ w ∷ [] ≢ []
    ends [] e = cc
    ends (x ∷ ws) e = cc

pub try_push-IsValid :
    (q : PendingMediaQueue) (write : PendingMediaWrite) → IsValid q → IsValid (try_push q write).1
unfolding try_push
try_push-IsValid q write v =
    let old = lookup write.stream_id q.streams in
    let new_writes = writes_of old ++ fresh write ∷ [] in
    ground (
      arith,
      total-insert remaining_of write.stream_id new_writes q.streams,
      weight-writes_of old,
      remaining_of-append (writes_of old) (fresh write ∷ []),
      remaining-fresh write,
      Distinct-insert write.stream_id new_writes q.streams v.distinct,
      AllValues-insert IsKept write.stream_id new_writes q.streams v.kept (
          append-IsKept (writes_of old) (fresh write)
            (Sound-writes_of write.stream_id q.streams v.kept) (fresh-IsSound write)),
    )

pub clear_stream-IsValid :
    (q : PendingMediaQueue) (id : ℕ) → IsValid q → IsValid (clear_stream q id).1
unfolding clear_stream
clear_stream-IsValid q id v = ground (
  arith,
  total-erase remaining_of id q.streams,
  Distinct-erase id q.streams v.distinct,
  AllValues-erase IsKept id q.streams v.kept,
)

pub clear_connection-IsValid : (q : PendingMediaQueue) → IsValid q → IsValid (clear_connection q).1
unfolding clear_connection
clear_connection-IsValid q v = ground arith

pub inspect_front-IsValid :
    (q : PendingMediaQueue) (id now : ℕ) → IsValid q → IsValid (inspect_front q id now).1
unfolding inspect_front inspect_writes remaining_of
inspect_front-IsValid q id now v = elim (Option-cases (lookup id q.streams)) [
  | inl e ↦ ground (arith, e)
  | inr ([], e) ↦ absurd ((AllValues-lookup IsKept id q.streams v.kept e).0 refl)
  | inr (w ∷ ws, e) ↦ ground (arith, e, clear_stream-IsValid q id v)
]

-- A map in which one deque has changed.
put_writes-total :
    (id : ℕ) (ws : List PendingMediaWrite) (m : List (ℕ × List PendingMediaWrite))
    → total remaining_of (put_writes id ws m) + weight_of remaining_of (lookup id m)
      ≡ total remaining_of m + remaining_of ws
unfolding remaining_of
put_writes-total id [] m = omega (arith, total-erase remaining_of id m)
put_writes-total id (w ∷ ws) m = total-insert remaining_of id (w ∷ ws) m

put_writes-Distinct :
    (id : ℕ) (ws : List PendingMediaWrite) (m : List (ℕ × List PendingMediaWrite))
    → Distinct m
    → Distinct (put_writes id ws m)
put_writes-Distinct id [] m d = Distinct-erase id m d
put_writes-Distinct id (w ∷ ws) m d = Distinct-insert id (w ∷ ws) m d

put_writes-IsKept :
    (id : ℕ) (ws : List PendingMediaWrite) (m : List (ℕ × List PendingMediaWrite))
    → All IsSound ws
    → AllValues IsKept m
    → AllValues IsKept (put_writes id ws m)
put_writes-IsKept id [] m s h = AllValues-erase IsKept id m h
put_writes-IsKept id (w ∷ ws) m s h = AllValues-insert IsKept id (w ∷ ws) m h ((λ e. cc), s)

remaining_of-cons :
    (w : PendingMediaWrite) (ws : List PendingMediaWrite)
    → remaining_of (w ∷ ws) ≡ remaining_bytes w + remaining_of ws
unfolding remaining_of
remaining_of-cons w ws = refl

module _ (w : PendingMediaWrite) (ws : List PendingMediaWrite) (sound : IsSound w) (bytes : ℕ) where
  advance-remaining :
      remaining_of (advance w ws (consumed_of w bytes)) + consumed_of w bytes
      ≡ remaining_of (w ∷ ws)
  unfolding advance consumed_of remaining_of remaining_bytes
  advance-remaining = ground arith

  partly :
      (advance w ws (consumed_of w bytes) ≡ ws)
      ⊎ ((w' : PendingMediaWrite) × (advance w ws (consumed_of w bytes) ≡ w' ∷ ws) × IsSound w')
  unfolding advance consumed_of remaining_bytes
  partly = elim (Bool-cases ((w.offset + consumed_of w bytes) == length w.bytes)) [
    | inl done ↦ inl (rw done)
    | inr more ↦ inr (record w { offset = w.offset + consumed_of w bytes }, rw more, ground arith)
  ]

  advance-IsSound : All IsSound ws → All IsSound (advance w ws (consumed_of w bytes))
  advance-IsSound tail = elim partly [ inl e ↦ rw e tail | inr (w', e, s) ↦ rw e (s, tail) ]

  empty-remaining : length w.bytes ≡ 0 → remaining_of (w ∷ ws) ≡ remaining_of ws
  unfolding remaining_of remaining_bytes
  empty-remaining e = ground arith

consume_front-IsValid :
    (q : PendingMediaQueue) (id bytes : ℕ) (w : PendingMediaWrite) (ws : List PendingMediaWrite)
    → lookup id q.streams ≡ some (w ∷ ws)
    → IsValid q
    → IsValid (consume_front q id bytes w ws).1
unfolding consume_front
consume_front-IsValid q id bytes w ws e v =
    let sound = (AllValues-lookup IsKept id q.streams v.kept e).1 in
    let next = advance w ws (consumed_of w bytes) in
    ground (
      arith,
      ap (weight_of remaining_of) e,
      put_writes-total id ws q.streams,
      put_writes-total id next q.streams,
      advance-remaining w ws sound.0 bytes,
      empty-remaining w ws sound.0 bytes,
      put_writes-Distinct id ws q.streams v.distinct,
      put_writes-Distinct id next q.streams v.distinct,
      put_writes-IsKept id ws q.streams sound.1 v.kept,
      put_writes-IsKept id next q.streams (advance-IsSound w ws sound.0 bytes sound.1) v.kept,
    )

pub consume-IsValid :
    (q : PendingMediaQueue) (id bytes : ℕ) → IsValid q → IsValid (consume q id bytes).1
unfolding consume
consume-IsValid q id bytes v = elim (Option-cases (lookup id q.streams)) [
  | inl e ↦ ground (arith, e)
  | inr ([], e) ↦ ground (arith, e)
  | inr (w ∷ ws, e) ↦ ground (arith, e, consume_front-IsValid q id bytes w ws e v)
]
