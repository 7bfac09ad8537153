-- ===== src/Media/Deadlines.antt =====
-- src/transport/pending_media_queue.h, SubgroupDeadlineTracker: the deadline of each stream whose
-- subgroup has one. The std::map is a list with ascending keys; a point in time is a number of ticks.
pub mod Laws
use moqxr.Common.{
  ℕ, zero, suc, ◌+◌, ◌-◌, ◌*◌, ◌/◌, ◌%◌, ◌^◌, ◌≤◌, ◌<◌, ◌≡◌, ◌≢◌, ◌⊎◌, inl, inr, refl, sym, ap, ◌∙◌,
  Bool, true, false, not, ◌&&◌, ◌||◌, Option, none, some, List, [], ◌∷◌, ◌++◌, map, arith, ltb, leb,
  ◌==◌, if◌then◌else◌, length, get_or, take, drop, All, get_or-append, length-append, append-nil,
  append_assoc, Bool-cases, Option-cases, ◌>>=◌,
}

-- kDeliveryTimeoutErrorCode
abbrev delivery_timeout_error_code : ℕ
delivery_timeout_error_code = 0x02

pub record DeliveryTimeoutReset : Type 0 where
  pub stream_id : ℕ
  pub error_code : ℕ

-- The map deadlines_.
abbrev pub Deadlines : Type 0
Deadlines = List (ℕ × ℕ)

unfoldable pub arm : ℕ → ℕ → Deadlines → Deadlines
arm stream_id deadline [] = (stream_id, deadline) ∷ []
arm stream_id deadline ((id, d) ∷ rest) =
    if ltb stream_id id
    then (stream_id, deadline) ∷ (id, d) ∷ rest
    else if stream_id == id
    then (id, if ltb deadline d then deadline else d) ∷ rest
    else (id, d) ∷ arm stream_id deadline rest

-- mark_all_data_committed and cancel both erase the stream.
unfoldable pub cancel : ℕ → Deadlines → Deadlines
cancel stream_id [] = []
cancel stream_id ((id, d) ∷ rest) =
    if id == stream_id then rest else (id, d) ∷ cancel stream_id rest

unfoldable pub mark_all_data_committed : ℕ → Deadlines → Deadlines
mark_all_data_committed stream_id deadlines = cancel stream_id deadlines

unfoldable pub clear : Deadlines → Deadlines
clear deadlines = []

-- The resets, in the order of the streams, and the map that is left.
unfoldable pub take_expired : ℕ → Deadlines → List DeliveryTimeoutReset × Deadlines
take_expired now [] = ([], [])
take_expired now ((id, d) ∷ rest) =
    let (expired, kept) = take_expired now rest in
    if ltb now d
    then (expired, (id, d) ∷ kept)
    else (record { stream_id = id; error_code = delivery_timeout_error_code } ∷ expired, kept)
