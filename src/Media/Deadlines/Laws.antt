-- ===== src/Media/Deadlines/Laws.antt =====
-- SubgroupDeadlineTracker (src/transport/pending_media_queue.h) in terms of the deadline of each
-- stream.
use moqxr.Common.{
  ℕ, suc, ◌≤◌, ◌<◌, ◌≡◌, refl, Bool, true, false, ◌||◌, Option, none, some, List, [], ◌∷◌, arith,
  ltb, leb, ◌==◌, if◌then◌else◌,
}
use moqxr.Media.Deadlines.{DeliveryTimeoutReset, Deadlines, arm, cancel, take_expired}

-- Every key is above `n`, and they ascend.
abbrev Above : ℕ → Deadlines → Type 0
Above n [] = Unit {0}
Above n ((id, d) ∷ rest) = (n ≤ id) × Above (suc id) rest

abbrev pub IsSorted : Deadlines → Type 0
IsSorted deadlines = Above 0 deadlines

unfoldable pub deadline_of : ℕ → Deadlines → Option ℕ
deadline_of stream_id [] = none
deadline_of stream_id ((id, d) ∷ rest) =
    if id == stream_id then some d else deadline_of stream_id rest

-- Whether the resets name the stream.
unfoldable pub gives_up : ℕ → List DeliveryTimeoutReset → Bool
gives_up stream_id [] = false
gives_up stream_id (r ∷ rs) = (r.stream_id == stream_id) || gives_up stream_id rs

abbrev earliest : Option ℕ → ℕ → ℕ
earliest none d = d
earliest (some d') d = if ltb d d' then d else d'

Above-weaken : (m n : ℕ) (t : Deadlines) → m ≤ n → Above n t → Above m t
Above-weaken m n [] h a = tt
Above-weaken m n ((id, d) ∷ rest) h a = (omega arith, a.1)

Above-absent : (n j : ℕ) (t : Deadlines) → Above n t → j < n → deadline_of j t ≡ none
unfolding deadline_of
Above-absent n j [] a h = refl
Above-absent n j ((id, d) ∷ rest) a h = ground (arith, Above-absent (suc id) j rest a.1)

arm-Above : (n id d : ℕ) (t : Deadlines) → n ≤ id → Above n t → Above n (arm id d t)
unfolding arm
arm-Above n id d [] h a = (h, tt)
arm-Above n id d ((i, e) ∷ rest) h a = ground (arith, arm-Above (suc i) id d rest)

cancel-Above : (n id : ℕ) (t : Deadlines) → Above n t → Above n (cancel id t)
unfolding cancel
cancel-Above n id [] a = tt
cancel-Above n id ((i, e) ∷ rest) a =
    ground (arith, cancel-Above (suc i) id rest, Above-weaken n (suc i) rest)

take-Above : (n now : ℕ) (t : Deadlines) → Above n t → Above n (take_expired now t).1
unfolding take_expired
take-Above n now [] a = tt
take-Above n now ((i, e) ∷ rest) a =
    ground (arith, take-Above (suc i) now rest, Above-weaken n (suc i) (take_expired now rest).1)

arm-deadline :
    (n id d j : ℕ) (t : Deadlines)
    → Above n t
    → deadline_of j (arm id d t)
      ≡ (if id == j then some (earliest (deadline_of id t) d) else deadline_of j t)
unfolding arm deadline_of
arm-deadline n id d j [] a = ground arith
arm-deadline n id d j ((i, e) ∷ rest) a =
    ground (arith, Above-absent (suc i) id rest a.1, arm-deadline (suc i) id d j rest a.1)

cancel-deadline :
    (n id j : ℕ) (t : Deadlines)
    → Above n t
    → deadline_of j (cancel id t) ≡ (if id == j then none else deadline_of j t)
unfolding cancel deadline_of
cancel-deadline n id j [] a = ground arith
cancel-deadline n id j ((i, e) ∷ rest) a =
    ground (arith, Above-absent (suc i) j rest a.1, cancel-deadline (suc i) id j rest a.1)

abbrev due : Option ℕ → ℕ → Bool
due none now = false
due (some d) now = leb d now

take-deadline :
    (n now j : ℕ) (t : Deadlines)
    → Above n t
    → (deadline_of j (take_expired now t).1
        ≡ (if due (deadline_of j t) now then none else deadline_of j t))
      × (gives_up j (take_expired now t).0 ≡ due (deadline_of j t) now)
unfolding take_expired deadline_of gives_up
take-deadline n now j [] a = ground arith
take-deadline n now j ((i, e) ∷ rest) a =
    ground (arith, Above-absent (suc i) j rest a.1, take-deadline (suc i) now j rest a.1)

-- On a sorted tracker, arming a stream keeps the tracker sorted, gives that stream the earlier of
-- its old and its new deadline, and leaves every other stream its deadline.
deadline-arm :
    (id deadline j : ℕ) (t : Deadlines)
    → IsSorted t
    → IsSorted (arm id deadline t)
      × (deadline_of j (arm id deadline t)
          ≡ (if id == j then some (earliest (deadline_of id t) deadline) else deadline_of j t))
deadline-arm id deadline j t h =
    (arm-Above 0 id deadline t (omega arith) h, arm-deadline 0 id deadline j t h)

-- On a sorted tracker, cancelling a stream keeps the tracker sorted, takes that stream's deadline
-- away and leaves every other stream its deadline.
deadline-cancel :
    (id j : ℕ) (t : Deadlines)
    → IsSorted t
    → IsSorted (cancel id t)
      × (deadline_of j (cancel id t) ≡ (if id == j then none else deadline_of j t))
deadline-cancel id j t h = (cancel-Above 0 id t h, cancel-deadline 0 id j t h)

-- On a sorted tracker, take_expired keeps the tracker sorted, resets a stream exactly when it has
-- a deadline that is not later than now, and takes away the deadlines of these streams only.
pub take_expired_lem :
    (now j : ℕ) (t : Deadlines)
    → IsSorted t
    → IsSorted (take_expired now t).1
      × (gives_up j (take_expired now t).0 ≡ due (deadline_of j t) now)
      × (deadline_of j (take_expired now t).1
          ≡ (if due (deadline_of j t) now then none else deadline_of j t))
take_expired_lem now j t h =
    let law = take-deadline 0 now j t h in (take-Above 0 now t h, law.1, law.0)

-- A stream of a sorted tracker that take_expired has reset is not reset again by the next call, at
-- any time.
take_expired_once :
    (now later j : ℕ) (t : Deadlines)
    → IsSorted t
    → gives_up j (take_expired now t).0 ≡ true
    → gives_up j (take_expired later (take_expired now t).1).0 ≡ false
take_expired_once now later j t h up =
    let first = take_expired_lem now j t h in
    ground (arith, first, take_expired_lem later j (take_expired now t).1 first.0)
