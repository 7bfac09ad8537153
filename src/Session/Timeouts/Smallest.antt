-- ===== src/Session/Timeouts/Smallest.antt =====
-- The timeouts of a track (src/transport/moqt_session.cpp) are the smallest that anyone asked for, and
-- a deadline does not overflow.
use Prim.Native.String.{String}
use moqxr.Common.{
  ℕ, ◌+◌, ◌*◌, ◌≤◌, ◌≡◌, sym, subst, ap, Bool, true, false, not, ◌&&◌, ◌||◌, none, some, List, [],
  ◌∷◌, arith, leb, ◌==◌, if◌then◌else◌, text_key, min, All, inl, inr, Bool-cases,
}
use moqxr.Session.Subscriptions.{DeliveryTimeouts, SubscribeMessage}
use moqxr.Session.Timeouts.{
  time_point_max, deadline_after, smaller_nonzero_timeout, merge_delivery_timeouts,
  delivery_timeouts_for_track,
}

-- The deadline of a timeout is its end, or the last point in time where that lies behind it; a
-- timeout of 0 has none.
deadline_after-min :
    (start timeout_ms : ℕ)
    → start ≤ time_point_max
    → deadline_after start timeout_ms
      ≡ (if timeout_ms == 0 then none else some (min (start + timeout_ms * 1000000) time_point_max))
unfolding deadline_after
deadline_after-min start timeout_ms h = ground arith

-- A timeout is within another, where 0 stands for no limit.
abbrev pub within : ℕ → ℕ → Bool
within t limit = limit == 0 || (not (t == 0) && leb t limit)

abbrev pub Within : DeliveryTimeouts → DeliveryTimeouts → Type 0
Within t limit =
    (within t.object_ms limit.object_ms ≡ true) × (within t.subgroup_ms limit.subgroup_ms ≡ true)

within_trans : (a b c : ℕ) → within a b ≡ true → within b c ≡ true → within a c ≡ true
within_trans a b c h k = ground arith

Within-trans : (a b c : DeliveryTimeouts) → Within a b → Within b c → Within a c
Within-trans a b c h k = (
  within_trans a.object_ms b.object_ms c.object_ms h.0 k.0,
  within_trans a.subgroup_ms b.subgroup_ms c.subgroup_ms h.1 k.1,
)

merge-Within :
    (a b : DeliveryTimeouts)
    → Within (merge_delivery_timeouts a b) a × Within (merge_delivery_timeouts a b) b
unfolding merge_delivery_timeouts
merge-Within a b = ground arith

-- One of the limits is the number.
unfoldable pub asked : (DeliveryTimeouts → ℕ) → List DeliveryTimeouts → ℕ → Bool
asked part [] n = false
asked part (t ∷ ts) n = part t == n || asked part ts n

-- The limits of the track's subscriptions.
unfoldable pub limits : String → List SubscribeMessage → List DeliveryTimeouts
limits track_name [] = []
limits track_name (s ∷ rest) =
    let later = limits track_name rest in
    if text_key.beq s.track_name track_name then s.delivery_timeouts ∷ later else later

smaller_asked :
    (a b n : ℕ) (others : Bool)
    → ((smaller_nonzero_timeout a b == n) || others) ≡ true
    → ((a == n) || ((b == n) || others)) ≡ true
unfolding smaller_nonzero_timeout
smaller_asked a b n others h = ground arith

-- What the timeouts so far become at a subscription, and the limits from there on.
module _ (track_name : String) (s : SubscribeMessage) (rest : List SubscribeMessage)
    (publisher : DeliveryTimeouts) where
  abbrev merged : DeliveryTimeouts
  merged = merge_delivery_timeouts publisher s.delivery_timeouts

  on_track :
      text_key.beq s.track_name track_name ≡ true
      → (delivery_timeouts_for_track (s ∷ rest) track_name publisher
          ≡ delivery_timeouts_for_track rest track_name merged)
        × (limits track_name (s ∷ rest) ≡ s.delivery_timeouts ∷ limits track_name rest)
  unfolding delivery_timeouts_for_track limits
  on_track h = (
    ap (λ b. delivery_timeouts_for_track rest track_name (if b then merged else publisher)) h,
    rw h,
  )

  off_track :
      text_key.beq s.track_name track_name ≡ false
      → (delivery_timeouts_for_track (s ∷ rest) track_name publisher
          ≡ delivery_timeouts_for_track rest track_name publisher)
        × (limits track_name (s ∷ rest) ≡ limits track_name rest)
  unfolding delivery_timeouts_for_track limits
  off_track h = (
    ap (λ b. delivery_timeouts_for_track rest track_name (if b then merged else publisher)) h,
    rw h,
  )

abbrev pub AllAsked : DeliveryTimeouts → List DeliveryTimeouts → Type 0
AllAsked effective all =
    All (Within effective) all
    × (asked (λ t. t.object_ms) all effective.object_ms ≡ true)
    × (asked (λ t. t.subgroup_ms) all effective.subgroup_ms ≡ true)

AllAsked-eq :
    (first effective effective' : DeliveryTimeouts) (others others' : List DeliveryTimeouts)
    → effective ≡ effective'
    → others ≡ others'
    → AllAsked effective' (first ∷ others')
    → AllAsked effective (first ∷ others)
AllAsked-eq first effective effective' others others' p q h =
    subst (λ t. AllAsked t (first ∷ others)) (sym p)
      (subst (λ l. AllAsked effective' (first ∷ l)) (sym q) h)

merged-AllAsked :
    (a b effective : DeliveryTimeouts) (all : List DeliveryTimeouts)
    → AllAsked effective (merge_delivery_timeouts a b ∷ all)
    → AllAsked effective (a ∷ b ∷ all)
unfolding asked merge_delivery_timeouts
merged-AllAsked a b effective all h =
    let both = merge-Within a b in
    (
      (
        Within-trans effective (merge_delivery_timeouts a b) a h.0.0 both.0,
        (Within-trans effective (merge_delivery_timeouts a b) b h.0.0 both.1, h.0.1),
      ),
      smaller_asked a.object_ms b.object_ms _ _ h.1,
      smaller_asked a.subgroup_ms b.subgroup_ms _ _ h.2,
    )

nothing_else :
    (track_name : String) (t : DeliveryTimeouts)
    → AllAsked (delivery_timeouts_for_track [] track_name t) (t ∷ limits track_name [])
unfolding delivery_timeouts_for_track limits asked
nothing_else track_name t = ground arith

-- The timeouts of a track are within the publisher's and within those of every subscription of the
-- track, where 0 is no limit, and each of the two is one that was asked for.
pub delivery_timeouts_for_track-smallest :
    (track_name : String) (subscriptions : List SubscribeMessage) (publisher : DeliveryTimeouts)
    → AllAsked
        (delivery_timeouts_for_track subscriptions track_name publisher)
        (publisher ∷ limits track_name subscriptions)
delivery_timeouts_for_track-smallest track_name [] publisher = nothing_else track_name publisher
delivery_timeouts_for_track-smallest track_name (s ∷ rest) publisher =
    elim (Bool-cases (text_key.beq s.track_name track_name)) [
      | inl on ↦
          let (e, l) = on_track track_name s rest publisher on in
          AllAsked-eq publisher _ _ _ _ e l (
            merged-AllAsked publisher s.delivery_timeouts _ (limits track_name rest) (
              delivery_timeouts_for_track-smallest track_name rest
                (merge_delivery_timeouts publisher s.delivery_timeouts)))
      | inr off ↦
          let (e, l) = off_track track_name s rest publisher off in
          AllAsked-eq publisher _ _ _ _ e l
            (delivery_timeouts_for_track-smallest track_name rest publisher)
    ]
