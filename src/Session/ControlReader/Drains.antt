-- ===== src/Session/ControlReader/Drains.antt =====
-- The loop of SessionControlReader (src/transport/moqt_session.cpp) over the messages that wait: two
-- rounds are enough, and the first GOAWAY stays.
use Prim.Native.String.{String}
use moqxr.Common.{
  ℕ, suc, ◌≡◌, refl, sym, subst, Bool, true, false, not, ◌&&◌, Option, none, some, [], ◌∷◌,
  Bool-cases, Option-cases, inl, inr, take,
}
use moqxr.Draft.{DraftVersion, is_draft23_or_later}
use moqxr.Failover.{failure, fatal}
use moqxr.Wire.Control.{next_control_message}
use moqxr.Wire.Notices.{GoawayMessage, decode_goaway_message}
use moqxr.Session.Violations.{Reply, unexpected_message_error_code, session_violation}
use moqxr.Session.ControlReader.{
  Reading, Drained, returns, waits, out_of_fuel, is_goaway, is_held, keep_goaway, take_message,
  drain, drain_rounds,
}

-- The session is closed, with one code and a fatal status.
abbrev pub IsClosed : Reply → Type 0
IsClosed reply =
    (code : ℕ) × (message : String) × (reply
      ≡ record { closes = code ∷ []; status = failure message fatal })

pub session_violation-IsClosed :
    (draft : DraftVersion) (code fault : ℕ) (message : String)
    → IsClosed (session_violation draft fault code message)
session_violation-IsClosed draft code fault message =
    elim (Bool-cases (is_draft23_or_later draft)) [
      | inl late ↦ rw late (_, _, refl)
      | inr early ↦ rw early (_, _, refl)
    ]

-- The first bytes that wait are a GOAWAY that can be read, and none is held.
abbrev pub may_take : DraftVersion → ℕ → Reading → Bool
may_take draft size r =
    is_goaway (take size r.pending) draft
    && not (is_held r.goaway)
    && is_held (decode_goaway_message (take size r.pending) draft).0

-- A whole message waits that the reader may not take, and the session is closed.
abbrev pub IsRefused : DraftVersion → Reply → Reading → Type 0
IsRefused draft reply r =
    (size : ℕ) × (next_control_message r.pending draft ≡ some size)
    × (may_take draft size r ≡ false)
    × IsClosed reply

-- A GOAWAY that is held stays.
abbrev pub Keeps : Option GoawayMessage → Option GoawayMessage → Type 0
Keeps none new = Unit {0}
Keeps (some message) new = new ≡ some message

abbrev pub DrainedKeeps : DraftVersion → Option GoawayMessage → Drained → Type 0
DrainedKeeps draft old (returns reply r) = IsRefused draft reply r × Keeps old r.goaway
DrainedKeeps draft old (waits r) =
    (next_control_message r.pending draft ≡ none) × Keeps old r.goaway
DrainedKeeps draft old out_of_fuel = ⊥

pub Keeps-refl : (old : Option GoawayMessage) → Keeps old old
Keeps-refl none = tt
Keeps-refl (some message) = refl

module _ (draft : DraftVersion) where
  held_message :
      (size : ℕ) (r : Reading) (again : Reading → Drained)
      → next_control_message r.pending draft ≡ some size
      → is_held r.goaway ≡ true
      → DrainedKeeps draft r.goaway (take_message draft size r again)
  unfolding take_message
  held_message size r again whole h = elim (Bool-cases (is_goaway (take size r.pending) draft)) [
    | inl named ↦
        rw (named, h)
          (
            (
              size,
              whole,
              rw (named, h) refl,
              session_violation-IsClosed draft unexpected_message_error_code r.fault _,
            ),
            Keeps-refl r.goaway,
          )
    | inr other ↦ rw other (
      (
        size,
        whole,
        rw other refl,
        session_violation-IsClosed draft unexpected_message_error_code r.fault _,
      ),
      Keeps-refl r.goaway,
    )
  ]

  -- With a GOAWAY held one round is enough.
  held_drain :
      (fuel : ℕ) (r : Reading)
      → is_held r.goaway ≡ true
      → DrainedKeeps draft r.goaway (drain (suc fuel) draft r)
  unfolding drain
  held_drain fuel r h = elim (Option-cases (next_control_message r.pending draft)) [
    | inl rest ↦ rw (drain, rest) (rest, Keeps-refl r.goaway)
    | inr (size, whole) ↦ rw (drain, whole) (held_message size r (drain fuel draft) whole h)
  ]

  first_message :
      (size : ℕ) (r : Reading) (fuel : ℕ)
      → next_control_message r.pending draft ≡ some size
      → is_held r.goaway ≡ false
      → DrainedKeeps draft none (take_message draft size r (drain (suc fuel) draft))
  unfolding take_message
  first_message size r fuel whole h = elim (Bool-cases (is_goaway (take size r.pending) draft)) [
    | inl named ↦
        rw (named, h) (kept named (decode_goaway_message (take size r.pending) draft) refl)
    | inr other ↦ rw other (
      (
        size,
        whole,
        rw other refl,
        session_violation-IsClosed draft unexpected_message_error_code r.fault _,
      ),
      tt,
    )
  ]
    where
      weaker :
          (m : GoawayMessage) (d : Drained)
          → DrainedKeeps draft (some m) d
          → DrainedKeeps draft none d
      weaker m (returns reply r') k = (k.0, tt)
      weaker m (waits r') k = (k.0, tt)
      weaker m out_of_fuel k = k

      kept :
          is_goaway (take size r.pending) draft ≡ true
          → (o : Option GoawayMessage × ℕ) → decode_goaway_message (take size r.pending) draft ≡ o
          → DrainedKeeps draft none (keep_goaway draft size r (drain (suc fuel) draft) o)
      kept named (none, fault) unread =
          ((size, whole, rw (named, h, unread) refl, (_, _, refl)), tt)
      kept named (some message, fault) read = weaker message _ (held_drain fuel _ refl)

  first_drain :
      (r : Reading)
      → is_held r.goaway ≡ false
      → DrainedKeeps draft none (drain drain_rounds draft r)
  unfolding drain
  first_drain r h = elim (Option-cases (next_control_message r.pending draft)) [
    | inl rest ↦ rw (drain, rest) (rest, tt)
    | inr (size, whole) ↦ rw (drain, whole) (first_message size r 0 whole h)
  ]

  pub drain-Keeps : (r : Reading) → DrainedKeeps draft r.goaway (drain drain_rounds draft r)
  drain-Keeps r = elim (Option-cases r.goaway) [
    | inl free ↦
        subst (λ old. DrainedKeeps draft old (drain drain_rounds draft r)) (sym free)
          (first_drain r (rw free))
    | inr (message, held) ↦ held_drain 1 r (rw held)
  ]
