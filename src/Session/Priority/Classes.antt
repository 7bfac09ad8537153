-- ===== src/Session/Priority/Classes.antt =====
-- object_transport_priority of src/transport/moqt_session.cpp: the class of the transport's
-- scheduler for the two priorities of an object.
use moqxr.Common.{ℕ, ◌+◌, ◌*◌, ◌/◌, ◌≤◌, ◌≡◌, true, arith}
use moqxr.Common.Bytes.{IsByte}
use moqxr.Session.Priority.{
  CandidatePriority, precedes, precedes_cross_request, object_transport_priority,
}

abbrev class_of : CandidatePriority → ℕ
class_of c = object_transport_priority c.subscriber_priority c.publisher_priority

class-eq :
    (s p : ℕ)
    → IsByte s
    → IsByte p
    → object_transport_priority s p ≡ 2 + (s * 256 + p) * 253 / 65535
unfolding object_transport_priority
class-eq s p u v = omega arith

class_mono :
    (s p s' p' : ℕ)
    → IsByte s
    → IsByte p
    → IsByte s'
    → IsByte p'
    → s * 256 + p ≤ s' * 256 + p'
    → object_transport_priority s p ≤ object_transport_priority s' p'
class_mono s p s' p' u v u' v' h = omega (arith, class-eq s p u v, class-eq s' p' u' v')

ranked :
    (a b : CandidatePriority)
    → IsByte a.publisher_priority
    → precedes_cross_request a b ≡ true
    → a.subscriber_priority * 256 + a.publisher_priority
      ≤ b.subscriber_priority * 256 + b.publisher_priority
unfolding precedes_cross_request precedes
ranked a b v h = ground arith

-- Where a candidate precedes another, with priorities that are bytes, its transport class is not
-- above the other's, and both lie between 2 and 255.
class-precedes :
    (a b : CandidatePriority)
    → IsByte a.subscriber_priority
    → IsByte a.publisher_priority
    → IsByte b.subscriber_priority
    → IsByte b.publisher_priority
    → precedes_cross_request a b ≡ true
    → (2 ≤ class_of a) × (class_of a ≤ class_of b) × (class_of b ≤ 255)
class-precedes a b u v u' v' h = omega (
  arith,
  ranked a b v h,
  class-eq a.subscriber_priority a.publisher_priority u v,
  class-eq b.subscriber_priority b.publisher_priority u' v',
)
