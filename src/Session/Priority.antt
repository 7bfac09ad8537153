-- ===== src/Session/Priority.antt =====
-- The order in which src/transport/moqt_session.cpp sends objects: CandidatePriority, precedes,
-- precedes_cross_request and object_transport_priority. The counter of comparisons, which only tests
-- read, is left out.
pub mod Order
pub mod Classes
use moqxr.Common.{ℕ, ◌+◌, ◌*◌, ◌/◌, ◌%◌, Bool, not, ◌&&◌, ◌||◌, ltb, ◌==◌, if◌then◌else◌}

pub record CandidatePriority : Type 0 where
  pub subscriber_priority : ℕ
  pub publisher_priority : ℕ
  pub media_time_us : ℕ
  pub request_fairness_round : ℕ
  pub group_order : ℕ
  pub group_id : ℕ
  pub subgroup_id : ℕ
  pub object_id : ℕ
  pub request_id : ℕ
  pub plan_index : ℕ

-- std::tie(a, b) < std::tie(c, d), and its !=
unfoldable pub tie_less : ℕ → ℕ → ℕ → ℕ → Bool
tie_less a b c d = ltb a c || (not (ltb c a) && ltb b d)

unfoldable pub tie_differs : ℕ → ℕ → ℕ → ℕ → Bool
tie_differs a b c d = not (a == c && b == d)

-- order == 2 ? 2 : 1
unfoldable pub order_of : ℕ → ℕ
order_of group_order = if group_order == 2 then 2 else 1

-- The part of precedes that orders the objects of one request.
unfoldable pub precedes_within : CandidatePriority → CandidatePriority → Bool
unfolding tie_less order_of
precedes_within first second =
    let first_group_order = order_of first.group_order in
    let second_group_order = order_of second.group_order in
    if not (first_group_order == second_group_order)
    then ltb first_group_order second_group_order
    else if not (first.group_id == second.group_id)
    then (if first_group_order == 2
        then ltb second.group_id first.group_id
        else ltb first.group_id second.group_id)
    else if not (first.subgroup_id == second.subgroup_id)
    then ltb first.subgroup_id second.subgroup_id
    else if not (first.object_id == second.object_id)
    then ltb first.object_id second.object_id
    else tie_less first.request_id first.plan_index second.request_id second.plan_index

unfoldable pub precedes : CandidatePriority → CandidatePriority → Bool
unfolding tie_less tie_differs precedes_within
precedes first second =
    if not (first.subscriber_priority == second.subscriber_priority)
    then ltb first.subscriber_priority second.subscriber_priority
    else if not (first.publisher_priority == second.publisher_priority)
    then ltb first.publisher_priority second.publisher_priority
    else if tie_differs first.request_fairness_round first.request_id second.request_fairness_round
        second.request_id
    then tie_less first.request_fairness_round first.request_id second.request_fairness_round
        second.request_id
    else precedes_within first second

unfoldable pub precedes_cross_request : CandidatePriority → CandidatePriority → Bool
unfolding precedes
precedes_cross_request first second =
    if not (first.subscriber_priority == second.subscriber_priority)
    then ltb first.subscriber_priority second.subscriber_priority
    else if not (first.publisher_priority == second.publisher_priority)
    then ltb first.publisher_priority second.publisher_priority
    else if not (first.media_time_us == second.media_time_us)
    then ltb first.media_time_us second.media_time_us
    else precedes first second

-- The products are taken in 32 bits, the result is a byte.
unfoldable pub object_transport_priority : ℕ → ℕ → ℕ
object_transport_priority subscriber_priority publisher_priority =
    let tuple_rank = subscriber_priority * 256 + publisher_priority in
    (2 + tuple_rank * 253 % 4294967296 / 65535) % 256
