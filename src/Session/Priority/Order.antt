-- ===== src/Session/Priority/Order.antt =====
-- The comparators of src/transport/moqt_session.cpp are the lexicographic order on a list of keys.
use moqxr.Common.{
  ℕ, ◌-◌, ◌≡◌, refl, Bool, true, false, ◌&&◌, ◌||◌, List, [], ◌∷◌, arith, ltb, ◌==◌, if◌then◌else◌,
  length,
}
use moqxr.Common.Bytes.{IsU64, u64_mod}
use moqxr.Session.Priority.{
  CandidatePriority, order_of, precedes_within, precedes, precedes_cross_request,
}

-- The lexicographic order on lists of one length.
unfoldable pub lex_less : List ℕ → List ℕ → Bool
lex_less [] ys = false
lex_less (x ∷ xs) [] = false
lex_less (x ∷ xs) (y ∷ ys) = ltb x y || (x == y && lex_less xs ys)

lex_asym : (xs ys : List ℕ) → (lex_less xs ys && lex_less ys xs) ≡ false
unfolding lex_less
lex_asym [] ys = refl
lex_asym (x ∷ xs) [] = refl
lex_asym (x ∷ xs) (y ∷ ys) = ground (arith, lex_asym xs ys)

lex_between :
    (xs ys zs : List ℕ)
    → length xs ≡ length zs
    → length ys ≡ length zs
    → lex_less xs ys ≡ true
    → (lex_less xs zs || lex_less zs ys) ≡ true
unfolding lex_less
lex_between [] ys zs p q h = ground arith
lex_between (x ∷ xs) [] zs p q h = ground arith
lex_between (x ∷ xs) (y ∷ ys) [] p q h = ground arith
lex_between (x ∷ xs) (y ∷ ys) (z ∷ zs) p q h = ground (arith, lex_between xs ys zs)

-- A descending group order turns the groups round.
unfoldable pub group_key : CandidatePriority → ℕ
unfolding order_of
group_key c = if order_of c.group_order == 2 then u64_mod - 1 - c.group_id else c.group_id

abbrev keys_within : CandidatePriority → List ℕ
keys_within c =
    order_of c.group_order
    ∷ group_key c
    ∷ c.subgroup_id
    ∷ c.object_id
    ∷ c.request_id
    ∷ c.plan_index
    ∷ []

abbrev pub keys : CandidatePriority → List ℕ
keys c =
    c.subscriber_priority
    ∷ c.publisher_priority
    ∷ c.request_fairness_round
    ∷ c.request_id
    ∷ keys_within c

abbrev pub keys_cross_request : CandidatePriority → List ℕ
keys_cross_request c =
    c.subscriber_priority
    ∷ c.publisher_priority
    ∷ c.media_time_us
    ∷ c.request_fairness_round
    ∷ c.request_id
    ∷ keys_within c

module _ (a b : CandidatePriority) (u : IsU64 a.group_id) (v : IsU64 b.group_id) where
  within-lex : precedes_within a b ≡ lex_less (keys_within a) (keys_within b)
  unfolding precedes_within lex_less group_key
  within-lex = ground arith

  precedes_alone-lex : precedes a b ≡ lex_less (keys a) (keys b)
  unfolding precedes lex_less
  precedes_alone-lex = ground (arith, within-lex)

  cross-lex : precedes_cross_request a b ≡ lex_less (keys_cross_request a) (keys_cross_request b)
  unfolding precedes_cross_request precedes lex_less
  cross-lex = ground (arith, within-lex)

-- On candidates with 64-bit groups both comparators are the lexicographic order on lists of keys: by
-- the two priorities, then by the media time where requests are compared, then by the fairness round
-- and the request, then by the group order, the group (the other way round for a descending order),
-- the subgroup, the object, the request and the place in the plan.
pub precedes-lex :
    (a b : CandidatePriority)
    → IsU64 a.group_id
    → IsU64 b.group_id
    → (precedes a b ≡ lex_less (keys a) (keys b))
      × (precedes_cross_request a b ≡ lex_less (keys_cross_request a) (keys_cross_request b))
precedes-lex a b u v = (precedes_alone-lex a b u v, cross-lex a b u v)

-- On candidates with 64-bit groups precedes_cross_request is a strict weak order: it does not hold
-- both ways, and where a precedes b, any third candidate comes after a or before b.
pub precedes_cross_request-weak :
    (a b c : CandidatePriority)
    → IsU64 a.group_id
    → IsU64 b.group_id
    → IsU64 c.group_id
    → precedes_cross_request a b ≡ true
    → (precedes_cross_request b a ≡ false)
      × ((precedes_cross_request a c || precedes_cross_request c b) ≡ true)
precedes_cross_request-weak a b c u v w h =
    let less = rw (cross-lex a b u v) at h in
    let asym = lex_asym (keys_cross_request a) (keys_cross_request b) in
    (
      rw (cross-lex b a v u) (ground (arith, less, asym)),
      rw (cross-lex a c u w, cross-lex c b w v)
          (lex_between (keys_cross_request a) (keys_cross_request b) (keys_cross_request c) refl
            refl less),
    )
