-- ===== src/Session/RequestIds/Sequence.antt =====
-- The Request IDs that PeerRequestIdValidator (src/transport/moqt_session.cpp) takes one after the
-- other.
use moqxr.Common.{
  ℕ, sym, ◌∙◌, ◌+◌, ◌*◌, ◌%◌, ◌^◌, ◌≤◌, ◌<◌, ◌≡◌, ◌↔◌, refl, Bool, true, false, List, [], ◌∷◌,
  arith, leb, ◌==◌, if◌then◌else◌, length, nat_eq,
}
use moqxr.Common.Bytes.{add64}
use moqxr.Common.Sets.{member, add}
use moqxr.Draft.{DraftVersion, draft16, is_draft16, is_draft18_or_later}
use moqxr.Session.Violations.{goes_on}
use moqxr.Session.RequestIds.{PeerRequestIdValidator, new, validate}

-- Whether every one of the ids is accepted; the session ends at the first that is not.
unfoldable pub accepts : PeerRequestIdValidator → List ℕ → Bool
accepts v [] = true
accepts v (id ∷ ids) =
    let (reply, v') = validate v id in
    let rest = accepts v' ids in if reply.status.ok then rest else false

-- n, n + 2, and so on, k numbers.
abbrev pub odds_from : ℕ → List ℕ → List ℕ
odds_from n [] = []
odds_from n (id ∷ ids) = n ∷ odds_from (n + 2) ids

abbrev at_draft16 : ℕ → ℕ → List ℕ → PeerRequestIdValidator
at_draft16 max next seen = record {
  draft = draft16;
  advertised_max_request_id = max;
  next_draft16_request_id = next;
  draft18_request_ids = seen;
}

module _ (max n id : ℕ) (seen : List ℕ) (o : n % 2 ≡ 1) (m : max < 2 ^ 62) where
  validate16-next :
      id < max
      → id ≡ n
      → validate (at_draft16 max n seen) id ≡ (goes_on, at_draft16 max (n + 2) seen)
  unfolding validate
  validate16-next below same =
      let room : leb max id ≡ false = ground arith in
      let odd : (id % 2 == 0) ≡ false = ground arith in
      let hit : (id == n) ≡ true = ground arith in
      let sum : add64 n 2 ≡ n + 2 = omega arith in rw (room, odd, hit, sum)

  validate16-refuses :
      (validate (at_draft16 max n seen) id).0.status.ok ≡ true → (id < max) × (id ≡ n)
  unfolding validate
  validate16-refuses h = ground arith

accepts-first :
    (v : PeerRequestIdValidator) (id : ℕ) (ids : List ℕ)
    → accepts v (id ∷ ids) ≡ true
    → ((validate v id).0.status.ok ≡ true) × (accepts (validate v id).1 ids ≡ true)
unfolding accepts
accepts-first v id ids h = ground arith

accepts-next :
    (v w : PeerRequestIdValidator) (id : ℕ) (ids : List ℕ)
    → validate v id ≡ (goes_on, w)
    → accepts v (id ∷ ids) ≡ accepts w ids
unfolding accepts
accepts-next v w id ids e = rw e

accepts16_all :
    (max n : ℕ) (seen ids : List ℕ)
    → n % 2 ≡ 1
    → max < 2 ^ 62
    → ids ≡ odds_from n ids
    → 2 * length ids + n ≤ max + 1
    → accepts (at_draft16 max n seen) ids ≡ true
unfolding accepts
accepts16_all max n seen [] o m h k = refl
accepts16_all max n seen (id ∷ ids) o m h k =
    let first : id ≡ n = cc in
    accepts-next _ _ id ids (validate16-next max n id seen o m (omega arith) first)
    ∙ accepts16_all max (n + 2) seen ids (omega arith) m (cc) (omega arith)

accepts16_only :
    (max n : ℕ) (seen ids : List ℕ)
    → n % 2 ≡ 1
    → n ≤ max + 1
    → max < 2 ^ 62
    → accepts (at_draft16 max n seen) ids ≡ true
    → (ids ≡ odds_from n ids) × (2 * length ids + n ≤ max + 1)
accepts16_only max n seen [] o l m h = (refl, omega arith)
accepts16_only max n seen (id ∷ ids) o l m h =
    let (ok, rest) = accepts-first _ id ids h in
    let (below, same) = validate16-refuses max n id seen o m ok in
    let e = accepts-next _ _ id ids (validate16-next max n id seen o m below same) in
    let (odds, room) =
      accepts16_only max (n + 2) seen ids (omega arith) (omega arith) m (sym e ∙ h) in
    (ground (arith, same, odds), omega (arith, room))

-- On draft 16, with an advertised maximum below 2^62, the peer's requests are all accepted exactly
-- when their ids are 1, 3, 5 and so on in this order, and below the maximum.
pub accepts-draft16 :
    (max : ℕ) (ids : List ℕ)
    → max < 2 ^ 62
    → (accepts (new draft16 max) ids ≡ true) ↔ ((ids ≡ odds_from 1 ids) × (2 * length ids ≤ max))
accepts-draft16 max ids m = (
  λ h.
      let (odds, room) = accepts16_only max 1 [] ids (omega arith) (omega arith) m h in
      (odds, omega (arith, room)),
  λ (odds, room). accepts16_all max 1 [] ids (omega arith) m odds (omega (arith, room)),
)

-- Every id is odd, and is neither among the ids seen nor among the ids in front of it.
abbrev pub AreNew : List ℕ → List ℕ → Type 0
AreNew seen [] = Unit {0}
AreNew seen (id ∷ ids) = (id % 2 ≡ 1) × (member id seen ≡ false) × AreNew (id ∷ seen) ids

late_not16 : (draft : DraftVersion) → is_draft18_or_later draft ≡ true → is_draft16 draft ≡ false
late_not16 draft16 late = ground arith
late_not16 _ late = refl

module _ (draft : DraftVersion) (max : ℕ) (late : is_draft18_or_later draft ≡ true) where
  abbrev late_validator : List ℕ → PeerRequestIdValidator
  late_validator seen = record {
    draft = draft;
    advertised_max_request_id = max;
    next_draft16_request_id = 1;
    draft18_request_ids = seen;
  }

  not16 : is_draft16 draft ≡ false
  not16 = late_not16 draft late

  validate_late-next :
      (id : ℕ) (seen : List ℕ)
      → id % 2 ≡ 1
      → member id seen ≡ false
      → validate (late_validator seen) id ≡ (goes_on, late_validator (id ∷ seen))
  unfolding validate add
  validate_late-next id seen odd fresh =
      let odd' : (id % 2 == 0) ≡ false = ground arith in rw (late, not16, odd', fresh)

  validate_late-refuses :
      (id : ℕ) (seen : List ℕ)
      → (validate (late_validator seen) id).0.status.ok ≡ true
      → (id % 2 ≡ 1) × (member id seen ≡ false)
  unfolding validate
  validate_late-refuses id seen h = ground (arith, not16)

  accepts_late_all :
      (seen ids : List ℕ) → AreNew seen ids → accepts (late_validator seen) ids ≡ true
  unfolding accepts
  accepts_late_all seen [] h = refl
  accepts_late_all seen (id ∷ ids) h =
      accepts-next _ _ id ids (validate_late-next id seen h.0 h.1)
      ∙ accepts_late_all (id ∷ seen) ids h.2

  accepts_late_only :
      (seen ids : List ℕ) → accepts (late_validator seen) ids ≡ true → AreNew seen ids
  accepts_late_only seen [] h = tt
  accepts_late_only seen (id ∷ ids) h =
      let (ok, rest) = accepts-first _ id ids h in
      let (odd, fresh) = validate_late-refuses id seen ok in
      let e = accepts-next _ _ id ids (validate_late-next id seen odd fresh) in
      (odd, fresh, accepts_late_only (id ∷ seen) ids (sym e ∙ h))

-- From draft 18 on the peer's requests are all accepted exactly when their ids are odd and none is
-- used twice.
pub accepts-late :
    (draft : DraftVersion) (max : ℕ) (ids : List ℕ)
    → is_draft18_or_later draft ≡ true
    → (accepts (new draft max) ids ≡ true) ↔ AreNew [] ids
accepts-late draft max ids late =
    (accepts_late_only draft max late [] ids, accepts_late_all draft max late [] ids)
