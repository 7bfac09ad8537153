-- ===== src/Session/Generations.antt =====
-- GenerationAvailability of src/transport/moqt_session.cpp, and what it asks of a plan: when an object
-- of a plan that is played in a loop becomes available, and when its subgroup is complete. Points in
-- time are nanoseconds, offsets microseconds; what the clock shows is an argument. The count of the
-- stored origins, which only tests read, is left out.
pub mod Origins
pub mod Entries
pub mod Finals
use Prim.Native.String.{String}
use moqxr.Common.{
  ℕ, zero, suc, ◌+◌, ◌-◌, ◌*◌, ◌%◌, Bool, true, false, not, ◌&&◌, ◌||◌, Option, none, some, List,
  [], ◌∷◌, ltb, leb, ◌==◌, if◌then◌else◌, min, max, get_or, text_key, nat_eq,
}
use moqxr.Common.Assoc.{lookup}
use moqxr.Common.Assoc
use moqxr.Common.Bytes.{u64_mod}
use moqxr.Session.Subscriptions.{
  CmsfObject, CmsfObjectKind, initialization, metadata, media, SubscribeMessage,
}
use moqxr.Session.Filters.{object_matches_filter}

abbrev pub is_media : CmsfObjectKind → Bool
is_media media = true
is_media _ = false

pub record SubgroupKey : Type 0 where
  pub track_name : String
  pub group_id : ℕ
  pub subgroup_id : ℕ

abbrev pub same_key : SubgroupKey → SubgroupKey → Bool
same_key a b =
    text_key.beq a.track_name b.track_name
    && a.group_id == b.group_id
    && a.subgroup_id == b.subgroup_id

abbrev pub subgroup_of : CmsfObject → SubgroupKey
subgroup_of object = record {
  track_name = object.track_name;
  group_id = object.group_id;
  subgroup_id = object.subgroup_id;
}

abbrev pub same_subgroup : CmsfObject → CmsfObject → Bool
same_subgroup a b = same_key (subgroup_of a) (subgroup_of b)

-- find_next_matching_object_index, on the objects from the index on.
unfoldable pub find_next_matching_object_index : List CmsfObject → SubscribeMessage → ℕ → Option ℕ
find_next_matching_object_index [] subscribe index = none
find_next_matching_object_index (object ∷ objects) subscribe index =
    let later = find_next_matching_object_index objects subscribe (index + 1) in
    if text_key.beq object.track_name subscribe.track_name && object_matches_filter object subscribe
    then some index
    else later

-- is_final_object_in_subgroup, of an object of the plan; it is not above itself, so it need not be
-- left out.
unfoldable pub is_final_object_in_subgroup : List CmsfObject → CmsfObject → Bool
is_final_object_in_subgroup [] object = true
is_final_object_in_subgroup (candidate ∷ objects) object =
    let later = is_final_object_in_subgroup objects object in
    if same_subgroup candidate object && ltb object.object_id candidate.object_id
    then false
    else later

unfoldable pub subgroup_contains_group_largest : List CmsfObject → CmsfObject → Bool
subgroup_contains_group_largest [] object = true
subgroup_contains_group_largest (candidate ∷ objects) object =
    let later = subgroup_contains_group_largest objects object in
    if not (text_key.beq candidate.track_name object.track_name)
      || not (candidate.group_id == object.group_id)
    then later
    else if ltb object.object_id candidate.object_id
        && not (candidate.subgroup_id == object.subgroup_id)
    then false
    else later

abbrev or_least : Option ℕ → ℕ → ℕ
or_least none time = time
or_least (some least) time = min least time

-- first_media_time_us_, with the least time so far.
unfoldable pub first_media_time : List CmsfObject → Option ℕ → Option ℕ
first_media_time [] least = least
first_media_time (object ∷ objects) least =
    first_media_time objects
      (if not (is_media object.kind) then least else some (or_least least object.media_time_us))

unfoldable pub object_offset : Bool → Option ℕ → CmsfObject → ℕ
object_offset paced none object = 0
object_offset paced (some first) object =
    if paced && is_media object.kind && leb first object.media_time_us
    then object.media_time_us - first
    else 0

abbrev pub object_offsets_of : Bool → Option ℕ → List CmsfObject → List ℕ
object_offsets_of paced first [] = []
object_offsets_of paced first (object ∷ objects) =
    object_offset paced first object ∷ object_offsets_of paced first objects

-- An entry of final_object_indices: the subgroup, the greatest object id of it so far, and the index
-- in the plan that is kept with it.
pub record FinalObject : Type 0 where
  pub subgroup : SubgroupKey
  pub object_id : ℕ
  pub index : ℕ

abbrev pub final_entry : ℕ → CmsfObject → FinalObject
final_entry index object = record {
  subgroup = subgroup_of object;
  object_id = object.object_id;
  index = index;
}

unfoldable pub note_final : ℕ → CmsfObject → List FinalObject → List FinalObject
note_final index object [] = final_entry index object ∷ []
note_final index object (final ∷ finals) =
    if same_key final.subgroup (subgroup_of object)
    then (if leb final.object_id object.object_id
        then final_entry index object ∷ finals
        else final ∷ finals)
    else final ∷ note_final index object finals

unfoldable pub final_objects : List CmsfObject → ℕ → List FinalObject → List FinalObject
unfolding note_final
final_objects [] index finals = finals
final_objects (object ∷ objects) index finals =
    final_objects objects (index + 1) (note_final index object finals)

unfoldable pub find_final : SubgroupKey → List FinalObject → Option FinalObject
find_final subgroup [] = none
find_final subgroup (final ∷ finals) =
    let later = find_final subgroup finals in
    if same_key final.subgroup subgroup then some final else later

abbrev pub completion_offset : List ℕ → Option FinalObject → ℕ
completion_offset offsets none = 0
completion_offset offsets (some final) = get_or offsets final.index 0

abbrev pub completion_offsets : List ℕ → List FinalObject → List CmsfObject → List ℕ
completion_offsets offsets finals [] = []
completion_offsets offsets finals (object ∷ objects) =
    completion_offset offsets (find_final (subgroup_of object) finals)
    ∷ completion_offsets offsets finals objects

pub record GenerationAvailability : Type 0 where
  -- loop_state_.cycle_duration_us
  pub cycle_duration_us : ℕ
  pub paced : Bool
  pub enabled : Bool
  pub first_generation_at : ℕ
  pub first_media_time_us : Option ℕ
  pub object_offsets : List ℕ
  pub subgroup_completion_offsets : List ℕ
  pub generation_origins : List (ℕ × ℕ)
  pub oldest_retained_cycle : ℕ

-- The constructor, with what read_now shows.
unfoldable pub new_availability : List CmsfObject → ℕ → Bool → Bool → ℕ → GenerationAvailability
unfolding first_media_time final_objects
new_availability plan cycle_duration_us paced enabled now =
    let first = first_media_time plan none in
    let offsets = object_offsets_of paced first plan in
    if not enabled
    then record {
      cycle_duration_us = cycle_duration_us;
      paced = paced;
      enabled = false;
      first_generation_at = 0;
      first_media_time_us = none;
      object_offsets = [];
      subgroup_completion_offsets = [];
      generation_origins = [];
      oldest_retained_cycle = 0;
    }
    else record {
      cycle_duration_us = cycle_duration_us;
      paced = paced;
      enabled = true;
      first_generation_at = now;
      first_media_time_us = first;
      object_offsets = offsets;
      subgroup_completion_offsets = completion_offsets offsets (final_objects plan 0 []) plan;
      generation_origins = [];
      oldest_retained_cycle = 0;
    }

abbrev remember_origin : ℕ → ℕ → GenerationAvailability → Option ℕ → ℕ × GenerationAvailability
remember_origin loop_cycle now a (some origin) = (origin, a)
remember_origin loop_cycle now a none =
    (now, record a { generation_origins = Assoc.insert loop_cycle now a.generation_origins })

unfoldable pub generation_origin : ℕ → ℕ → GenerationAvailability → ℕ × GenerationAvailability
generation_origin loop_cycle now a =
    if loop_cycle == 0
    then (a.first_generation_at, a)
    else if a.paced && not (a.cycle_duration_us == 0)
    then (a.first_generation_at + (loop_cycle * a.cycle_duration_us % u64_mod) * 1000, a)
    else remember_origin loop_cycle now a (lookup loop_cycle a.generation_origins)

-- offsets.at(plan_index), which throws out of range.
abbrev pub offset_at : List ℕ → ℕ → Option ℕ
offset_at [] plan_index = none
offset_at (offset ∷ offsets) zero = some offset
offset_at (offset ∷ offsets) (suc plan_index) = offset_at offsets plan_index

abbrev from_origin : ℕ × GenerationAvailability → Option ℕ → Option (ℕ × GenerationAvailability)
from_origin (origin, a) none = none
from_origin (origin, a) (some offset) = some (origin + offset * 1000, a)

unfoldable pub object_available_at :
    ℕ → ℕ → ℕ → GenerationAvailability → Option (ℕ × GenerationAvailability)
object_available_at loop_cycle plan_index now a =
    from_origin (generation_origin loop_cycle now a) (offset_at a.object_offsets plan_index)

unfoldable pub subgroup_completed_at :
    ℕ → ℕ → ℕ → GenerationAvailability → Option (ℕ × GenerationAvailability)
subgroup_completed_at loop_cycle plan_index now a =
    from_origin (generation_origin loop_cycle now a)
      (offset_at a.subgroup_completion_offsets plan_index)

unfoldable pub initial_loop_cycle : GenerationAvailability → ℕ
initial_loop_cycle a = if a.enabled then a.oldest_retained_cycle else 0

unfoldable pub keep_origins : ℕ → ℕ → List (ℕ × ℕ) → List (ℕ × ℕ)
keep_origins oldest newest [] = []
keep_origins oldest newest ((cycle, origin) ∷ origins) =
    let kept = keep_origins oldest newest origins in
    if leb oldest cycle && leb cycle newest then (cycle, origin) ∷ kept else kept

abbrev pub last_of : ℕ → List ℕ → ℕ
last_of cycle [] = cycle
last_of cycle (later ∷ cycles) = last_of later cycles

-- retain_generations, with the set of needed cycles as an ascending list.
unfoldable pub retain_generations : List ℕ → GenerationAvailability → GenerationAvailability
unfolding keep_origins
retain_generations [] a = a
retain_generations (first ∷ cycles) a =
    if not a.enabled || a.paced
    then a
    else let oldest = max a.oldest_retained_cycle first in
      record a {
        oldest_retained_cycle = oldest;
        generation_origins = keep_origins oldest (last_of first cycles) a.generation_origins;
      }
