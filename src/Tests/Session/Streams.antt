-- ===== src/Tests/Session/Streams.antt =====
-- Streams of the peer, and generations of a plan, on concrete input.
use moqxr.Common.{ℕ, ◌≡◌, refl, true, false, none, some, List, [], ◌∷◌, arith, take}
use moqxr.Draft.{draft23}
use moqxr.Session.Drafts.{decode_moqint}
use moqxr.Session.PeerStreams.{new_stream, read_stream_loop}
use moqxr.Session.PeerStreams.Chunks.{chunks, joined, known_at, type_known, read_stream_loop-chunks}
use moqxr.Session.Subscriptions.{CmsfObject, media}
use moqxr.Session.Generations.{
  GenerationAvailability, FinalObject, subgroup_of, generation_origin, retain_generations,
  final_objects, find_final, same_subgroup, is_final_object_in_subgroup, new_availability,
  offset_at, object_offset, first_media_time,
}
use moqxr.Session.Generations.Origins.{generation_origin_stays}
use moqxr.Session.Generations.Entries.{object_at}
use moqxr.Session.Generations.Finals.{new_availability-completion}

-- The type 0x2f00 and a byte behind it, in three chunks.
abbrev cut : List (List ℕ)
cut = (0xaf ∷ []) ∷ (0x00 ∷ 7 ∷ []) ∷ (8 ∷ []) ∷ []

read_stream_loop-chunks_example :
    known_at (read_stream_loop draft23 0 (chunks cut) new_stream)
    ≡ type_known draft23 0 (decode_moqint (take 9 (joined cut)) 0 draft23)
read_stream_loop-chunks_example = read_stream_loop-chunks draft23 0 refl cut (omega arith)

abbrev unpaced : GenerationAvailability
unpaced = record {
  cycle_duration_us = 0;
  paced = false;
  enabled = true;
  first_generation_at = 500;
  first_media_time_us = none;
  object_offsets = 0 ∷ [];
  subgroup_completion_offsets = 0 ∷ [];
  generation_origins = [];
  oldest_retained_cycle = 1;
}

generation_origin_stays_example :
    ((generation_origin 2 900 (generation_origin 2 700 unpaced).1).0
      ≡ (generation_origin 2 700 unpaced).0)
    × ((generation_origin 2 900
          (retain_generations (2 ∷ 3 ∷ []) (generation_origin 2 700 unpaced).1)).0
        ≡ (generation_origin 2 700 unpaced).0)
generation_origin_stays_example =
    generation_origin_stays unpaced 2 700 900 2 (3 ∷ []) (omega arith) (omega arith) (omega arith)

abbrev front : CmsfObject
front = record {
  kind = media;
  track_name = "video";
  group_id = 1;
  subgroup_id = 0;
  object_id = 0;
  media_time_us = 0;
}

abbrev back : CmsfObject
back = record front { object_id = 1; media_time_us = 40000 }

abbrev twin : CmsfObject
twin = record front { object_id = 1; media_time_us = 20000 }

abbrev back_entry : FinalObject
back_entry = record { subgroup = subgroup_of front; object_id = 1; index = 2 }

-- Of two objects with the greatest id the later one is kept.
back_found :
    find_final (subgroup_of front) (final_objects (front ∷ twin ∷ back ∷ []) 0 []) ≡ some back_entry
unfolding find_final final_objects
back_found = refl

new_availability-completion_example :
    (final : FinalObject) × (last : CmsfObject) × (find_final
        (subgroup_of front)
        (final_objects (front ∷ back ∷ []) 0 [])
      ≡ some final)
    × (object_at (front ∷ back ∷ []) final.index ≡ some last)
    × (last.object_id ≡ final.object_id)
    × (same_subgroup last front ≡ true)
    × (is_final_object_in_subgroup (front ∷ back ∷ []) last ≡ true)
    × (offset_at
          (new_availability (front ∷ back ∷ []) 80000 true true 500).subgroup_completion_offsets
          0
        ≡ some (object_offset true (first_media_time (front ∷ back ∷ []) none) last))
new_availability-completion_example =
    new_availability-completion (front ∷ back ∷ []) 80000 true 500 0 front refl

-- The first object's subgroup is complete with the second.
completion_test :
    (new_availability (front ∷ back ∷ []) 80000 true true 500).subgroup_completion_offsets
    ≡ 40000 ∷ 40000 ∷ []
unfolding new_availability object_offset find_final
completion_test = refl
