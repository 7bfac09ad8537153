-- ===== src/Draft.antt =====
-- include/openmoq/publisher/moq_draft.h, src/moq_draft.cpp: the protocol drafts and their order.
use moqxr.Common.{Bool, true, false, ◌||◌}

pub data DraftVersion : Type 0 where
  draft14 draft16 draft17 draft18 draft21 draft22 draft23 : DraftVersion

-- `version == DraftVersion::kDraftNN`
abbrev pub is_draft14 : DraftVersion → Bool
is_draft14 draft14 = true
is_draft14 _ = false

abbrev pub is_draft16 : DraftVersion → Bool
is_draft16 draft16 = true
is_draft16 _ = false

abbrev pub is_draft17 : DraftVersion → Bool
is_draft17 draft17 = true
is_draft17 _ = false

abbrev pub is_draft18 : DraftVersion → Bool
is_draft18 draft18 = true
is_draft18 _ = false

abbrev pub is_draft21 : DraftVersion → Bool
is_draft21 draft21 = true
is_draft21 _ = false

abbrev pub is_draft22 : DraftVersion → Bool
is_draft22 draft22 = true
is_draft22 _ = false

abbrev pub is_draft23_or_later : DraftVersion → Bool
is_draft23_or_later draft23 = true
is_draft23_or_later _ = false

abbrev pub is_draft22_or_later : DraftVersion → Bool
is_draft22_or_later version = is_draft22 version || is_draft23_or_later version

abbrev pub is_draft21_or_later : DraftVersion → Bool
is_draft21_or_later version = is_draft21 version || is_draft22_or_later version

abbrev pub is_draft18_or_later : DraftVersion → Bool
is_draft18_or_later version = is_draft18 version || is_draft21_or_later version
