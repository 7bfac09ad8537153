-- ===== src/Session/Namespaces.antt =====
-- src/transport/moqt_session.cpp: track namespaces against the text that the publisher was given,
-- whose components stand between slashes. A start position in the text is the text from there on, or
-- `none` behind its end.
pub mod Matching
use moqxr.Common.{
  ℕ, Bool, true, false, not, ◌&&◌, ◌||◌, Option, none, some, List, [], ◌∷◌, ◌==◌, if◌then◌else◌,
}
use moqxr.Common.Assoc
use moqxr.Common.Texts.{Text, text_eq}
use moqxr.Draft.{DraftVersion, is_draft22_or_later}
use moqxr.Wire.Fields.{slash}

-- The component up to the next slash, and the text behind that slash.
unfoldable pub next_component : Text → Text × Option Text
next_component [] = ([], none)
next_component (c ∷ cs) =
    let (component, rest) = next_component cs in
    if c == slash then ([], some cs) else (c ∷ component, rest)

unfoldable pub is_empty : List Text → Bool
is_empty [] = true
is_empty (component ∷ components) = false

-- With the components that are left to compare and the text from the start on.
unfoldable pub namespace_matches : List Text → Text → Bool
unfolding text_eq next_component is_empty
namespace_matches [] rest = false
namespace_matches (component ∷ components) rest =
    let (part, behind) = next_component rest in
    let later = λ (text : Text). namespace_matches components text in
    if not (text_eq component part)
    then false
    else elim behind [ none ↦ is_empty components | some text ↦ later text ]

-- The loop over the prefix; the start behind it, or nothing where a component differs.
unfoldable pub match_prefix : List Text → Option Text → Option (Option Text)
unfolding text_eq next_component
match_prefix [] start = some start
match_prefix (component ∷ components) none = none
match_prefix (component ∷ components) (some rest) =
    let (part, behind) = next_component rest in
    let later = match_prefix components behind in
    if not (text_eq component part) then none else later

abbrev is_behind : Option Text → Bool
is_behind none = true
is_behind (some rest) = false

unfoldable pub namespace_prefix_matches : List Text → Text → Bool → Bool
unfolding match_prefix is_empty
namespace_prefix_matches prefix expected exact = elim (match_prefix prefix (some expected)) [
  | none ↦ false
  | some start ↦ not exact || is_empty prefix || is_behind start
]

unfoldable pub namespace_prefixes_overlap : List Text → List Text → Bool
unfolding text_eq
namespace_prefixes_overlap [] second = true
namespace_prefixes_overlap (c ∷ first) [] = true
namespace_prefixes_overlap (c ∷ first) (d ∷ second) =
    text_eq c d && namespace_prefixes_overlap first second

abbrev before_component : ℕ → List Text → List Text
before_component c [] = (c ∷ []) ∷ []
before_component c (component ∷ components) = (c ∷ component) ∷ components

-- The texts between the slashes.
unfoldable pub split_track_namespace_components : Text → List Text
split_track_namespace_components [] = [] ∷ []
split_track_namespace_components (c ∷ cs) =
    let components = split_track_namespace_components cs in
    if c == slash then [] ∷ components else before_component c components
