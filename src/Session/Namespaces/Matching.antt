-- ===== src/Session/Namespaces/Matching.antt =====
-- The tests on namespaces in src/transport/moqt_session.cpp in terms of the list of components.
use moqxr.Common.{
  subst, append-nil, ◌≢◌, ◌≡◌, ◌↔◌, ◌⊎◌, inl, inr, refl, sym, ◌∙◌, Bool, true, false, Option, none,
  some, List, [], ◌∷◌, ◌++◌, arith, Option-cases,
}
use moqxr.Common.Texts.{Text, text_eq_iff}
use moqxr.Session.Namespaces.{
  next_component, is_empty, namespace_matches, match_prefix, namespace_prefix_matches,
  namespace_prefixes_overlap, split_track_namespace_components,
}

abbrev behind : Option Text → List Text
behind none = []
behind (some rest) = split_track_namespace_components rest

split-next :
    (text : Text)
    → split_track_namespace_components text
      ≡ (next_component text).0 ∷ behind (next_component text).1
unfolding split_track_namespace_components next_component
split-next [] = refl
split-next (c ∷ cs) = ground (arith, split-next cs)

is_empty_iff : (l : List Text) → (is_empty l ≡ true) ↔ (l ≡ [])
unfolding is_empty
is_empty_iff [] = (λ h. refl, λ h. refl)
is_empty_iff (x ∷ l) = (λ h. cc, λ h. cc)

-- namespace_matches holds exactly of the components of the text.
namespace_matches_iff :
    (components : List Text) (text : Text)
    → (namespace_matches components text ≡ true)
      ↔ (components ≡ split_track_namespace_components text)
unfolding namespace_matches
namespace_matches_iff [] text = ground (arith, split-next text)
namespace_matches_iff (c ∷ components) text = elim (Option-cases (next_component text).1) [
  | inl last ↦
      rw (split-next text, last)
        (ground (arith, text_eq_iff c (next_component text).0, is_empty_iff components))
  | inr (rest, more) ↦
      rw (split-next text, more)
        (ground
          (arith, text_eq_iff c (next_component text).0, namespace_matches_iff components rest))
]

-- The components that the prefix leaves.
match_prefix_sound :
    (prefix : List Text) (start end : Option Text)
    → match_prefix prefix start ≡ some end
    → behind start ≡ prefix ++ behind end
unfolding match_prefix
match_prefix_sound [] start end h = ground arith
match_prefix_sound (c ∷ prefix) none end h = absurd (cc)
match_prefix_sound (c ∷ prefix) (some text) end h = ground (
  arith,
  split-next text,
  text_eq_iff c (next_component text).0,
  match_prefix_sound prefix (next_component text).1 end,
)

match_prefix_complete :
    (prefix : List Text) (start : Option Text) (rest : List Text)
    → behind start ≡ prefix ++ rest
    → (end : Option Text) × (match_prefix prefix start ≡ some end) × (behind end ≡ rest)
unfolding match_prefix
match_prefix_complete [] start rest h = (start, refl, h)
match_prefix_complete (c ∷ prefix) none rest h = absurd (cc)
match_prefix_complete (c ∷ prefix) (some text) rest h =
    let e = sym (split-next text) ∙ h in
    let same : (next_component text).0 ≡ c = cc in
    let (end, matched, left) = match_prefix_complete prefix (next_component text).1 rest (cc) in
    (end, rw ((text_eq_iff c (next_component text).0).1 (sym same)) matched, left)

behind-nonempty : (text : Text) → split_track_namespace_components text ≢ []
behind-nonempty text h = absurd (ground (arith, split-next text))

nothing_behind : (end : Option Text) → behind end ≡ [] → end ≡ none
nothing_behind none h = refl
nothing_behind (some text) h = absurd (behind-nonempty text h)

-- What namespace_prefix_matches asks of the prefix and the components of the text.
abbrev pub Begins : Bool → List Text → List Text → Type 0
Begins false prefix components = (rest : List Text) × (components ≡ prefix ++ rest)
Begins true prefix components = (prefix ≡ []) ⊎ (components ≡ prefix)

module _ (prefix : List Text) (text : Text) where
  Begins-open :
      namespace_prefix_matches prefix text false ≡ true
      → Begins false prefix (split_track_namespace_components text)
  unfolding namespace_prefix_matches
  Begins-open h = elim (Option-cases (match_prefix prefix (some text))) [
    | inl p ↦ absurd (cc (rw (p, namespace_prefix_matches) at h))
    | inr (end, p) ↦ (behind end, match_prefix_sound prefix (some text) end p)
  ]

  matches_open :
      Begins false prefix (split_track_namespace_components text)
      → namespace_prefix_matches prefix text false ≡ true
  unfolding namespace_prefix_matches
  matches_open (rest, h) =
      let (end, p, left) = match_prefix_complete prefix (some text) rest h in
      rw (p, namespace_prefix_matches)

  Begins-exact :
      namespace_prefix_matches prefix text true ≡ true
      → Begins true prefix (split_track_namespace_components text)
  unfolding namespace_prefix_matches
  Begins-exact h = elim (Option-cases (match_prefix prefix (some text))) [
    | inl p ↦ absurd (cc (rw (p, namespace_prefix_matches) at h))
    | inr (none, p) ↦ inr (match_prefix_sound prefix (some text) none p ∙ append-nil prefix)
    | inr (some left, p) ↦
        inl ((is_empty_iff prefix).0 (ground (arith, rw (p, namespace_prefix_matches) at h)))
  ]

  matches_exact :
      Begins true prefix (split_track_namespace_components text)
      → namespace_prefix_matches prefix text true ≡ true
  unfolding namespace_prefix_matches
  matches_exact (inl e) = subst (λ q. namespace_prefix_matches q text true ≡ true) (sym e) refl
  matches_exact (inr whole) =
      let (end, p, left) =
        match_prefix_complete prefix (some text) [] (whole ∙ sym (append-nil prefix)) in
      rw (p, namespace_prefix_matches) (ground (arith, nothing_behind end left))

-- namespace_prefix_matches holds exactly where the components of the text begin with the prefix; an
-- exact match must be all of them, or the prefix must be empty.
pub namespace_prefix_matches_iff :
    (prefix : List Text) (text : Text) (exact : Bool)
    → (namespace_prefix_matches prefix text exact ≡ true)
      ↔ Begins exact prefix (split_track_namespace_components text)
namespace_prefix_matches_iff prefix text false = (Begins-open prefix text, matches_open prefix text)
namespace_prefix_matches_iff prefix text true =
    (Begins-exact prefix text, matches_exact prefix text)

overlap-append :
    (first second rest rest' : List Text)
    → first ++ rest ≡ second ++ rest'
    → namespace_prefixes_overlap first second ≡ true
unfolding namespace_prefixes_overlap
overlap-append [] second rest rest' h = refl
overlap-append (c ∷ first) [] rest rest' h = refl
overlap-append (c ∷ first) (d ∷ second) rest rest' h =
    ground (arith, text_eq_iff c d, overlap-append first second rest rest')

-- Two prefixes that both match one namespace overlap.
overlap-matches :
    (first second : List Text) (text : Text)
    → namespace_prefix_matches first text false ≡ true
    → namespace_prefix_matches second text false ≡ true
    → namespace_prefixes_overlap first second ≡ true
overlap-matches first second text h k =
    let (rest, e) = Begins-open first text h in
    let (rest', e') = Begins-open second text k in
    overlap-append first second rest rest' (sym e ∙ e')
