-- ===== src/Wire/Fields/Parts.antt =====
-- The parts that split_track_namespace of moqt_control_messages.cpp makes of a text.
use moqxr.Common.{
  ℕ, ◌≡◌, ◌≢◌, refl, sym, ap, ◌∙◌, Bool, true, false, List, [], ◌∷◌, ◌++◌, ◌==◌, if◌then◌else◌, All,
  append-nil, append_assoc,
}
use moqxr.Wire.Fields.{split_track_namespace, split_parts, emit_part, or_whole, slash}

-- Parts of a namespace: not empty, and without a slash.
abbrev pub IsPart : List ℕ → Type 0
IsPart p = (p ≢ []) × All (λ c. (c == slash) ≡ false) p

join_parts : List (List ℕ) → List ℕ
join_parts [] = []
join_parts (p ∷ ps) = p ++ slash ∷ join_parts ps

split-part :
    (part p rest : List ℕ)
    → All (λ c. (c == slash) ≡ false) p
    → split_parts part (p ++ rest) ≡ split_parts (part ++ p) rest
unfolding split_parts
split-part part [] rest h = ap (λ x. split_parts x rest) (sym (append-nil part))
split-part part (c ∷ p) rest h =
    rw (h.0, if◌then◌else◌)
      (split-part (part ++ c ∷ []) p rest h.1
        ∙ ap (λ x. split_parts x rest) (append_assoc part (c ∷ []) p))

emit-part : (p : List ℕ) (ps : List (List ℕ)) → p ≢ [] → emit_part p ps ≡ p ∷ ps
unfolding emit_part
emit-part [] ps h = absurd (h refl)
emit-part (c ∷ p) ps h = refl

split-slash :
    (part rest : List ℕ) → split_parts part (slash ∷ rest) ≡ emit_part part (split_parts [] rest)
unfolding split_parts
split-slash part rest = refl

split-join : (ps : List (List ℕ)) → All IsPart ps → split_parts [] (join_parts ps) ≡ ps
unfolding join_parts
split-join [] h = unfold split_parts emit_part in refl
split-join (p ∷ ps) h =
    split-part [] p (slash ∷ join_parts ps) h.0.1
    ∙ split-slash p (join_parts ps)
    ∙ emit-part p (split_parts [] (join_parts ps)) h.0.0
    ∙ ap (◌∷◌ p) (split-join ps h.1)

slashes-split : (text : List ℕ) → split_parts [] (slash ∷ text) ≡ split_parts [] text
unfolding emit_part
slashes-split text = split-slash [] text

-- One or more parts that are not empty and have no slash, written one after the other with a slash
-- behind each and one in front of the first or not, are the parts that split_track_namespace finds.
split-join_parts :
    (p : List ℕ) (ps : List (List ℕ)) (leading : Bool)
    → All IsPart (p ∷ ps)
    → split_track_namespace (if leading then slash ∷ join_parts (p ∷ ps) else join_parts (p ∷ ps))
      ≡ p ∷ ps
unfolding split_track_namespace
split-join_parts p ps true h =
    let text = slash ∷ join_parts (p ∷ ps) in
    ap (or_whole text) (slashes-split (join_parts (p ∷ ps)) ∙ split-join (p ∷ ps) h)
split-join_parts p ps false h = ap (or_whole (join_parts (p ∷ ps))) (split-join (p ∷ ps) h)
