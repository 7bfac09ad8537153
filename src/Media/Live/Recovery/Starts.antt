-- ===== src/Media/Live/Recovery/Starts.antt =====
-- The loop of a recovery over the entries of a LiveMediaQueue (src/live_media_queue.h), and its
-- map video_started.
use moqxr.Common.{
  ℕ, ◌≡◌, inl, inr, refl, ap, ◌∙◌, Bool, true, false, ◌&&◌, Option, none, some, List, [], ◌∷◌,
  arith, if◌then◌else◌, Bool-cases,
}
use Prim.Native.String.{String}
use moqxr.Common.{text_key}
use moqxr.Common.Assoc.{lookup, insert, lookup-insert, Distinct, Distinct-insert, Fresh-lookup}
use moqxr.Common.Sets.{member, remove, member-remove}
use text.Mathlib.TextEquality.{eq_iff}
use moqxr.Media.Live.{Entry, Started, has_started, is_media, MediaFragment, should_retain}
use moqxr.Media.Live.Push.{retain_loop, erase_started}

-- The first media entry of a track.
pub first_media : String → List Entry → Option MediaFragment
first_media name [] = none
first_media name (e ∷ es) =
    if is_media e.role && text_key.beq e.fragment.track_name name
    then some e.fragment
    else first_media name es

-- A fragment that can be decoded without what came before it, where there is one.
abbrev pub IsStart : Option MediaFragment → Type 0
IsStart none = Unit {0}
IsStart (some fragment) = fragment.is_video_keyframe ≡ true

started-insert :
    (name other : String) (b : Bool) (s : Started)
    → has_started name (insert other b s)
      ≡ (if text_key.beq other name then b else has_started name s)
started-insert name other b s = ground (arith, lookup-insert other name b s)

module _ (vt : List String) (b : ℕ) (name : String) (e : Entry) (s : Started) where
  abbrev is_its : Bool
  is_its = is_media e.role && text_key.beq e.fragment.track_name name

  other_entry : is_its ≡ false → has_started name (should_retain vt e b s).1 ≡ has_started name s
  unfolding should_retain
  other_entry miss = ground (
    arith,
    started-insert name e.fragment.track_name false s,
    started-insert name e.fragment.track_name true s,
  )

  not_yet :
      member name vt ≡ true
      → has_started name s ≡ false
      → is_its ≡ true
      → ((should_retain vt e b s).0 ≡ true → e.fragment.is_video_keyframe ≡ true)
        × ((should_retain vt e b s).0 ≡ false → has_started name (should_retain vt e b s).1 ≡ false)
  unfolding should_retain
  not_yet v h hit = ground (
    arith,
    eq_iff e.fragment.track_name name,
    same,
    started-insert name e.fragment.track_name false s,
  )
    where
      same :
          e.fragment.track_name ≡ name
          → (member e.fragment.track_name vt ≡ member name vt)
            × (has_started e.fragment.track_name s ≡ has_started name s)
      same p = (ap (λ (n : String). member n vt) p, ap (λ (n : String). has_started n s) p)

pub retain-first :
    (vt : List String) (b : ℕ) (name : String) (es : List Entry) (s : Started)
    → member name vt ≡ true
    → has_started name s ≡ false
    → IsStart (first_media name (retain_loop vt b es s).0)
unfolding retain_loop first_media
retain-first vt b name [] s v h = tt
retain-first vt b name (e ∷ es) s v h =
    let r = should_retain vt e b s in
    let rest = retain-first vt b name es r.1 v in
    elim (Bool-cases (is_its vt b name e s)) [
      | inl hit ↦ elim (Bool-cases r.0) [
        | inl stays ↦
            rw (stays, if◌then◌else◌)
              (rw (hit, if◌then◌else◌) ((not_yet vt b name e s v h hit).0 stays))
        | inr goes ↦ rw (goes, if◌then◌else◌) (rest ((not_yet vt b name e s v h hit).1 goes))
      ]
      | inr miss ↦
          let rest' = rest (other_entry vt b name e s miss ∙ h) in
          elim (Bool-cases r.0) [
            | inl stays ↦ rw (stays, if◌then◌else◌) (rw (miss, if◌then◌else◌) rest')
            | inr goes ↦ rw (goes, if◌then◌else◌) rest'
          ]
    ]

abbrev pub is_some : Option MediaFragment → Bool
is_some none = false
is_some (some fragment) = true

-- A track has started exactly when an entry of it has been retained.
stays_started :
    (vt : List String) (b : ℕ) (name : String) (e : Entry) (s : Started)
    → has_started name s ≡ true
    → has_started name (should_retain vt e b s).1 ≡ true
unfolding should_retain
stays_started vt b name e s h = ground (
  arith,
  eq_iff e.fragment.track_name name,
  same,
  started-insert name e.fragment.track_name false s,
  started-insert name e.fragment.track_name true s,
)
  where
    same : e.fragment.track_name ≡ name → has_started e.fragment.track_name s ≡ has_started name s
    same p = ap (λ (n : String). has_started n s) p

loop_started :
    (vt : List String) (b : ℕ) (name : String) (es : List Entry) (s : Started)
    → has_started name s ≡ true
    → has_started name (retain_loop vt b es s).1 ≡ true
unfolding retain_loop
loop_started vt b name [] s h = h
loop_started vt b name (e ∷ es) s h =
    loop_started vt b name es (should_retain vt e b s).1 (stays_started vt b name e s h)

starts_here :
    (vt : List String) (b : ℕ) (name : String) (e : Entry) (s : Started)
    → member name vt ≡ true
    → is_its vt b name e s ≡ true
    → (should_retain vt e b s).0 ≡ true
    → has_started name (should_retain vt e b s).1 ≡ true
unfolding should_retain
starts_here vt b name e s v hit stays = ground (
  arith,
  eq_iff e.fragment.track_name name,
  same,
  started-insert name e.fragment.track_name true s,
)
  where
    same : e.fragment.track_name ≡ name → member e.fragment.track_name vt ≡ member name vt
    same p = ap (λ (n : String). member n vt) p

pub retain-started :
    (vt : List String) (b : ℕ) (name : String) (es : List Entry) (s : Started)
    → member name vt ≡ true
    → has_started name s ≡ false
    → has_started name (retain_loop vt b es s).1
      ≡ is_some (first_media name (retain_loop vt b es s).0)
unfolding retain_loop first_media
retain-started vt b name [] s v h = h
retain-started vt b name (e ∷ es) s v h =
    let r = should_retain vt e b s in
    let rest = retain-started vt b name es r.1 v in
    elim (Bool-cases (is_its vt b name e s)) [
      | inl hit ↦ elim (Bool-cases r.0) [
        | inl stays ↦
            rw (stays, if◌then◌else◌)
              (rw (hit, if◌then◌else◌)
                (loop_started vt b name es r.1 (starts_here vt b name e s v hit stays)))
        | inr goes ↦ rw (goes, if◌then◌else◌) (rest ((not_yet vt b name e s v h hit).1 goes))
      ]
      | inr miss ↦
          let rest' = rest (other_entry vt b name e s miss ∙ h) in
          elim (Bool-cases r.0) [
            | inl stays ↦ rw (stays, if◌then◌else◌) (rw (miss, if◌then◌else◌) rest')
            | inr goes ↦ rw (goes, if◌then◌else◌) rest'
          ]
    ]

should_retain-Distinct :
    (vt : List String) (b : ℕ) (e : Entry) (s : Started)
    → Distinct s
    → Distinct (should_retain vt e b s).1
unfolding should_retain
should_retain-Distinct vt b e s d = ground (
  arith,
  Distinct-insert e.fragment.track_name false s d,
  Distinct-insert e.fragment.track_name true s d,
)

-- The map has one entry to a name.
pub retain-Distinct :
    (vt : List String) (b : ℕ) (es : List Entry) (s : Started)
    → Distinct s
    → Distinct (retain_loop vt b es s).1
unfolding retain_loop
retain-Distinct vt b [] s d = d
retain-Distinct vt b (e ∷ es) s d =
    retain-Distinct vt b es (should_retain vt e b s).1 (should_retain-Distinct vt b e s d)

pub member-erase_started :
    (name : String) (s : Started) (names : List String)
    → Distinct s
    → member name (erase_started s names)
      ≡ (if has_started name s then false else member name names)
unfolding erase_started lookup
member-erase_started name [] names d = refl
member-erase_started name ((n, b) ∷ s) names d = ground (
  arith,
  eq_iff n name,
  Fresh-lookup n name s d.0,
  member-remove n name names,
  member-erase_started name s (if b then remove n names else names) d.1,
)
