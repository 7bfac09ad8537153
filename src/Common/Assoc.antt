-- ===== src/Common/Assoc.antt =====
-- A map with one entry to a key, as a list of pairs: the laws of find, insert and erase, and of a sum
-- over the values.
use Prim.Native.Nat.{ℕ, ◌+◌}
use mathlib.Core.Path.{◌≡◌, refl, subst}
use mathlib.Core.Bool.{true, false}
use mathlib.Core.List.{List, [], ◌∷◌}
use mathlib.Core.Option.{Option, none, some}
use mathlib.Core.Logic.{inl, inr}
use native.Mathlib.Omega.{arith}
use moqxr.Common.Compare.{if◌then◌else◌, Bool-cases}
use moqxr.Common.Equality.{Eq}

some_injective {ℓ} : {A : Type ℓ} (a b : A) → some a ≡ some b → a ≡ b
some_injective a b h = cc

abbrev pub weight_of {κ} : {V : Type κ} → (V → ℕ) → Option V → ℕ
weight_of weight none = 0
weight_of weight (some v) = weight v

module _ {ℓ κ} {K : Type ℓ} {V : Type κ} ⦃e : Eq K⦄ where
  unfoldable pub lookup : K → List (K × V) → Option V
  lookup k [] = none
  lookup k ((j, v) ∷ m) = if e.beq j k then some v else lookup k m

  unfoldable pub insert : K → V → List (K × V) → List (K × V)
  insert k v [] = (k, v) ∷ []
  insert k v ((j, w) ∷ m) = if e.beq j k then (j, v) ∷ m else (j, w) ∷ insert k v m

  unfoldable pub erase : K → List (K × V) → List (K × V)
  erase k [] = []
  erase k ((j, v) ∷ m) = if e.beq j k then m else (j, v) ∷ erase k m

  -- No entry is for the key.
  abbrev pub Fresh : K → List (K × V) → Type 0
  Fresh k [] = Unit {0}
  Fresh k ((j, v) ∷ m) = (e.beq j k ≡ false) × Fresh k m

  abbrev pub Distinct : List (K × V) → Type 0
  Distinct [] = Unit {0}
  Distinct ((k, v) ∷ m) = Fresh k m × Distinct m

  abbrev pub AllValues {μ} : (V → Type μ) → List (K × V) → Type μ
  AllValues P [] = Unit {μ}
  AllValues P ((k, v) ∷ m) = P v × AllValues P m

  abbrev pub total : (V → ℕ) → List (K × V) → ℕ
  total weight [] = 0
  total weight ((k, v) ∷ m) = weight v + total weight m

  pub total-insert :
      (weight : V → ℕ) (k : K) (v : V) (m : List (K × V))
      → total weight (insert k v m) + weight_of weight (lookup k m) ≡ total weight m + weight v
  unfolding insert lookup
  total-insert weight k v [] = omega arith
  total-insert weight k v ((j, w) ∷ m) = ground (arith, total-insert weight k v m)

  pub total-erase :
      (weight : V → ℕ) (k : K) (m : List (K × V))
      → total weight (erase k m) + weight_of weight (lookup k m) ≡ total weight m
  unfolding erase lookup
  total-erase weight k [] = omega arith
  total-erase weight k ((j, w) ∷ m) = ground (arith, total-erase weight k m)

  pub lookup-insert :
      (k j : K) (v : V) (m : List (K × V))
      → lookup j (insert k v m) ≡ (if e.beq k j then some v else lookup j m)
  unfolding insert lookup
  lookup-insert k j v [] = refl
  lookup-insert k j v ((i, w) ∷ m) =
      ground (arith, e.beq_iff i k, e.beq_iff i j, e.beq_iff k j, lookup-insert k j v m)

  pub insert-insert :
      (k : K) (v w : V) (m : List (K × V)) → insert k v (insert k w m) ≡ insert k v m
  unfolding insert
  insert-insert k v w [] = ground (arith, e.beq_iff k k)
  insert-insert k v w ((j, u) ∷ m) = ground (arith, insert-insert k v w m)

  pub erase-insert_new :
      (k : K) (v : V) (m : List (K × V)) → lookup k m ≡ none → erase k (insert k v m) ≡ m
  unfolding insert erase lookup
  erase-insert_new k v [] h = ground (arith, e.beq_iff k k)
  erase-insert_new k v ((j, u) ∷ m) h = ground (arith, erase-insert_new k v m)

  pub Fresh-lookup : (k j : K) (m : List (K × V)) → Fresh k m → e.beq k j ≡ true → lookup j m ≡ none
  unfolding lookup
  Fresh-lookup k j [] f h = refl
  Fresh-lookup k j ((i, w) ∷ m) f h =
      ground (arith, e.beq_iff i j, e.beq_iff k j, e.beq_iff i k, Fresh-lookup k j m)

  pub lookup-erase :
      (k j : K) (m : List (K × V))
      → Distinct m
      → lookup j (erase k m) ≡ (if e.beq k j then none else lookup j m)
  unfolding erase lookup
  lookup-erase k j [] d = ground arith
  lookup-erase k j ((i, w) ∷ m) d = ground (
    arith,
    e.beq_iff i k,
    e.beq_iff i j,
    e.beq_iff k j,
    Fresh-lookup i j m,
    lookup-erase k j m d.1,
  )

  Fresh-insert :
      (i k : K) (v : V) (m : List (K × V)) → Fresh i m → e.beq k i ≡ false → Fresh i (insert k v m)
  unfolding insert
  Fresh-insert i k v [] f h = ground arith
  Fresh-insert i k v ((j, w) ∷ m) f h = ground (arith, Fresh-insert i k v m)

  pub Distinct-insert : (k : K) (v : V) (m : List (K × V)) → Distinct m → Distinct (insert k v m)
  unfolding insert
  Distinct-insert k v [] d = ground arith
  Distinct-insert k v ((j, w) ∷ m) d =
      ground (arith, e.beq_iff k j, e.beq_iff j k, Fresh-insert j k v m, Distinct-insert k v m)

  Fresh-erase : (i k : K) (m : List (K × V)) → Fresh i m → Fresh i (erase k m)
  unfolding erase
  Fresh-erase i k [] f = tt
  Fresh-erase i k ((j, w) ∷ m) f = ground (arith, Fresh-erase i k m)

  pub Distinct-erase : (k : K) (m : List (K × V)) → Distinct m → Distinct (erase k m)
  unfolding erase
  Distinct-erase k [] d = tt
  Distinct-erase k ((j, w) ∷ m) d = ground (arith, Fresh-erase j k m, Distinct-erase k m)

  pub AllValues-lookup {μ} :
      (P : V → Type μ) (k : K) (m : List (K × V)) {v : V}
      → AllValues P m
      → lookup k m ≡ some v
      → P v
  unfolding lookup
  AllValues-lookup P k [] h p = cc
  AllValues-lookup P k ((j, w) ∷ m) {v} h p = elim (Bool-cases (e.beq j k)) [
    | inl hit ↦ subst P (some_injective _ _ (rw hit at p)) h.0
    | inr miss ↦ AllValues-lookup P k m h.1 (rw miss at p)
  ]

  pub AllValues-insert {μ} :
      (P : V → Type μ) (k : K) (v : V) (m : List (K × V))
      → AllValues P m
      → P v
      → AllValues P (insert k v m)
  unfolding insert
  AllValues-insert P k v [] h p = (p, tt)
  AllValues-insert P k v ((j, w) ∷ m) h p = elim (Bool-cases (e.beq j k)) [
    | inl hit ↦ rw hit (p, h.1)
    | inr miss ↦ rw miss (h.0, AllValues-insert P k v m h.1 p)
  ]

  pub AllValues-erase {μ} :
      (P : V → Type μ) (k : K) (m : List (K × V)) → AllValues P m → AllValues P (erase k m)
  unfolding erase
  AllValues-erase P k [] h = tt
  AllValues-erase P k ((j, w) ∷ m) h = elim (Bool-cases (e.beq j k)) [
    | inl hit ↦ rw hit h.1
    | inr miss ↦ rw miss (h.0, AllValues-erase P k m h.1)
  ]
