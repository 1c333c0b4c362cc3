-- ===== src/Base/HashMap.antt =====
-- `std::collections::HashMap` as an association list. The order of the list stands for the order
-- in which the map is iterated, which the standard library leaves open.
use mathlib.Core.Path.{◌≡◌, refl, subst}
use mathlib.Core.Logic.{inl, inr}
use mathlib.Core.Bool.{Bool, true, false, not}
use mathlib.Core.List.{List, [], ◌∷◌, map}
use mathlib.Core.Option.{Option, none, some, some-injective}
use native.Mathlib.Omega.{arith}
use easytier_wsrelay.Base.Tests.{if◌then◌else◌, is_some, Bool-cases}
use easytier_wsrelay.Base.Lists.{keep, All, All-keep}
use easytier_wsrelay.Base.Eq.{Eq}

abbrev pub HashMap {ℓ κ} : Type ℓ → Type κ → Type (ℓ ⊔ κ)
HashMap K V = List (K × V)

module _ {ℓ κ} {K : Type ℓ} {V : Type κ} where
  abbrev pub keys : HashMap K V → List K
  keys = map (λ e. e.0)

  abbrev pub values : HashMap K V → List V
  values = map (λ e. e.1)

  -- `HashMap::is_empty`.
  abbrev pub is_empty : HashMap K V → Bool
  is_empty [] = true
  is_empty (e ∷ m) = false

  -- `values_mut` with an assignment to each value.
  abbrev pub map_values : (V → V) → HashMap K V → HashMap K V
  map_values f [] = []
  map_values f ((k, v) ∷ m) = (k, f v) ∷ map_values f m

module _ {ℓ κ} {K : Type ℓ} {V : Type κ} ⦃e : Eq K⦄ where
  unfoldable pub get : K → HashMap K V → Option V
  get k [] = none
  get k ((j, v) ∷ m) = if e.beq j k then some v else get k m

  unfoldable pub contains_key : K → HashMap K V → Bool
  contains_key k m = is_some (get k m)

  unfoldable pub insert : K → V → HashMap K V → HashMap K V
  insert k v [] = (k, v) ∷ []
  insert k v ((j, w) ∷ m) = if e.beq j k then (k, v) ∷ m else (j, w) ∷ insert k v m

  unfoldable pub remove : K → HashMap K V → HashMap K V
  remove k = keep (λ x. not (e.beq x.0 k))

  pub get-insert :
      (k j : K) (v : V) (m : HashMap K V)
      → get j (insert k v m) ≡ (if e.beq k j then some v else get j m)
  unfolding get insert
  get-insert k j v [] = refl
  get-insert k j v ((i, w) ∷ m) =
      ground (arith, e.beq_iff k j, e.beq_iff i k, e.beq_iff i j, get-insert k j v m)

  pub get-insert_self : (k : K) (v : V) (m : HashMap K V) → get k (insert k v m) ≡ some v
  get-insert_self k v m = ground (arith, get-insert k k v m, e.beq_iff k k)

  pub get-remove :
      (k j : K) (m : HashMap K V) → get j (remove k m) ≡ (if e.beq k j then none else get j m)
  unfolding get remove
  get-remove k j [] = ground arith
  get-remove k j ((i, w) ∷ m) =
      ground (arith, e.beq_iff k j, e.beq_iff i k, e.beq_iff i j, get-remove k j m)

  pub get-remove_self : (k : K) (m : HashMap K V) → get k (remove k m) ≡ none
  get-remove_self k m = ground (arith, get-remove k k m, e.beq_iff k k)

  pub get-map_values :
      (f : V → V) (k : K) (m : HashMap K V)
      → get k (map_values f m) ≡ elim (get k m) [ none ↦ none | some v ↦ some (f v) ]
  unfolding get
  get-map_values f k [] = refl
  get-map_values f k ((j, v) ∷ m) = ground (arith, get-map_values f k m)

  -- What holds of every entry holds of every entry of the changed map.
  pub All-insert {μ} :
      (P : K × V → Type μ) (k : K) (v : V) (m : HashMap K V)
      → P (k, v)
      → All P m
      → All P (insert k v m)
  unfolding insert
  All-insert P k v [] p h = (p, tt)
  All-insert P k v ((j, w) ∷ m) p h = ground (arith, All-insert P k v m p h.1)

  pub All-remove {μ} : (P : K × V → Type μ) (k : K) (m : HashMap K V) → All P m → All P (remove k m)
  unfolding remove
  All-remove P k m h = All-keep P _ m h

  pub All-get {μ} :
      (P : V → Type μ) (k : K) (v : V) (m : HashMap K V)
      → All (λ x. P x.1) m
      → get k m ≡ some v
      → P v
  unfolding get
  All-get P k v [] h q = absurd (ground arith)
  All-get P k v ((j, w) ∷ m) h q = elim (Bool-cases (e.beq j k)) [
    | inl t ↦ let r : some w ≡ some v = rw t at q in subst P (some-injective _ _ r) h.0
    | inr f ↦ All-get P k v m h.1 (rw f at q)
  ]

  -- No key stands twice.
  abbrev pub IsMap : HashMap K V → Type 0
  IsMap [] = Unit
  IsMap ((k, v) ∷ m) = (is_some (get k m) ≡ false) × IsMap m

  pub IsMap-insert : (k : K) (v : V) (m : HashMap K V) → IsMap m → IsMap (insert k v m)
  unfolding insert get
  IsMap-insert k v [] h = (refl, tt)
  IsMap-insert k v ((j, w) ∷ m) h =
      ground (arith, IsMap-insert k v m h.1, get-insert k j v m, e.beq_iff j k, e.beq_iff k j)

  pub get-keep :
      (p : V → Bool) (k : K) (m : HashMap K V)
      → IsMap m
      → get k (keep (λ x. p x.1) m)
        ≡ elim (get k m) [ none ↦ none | some v ↦ if p v then some v else none ]
  unfolding get
  get-keep p k [] h = refl
  get-keep p k ((j, w) ∷ m) h = ground (arith, get-keep p k m h.1, h.0, e.beq_iff j k)

  pub IsMap-keep : (p : V → Bool) (m : HashMap K V) → IsMap m → IsMap (keep (λ x. p x.1) m)
  unfolding get
  IsMap-keep p [] h = tt
  IsMap-keep p ((j, w) ∷ m) h = ground (arith, IsMap-keep p m h.1, get-keep p j m h.1, h.0)
