-- ===== src/Prelude/Dict.antt =====
-- `HashMap`, `BTreeMap` and `DashMap` as association lists with at most one entry for a key.
use mathlib.Core.Bool.{Bool, true, false, ◌&&◌, ◌||◌}
use mathlib.Core.Path.{◌≡◌, refl}
use mathlib.Core.List.{List, [], ◌∷◌, map}
use mathlib.Core.Option.{Option, none, some}
use native.Mathlib.Omega.{arith}
use mathlib.Core.Logic.{inl, inr}
use mathlib.Core.Path.{subst, ap₂}
use runloop.Prelude.Tests.{Eq, ◌==◌, if◌then◌else◌, Bool-cases}
use runloop.Prelude.Lists.{All}
use runloop.Prelude.Options.{option_map}

abbrev pub Dict {ℓ κ} : Type ℓ → Type κ → Type (ℓ ⊔ κ)
Dict K V = List (K × V)

module _ {ℓ κ} {K : Type ℓ} {V : Type κ} ⦃e : Eq K⦄ where
  unfoldable pub lookup : K → Dict K V → Option V
  lookup key [] = none
  lookup key ((own, value) ∷ rest) = if own == key then some value else lookup key rest

  abbrev pub contains_key : K → Dict K V → Bool
  contains_key key dict = elim (lookup key dict) [ none ↦ false | some _ ↦ true ]

  unfoldable pub insert : K → V → Dict K V → Dict K V
  insert key value [] = (key, value) ∷ []
  insert key value ((own, old) ∷ rest) =
      if own == key then (key, value) ∷ rest else (own, old) ∷ insert key value rest

  unfoldable pub remove : K → Dict K V → Dict K V
  remove k [] = []
  remove k ((j, v) ∷ m) = let rest = remove k m in if j == k then rest else (j, v) ∷ rest

  pub lookup-insert :
      (put asked : K) (value : V) (dict : Dict K V)
      → lookup asked (insert put value dict)
        ≡ (if put == asked then some value else lookup asked dict)
  unfolding lookup insert
  lookup-insert put asked value [] = refl
  lookup-insert put asked value ((own, old) ∷ rest) = ground (
    arith,
    e.beq_iff put asked,
    e.beq_iff own put,
    e.beq_iff own asked,
    lookup-insert put asked value rest,
  )

  pub contains_key-insert :
      (put asked : K) (value : V) (dict : Dict K V)
      → contains_key asked (insert put value dict) ≡ (put == asked || contains_key asked dict)
  contains_key-insert put asked value dict = ground (arith, lookup-insert put asked value dict)

  pub lookup-remove :
      (k j : K) (m : Dict K V) → lookup j (remove k m) ≡ (if k == j then none else lookup j m)
  unfolding lookup remove
  lookup-remove k j [] = ground arith
  lookup-remove k j ((i, w) ∷ m) =
      ground (arith, e.beq_iff k j, e.beq_iff i k, e.beq_iff i j, lookup-remove k j m)

module _ {ℓ κ} {K : Type ℓ} {V : Type κ} where
  -- a test that every entry passes
  abbrev pub all_entries : (K → V → Bool) → Dict K V → Bool
  all_entries p [] = true
  all_entries p ((k, v) ∷ m) = p k v && all_entries p m

  abbrev pub values : Dict K V → List V
  values = map (λ p. p.1)

module _ {ℓ κ} {K : Type ℓ} {V : Type κ} ⦃e : Eq K⦄ where
  pub all_entries-lookup :
      (p : K → V → Bool) (k : K) (v : V) (m : Dict K V)
      → all_entries p m ≡ true
      → lookup k m ≡ some v
      → p k v ≡ true
  unfolding lookup
  all_entries-lookup p k v [] h l = cc
  all_entries-lookup p k v ((j, w) ∷ m) h l =
      ground (arith, e.beq_iff j k, all_entries-lookup p k v m)

module _ {ℓ κ μ} {K : Type ℓ} {V : Type κ} ⦃e : Eq K⦄ (P : K × V → Type μ) where
  pub All-lookup : (k : K) (v : V) (m : Dict K V) → All P m → lookup k m ≡ some v → P (k, v)
  unfolding lookup
  All-lookup k v [] a h = absurd (ground arith)
  All-lookup k v ((j, w) ∷ m) a h = elim (Bool-cases (j == k)) [
    | inl here ↦
        let same_key : j ≡ k = (e.beq_iff j k).0 here in
        let same_value : w ≡ v = ground arith in
        subst P (ap₂ (λ x y. (x, y)) same_key same_value) a.0
    | inr there ↦ All-lookup k v m a.1 (ground arith)
  ]

  pub All-insert : (k : K) (v : V) (m : Dict K V) → P (k, v) → All P m → All P (insert k v m)
  unfolding insert
  All-insert k v [] p a = (p, tt)
  All-insert k v ((j, w) ∷ m) p a =
      elim (j == k) as (λ t. All P (if t then (k, v) ∷ m else (j, w) ∷ insert k v m)) [
        | true ↦ (p, a.1)
        | false ↦ (a.0, All-insert k v m p a.1)
      ]

  pub All-remove : (k : K) (m : Dict K V) → All P m → All P (remove k m)
  unfolding remove
  All-remove k [] a = tt
  All-remove k ((j, w) ∷ m) a =
      elim (j == k) as (λ t. All P (if t then remove k m else (j, w) ∷ remove k m)) [
        | true ↦ All-remove k m a.1
        | false ↦ (a.0, All-remove k m a.1)
      ]

module _ {ℓ κ} {K : Type ℓ} {V : Type κ} ⦃e : Eq K⦄ where
  -- `if let Some(v) = dict.get_mut(key) { *v = f(v) }`
  unfoldable pub modify : K → (V → V) → Dict K V → Dict K V
  modify key f [] = []
  modify key f ((own, value) ∷ rest) =
      let rest' = modify key f rest in
      if own == key then (own, f value) ∷ rest else (own, value) ∷ rest'

  pub lookup-modify :
      (put asked : K) (f : V → V) (dict : Dict K V)
      → lookup asked (modify put f dict)
        ≡ (if put == asked then option_map f (lookup asked dict) else lookup asked dict)
  unfolding lookup modify
  lookup-modify put asked f [] = ground arith
  lookup-modify put asked f ((own, old) ∷ rest) = ground (
    arith,
    e.beq_iff put asked,
    e.beq_iff own put,
    e.beq_iff own asked,
    lookup-modify put asked f rest,
  )
