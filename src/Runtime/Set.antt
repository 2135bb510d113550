-- ===== src/Runtime/Set.antt =====
-- What crates/runtime/src/caps.rs and crates/openings take of `BTreeSet`, `HashSet` and `IndexSet`: a set
-- is the list of its elements, since the code asks for membership, emptiness and intersection.
use runloop.Prelude.{
  ◌≡◌, refl, Bool, true, false, not, ◌&&◌, ◌||◌, List, [], ◌∷◌, ◌++◌, arith, if◌then◌else◌, Eq,
  ◌==◌, beq_refl, filter, any,
}

module _ {ℓ} {A : Type ℓ} ⦃e : Eq A⦄ where
  unfoldable pub contains : A → List A → Bool
  contains x [] = false
  contains x (y ∷ ys) = y == x || contains x ys

  abbrev pub set_insert : A → List A → List A
  set_insert x xs = if contains x xs then xs else xs ++ x ∷ []

  abbrev pub intersection : List A → List A → List A
  intersection xs ys = filter (λ x. contains x ys) xs

  -- `retain(|entry| seen.insert(entry.clone()))`
  unfoldable pub retain_new : List A → List A → List A
  retain_new seen [] = []
  retain_new seen (x ∷ xs) =
      let rest = retain_new (x ∷ seen) xs in
      if contains x seen then retain_new seen xs else x ∷ rest

  pub contains-intersection :
      (x : A) (xs ys : List A) → contains x (intersection xs ys) ≡ (contains x xs && contains x ys)
  unfolding contains filter
  contains-intersection x [] ys = refl
  contains-intersection x (z ∷ xs) ys = ground (arith, e.beq_iff z x, contains-intersection x xs ys)

  pub contains-append :
      (x : A) (xs ys : List A) → contains x (xs ++ ys) ≡ (contains x xs || contains x ys)
  unfolding contains
  contains-append x [] ys = refl
  contains-append x (z ∷ xs) ys = ground (arith, contains-append x xs ys)

  -- each element occurs once
  abbrev pub NoDup : List A → Type 0
  NoDup [] = Unit
  NoDup (x ∷ xs) = (contains x xs ≡ false) × NoDup xs

  pub contains-retain_new :
      (x : A) (seen xs : List A)
      → contains x (retain_new seen xs) ≡ (contains x xs && not (contains x seen))
  unfolding contains retain_new
  contains-retain_new x seen [] = refl
  contains-retain_new x seen (z ∷ xs) =
      ground
        (arith, e.beq_iff z x, contains-retain_new x seen xs, contains-retain_new x (z ∷ seen) xs)

  first_once : (z : A) (seen xs : List A) → contains z (retain_new (z ∷ seen) xs) ≡ false
  unfolding contains
  first_once z seen xs = ground (arith, beq_refl z, contains-retain_new z (z ∷ seen) xs)

  pub NoDup-retain_new : (seen xs : List A) → NoDup (retain_new seen xs)
  unfolding retain_new
  NoDup-retain_new seen [] = tt
  NoDup-retain_new seen (z ∷ xs) =
      elim (contains z seen)
        as (λ t. NoDup (if t then retain_new seen xs else z ∷ retain_new (z ∷ seen) xs)) [
          | true ↦ NoDup-retain_new seen xs
          | false ↦ (first_once z seen xs, NoDup-retain_new (z ∷ seen) xs)
        ]

  -- an element that passes a test stays, whichever copies of it go
  pub any-retain_new :
      (p : A → Bool) (seen xs : List A) → any p (retain_new seen xs) ≡ true → any p xs ≡ true
  unfolding retain_new any
  any-retain_new p seen [] h = h
  any-retain_new p seen (z ∷ xs) h =
      ground (arith, any-retain_new p seen xs, any-retain_new p (z ∷ seen) xs)

  pub NoDup-snoc : (x : A) (xs : List A) → contains x xs ≡ false → NoDup xs → NoDup (xs ++ x ∷ [])
  unfolding contains
  NoDup-snoc x [] a d = (refl, tt)
  NoDup-snoc x (y ∷ ys) a d = (
    ground (arith, contains-append y ys (x ∷ []), e.beq_iff x y, e.beq_iff y x, d.0),
    NoDup-snoc x ys (ground arith) d.1,
  )
