-- ===== src/Openings/Graph/Count.antt =====
-- Indices below a bound that a list without repetitions holds, for crates/openings/src/parser.rs.
use runloop.Prelude.{
  ℕ, zero, suc, ◌+◌, ◌≤◌, ◌<◌, ◌≡◌, refl, ap, ◌∙◌, inl, inr, Bool, true, false, List, [], ◌∷◌,
  arith, if◌then◌else◌, Bool-cases, ◌==◌, length, nat_eq, nat_beq_iff,
}
use runloop.Runtime.Set.{contains, NoDup}

-- how many of the numbers below `n` pass the test
unfoldable pub count : ℕ → (ℕ → Bool) → ℕ
count zero p = 0
count (suc n) p = (if p n then 1 else 0) + count n p

count-none : (n : ℕ) → count n (λ v. contains v []) ≡ 0
unfolding count contains
count-none zero = refl
count-none (suc n) = omega (arith, count-none n)

count-above :
    (n x : ℕ) (xs : List ℕ)
    → n ≤ x
    → count n (λ v. contains v (x ∷ xs)) ≡ count n (λ v. contains v xs)
unfolding count contains
count-above zero x xs h = refl
count-above (suc n) x xs h = ground (arith, count-above n x xs, nat_beq_iff x n)

count-cons :
    (n x : ℕ) (xs : List ℕ)
    → x < n
    → contains x xs ≡ false
    → count n (λ v. contains v (x ∷ xs)) ≡ suc (count n (λ v. contains v xs))
unfolding count contains
count-cons zero x xs h a = absurd (omega arith)
count-cons (suc n) x xs h a = elim (Bool-cases (x == n)) [
  | inl e ↦
      let same : x ≡ n = (nat_beq_iff x n).0 e in
      let absent : contains n xs ≡ false = rw (← same) a in ground (arith, count-above n x xs)
  | inr e ↦ ground (arith, count-cons n x xs, nat_beq_iff x n)
]

abbrev pub Below : ℕ → List ℕ → Type 0
Below n [] = Unit
Below n (x ∷ xs) = (x < n) × Below n xs

pub count-contains :
    (n : ℕ) (xs : List ℕ) → NoDup xs → Below n xs → count n (λ v. contains v xs) ≡ length xs
count-contains n [] d b = count-none n
count-contains n (x ∷ xs) d b =
    omega (arith, count-cons n x xs b.0 d.0, count-contains n xs d.1 b.1)

pub count-le : (n : ℕ) (p : ℕ → Bool) → count n p ≤ n
unfolding count
count-le zero p = omega arith
count-le (suc n) p = ground (arith, count-le n p)

pub count-full : (n : ℕ) (p : ℕ → Bool) (v : ℕ) → count n p ≡ n → v < n → p v ≡ true
unfolding count
count-full zero p v e h = absurd (omega arith)
count-full (suc n) p v e h = elim (Bool-cases (v == n)) [
  | inl same ↦ ap p ((nat_beq_iff v n).0 same) ∙ ground (arith, count-le n p)
  | inr other ↦ ground (arith, count-le n p, nat_beq_iff v n, count-full n p v)
]

pub count-all : (n : ℕ) (p : ℕ → Bool) → ((v : ℕ) → v < n → p v ≡ true) → count n p ≡ n
unfolding count
count-all zero p h = refl
count-all (suc n) p h = ground (arith, h n, count-all n p (λ v l. h v (omega arith)))
