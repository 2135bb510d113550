-- ===== src/Bus/Server/Ids.antt =====
-- The ids of the subscribers of a topic, in crates/bus/src/lib.rs.
use runloop.Prelude.{
  ℕ, ◌≤◌, ◌<◌, ◌≡◌, Bool, true, false, List, [], ◌∷◌, ◌++◌, arith, if◌then◌else◌, ◌==◌, filter, All,
  All-append, All-filter, nat_eq,
}
use runloop.Bus.Server.{Subscriber}

-- no subscriber of the list has this id
abbrev pub Absent : ℕ → List Subscriber → Type 0
Absent id = All (λ sub. (id == sub.id) ≡ false)

abbrev pub Distinct : List Subscriber → Type 0
Distinct [] = Unit
Distinct (sub ∷ subs) = Absent sub.id subs × Distinct subs

-- every id has been given out
abbrev pub Below : ℕ → List Subscriber → Type 0
Below n = All (λ sub. sub.id < n)

pub Below-mono : (n m : ℕ) (subs : List Subscriber) → n ≤ m → Below n subs → Below m subs
Below-mono n m [] le b = tt
Below-mono n m (sub ∷ subs) le b = (omega arith, Below-mono n m subs le b.1)

pub Distinct-filter :
    (p : Subscriber → Bool) (subs : List Subscriber) → Distinct subs → Distinct (filter p subs)
unfolding filter
Distinct-filter p [] d = tt
Distinct-filter p (sub ∷ subs) d =
    elim (p sub) as (λ t. Distinct (if t then sub ∷ filter p subs else filter p subs)) [
      | true ↦ (All-filter (λ x. (sub.id == x.id) ≡ false) p subs d.0, Distinct-filter p subs d.1)
      | false ↦ Distinct-filter p subs d.1
    ]

pub Distinct-snoc :
    (subs : List Subscriber) (new : Subscriber)
    → Below new.id subs
    → Distinct subs
    → Distinct (subs ++ new ∷ [])
Distinct-snoc [] new b d = (tt, tt)
Distinct-snoc (sub ∷ subs) new b d = (
  All-append (λ x. (sub.id == x.id) ≡ false) subs (new ∷ []) d.0 (ground arith, tt),
  Distinct-snoc subs new b.1 d.1,
)
