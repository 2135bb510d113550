-- ===== src/Runtime/Caps/CapabilitySet.antt =====
-- `CapabilitySet` of crates/runtime/src/caps.rs.
use runloop.Prelude.{◌≡◌, refl, ◌∙◌, Bool, true, false, ◌&&◌, List, [], ◌∷◌, arith, nat_eq, list_eq}
use runloop.Runtime.Text.{Text}
use runloop.Runtime.Set.{contains, intersection, contains-intersection}

pub data CapabilitySet : Type 0 where
  none_of : CapabilitySet
  all_of : CapabilitySet
  domains : List Text → CapabilitySet

abbrev pub domains_or_none : List Text → CapabilitySet
domains_or_none [] = none_of
domains_or_none ds = domains ds

unfoldable pub intersects : CapabilitySet → CapabilitySet → CapabilitySet
intersects none_of _ = none_of
intersects all_of none_of = none_of
intersects all_of rhs = rhs
intersects (domains lhs) none_of = none_of
intersects (domains lhs) all_of = domains lhs
intersects (domains lhs) (domains rhs) = domains_or_none (intersection lhs rhs)

unfoldable pub permits : CapabilitySet → Text → Bool
permits none_of domain = false
permits all_of domain = true
permits (domains set) domain = contains domain set

abbrev pub is_none_of : CapabilitySet → Bool
is_none_of none_of = true
is_none_of _ = false

permits-domains_or_none :
    (ds : List Text) (d : Text) → permits (domains_or_none ds) d ≡ contains d ds
unfolding permits contains
permits-domains_or_none [] d = refl
permits-domains_or_none (x ∷ ds) d = refl

-- The intersection of two capability sets permits a domain exactly when both sets permit it.
pub permits-intersects :
    (a b : CapabilitySet) (d : Text) → permits (intersects a b) d ≡ (permits a d && permits b d)
unfolding permits intersects
permits-intersects none_of b d = refl
permits-intersects all_of none_of d = refl
permits-intersects all_of all_of d = refl
permits-intersects all_of (domains ds) d = refl
permits-intersects (domains ds) none_of d = ground arith
permits-intersects (domains ds) all_of d = ground arith
permits-intersects (domains ds) (domains es) d =
    permits-domains_or_none (intersection ds es) d ∙ contains-intersection d ds es
