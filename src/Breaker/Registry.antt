-- ===== src/Breaker/Registry.antt =====
-- internal/breaker/registry.go: one breaker per provider, made on the first access.
-- The map holds pointers, which a caller keeps across calls; so the breakers lie in a list, never
-- shortened, and the map holds addresses. Each method's locked part is one step.
pub mod Laws
use costguard.Base.{
  ℕ, String, List, [], ◌∷◌, ◌++◌, Option, none, some, Dict, lookup, lookup_or, insert, delete,
  length, get_elem?, set, map,
}
use costguard.Breaker.{Policy, Breaker, Stats, new, stats}

pub record Registry : Type 0 where
  pub heap : List Breaker
  pub breakers : Dict ℕ
  pub defaults : Policy
  pub overrides : Dict Policy

unfoldable pub new_registry : Policy → Registry
new_registry p = record { heap = []; breakers = []; defaults = p; overrides = [] }

-- A breaker that the map has dropped stays in the heap: a caller may still hold it.
unfoldable pub set_policy : Registry → String → Policy → Registry
set_policy r provider_name p = record r {
  overrides = insert provider_name p r.overrides;
  breakers = delete provider_name r.breakers;
}

-- The policy that `For` gives a new breaker.
abbrev pub policy_for : Registry → String → Policy
policy_for r provider_name = lookup_or provider_name r.defaults r.overrides

-- The part of `For` under the write lock, which looks again.
unfoldable pub for_locked : Registry → String → ℕ × Registry
for_locked r provider_name = elim (lookup provider_name r.breakers) [
  | some a ↦ (a, r)
  | none ↦ (
    length r.heap,
    record r {
      heap = r.heap ++ (new (policy_for r provider_name) ∷ []);
      breakers = insert provider_name (length r.heap) r.breakers;
    },
  )
]

-- `For`, where no other call comes between its two parts.
unfoldable pub for_provider : Registry → String → ℕ × Registry
unfolding for_locked
for_provider r provider_name = elim (lookup provider_name r.breakers) [
  | some a ↦ (a, r)
  | none ↦ for_locked r provider_name
]

-- The breaker at an address, and a call through a held pointer that changes it.
abbrev pub at : Registry → ℕ → Option Breaker
at r a = get_elem? r.heap a

abbrev pub write : Registry → ℕ → Breaker → Registry
write r a b = record r { heap = set r.heap a b }

-- `AllStats`; an address outside the heap does not occur.
unfoldable pub all_stats : Registry → Dict (Option Stats)
all_stats r =
    map (λ (name, a). (name, elim (at r a) [ none ↦ none | some b ↦ some (stats b) ])) r.breakers
