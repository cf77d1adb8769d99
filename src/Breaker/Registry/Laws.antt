-- ===== src/Breaker/Registry/Laws.antt =====
-- internal/breaker/registry.go: which breaker a provider gets, and what two providers share.
use costguard.Base.{
  ℕ, zero, suc, ◌<◌, ◌≡◌, ◌≢◌, String, List, [], ◌∷◌, ◌++◌, none, some, arith, refl, lookup, insert,
  length, get_elem?, lookup-insert, lookup-delete, length-append, eq_iff, eq_refl, Option-cases,
  inl, inr,
}
use costguard.Breaker.{Policy, new}
use costguard.Breaker.Registry.{
  Registry, new_registry, set_policy, policy_for, for_locked, for_provider, at,
}

-- Every address in the map lies in the heap, and no two providers share one.
pub record IsValid (r : Registry) : Type 0 where
  pub inside : (k : String) (a : ℕ) → lookup k r.breakers ≡ some a → a < length r.heap
  pub apart :
      (j k : String) (a : ℕ) → lookup j r.breakers ≡ some a → lookup k r.breakers ≡ some a → j ≡ k

pub new_registry-IsValid : (p : Policy) → IsValid (new_registry p)
unfolding new_registry
new_registry-IsValid p = record {
  inside = λ k a h. ground arith;
  apart = λ j k a h h'. ground arith;
}

pub set_policy-IsValid :
    (r : Registry) (name : String) (p : Policy) → IsValid r → IsValid (set_policy r name p)
unfolding set_policy
set_policy-IsValid r name p v = record {
  inside = λ k a h. ground (arith, lookup-delete name k r.breakers, v.inside k a);
  apart = λ j k a h h'.
      ground
        (arith, lookup-delete name k r.breakers, lookup-delete name j r.breakers, v.apart j k a);
}

get_elem?-append_last {ℓ} :
    {A : Type ℓ} (xs : List A) (x : A) → get_elem? (xs ++ (x ∷ [])) (length xs) ≡ some x
get_elem?-append_last [] x = refl
get_elem?-append_last (y ∷ xs) x = get_elem?-append_last xs x

get_elem?-append_left {ℓ} :
    {A : Type ℓ} (xs : List A) (i : ℕ) (x : A)
    → i < length xs
    → get_elem? (xs ++ (x ∷ [])) i ≡ get_elem? xs i
get_elem?-append_left [] i x h = absurd (omega arith)
get_elem?-append_left (y ∷ xs) zero x h = refl
get_elem?-append_left (y ∷ xs) (suc i) x h = get_elem?-append_left xs i x (omega arith)

module _ (r : Registry) (name : String) (v : IsValid r) where
  new_entry : Registry
  new_entry = record r {
    heap = r.heap ++ (new (policy_for r name) ∷ []);
    breakers = insert name (length r.heap) r.breakers;
  }

  new_entry-IsValid : lookup name r.breakers ≡ none → IsValid new_entry
  unfolding new_entry
  new_entry-IsValid fresh = record {
    inside = λ k a h. ground (
      arith,
      lookup-insert name k (length r.heap) r.breakers,
      v.inside k a,
      length-append r.heap (new (policy_for r name) ∷ []),
    );
    apart = λ j k a h h'. ground (
      arith,
      lookup-insert name k (length r.heap) r.breakers,
      lookup-insert name j (length r.heap) r.breakers,
      eq_iff name k,
      eq_iff name j,
      v.inside k a,
      v.inside j a,
      v.apart j k a,
    );
  }

  pub for_locked-IsValid : IsValid (for_locked r name).1
  unfolding for_locked new_entry
  for_locked-IsValid = elim (Option-cases (lookup name r.breakers)) [
    | inl fresh ↦ rw (fresh, for_locked) (new_entry-IsValid fresh)
    | inr (a, e) ↦ rw (e, for_locked) v
  ]

for_provider-eq-for_locked :
    (r : Registry) (name : String) → for_provider r name ≡ for_locked r name
unfolding for_provider
for_provider-eq-for_locked r name = ground arith

-- `For` keeps the registry's invariant: every address in the map lies in the heap, and no two
-- providers share a breaker.
pub for_provider-IsValid :
    (r : Registry) (name : String) → IsValid r → IsValid (for_provider r name).1
for_provider-IsValid r name v = rw (for_provider-eq-for_locked r name) (for_locked-IsValid r name v)

-- A second `For` of the same provider returns the same breaker and changes nothing; so does the
-- locked part of a `For` whose first look came before another call had made the breaker.
pub for_again :
    (r : Registry) (name : String)
    → let (a, r') = for_provider r name in
      (for_provider r' name ≡ (a, r'))
      × (for_locked r' name ≡ (a, r'))
      × (lookup name r'.breakers ≡ some a)
unfolding for_provider
for_again r name = ground (arith, lookup-insert name name (length r.heap) r.breakers, eq_refl name)

-- `For` leaves the breakers of the other providers as they are: same address, same contents. A
-- breaker that it makes is a new one, by the provider's own policy if it has one.
pub for_others :
    (r : Registry) (name other : String) (a : ℕ)
    → IsValid r
    → name ≢ other
    → lookup other r.breakers ≡ some a
    → (lookup other (for_provider r name).1.breakers ≡ some a)
      × (at (for_provider r name).1 a ≡ at r a)
unfolding for_provider
for_others r name other a v ne h = ground (
  arith,
  lookup-insert name other (length r.heap) r.breakers,
  eq_iff name other,
  v.inside other a h,
  get_elem?-append_left r.heap a (new (policy_for r name)),
)

-- After `SetPolicy` the next `For` of that provider makes a new breaker with the new policy,
-- whatever state the old one was in.
pub set_policy-for_provider :
    (r : Registry) (name : String) (p : Policy)
    → let (a, r') = for_provider (set_policy r name p) name in at r' a ≡ some (new p)
unfolding for_provider set_policy
set_policy-for_provider r name p = ground (
  arith,
  lookup-delete name name r.breakers,
  lookup-insert name name p r.overrides,
  eq_refl name,
  get_elem?-append_last r.heap (new p),
)
