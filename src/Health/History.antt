-- ===== src/Health/History.antt =====
-- internal/health/tracker.go: what the tracker remembers of every outcome ever recorded.
use Prim.Native.Nat.{min, max}
use costguard.Base.{
  ℕ, zero, suc, ◌-◌, ◌<◌, ◌≤◌, ◌≡◌, inl, inr, String, List, [], ◌∷◌, ◌++◌, arith, refl, sym, ap,
  ◌∙◌, Bool-cases, length, drop, str_eq, eq_iff, if◌then◌else◌, lookup-insert, drop-append_of_le,
  length-append, ltb,
}
use mathlib.Core.Path.{subst}
use mathlib.Core.List.{append_assoc, append-nil}
use costguard.Health.{
  Outcome, Ring, new_ring, add, entries, Tracker, new, ring_or, ring_of, record_outcome,
}
use costguard.Health.Slots.{IsValid, new_ring-IsValid, add-IsValid}
use costguard.Health.Window.{add-entries_room, add-entries_full}

-- The specification: the last `n` items of a list.
abbrev pub latest {ℓ} : {A : Type ℓ} → ℕ → List A → List A
latest n xs = drop (length xs - n) xs

drop-suc {ℓ} : {A : Type ℓ} (k : ℕ) (xs : List A) → drop (suc k) xs ≡ drop 1 (drop k xs)
drop-suc zero xs = refl
drop-suc (suc k) [] = refl
drop-suc (suc k) (x ∷ xs) = drop-suc k xs

latest-append_room {ℓ} :
    {A : Type ℓ} (n : ℕ) (xs : List A) (o : A)
    → length xs < n
    → latest n (xs ++ (o ∷ [])) ≡ latest n xs ++ (o ∷ [])
latest-append_room n xs o h =
    ap (λ k. drop k (xs ++ (o ∷ [])))
      (all_fit (length (xs ++ (o ∷ []))) (omega (arith, length-append xs (o ∷ []))))
    ∙ ap (λ k. drop k xs ++ (o ∷ [])) (sym (all_fit (length xs) (omega arith)))
  where
    all_fit : (k : ℕ) → k ≤ n → k - n ≡ 0
    all_fit k p = omega arith

latest-append_full {ℓ} :
    {A : Type ℓ} (n : ℕ) (xs : List A) (o : A)
    → n ≤ length xs
    → latest n (xs ++ (o ∷ [])) ≡ drop 1 (latest n xs ++ (o ∷ []))
latest-append_full n xs o h =
    ap (λ k. drop k (xs ++ (o ∷ []))) one_more
    ∙ drop-suc (length xs - n) (xs ++ (o ∷ []))
    ∙ ap (drop 1) (drop-append_of_le (length xs - n) xs (o ∷ []) (omega arith))
  where
    one_more : length (xs ++ (o ∷ [])) - n ≡ suc (length xs - n)
    one_more = omega (arith, length-append xs (o ∷ []))

-- A ring that remembers the last `n` of a history.
record Remembers (n : ℕ) (r : Ring) (os : List Outcome) : Type 0 where
  valid : IsValid n r
  size : r.size ≡ min n (length os)
  shown : entries r ≡ latest n os

new_ring-Remembers : (n : ℕ) → 0 < n → Remembers n (new_ring n) []
unfolding new_ring entries
new_ring-Remembers n h = record {
  valid = new_ring-IsValid n h;
  size = omega arith;
  shown = ground arith;
}

add-size :
    (n : ℕ) (r : Ring) (os : List Outcome) (o : Outcome)
    → Remembers n r os
    → (add r o).size ≡ min n (length (os ++ (o ∷ [])))
unfolding add
add-size n r os o m = ground (arith, m.valid, m.size, length-append os (o ∷ []))

add-Remembers :
    (n : ℕ) (r : Ring) (os : List Outcome) (o : Outcome)
    → Remembers n r os
    → Remembers n (add r o) (os ++ (o ∷ []))
add-Remembers zero r os o m = absurd (omega (arith, m.valid))
add-Remembers (suc n) r os o m = record {
  valid = add-IsValid (suc n) r o m.valid;
  size = add-size (suc n) r os o m;
  shown = elim (Bool-cases (ltb (length os) (suc n))) [
    | inl room ↦
        add-entries_room (suc n) r o m.valid (ground (arith, m.size))
        ∙ ap (λ l. l ++ (o ∷ [])) m.shown
        ∙ sym (latest-append_room (suc n) os o (ground arith))
    | inr full ↦
        add-entries_full n r o m.valid (ground (arith, m.size))
        ∙ ap (λ l. drop 1 (l ++ (o ∷ []))) m.shown
        ∙ sym (latest-append_full (suc n) os o (ground arith))
  ];
}

-- Calls of `Record`, and those of one provider.
unfoldable pub record_all : Tracker → List (String × Outcome) → Tracker
record_all t [] = t
record_all t ((provider, o) ∷ es) = record_all (record_outcome t provider o) es

abbrev pub outcomes_of : String → List (String × Outcome) → List Outcome
outcomes_of provider [] = []
outcomes_of provider ((name, o) ∷ es) =
    if str_eq name provider then o ∷ outcomes_of provider es else outcomes_of provider es

ring_of-record_outcome :
    (t : Tracker) (name provider : String) (o : Outcome)
    → ring_of (record_outcome t name o) provider
      ≡ (if str_eq name provider then add (ring_of t provider) o else ring_of t provider)
unfolding record_outcome ring_of
ring_of-record_outcome t name provider o =
    ap (ring_or t.window_size) (lookup-insert name provider (add (ring_of t name) o) t.rings)
    ∙ ground (arith, eq_iff name provider)

record_outcome-Remembers :
    (t : Tracker) (name provider : String) (o : Outcome) (os : List Outcome)
    → Remembers t.window_size (ring_of t provider) os
    → Remembers t.window_size
        (ring_of (record_outcome t name o) provider)
        (os ++ outcomes_of provider ((name, o) ∷ []))
record_outcome-Remembers t name provider o os m = elim (Bool-cases (str_eq name provider)) [
  | inl same ↦
      rw (ring_of-record_outcome t name provider o, same)
        (add-Remembers t.window_size (ring_of t provider) os o m)
  | inr other ↦ rw (ring_of-record_outcome t name provider o, other, append-nil) m
]

outcomes_of-append :
    (provider : String) (es fs : List (String × Outcome))
    → outcomes_of provider (es ++ fs) ≡ outcomes_of provider es ++ outcomes_of provider fs
outcomes_of-append provider [] fs = refl
outcomes_of-append provider ((name, o) ∷ es) fs = ground (arith, outcomes_of-append provider es fs)

window_size-record_outcome :
    (t : Tracker) (name : String) (o : Outcome)
    → (record_outcome t name o).window_size ≡ t.window_size
unfolding record_outcome
window_size-record_outcome t name o = refl

record_all-Remembers :
    (n : ℕ) (t : Tracker) (provider : String) (es : List (String × Outcome)) (os : List Outcome)
    → t.window_size ≡ n
    → Remembers n (ring_of t provider) os
    → Remembers n (ring_of (record_all t es) provider) (os ++ outcomes_of provider es)
unfolding record_all
record_all-Remembers n t provider [] os e m = rw append-nil m
record_all-Remembers n t provider ((name, o) ∷ es) os e m =
    subst (λ l. Remembers n (ring_of (record_all (record_outcome t name o) es) provider) l)
      (append_assoc os one (outcomes_of provider es)
        ∙ ap (λ l. os ++ l) (sym (outcomes_of-append provider ((name, o) ∷ []) es)))
      (record_all-Remembers n (record_outcome t name o) provider es (os ++ one)
        (window_size-record_outcome t name o ∙ e)
        (subst (λ k. Remembers k (ring_of (record_outcome t name o) provider) (os ++ one)) e
          (record_outcome-Remembers t name provider o os
            (subst (λ k. Remembers k (ring_of t provider) os) (sym e) m))))
  where
    one : List Outcome
    one = outcomes_of provider ((name, o) ∷ [])

-- Whatever was recorded for whatever providers since the tracker was made, the ring of a provider
-- shows exactly the last outcomes of that provider, oldest first, as many as the window holds (one
-- at least), and no outcome of another provider.
pub entries-record_all :
    (window_size : ℕ) (es : List (String × Outcome)) (provider : String)
    → entries (ring_of (record_all (new window_size) es) provider)
      ≡ latest (max 1 window_size) (outcomes_of provider es)
unfolding new ring_of
entries-record_all window_size es provider =
    (record_all-Remembers (max 1 window_size) (new window_size) provider es [] (ground arith)
      start).shown
  where
    clamped : max 1 window_size ≡ (if ltb window_size 1 then 1 else window_size)
    clamped = ground arith

    start : Remembers (max 1 window_size) (ring_of (new window_size) provider) []
    start =
        subst (λ k. Remembers (max 1 window_size) (new_ring k) []) clamped
          (new_ring-Remembers (max 1 window_size) (omega arith))
