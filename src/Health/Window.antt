-- ===== src/Health/Window.antt =====
-- internal/health/tracker.go: a ring holds the latest outcomes, oldest first.
use mathlib.Core.Path.{ap₂, ◌≡⟨◌⟩◌, ◌∎}
use native.Mathlib.Nat.{zero-add, mod-lt}
use costguard.Base.{
  ℕ, suc, ◌+◌, ◌-◌, ◌%◌, ◌<◌, ◌≤◌, ◌≡◌, ◌≢◌, List, [], ◌∷◌, ◌++◌, arith, refl, sym, ap, ◌∙◌, length,
  set, drop, length-set, get_or-set_self,
}
use costguard.Health.{Outcome, blank, Ring, add, read_from, entries}
use costguard.Health.Slots.{
  length-read_from, back-step, IsValid, add-IsValid, cell, read_from-suc, read_from-shift,
  read_from-set, back, back-cases, round-cases, entries-eq-read_from, entries-eq_of,
}

pub length-entries : (n : ℕ) (r : Ring) → IsValid n r → length (entries r) ≡ r.size
length-entries n r v = rw (entries-eq-read_from n r v) (length-read_from r.buf _ 0 r.size)

-- The window of `k` cells before `h` does not hold the cell at `h`.
window_apart : (n h k j : ℕ) → h < n → k < n → j < k → h ≢ (back n h k + j) % n
window_apart n h k j p q r = omega (
  arith,
  back-cases n h p k (omega arith),
  round-cases n (back n h k) j (mod-lt (h + n - k) (omega arith)) (omega arith),
)

window_apart_full : (n h j : ℕ) → h < n → 1 ≤ j → j < n → h ≢ (h + j) % n
window_apart_full n h j p q r = omega (arith, round-cases n h j p (omega arith))

window_end : (n h k : ℕ) → h < n → k ≤ n → (back n h k + k) % n ≡ h
window_end n h k p q =
    omega (
      arith,
      back-cases n h p k q,
      round-cases n (back n h k) k (mod-lt (h + n - k) (omega arith)) q,
    )

one_add : (n : ℕ) → 1 + n ≡ suc n
one_add n = omega arith

-- Once round is back at the start.
round_trip : (n h : ℕ) → h < n → (h + n) % n ≡ h
round_trip n h p = omega (arith, round-cases n h n p (omega arith))

-- The cell written last is the last of the window.
written :
    (n : ℕ) (r : Ring) (o : Outcome) (s k : ℕ)
    → IsValid n r
    → (s + k) % n ≡ r.head
    → cell (set r.buf r.head o) s k ≡ o
written n r o s k v e =
    rw (length-set r.buf r.head o, v.room, e)
      (get_or-set_self r.buf r.head o blank (omega (arith, v)))

-- The ring after an outcome, its size given.
abbrev next_ring : ℕ → Ring → Outcome → ℕ → Ring
next_ring n r o k = record { buf = set r.buf r.head o; head = (r.head + 1) % n; size = k }

add-room :
    (n : ℕ) (r : Ring) (o : Outcome)
    → IsValid n r
    → r.size < n
    → add r o ≡ next_ring n r o (suc r.size)
unfolding add
add-room n r o v h = ground (arith, v)

add-full : (n : ℕ) (r : Ring) (o : Outcome) → IsValid n r → r.size ≡ n → add r o ≡ next_ring n r o n
unfolding add
add-full n r o v h = ground (arith, v)

-- Adding to a ring that is not full appends.
pub add-entries_room :
    (n : ℕ) (r : Ring) (o : Outcome)
    → IsValid n r
    → r.size < n
    → entries (add r o) ≡ entries r ++ (o ∷ [])
add-entries_room n r o v h =
    entries (add r o)
    ≡⟨ grown ⟩ read_from (set r.buf r.head o) s 0 (suc r.size)
    ≡⟨ read_from-suc (set r.buf r.head o) s 0 r.size ⟩
      read_from (set r.buf r.head o) s 0 r.size ++ (cell (set r.buf r.head o) s (0 + r.size) ∷ [])
    ≡⟨ ap₂ (λ l x. l ++ (x ∷ [])) same last ⟩ entries r ++ (o ∷ []) ∎
  where
    s : ℕ
    s = back n r.head r.size

    grown : entries (add r o) ≡ read_from (set r.buf r.head o) s 0 (suc r.size)
    grown =
        ap entries (add-room n r o v h)
        ∙ entries-eq_of n (next_ring n r o (suc r.size)) s (suc r.size)
            (rw (add-room n r o v h) at (add-IsValid n r o v))
            (back-step n r.head r.size v.head_in h) refl

    same : read_from (set r.buf r.head o) s 0 r.size ≡ entries r
    same =
        read_from-set r.buf s 0 r.size r.head o
          (λ j p q. rw v.room (window_apart n r.head r.size j v.head_in h (omega arith)))
        ∙ sym (entries-eq-read_from n r v)

    last : cell (set r.buf r.head o) s (0 + r.size) ≡ o
    last =
        written n r o s (0 + r.size) v
          (ap (λ k. (s + k) % n) (zero-add r.size) ∙ window_end n r.head r.size v.head_in v.size_in)

-- Adding to a full ring drops the oldest outcome.
pub add-entries_full :
    (n : ℕ) (r : Ring) (o : Outcome)
    → IsValid (suc n) r
    → r.size ≡ suc n
    → entries (add r o) ≡ drop 1 (entries r ++ (o ∷ []))
unfolding read_from
add-entries_full n r o v h =
    entries (add r o)
    ≡⟨ turned ⟩ read_from buf' r.head 1 (suc n)
    ≡⟨ read_from-suc buf' r.head 1 n ⟩ read_from buf' r.head 1 n ++ (cell buf' r.head (1 + n) ∷ [])
    ≡⟨ ap₂ (λ l x. l ++ (x ∷ [])) same last ⟩ drop 1 (read_from r.buf r.head 0 (suc n) ++ (o ∷ []))
    ≡⟨ ap (λ l. drop 1 (l ++ (o ∷ []))) (sym whole) ⟩ drop 1 (entries r ++ (o ∷ [])) ∎
  where
    buf' : List Outcome
    buf' = set r.buf r.head o

    start : back (suc n) r.head (suc n) ≡ r.head
    start = omega (arith, back-cases (suc n) r.head v.head_in (suc n) (omega arith))

    start' : back (suc n) ((r.head + 1) % suc n) (suc n) ≡ (r.head + 1) % suc n
    start' = omega (
      arith,
      back-cases (suc n) ((r.head + 1) % suc n) (mod-lt (r.head + 1) (omega arith)) (suc n)
          (omega arith),
    )

    whole : entries r ≡ read_from r.buf r.head 0 (suc n)
    whole = entries-eq_of (suc n) r r.head (suc n) v (ap (back (suc n) r.head) h ∙ start) h

    shifted : read_from buf' ((r.head + 1) % suc n) 0 (suc n) ≡ read_from buf' r.head 1 (suc n)
    shifted =
        ap (λ m. read_from buf' ((r.head + 1) % m) 0 (suc n))
          (sym (length-set r.buf r.head o ∙ v.room))
        ∙ read_from-shift buf' r.head 0 (suc n)

    turned : entries (add r o) ≡ read_from buf' r.head 1 (suc n)
    turned =
        ap entries (add-full (suc n) r o v h)
        ∙ entries-eq_of (suc n) (next_ring (suc n) r o (suc n)) ((r.head + 1) % suc n) (suc n)
            (rw (add-full (suc n) r o v h) at (add-IsValid (suc n) r o v)) start' refl
        ∙ shifted

    same : read_from buf' r.head 1 n ≡ read_from r.buf r.head 1 n
    same =
        read_from-set r.buf r.head 1 n r.head o
          (λ j p q. rw v.room (window_apart_full (suc n) r.head j v.head_in p (omega arith)))

    last : cell buf' r.head (1 + n) ≡ o
    last =
        written (suc n) r o r.head (1 + n) v
          (ap (λ k. (r.head + k) % suc n) (one_add n) ∙ round_trip (suc n) r.head v.head_in)
