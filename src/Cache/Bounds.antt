-- ===== src/Cache/Bounds.antt =====
-- internal/cache/memory.go: sequences of the cache's locked steps, and its size.
use costguard.Base.{
  ℕ, zero, suc, ◌≤◌, ◌<◌, ◌≡◌, ◌+◌, refl, inl, inr, false, not, String, List, [], ◌∷◌, Dict, lookup,
  insert, delete, has, keep_values, IsMap, insert-IsMap, keep_values-IsMap, length, arith, ◌==◌,
  if◌then◌else◌, Option-cases,
}
use costguard.Cache.{Entry, Memory, new_memory, expired, get_locked, drop_one, make_room, set_entry}

-- The steps that change the cache.
pub data Step : Type 0 where
  setting : ℕ → ℕ → String → Entry → Step
  getting_locked : String → ℕ → Step

abbrev pub step : Memory → Step → Memory
step m (setting pick now key e) = set_entry pick now m key e
step m (getting_locked key now) = (get_locked m key now).1

abbrev pub run : Memory → List Step → Memory
run m [] = m
run m (s ∷ ss) = run (step m s) ss

abbrev pub IsBounded : Memory → Type 0
IsBounded m = IsMap m.entries × (1 ≤ m.max_keys) × (length m.entries ≤ m.max_keys)

pub has-delete : (j k : String) (m : Dict Entry) → has j m ≡ false → has j (delete k m) ≡ false
has-delete j k [] h = refl
has-delete j k ((i, w) ∷ m) h = ground (arith, has-delete j k m)

delete-IsMap : (k : String) (m : Dict Entry) → IsMap m → IsMap (delete k m)
delete-IsMap k [] h = tt
delete-IsMap k ((i, w) ∷ m) h = ground (arith, has-delete i k m, delete-IsMap k m)

length-delete : (k : String) (m : Dict Entry) → length (delete k m) ≤ length m
length-delete k [] = omega arith
length-delete k ((i, w) ∷ m) = ground (arith, length-delete k m)

length-insert : (k : String) (e : Entry) (m : Dict Entry) → length (insert k e m) ≤ length m + 1
length-insert k e [] = omega arith
length-insert k e ((i, w) ∷ m) = ground (arith, length-insert k e m)

pub length-keep_values : (p : Entry → _) (m : Dict Entry) → length (keep_values p m) ≤ length m
length-keep_values p [] = omega arith
length-keep_values p ((i, w) ∷ m) = ground (arith, length-keep_values p m)

has-drop_one :
    (i : ℕ) (j : String) (m : Dict Entry) → has j m ≡ false → has j (drop_one i m) ≡ false
has-drop_one i j [] h = refl
has-drop_one zero j ((k, e) ∷ m) h = ground arith
has-drop_one (suc i) j ((k, e) ∷ []) h = refl
has-drop_one (suc i) j ((k, e) ∷ (l, g) ∷ m) h = ground (arith, has-drop_one i j ((l, g) ∷ m))

pub drop_one-IsMap : (i : ℕ) (m : Dict Entry) → IsMap m → IsMap (drop_one i m)
drop_one-IsMap i [] h = tt
drop_one-IsMap zero ((k, e) ∷ m) h = h.1
drop_one-IsMap (suc i) ((k, e) ∷ []) h = tt
drop_one-IsMap (suc i) ((k, e) ∷ (l, g) ∷ m) h =
    (has-drop_one i k ((l, g) ∷ m) h.0, drop_one-IsMap i ((l, g) ∷ m) h.1)

length-drop_one : (i n : ℕ) (m : Dict Entry) → length m ≤ n → 1 ≤ n → length (drop_one i m) < n
length-drop_one i n [] h p = omega arith
length-drop_one zero n ((k, e) ∷ m) h p = omega arith
length-drop_one (suc i) n ((k, e) ∷ []) h p = omega arith
length-drop_one (suc i) (suc n) ((k, e) ∷ (l, g) ∷ m) h p =
    omega (arith, length-drop_one i n ((l, g) ∷ m) (omega arith) (omega arith))
length-drop_one (suc i) zero ((k, e) ∷ (l, g) ∷ m) h p = absurd (omega arith)

pub make_room-IsMap : (pick now : ℕ) (m : Memory) → IsMap m.entries → IsMap (make_room pick now m)
unfolding make_room
make_room-IsMap pick now m h =
    let p = λ (e : Entry). not (expired now e) in
    ground (arith, keep_values-IsMap p m.entries, drop_one-IsMap pick (keep_values p m.entries))

length-make_room :
    (pick now : ℕ) (m : Memory) → IsBounded m → length (make_room pick now m) < m.max_keys
unfolding make_room
length-make_room pick now m h =
    let p = λ (e : Entry). not (expired now e) in
    ground (
      arith,
      length-keep_values p m.entries,
      length-drop_one pick m.max_keys (keep_values p m.entries),
    )

step-IsBounded : (m : Memory) (s : Step) → IsBounded m → IsBounded (step m s)
unfolding set_entry get_locked
step-IsBounded m (setting pick now key e) h = (
  insert-IsMap key e (make_room pick now m) (make_room-IsMap pick now m h.0),
  h.1,
  omega (arith, length-insert key e (make_room pick now m), length-make_room pick now m h),
)
step-IsBounded m (getting_locked key now) h = elim (Option-cases (lookup key m.entries)) [
  | inl missing ↦ ground arith
  | inr (e, found) ↦ ground (arith, delete-IsMap key m.entries, length-delete key m.entries)
]

pub run-IsBounded : (m : Memory) (ss : List Step) → IsBounded m → IsBounded (run m ss)
run-IsBounded m [] h = h
run-IsBounded m (s ∷ ss) h = run-IsBounded (step m s) ss (step-IsBounded m s h)

pub max_keys-run : (m : Memory) (ss : List Step) → (run m ss).max_keys ≡ m.max_keys
unfolding set_entry get_locked
max_keys-run m [] = refl
max_keys-run m (setting pick now key e ∷ ss) = max_keys-run (set_entry pick now m key e) ss
max_keys-run m (getting_locked key now ∷ ss) = elim (Option-cases (lookup key m.entries)) [
  | inl missing ↦ ground (arith, max_keys-run (get_locked m key now).1 ss)
  | inr (e, found) ↦ ground (arith, max_keys-run (get_locked m key now).1 ss)
]

pub new-IsBounded : (n : ℕ) → IsBounded (new_memory n)
unfolding new_memory
new-IsBounded n = ground arith

-- Whatever is done with a new cache, at whatever times and with whatever choice of the entry to
-- evict, it never holds more entries than it was made for (1000 if that was 0), nor two of one key.
pub run-new-size :
    (n : ℕ) (ss : List Step)
    → (length (run (new_memory n) ss).entries ≤ (if n == 0 then 1000 else n))
      × IsMap (run (new_memory n) ss).entries
unfolding new_memory
run-new-size n ss =
    let bounded = run-IsBounded (new_memory n) ss (new-IsBounded n) in
    (omega (arith, bounded.2, max_keys-run (new_memory n) ss), bounded.0)
