-- ===== src/Cache/Fresh.antt =====
-- internal/cache/memory.go: what `Get` returns, and what `Set` keeps.
use mathlib.Core.Path.{subst}
use costguard.Base.{
  ℕ, zero, suc, ◌<◌, ◌≡◌, ◌≢◌, ◌⊎◌, refl, sym, inl, inr, false, not, String, List, [], ◌∷◌, ◌++◌,
  Option, none, some, Dict, lookup, IsMap, keep_values, lookup-insert, lookup-delete,
  lookup-keep_values, lookup-of-keep_values, lookup_missing, keep_values-IsMap, length, arith,
  if◌then◌else◌, str_eq, eq_iff, eq_refl, Option-cases,
}
use costguard.Cache.{
  Entry, Memory, new_memory, expired, get, look, hit, get_locked, drop_one, make_room, set_entry,
}
use costguard.Cache.Bounds.{
  Step, setting, getting_locked, step, run, IsBounded, run-IsBounded, new-IsBounded,
}

-- The entry that was last set for a key, before the steps `was`.
abbrev pub last_set : String → Option Entry → List Step → Option Entry
last_set j was [] = was
last_set j was (setting pick now k e ∷ ss) = last_set j (if str_eq k j then some e else was) ss
last_set j was (getting_locked k now ∷ ss) = last_set j was ss

lookup-drop_one :
    (i : ℕ) (j : String) (m : Dict Entry) (e : Entry)
    → IsMap m
    → lookup j (drop_one i m) ≡ some e
    → lookup j m ≡ some e
lookup-drop_one i j [] e d h = h
lookup-drop_one zero j ((k, g) ∷ m) e d h = ground (arith, eq_iff k j, lookup_missing j m)
lookup-drop_one (suc i) j ((k, g) ∷ []) e d h = ground arith
lookup-drop_one (suc i) j ((k, g) ∷ (l, a) ∷ m) e d h =
    ground (arith, lookup-drop_one i j ((l, a) ∷ m) e)

lookup-make_room :
    (pick now : ℕ) (m : Memory) (j : String) (e : Entry)
    → IsMap m.entries
    → lookup j (make_room pick now m) ≡ some e
    → lookup j m.entries ≡ some e
unfolding make_room
lookup-make_room pick now m j e d h =
    let p = λ (e : Entry). not (expired now e) in
    let live = keep_values p m.entries in
    ground (
      arith,
      keep_values-IsMap p m.entries d,
      lookup-drop_one pick j live e,
      lookup-of-keep_values p j m.entries e d,
    )

-- Every binding of a key is the entry that was last set for it.
step_last :
    (m : Memory) (s : Step) (j : String) (was : Option Entry) (e : Entry)
    → IsMap m.entries
    → ((a : Entry) → lookup j m.entries ≡ some a → was ≡ some a)
    → lookup j (step m s).entries ≡ some e
    → last_set j was (s ∷ []) ≡ some e
unfolding set_entry get_locked
step_last m (setting pick now k a) j was e d inv h =
    ground
      (arith, lookup-insert k j a (make_room pick now m), lookup-make_room pick now m j e d, inv e)
step_last m (getting_locked k now) j was e d inv h = elim (Option-cases (lookup k m.entries)) [
  | inl gone ↦ ground (arith, inv e)
  | inr (a, found) ↦ ground (arith, inv e, lookup-delete k j m.entries)
]

run_last :
    (m : Memory) (ss : List Step) (j : String) (was : Option Entry) (e : Entry)
    → IsBounded m
    → ((a : Entry) → lookup j m.entries ≡ some a → was ≡ some a)
    → lookup j (run m ss).entries ≡ some e
    → last_set j was ss ≡ some e
run_last m [] j was e d inv h = inv e h
run_last m (setting pick now k a ∷ ss) j was e d inv h =
    let s = setting pick now k a in
    run_last (step m s) ss j (last_set j was (s ∷ [])) e (run-IsBounded m (s ∷ []) d)
      (λ b q. step_last m s j was b d.0 inv q) h
run_last m (getting_locked k now ∷ ss) j was e d inv h =
    let s = getting_locked k now in
    run_last (step m s) ss j was e (run-IsBounded m (s ∷ []) d)
      (λ b q. step_last m s j was b d.0 inv q) h

look-hit :
    (m : Memory) (j : String) (now : ℕ) (e : Entry)
    → look m j now ≡ hit e
    → (lookup j m.entries ≡ some e) × (expired now e ≡ false)
unfolding look
look-hit m j now e h = elim (Option-cases (lookup j m.entries)) [
  | inl gone ↦ ground arith
  | inr (a, found) ↦ ground arith
]

get_locked-some :
    (m : Memory) (j : String) (now : ℕ) (e : Entry)
    → (get_locked m j now).0 ≡ some e
    → (lookup j m.entries ≡ some e) × (expired now e ≡ false)
unfolding get_locked
get_locked-some m j now e h = elim (Option-cases (lookup j m.entries)) [
  | inl gone ↦ ground arith
  | inr (a, found) ↦ ground arith
]

-- What `Get` returns has not expired, and was in the cache at its first look or at its second.
get-some :
    (others : Memory → Memory) (m : Memory) (j : String) (now : ℕ) (e : Entry)
    → (get others m j now).0 ≡ some e
    → ((lookup j m.entries ≡ some e) ⊎ (lookup j (others m).entries ≡ some e))
      × (expired now e ≡ false)
unfolding get
get-some others m j now e h = ground (arith, look-hit m j now e, get_locked-some (others m) j now e)

new-last :
    (n : ℕ) (ss : List Step) (j : String) (e : Entry)
    → lookup j (run (new_memory n) ss).entries ≡ some e
    → last_set j none ss ≡ some e
unfolding new_memory
new-last n ss j e h =
    run_last (new_memory n) ss j none e (run-IsBounded (new_memory n) [] (new-IsBounded n))
      (λ a q. ground arith) h

run-append : (m : Memory) (ss ts : List Step) → run m (ss ++ ts) ≡ run (run m ss) ts
run-append m [] ts = refl
run-append m (s ∷ ss) ts = run-append (step m s) ss ts

-- Whatever was done with a new cache before a `Get`, and by others between its two looks: an entry
-- it returns has not expired, and is the one that was last set for the key, at the first look or
-- at the second.
pub get-last_set :
    (n : ℕ) (before between : List Step) (j : String) (now : ℕ) (e : Entry)
    → (get (λ m. run m between) (run (new_memory n) before) j now).0 ≡ some e
    → ((last_set j none before ≡ some e) ⊎ (last_set j none (before ++ between) ≡ some e))
      × (expired now e ≡ false)
get-last_set n before between j now e h =
    let (found, fresh) = get-some (λ m. run m between) (run (new_memory n) before) j now e h in
    (
      elim found [
        | inl first ↦ inl (new-last n before j e first)
        | inr second ↦ inr (
            new-last n (before ++ between) j e (
              subst (λ m. lookup j m.entries ≡ some e)
                (sym (run-append (new_memory n) before between)) second))
      ],
      fresh,
    )

-- Right after `Set`, `Get` finds the entry, if it has not expired, whatever had to make room for
-- it and whatever others would do next, and changes nothing.
pub get-set_entry :
    (others : Memory → Memory) (pick now later : ℕ) (m : Memory) (k : String) (e : Entry)
    → expired later e ≡ false
    → get others (set_entry pick now m k e) k later ≡ (some e, set_entry pick now m k e)
unfolding get look set_entry
get-set_entry others pick now later m k e h =
    ground (arith, eq_refl k, lookup-insert k k e (make_room pick now m))

-- Setting one key keeps the live entries of the others, as long as fewer entries are live than the
-- cache has room for: only then a live one is evicted.
pub set_entry-keeps_live :
    (pick now : ℕ) (m : Memory) (k j : String) (e a : Entry)
    → length (keep_values (λ (x : Entry). not (expired now x)) m.entries) < m.max_keys
    → k ≢ j
    → lookup j m.entries ≡ some a
    → expired now a ≡ false
    → lookup j (set_entry pick now m k e).entries ≡ some a
unfolding set_entry make_room
set_entry-keeps_live pick now m k j e a room ne h live = ground (
  arith,
  eq_iff k j,
  lookup-insert k j e (make_room pick now m),
  lookup-keep_values (λ (x : Entry). not (expired now x)) j m.entries a,
)
