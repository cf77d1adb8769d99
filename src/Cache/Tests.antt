-- ===== src/Cache/Tests.antt =====
-- internal/cache/memory.go: the theorems at inputs that meet their hypotheses.
use costguard.Base.{
  ℕ, ◌≡◌, ◌≤◌, ◌⊎◌, refl, false, String, List, [], ◌∷◌, ◌++◌, none, some, eq_iff, length, IsMap,
  ◌==◌, if◌then◌else◌,
}
use costguard.Cache.{Entry, new_memory, expired, get, look, get_locked, make_room, set_entry}
use costguard.Cache.Bounds.{Step, setting, run, run-new-size}
use costguard.Cache.Fresh.{last_set, get-last_set}

abbrev page : ℕ → Entry
page until = record { status_code = 200; header = none; body = 1 ∷ []; expires_at = until }

-- Two keys fill a cache for two; the third takes the place of "a", which has expired at 20.
abbrev busy : List Step
busy = setting 0 1 "a" (page 10) ∷ setting 0 2 "b" (page 30) ∷ setting 0 20 "c" (page 40) ∷ []

busy_entries : (run (new_memory 2) busy).entries ≡ ("b", page 30) ∷ ("c", page 40) ∷ []
unfolding new_memory set_entry make_room
busy_entries = refl

get-last_set_example :
    ((last_set "b" none busy ≡ some (page 50))
      ⊎ (last_set "b" none (busy ++ (setting 0 35 "b" (page 50) ∷ [])) ≡ some (page 50)))
    × (expired 36 (page 50) ≡ false)
unfolding new_memory set_entry make_room get look get_locked
get-last_set_example = get-last_set 2 busy (setting 0 35 "b" (page 50) ∷ []) "b" 36 (page 50) refl

run-new-size_example :
    (length (run (new_memory 2) busy).entries ≤ (if ◌==◌ 2 0 then 1000 else 2))
    × IsMap (run (new_memory 2) busy).entries
run-new-size_example = run-new-size 2 busy

a_ne_b : ◌≡◌ {A = String} "a" "b" → ⊥
a_ne_b e = cc ((eq_iff "a" "b").1 e)
