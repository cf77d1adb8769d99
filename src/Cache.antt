-- ===== src/Cache.antt =====
-- internal/cache/memory.go: the response cache. An operation locks the cache, so that it is one
-- step, but for `Get` of an expired entry: `look` under the read lock, then `get_locked` under the
-- write lock, between which others may act. An entry is a value, which `cloneEntry` does not change.
pub mod Fresh
pub mod Bounds
mod Tests
use costguard.Base.{
  ℕ, suc, zero, String, Bool, List, Option, none, some, [], ◌∷◌, Dict, lookup, insert, delete,
  keep_values, length, ltb, leb, ◌==◌, not, if◌then◌else◌,
}

pub record Entry : Type 0 where
  pub status_code : ℕ
  pub header : Option (Dict (List String))
  pub body : List ℕ
  pub expires_at : ℕ

pub record Memory : Type 0 where
  pub entries : Dict Entry
  pub max_keys : ℕ

-- `maxKeys <= 0` is `maxKeys` of 0 here.
unfoldable pub new_memory : ℕ → Memory
new_memory max_keys = record { entries = []; max_keys = if max_keys == 0 then 1000 else max_keys }

-- `now.After(e.ExpiresAt)`
abbrev pub expired : ℕ → Entry → Bool
expired now e = ltb e.expires_at now

pub data Look : Type 0 where
  missing stale : Look
  hit : Entry → Look

unfoldable pub look : Memory → String → ℕ → Look
look m key now = elim (lookup key m.entries) [
  | none ↦ missing
  | some e ↦ if expired now e then stale else hit e
]

-- The second look of `Get`, which keeps an entry set in between.
unfoldable pub get_locked : Memory → String → ℕ → Option Entry × Memory
get_locked m key now = elim (lookup key m.entries) [
  | none ↦ (none, m)
  | some e ↦
      if not (expired now e)
      then (some e, m)
      else (none, record m { entries = delete key m.entries })
]

-- `Get`, while others make of the cache what `others` makes of it between its two locks.
unfoldable pub get : (Memory → Memory) → Memory → String → ℕ → Option Entry × Memory
unfolding look get_locked
get others m key now = elim (look m key now) [
  | missing ↦ (none, m)
  | hit e ↦ (some e, m)
  | stale ↦ get_locked (others m) key now
]

-- `for k := range entries { delete(entries, k); break }`: Go picks a key, here the one at a place.
abbrev pub drop_one : ℕ → Dict Entry → Dict Entry
drop_one i [] = []
drop_one zero (e ∷ m) = m
drop_one (suc i) (e ∷ []) = []
drop_one (suc i) (e ∷ f ∷ m) = e ∷ drop_one i (f ∷ m)

-- What `Set` removes from a full cache: all that is expired, or, if that is nothing, one entry.
unfoldable pub make_room : ℕ → ℕ → Memory → Dict Entry
make_room pick now m =
    if leb m.max_keys (length m.entries)
    then (let live = keep_values (λ e. not (expired now e)) m.entries in
        if leb m.max_keys (length live) then drop_one pick live else live)
    else m.entries

unfoldable pub set_entry : ℕ → ℕ → Memory → String → Entry → Memory
unfolding make_room
set_entry pick now m key e = record m { entries = insert key e (make_room pick now m) }
