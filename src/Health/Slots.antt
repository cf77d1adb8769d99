-- ===== src/Health/Slots.antt =====
-- internal/health/tracker.go: the slots of a ring, and how `entries` walks round them.
use mathlib.Core.Path.{ap₂}
use native.Mathlib.Nat.{add-zero, mod-add-mod, mod-eq_of_lt, mod-eq-sub-mod, mod-lt}
use native.Mathlib.Decide.{dec_lt}
use costguard.Base.{
  ℕ, zero, suc, ◌+◌, ◌-◌, ◌%◌, ◌<◌, ◌≤◌, ◌≡◌, ◌≢◌, ◌⊎◌, inl, inr, List, [], ◌∷◌, ◌++◌, arith, refl,
  sym, ap, ◌∙◌, length, get_or, set, length-set, length-replicate, get_or-set_ne,
}
use costguard.Health.{Outcome, blank, Ring, new_ring, add, read_from, entries}

pub record IsValid (n : ℕ) (r : Ring) : Type 0 where
  pub room : length r.buf ≡ n
  pub nonzero : 0 < n
  pub head_in : r.head < n
  pub size_in : r.size ≤ n

-- Below twice the divisor a remainder is one subtraction at most.
mod_below : (a c : ℕ) → a < c → a % c ≡ a
mod_below a c h = mod-eq_of_lt h

mod_wrapped : (a c : ℕ) → c ≤ a → a < c + c → a % c ≡ a - c
mod_wrapped a c h k =
    omega (arith, mod-eq-sub-mod {n = a} {m = c} h, mod-eq_of_lt {n = a - c} {m = c} (omega arith))

pub new_ring-IsValid : (n : ℕ) → 0 < n → IsValid n (new_ring n)
unfolding new_ring
new_ring-IsValid n h = ground (arith, length-replicate n blank)

pub add-IsValid : (n : ℕ) (r : Ring) (o : Outcome) → IsValid n r → IsValid n (add r o)
unfolding add
add-IsValid n r o v = record {
  room = length-set r.buf r.head o ∙ v.room;
  nonzero = v.nonzero;
  head_in = rw v.room (omega (arith, v));
  size_in = ground (arith, v);
}

pub length-read_from : (buf : List Outcome) (s i n : ℕ) → length (read_from buf s i n) ≡ n
unfolding read_from
length-read_from buf s i zero = refl
length-read_from buf s i (suc n) = ap suc (length-read_from buf s (i + 1) n)

abbrev pub cell : List Outcome → ℕ → ℕ → Outcome
cell buf s i = get_or buf ((s + i) % length buf) blank

pub read_from-suc :
    (buf : List Outcome) (s i n : ℕ)
    → read_from buf s i (suc n) ≡ read_from buf s i n ++ (cell buf s (i + n) ∷ [])
unfolding read_from
read_from-suc buf s i zero = ap (λ j. cell buf s j ∷ []) (sym (add-zero i))
read_from-suc buf s i (suc n) =
    ap (λ l. cell buf s i ∷ l)
      (read_from-suc buf s (i + 1) n
        ∙ ap (λ j. read_from buf s (i + 1) n ++ (cell buf s j ∷ [])) (add-assoc_one i n))
  where
    add-assoc_one : (i n : ℕ) → i + 1 + n ≡ i + suc n
    add-assoc_one i n = omega arith

-- Starting one cell later is the same as counting from one more.
pub read_from-shift :
    (buf : List Outcome) (s i n : ℕ)
    → read_from buf ((s + 1) % length buf) i n ≡ read_from buf s (i + 1) n
unfolding read_from
read_from-shift buf s i zero = refl
read_from-shift buf s i (suc n) =
    ap₂ ◌∷◌ (ap (λ j. get_or buf j blank) here) (read_from-shift buf s (i + 1) n)
  where
    here : ((s + 1) % length buf + i) % length buf ≡ (s + (i + 1)) % length buf
    here = mod-add-mod (s + 1) (length buf) i ∙ ap (λ j. j % length buf) (omega arith)

-- A write to a cell that is not read changes nothing.
pub read_from-set :
    (buf : List Outcome) (s i n h : ℕ) (o : Outcome)
    → ((j : ℕ) → i ≤ j → j < i + n → h ≢ (s + j) % length buf)
    → read_from (set buf h o) s i n ≡ read_from buf s i n
unfolding read_from
read_from-set buf s i zero h o ne = refl
read_from-set buf s i (suc n) h o ne = rw (length-set buf h o) (
    ap₂ ◌∷◌ (get_or-set_ne buf h _ o blank (ne i (omega arith) (omega arith)))
      (read_from-set buf s (i + 1) n h o (λ j p q. ne j (omega arith) (omega arith))))

-- The cell that lies `k` before `h`, going round.
abbrev pub back : ℕ → ℕ → ℕ → ℕ
back n h k = (h + n - k) % n

module _ (n h : ℕ) (in_range : h < n) where
  pub back-cases :
      (k : ℕ) → k ≤ n → ((h < k) × (back n h k ≡ h + n - k)) ⊎ ((k ≤ h) × (back n h k ≡ h - k))
  back-cases k le = elim (dec_lt h k) [
    | yes p ↦ inl (p, mod_below (h + n - k) n (omega arith))
    | no p ↦ inr (omega arith, omega (arith, mod_wrapped (h + n - k) n (omega arith) (omega arith)))
  ]

  step-cases : ((h + 1 < n) × ((h + 1) % n ≡ h + 1)) ⊎ ((h + 1 ≡ n) × ((h + 1) % n ≡ 0))
  step-cases = elim (dec_lt (h + 1) n) [
    | yes p ↦ inl (p, mod_below (h + 1) n p)
    | no p ↦ inr (omega arith, omega (arith, mod_wrapped (h + 1) n (omega arith) (omega arith)))
  ]

pub round-cases :
    (n s j : ℕ)
    → s < n
    → j ≤ n
    → ((s + j < n) × ((s + j) % n ≡ s + j)) ⊎ ((n ≤ s + j) × ((s + j) % n ≡ s + j - n))
round-cases n s j p q = elim (dec_lt (s + j) n) [
  | yes r ↦ inl (r, mod_below (s + j) n r)
  | no r ↦ inr (omega arith, mod_wrapped (s + j) n (omega arith) (omega arith))
]

-- The start of the window after a step that makes it grow is the start before.
pub back-step : (n h k : ℕ) → h < n → k < n → back n ((h + 1) % n) (suc k) ≡ back n h k
back-step n h k p q = omega (
  arith,
  step-cases n h p,
  back-cases n h p k (omega arith),
  back-cases n ((h + 1) % n) (mod-lt (h + 1) (omega arith)) (suc k) (omega arith),
)

pub entries-eq-read_from :
    (n : ℕ) (r : Ring) → IsValid n r → entries r ≡ read_from r.buf (back n r.head r.size) 0 r.size
unfolding entries read_from
entries-eq-read_from n r v = ground (arith, v)

pub entries-eq_of :
    (n : ℕ) (r : Ring) (s k : ℕ)
    → IsValid n r
    → back n r.head r.size ≡ s
    → r.size ≡ k
    → entries r ≡ read_from r.buf s 0 k
entries-eq_of n r s k v e f = entries-eq-read_from n r v ∙ ap₂ (λ a b. read_from r.buf a 0 b) e f
