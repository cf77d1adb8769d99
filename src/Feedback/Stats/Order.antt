-- ===== src/Feedback/Stats/Order.antt =====
-- internal/feedback/stats.go: the statistics do not depend on the order of the records.
use mathlib.Core.Path.{ap₂}
use mathlib.Core.Logic.{∥∥₁_elim}
use mathlib.Core.List.{Perm, Permᴰ}
use costguard.Base.{suc, ◌≡◌, ◌∙◌, refl, ap, List, [], ◌∷◌, ℤ, pos, negsuc, int_add, length, arith}
use costguard.Base.Float.{Float}
use costguard.Feedback.{FeedbackRecord, Filter}
use costguard.Feedback.Stats.{Totals, add_record, add_records, no_totals, stats_of, aggregate}

int_add_swap : (a b c : ℤ) → int_add (int_add a b) c ≡ int_add (int_add a c) b
int_add_swap (pos a) (pos b) (pos c) = ground arith
int_add_swap (pos a) (pos b) (negsuc c) = ground arith
int_add_swap (pos a) (negsuc b) (pos c) = ground arith
int_add_swap (pos a) (negsuc b) (negsuc c) = ground arith
int_add_swap (negsuc a) (pos b) (pos c) = ground arith
int_add_swap (negsuc a) (pos b) (negsuc c) = ground arith
int_add_swap (negsuc a) (negsuc b) (pos c) = ground arith
int_add_swap (negsuc a) (negsuc b) (negsuc c) = ground arith

add_record_swap :
    (r s : FeedbackRecord) (t : Totals)
    → add_record r (add_record s t) ≡ add_record s (add_record r t)
unfolding add_record
add_record_swap r s t = ground (
  arith,
  int_add_swap t.retries r.reviewer_retries s.reviewer_retries,
  int_add_swap t.duration_sum r.duration_ms s.duration_ms,
  int_add_swap t.input_sum r.input_tokens s.input_tokens,
  int_add_swap t.output_sum r.output_tokens s.output_tokens,
)

totals_of_rearranged :
    {rs ss : List FeedbackRecord} → Permᴰ rs ss → (t : Totals) → add_records rs t ≡ add_records ss t
unfolding add_records
totals_of_rearranged Permᴰ.nil t = refl
totals_of_rearranged (Permᴰ.cons {a} {b} {l₁} {l₂} e p) t =
    ap (λ r. add_records l₁ (add_record r t)) e ∙ totals_of_rearranged p (add_record b t)
totals_of_rearranged (Permᴰ.swap {a} {b} {a'} {b'} {l} e q) t =
    ap (λ u. add_records l u) (add_record_swap b a t)
    ∙ (ap (λ r. add_records l (add_record a (add_record r t))) q
        ∙ ap (λ r. add_records l (add_record r (add_record a' t))) e)
totals_of_rearranged (Permᴰ.trans p q) t = totals_of_rearranged p t ∙ totals_of_rearranged q t

length_of_rearranged : {rs ss : List FeedbackRecord} → Permᴰ rs ss → length rs ≡ length ss
length_of_rearranged Permᴰ.nil = refl
length_of_rearranged (Permᴰ.cons e p) = ap suc (length_of_rearranged p)
length_of_rearranged (Permᴰ.swap e q) = refl
length_of_rearranged (Permᴰ.trans p q) = length_of_rearranged p ∙ length_of_rearranged q

totals_of_perm :
    {rs ss : List FeedbackRecord}
    → Perm rs ss
    → (add_records rs no_totals ≡ add_records ss no_totals) × (length rs ≡ length ss)
totals_of_perm p =
    ∥∥₁_elim p (hlevel) (λ d. (totals_of_rearranged d no_totals, length_of_rearranged d))

module _ (f : Float) (of_int : ℤ → f.Carrier) where
  same_length :
      (rs ss : List FeedbackRecord) (g : Filter)
      → add_records rs no_totals ≡ add_records ss no_totals
      → length rs ≡ length ss
      → aggregate f of_int rs g ≡ aggregate f of_int ss g
  unfolding aggregate
  same_length [] [] g p q = refl
  same_length [] (s ∷ ss) g p q = ground arith
  same_length (r ∷ rs) [] g p q = ground arith
  same_length (r ∷ rs) (s ∷ ss) g p q = ap₂ (λ n t. stats_of f of_int g n t) q p

  -- The statistics of records are those of the same records in any other order.
  pub aggregate-Perm :
      (rs ss : List FeedbackRecord) (g : Filter)
      → Perm rs ss
      → aggregate f of_int rs g ≡ aggregate f of_int ss g
  aggregate-Perm rs ss g p = let (same, long) = totals_of_perm p in same_length rs ss g same long
