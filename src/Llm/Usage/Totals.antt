-- ===== src/Llm/Usage/Totals.antt =====
-- The daily totals of storage/llm_usage.py.
use lantern_task_manager.Base.{
  ℕ, ◌≡◌, refl, ap, ◌∙◌, List, [], ◌∷◌, true, false, eqb, arith, if◌then◌else◌, keep, inl, inr,
  Bool-cases,
}
use lantern_task_manager.Llm.Usage.{
  LlmUsageDaily, DailyUsageTotals, Usage, no_usage, plus_row, plus_rows, get_daily_totals,
  first_row, is_row_of, plus_usage, record_usage,
}

plus_row_comm :
    (t : DailyUsageTotals) (r s : LlmUsageDaily)
    → plus_row (plus_row t r) s ≡ plus_row (plus_row t s) r
plus_row_comm t r s = ground arith

plus_rows-plus_row :
    (t : DailyUsageTotals) (r : LlmUsageDaily) (rows : List LlmUsageDaily)
    → plus_rows (plus_row t r) rows ≡ plus_row (plus_rows t rows) r
plus_rows-plus_row t r [] = refl
plus_rows-plus_row t r (s ∷ rows) =
    ap (λ t. plus_rows t rows) (plus_row_comm t r s) ∙ plus_rows-plus_row (plus_row t s) r rows

plus_row-plus_usage :
    (t : DailyUsageTotals) (u : Usage) (r : LlmUsageDaily)
    → plus_row t (plus_usage u r) ≡ plus_row (plus_row t r) (first_row u)
plus_row-plus_usage t u r = ground arith

abbrev of_day : ℕ → List LlmUsageDaily → List LlmUsageDaily
of_day day = keep (λ (row : LlmUsageDaily). eqb row.usage_date day)

abbrev with_usage : ℕ → Usage → DailyUsageTotals → DailyUsageTotals
with_usage day u t = if eqb u.usage_date day then plus_row t (first_row u) else t

with_usage-updated :
    (day : ℕ) (u : Usage) (t : DailyUsageTotals) (r : LlmUsageDaily) (rows : List LlmUsageDaily)
    → is_row_of u r ≡ true
    → plus_rows t (of_day day (plus_usage u r ∷ rows))
      ≡ with_usage day u (plus_rows t (of_day day (r ∷ rows)))
with_usage-updated day u t r rows hit = elim (Bool-cases (eqb r.usage_date day)) [
  | inl h ↦
      let same : eqb u.usage_date day ≡ true = ground (arith, hit, h) in
      rw (h, same)
        (ap (λ t. plus_rows t (of_day day rows)) (plus_row-plus_usage t u r)
          ∙ plus_rows-plus_row (plus_row t r) (first_row u) (of_day day rows))
  | inr h ↦ let other : eqb u.usage_date day ≡ false = ground (arith, hit, h) in rw (h, other) refl
]

plus_rows-record_usage :
    (day : ℕ) (u : Usage) (t : DailyUsageTotals) (rows : List LlmUsageDaily)
    → plus_rows t (of_day day (record_usage u rows))
      ≡ with_usage day u (plus_rows t (of_day day rows))
unfolding record_usage
plus_rows-record_usage day u t [] = ground arith
plus_rows-record_usage day u t (r ∷ rows) = elim (Bool-cases (is_row_of u r)) [
  | inl hit ↦ rw hit (with_usage-updated day u t r rows hit)
  | inr miss ↦ elim (Bool-cases (eqb r.usage_date day)) [
    | inl h ↦ rw (miss, h) (plus_rows-record_usage day u (plus_row t r) rows)
    | inr h ↦ rw (miss, h) (plus_rows-record_usage day u t rows)
  ]
]

-- A usage of a day adds its tokens, at least one request, and its fallback or error to that day's
-- totals, whatever rows there are, and leaves the totals of every other day as they were.
pub get_daily_totals-record_usage :
    (day : ℕ) (u : Usage) (rows : List LlmUsageDaily)
    → get_daily_totals day (record_usage u rows) ≡ (
        if eqb u.usage_date day
        then plus_row (get_daily_totals day rows) (first_row u)
        else get_daily_totals day rows)
unfolding get_daily_totals
get_daily_totals-record_usage day u rows = plus_rows-record_usage day u no_usage rows
