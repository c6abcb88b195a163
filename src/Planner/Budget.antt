-- ===== src/Planner/Budget.antt =====
-- The trace budget (crates/renamewright-core/src/planner.rs): what the rows retain is charged to it.
use renamewright.Common.{if_both}
use renamewright.Common.{
  subst, saturating_add, usize_max, ℕ, suc, ◌+◌, ◌≤◌, ◌<◌, ◌≡◌, refl, sym, true, false, not, ◌&&◌,
  Option, none, some, List, [], ◌∷◌, ◌++◌, ltb, is_empty, arith, Bool-cases, inl, inr, Result, ok,
  err,
}
use renamewright.Text.{Str, OsString, str_len, to_string_lossy}
use renamewright.Model.Source.{SourceSnapshot, TargetPolicy, source_kind}
use renamewright.Model.Row.{
  TraceStep, PlanRow, new_row, with_trace_truncated, with_override_applied, after_bytes,
  first_before_bytes,
}
use renamewright.Rules.Types.{
  RenameRule, RuleApplicationError, RulePipeline, Libraries, applies_to_directories,
}
use renamewright.Model.Row.{retained_trace_bytes}
use renamewright.Common.{ap₂}
use renamewright.Model.Plan.{Counters, count_row, count_rows, no_counts, new_plan}
use renamewright.Planner.Advance.{AllAdvance}
use renamewright.Rules.Apply.{apply_rule}
use renamewright.Planner.Row.{
  TraceBudget, RowState, retain, first_bytes, text_before, record_step, is_directory, value_at,
  error_code, failed_row, finish_row, rule_loop, build_row,
}

-- What a trace retains: every text behind a rule, and the text before the first.
abbrev pub cost : List TraceStep → ℕ
cost trace = after_bytes trace + first_before_bytes trace

after_bytes-append :
    (trace : List TraceStep) (step : TraceStep)
    → after_bytes (trace ++ step ∷ []) ≡ after_bytes trace + str_len step.after
after_bytes-append [] step = omega arith
after_bytes-append (s ∷ trace) step = omega (arith, after_bytes-append trace step)

-- The trace and what is left of the budget are within the limit, and no text stands before the first
-- step of an empty trace.
record IsCharged (limit : ℕ) (st : RowState) : Type 0 where
  within : cost st.trace + st.budget.remaining_bytes ≤ limit
  opening : is_empty st.trace ≡ true → st.prior_trace_value ≡ none

snoc_cost :
    (trace : List TraceStep) (step : TraceStep) (prior : Option Str)
    → (is_empty trace ≡ true → prior ≡ none)
    → cost (trace ++ step ∷ []) ≤ cost trace + str_len step.after + first_bytes prior step.before
snoc_cost [] step none h = omega arith
snoc_cost [] step (some p) h = absurd (let e = h refl in cc)
snoc_cost (s ∷ trace) step prior h = omega (arith, after_bytes-append trace step)

snoc-nonempty : (trace : List TraceStep) (step : TraceStep) → is_empty (trace ++ step ∷ []) ≡ false
snoc-nonempty [] step = refl
snoc-nonempty (s ∷ trace) step = refl

record_step-IsCharged :
    (limit rule_index : ℕ) (before : Option Str) (after : OsString) (st : RowState)
    → limit < usize_max
    → IsCharged limit st
    → IsCharged limit (record_step rule_index before after st)
unfolding record_step retain
record_step-IsCharged limit rule_index none after st small c = record {
  within = c.within;
  opening = c.opening;
}
record_step-IsCharged limit rule_index (some before) after st small c =
    let text = to_string_lossy after in
    let bytes = saturating_add (str_len text) (first_bytes st.prior_trace_value before) in
    let step : TraceStep = record { rule_index = rule_index; before = before; after = text } in
    let grown = snoc_cost st.trace step st.prior_trace_value c.opening in
    let full = snoc-nonempty st.trace step in
    elim (Bool-cases (ltb st.budget.remaining_bytes bytes)) [
      | inl over ↦ rw over (record { within = omega (arith, c.within); opening = λ _. refl })
      | inr fits ↦
          let enough : bytes ≤ st.budget.remaining_bytes = ground arith in
          rw fits
            (record { within = omega (arith, c.within, grown, enough); opening = λ h. absurd cc })
    ]

-- A row and the budget behind it are within the limit.
abbrev pub RowWithin : ℕ → PlanRow × TraceBudget → Type 0
RowWithin limit built = cost built.0.trace + built.1.remaining_bytes ≤ limit

abbrev LoopWithin : ℕ → Result (PlanRow × TraceBudget) RowState → Type 0
LoopWithin limit (err ended) = RowWithin limit ended
LoopWithin limit (ok st) = IsCharged limit st

finish_row-trace :
    (source : SourceSnapshot) (name_override : Option Str) (policy : TargetPolicy) (st : RowState)
    → (finish_row source name_override policy st).trace ≡ st.trace
unfolding finish_row with_trace_truncated with_override_applied new_row
finish_row-trace source none policy st = refl
finish_row-trace source (some name) policy st = refl

module _ (lib : Libraries) (pipeline : RulePipeline lib.Regex) (limit : ℕ)
    (small : limit < usize_max) where
  rule_loop-LoopWithin :
      (source_index : ℕ) (source : SourceSnapshot) (values : List (Option (List (Option ℕ))))
      (rule_index : ℕ) (rules : List RenameRule) (st : RowState)
      → IsCharged limit st
      → LoopWithin limit (rule_loop lib pipeline source_index source values rule_index rules st)
  unfolding rule_loop failed_row with_trace_truncated new_row
  rule_loop-LoopWithin source_index source values rule_index [] st c = c
  rule_loop-LoopWithin source_index source values rule_index (rule ∷ rules) st c =
      if_both (LoopWithin limit)
        (is_directory (source_kind source) && not (applies_to_directories rule)) _ _
        (rule_loop-LoopWithin source_index source values (suc rule_index) rules st c)
        (go (λ s d. rule_loop-LoopWithin source_index source values (suc rule_index) rules s d)
          (apply_rule lib pipeline rule_index st.proposed
            (value_at values rule_index source_index)))
    where
      go :
          ((s : RowState)
            → IsCharged limit s
            → LoopWithin limit
                (rule_loop lib pipeline source_index source values (suc rule_index) rules s))
          → (applied : Result RuleApplicationError OsString)
          → LoopWithin limit (elim applied [
            | err e ↦ err (failed_row source (error_code e) st, st.budget)
            | ok after ↦
                rule_loop lib pipeline source_index source values
                  (suc rule_index)
                  rules
                  (record_step rule_index (text_before st) after st)
          ])
      go rest (err e) = c.within
      go rest (ok after) =
          rest (record_step rule_index (text_before st) after st)
            (record_step-IsCharged limit rule_index (text_before st) after st small c)

  pub build_row-RowWithin :
      (source_index : ℕ) (source : SourceSnapshot) (values : List (Option (List (Option ℕ))))
      (name_override : Option Str) (policy : TargetPolicy) (budget : TraceBudget)
      → budget.remaining_bytes ≤ limit
      → RowWithin limit
          (build_row lib pipeline source_index source values name_override policy budget)
  unfolding build_row
  build_row-RowWithin source_index source values name_override policy budget le = go _ (
      rule_loop-LoopWithin source_index source values 0 pipeline.rules
        (record {
          proposed = source.native_name;
          trace = [];
          prior_trace_value = none;
          trace_truncated = false;
          budget = budget;
        })
        (record { within = omega arith; opening = λ _. refl }))
    where
      go :
          (r : Result (PlanRow × TraceBudget) RowState)
          → LoopWithin limit r
          → RowWithin limit (elim r [
            | err ended ↦ ended
            | ok st ↦ (finish_row source name_override policy st, st.budget)
          ])
      go (err ended) h = h
      go (ok st) h =
          subst (λ t. cost t + st.budget.remaining_bytes ≤ limit)
            (sym (finish_row-trace source name_override policy st)) h.within

-- What the rows retain together.
abbrev pub total : List PlanRow → ℕ
total [] = 0
total (row ∷ rows) = cost row.trace + total rows

pub total-Advances :
    (before after : List PlanRow) → AllAdvance before after → total after ≡ total before
total-Advances [] [] _ = refl
total-Advances (x ∷ xs) (y ∷ ys) (a, as') =
    ap₂ (λ t n. cost t + n) a.trace (total-Advances xs ys as')
total-Advances [] (y ∷ ys) h = absurd h
total-Advances (x ∷ xs) [] h = absurd h

count_rows-total :
    (c : Counters) (rows : List PlanRow)
    → (count_rows c rows).retained_bytes ≤ c.retained_bytes + total rows
unfolding count_rows count_row retained_trace_bytes
count_rows-total c [] = omega arith
count_rows-total c (row ∷ rows) = omega (arith, count_rows-total (count_row c row) rows)

pub new_plan-total :
    (id generation : ℕ) (rows : List PlanRow)
    → (new_plan id generation rows).retained_bytes ≤ total rows
unfolding new_plan
new_plan-total id generation rows = omega (arith, count_rows-total no_counts rows)
