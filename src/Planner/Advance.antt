-- ===== src/Planner/Advance.antt =====
-- What the marks of crates/renamewright-core/src/planner.rs may do to a row: keep its source and its
-- names, and keep it blocked once it is.
use renamewright.Model.Blocking.{block-code}
use renamewright.Common.{
  inr, length, false, sym, subst, inl, Bool-cases, Bool, ◌∙◌, ℕ, zero, suc, ◌≡◌, refl, true, List,
  [], ◌∷◌, ltb, if◌then◌else◌,
}
use renamewright.Model.Diagnostic.{DiagnosticCode, duplicate_destination}
use renamewright.Model.Source.{TargetPolicy}
use renamewright.Model.Row.{NameStatus, PlanRow, block}
use renamewright.Text.{Str}
use renamewright.Planner.Marks.{
  Destination, block_where, block_at, block_indices, block_groups, group_rows, mark_duplicates,
}

-- The two lists are equally long and related place by place.
abbrev pub Each {ℓ κ} : {A : Type ℓ} {B : Type κ} → (A → B → Type 0) → List A → List B → Type 0
Each R [] [] = Unit
Each R (x ∷ xs) (y ∷ ys) = R x y × Each R xs ys
Each R [] (y ∷ ys) = ⊥
Each R (x ∷ xs) [] = ⊥

pub Each-trans {ℓ κ μ} :
    {A : Type ℓ} {B : Type κ} {C : Type μ} {R : A → B → Type 0} {S : B → C → Type 0}
    {T : A → C → Type 0} (step : (a : A) (b : B) (c : C) → R a b → S b c → T a c) (xs : List A)
    (ys : List B) (zs : List C)
    → Each R xs ys
    → Each S ys zs
    → Each T xs zs
Each-trans step [] [] [] _ _ = tt
Each-trans step [] [] (z ∷ zs) _ h = absurd h
Each-trans step [] (y ∷ ys) zs h _ = absurd h
Each-trans step (x ∷ xs) [] zs h _ = absurd h
Each-trans step (x ∷ xs) (y ∷ ys) [] _ h = absurd h
Each-trans step (x ∷ xs) (y ∷ ys) (z ∷ zs) (r, rs) (s, ss) =
    (step x y z r s, Each-trans step xs ys zs rs ss)

pub record Advances (before after : PlanRow) : Type 0 where
  pub source_id : after.source_id ≡ before.source_id
  pub parent_id : after.parent_id ≡ before.parent_id
  pub entry_kind : after.entry_kind ≡ before.entry_kind
  pub original_name : after.original_name ≡ before.original_name
  pub proposed_name : after.proposed_name ≡ before.proposed_name
  pub trace : after.trace ≡ before.trace
  pub stays_blocked : before.status ≡ NameStatus.blocked → after.status ≡ NameStatus.blocked

pub Advances-refl : (row : PlanRow) → Advances row row
Advances-refl row = record {
  source_id = refl;
  parent_id = refl;
  entry_kind = refl;
  original_name = refl;
  proposed_name = refl;
  trace = refl;
  stays_blocked = λ h. h;
}

pub Advances-trans : (a b c : PlanRow) → Advances a b → Advances b c → Advances a c
Advances-trans a b c r s = record {
  source_id = s.source_id ∙ r.source_id;
  parent_id = s.parent_id ∙ r.parent_id;
  entry_kind = s.entry_kind ∙ r.entry_kind;
  original_name = s.original_name ∙ r.original_name;
  proposed_name = s.proposed_name ∙ r.proposed_name;
  trace = s.trace ∙ r.trace;
  stays_blocked = λ h. s.stays_blocked (r.stays_blocked h);
}

pub block-Advances : (row : PlanRow) (code : DiagnosticCode) → Advances row (block row code)
unfolding block
block-Advances row code = record {
  source_id = refl;
  parent_id = refl;
  entry_kind = refl;
  original_name = refl;
  proposed_name = refl;
  trace = refl;
  stays_blocked = λ _. refl;
}

abbrev pub AllAdvance : List PlanRow → List PlanRow → Type 0
AllAdvance = Each Advances

pub AllAdvance-refl : (rows : List PlanRow) → AllAdvance rows rows
AllAdvance-refl [] = tt
AllAdvance-refl (row ∷ rows) = (Advances-refl row, AllAdvance-refl rows)

pub AllAdvance-trans :
    (xs ys zs : List PlanRow) → AllAdvance xs ys → AllAdvance ys zs → AllAdvance xs zs
AllAdvance-trans xs ys zs = Each-trans Advances-trans xs ys zs

-- A row that the test picks is blocked.
abbrev pub Guarded : (PlanRow → Bool) → PlanRow → Type 0
Guarded test row = test row ≡ true → row.status ≡ NameStatus.blocked

block_if-Advances :
    (test : PlanRow → Bool) (code : DiagnosticCode) (row : PlanRow)
    → let row' = if test row then block row code else row in
      Advances row row' × (test row ≡ true → row'.status ≡ NameStatus.blocked)
block_if-Advances test code row = elim (Bool-cases (test row)) [
  | inl h ↦
      subst
        (λ b.
          let row' = if b then block row code else row in
          Advances row row' × (b ≡ true → row'.status ≡ NameStatus.blocked))
        (sym h) (block-Advances row code, λ _. (block-code row code).0)
  | inr h ↦
      subst
        (λ b.
          let row' = if b then block row code else row in
          Advances row row' × (b ≡ true → row'.status ≡ NameStatus.blocked))
        (sym h) (Advances-refl row, λ e. cc)
]

-- `block_where` advances every row, and blocks those that its test picks.
pub block_where-Advances :
    (test : PlanRow → Bool) (code : DiagnosticCode) (rows : List PlanRow)
    → Each
        (λ row row'. Advances row row' × (test row ≡ true → row'.status ≡ NameStatus.blocked))
        rows
        (block_where test code rows)
unfolding block_where
block_where-Advances test code [] = tt
block_where-Advances test code (row ∷ rows) =
    (block_if-Advances test code row, block_where-Advances test code rows)

block_at-Advances :
    (rows : List PlanRow) (index : ℕ) (code : DiagnosticCode)
    → AllAdvance rows (block_at rows index code)
unfolding block_at
block_at-Advances [] index code = tt
block_at-Advances (row ∷ rows) zero code = (block-Advances row code, AllAdvance-refl rows)
block_at-Advances (row ∷ rows) (suc index) code =
    (Advances-refl row, block_at-Advances rows index code)

block_indices-Advances :
    (indices : List ℕ) (code : DiagnosticCode) (rows : List PlanRow)
    → AllAdvance rows (block_indices indices code rows)
unfolding block_indices
block_indices-Advances [] code rows = AllAdvance-refl rows
block_indices-Advances (index ∷ indices) code rows =
    AllAdvance-trans rows (block_at rows index code) (block_indices (index ∷ indices) code rows)
      (block_at-Advances rows index code)
      (block_indices-Advances indices code (block_at rows index code))

block_some-Advances :
    (test : Bool) (indices : List ℕ) (rows : List PlanRow)
    → AllAdvance rows (if test then block_indices indices duplicate_destination rows else rows)
block_some-Advances true indices rows = block_indices-Advances indices duplicate_destination rows
block_some-Advances false indices rows = AllAdvance-refl rows

block_groups-Advances :
    (groups : List (Destination × List ℕ)) (rows : List PlanRow)
    → AllAdvance rows (block_groups groups rows)
unfolding block_groups
block_groups-Advances [] rows = AllAdvance-refl rows
block_groups-Advances ((d, indices) ∷ groups) rows =
    let next : List PlanRow =
      if ltb 1 (length indices) then block_indices indices duplicate_destination rows else rows in
    AllAdvance-trans rows next (block_groups groups next)
      (block_some-Advances (ltb 1 (length indices)) indices rows)
      (block_groups-Advances groups next)

pub mark_duplicates-Advances :
    (to_lowercase : Str → Str) (policy : TargetPolicy) (rows : List PlanRow)
    → AllAdvance rows (mark_duplicates to_lowercase policy rows)
unfolding mark_duplicates
mark_duplicates-Advances to_lowercase policy rows =
    block_groups-Advances (group_rows to_lowercase policy 0 rows []) rows
