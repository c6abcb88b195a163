-- ===== src/Planner/Stable.antt =====
-- Tests of rows that the marks of crates/renamewright-core/src/planner.rs do not change.
use renamewright.Common.{◌∙◌, ◌≡◌, sym, Bool, true, List, [], ◌∷◌, All}
use renamewright.Model.Diagnostic.{DiagnosticCode}
use renamewright.Model.Row.{NameStatus, PlanRow}
use renamewright.Planner.Marks.{block_where}
use renamewright.Planner.Advance.{Each, Advances, AllAdvance, Guarded, block_where-Advances}

-- The test reads only what the marks keep.
abbrev pub Stable : (PlanRow → Bool) → Type 0
Stable test = (before after : PlanRow) → Advances before after → test after ≡ test before

pub Guarded-Advances :
    (test : PlanRow → Bool)
    → Stable test
    → (before after : List PlanRow) → AllAdvance before after
    → All (Guarded test) before
    → All (Guarded test) after
Guarded-Advances test stable [] [] _ _ = tt
Guarded-Advances test stable (x ∷ xs) (y ∷ ys) (a, as') (g, gs) =
    (λ h. a.stays_blocked (g (sym (stable x y a) ∙ h)), Guarded-Advances test stable xs ys as' gs)
Guarded-Advances test stable [] (y ∷ ys) h _ = absurd h
Guarded-Advances test stable (x ∷ xs) [] h _ = absurd h

Each-Advances :
    (test : PlanRow → Bool) (before after : List PlanRow)
    → Each (λ r r'. Advances r r' × (test r ≡ true → r'.status ≡ NameStatus.blocked)) before after
    → AllAdvance before after
Each-Advances test [] [] _ = tt
Each-Advances test (x ∷ xs) (y ∷ ys) (h, hs) = (h.0, Each-Advances test xs ys hs)
Each-Advances test [] (y ∷ ys) h = absurd h
Each-Advances test (x ∷ xs) [] h = absurd h

Each-Guarded :
    (test : PlanRow → Bool)
    → Stable test
    → (before after : List PlanRow)
    → Each (λ r r'. Advances r r' × (test r ≡ true → r'.status ≡ NameStatus.blocked)) before after
    → All (Guarded test) after
Each-Guarded test stable [] [] _ = tt
Each-Guarded test stable (x ∷ xs) (y ∷ ys) (h, hs) =
    (λ e. h.1 (sym (stable x y h.0) ∙ e), Each-Guarded test stable xs ys hs)
Each-Guarded test stable [] (y ∷ ys) h = absurd h
Each-Guarded test stable (x ∷ xs) [] h = absurd h

-- One mark: every row advances, and those it is about are blocked.
pub block_where-Guarded :
    (test : PlanRow → Bool) (code : DiagnosticCode)
    → Stable test
    → (rows : List PlanRow)
    → AllAdvance rows (block_where test code rows) × All (Guarded test) (block_where test code rows)
block_where-Guarded test code stable rows =
    let h = block_where-Advances test code rows in
    (Each-Advances test rows _ h, Each-Guarded test stable rows _ h)

pub Guarded-agree :
    (t u : PlanRow → Bool)
    → ((row : PlanRow) → u row ≡ t row)
    → (rows : List PlanRow) → All (Guarded t) rows
    → All (Guarded u) rows
Guarded-agree t u e [] _ = tt
Guarded-agree t u e (row ∷ rows) (g, gs) = (λ h. g (sym (e row) ∙ h), Guarded-agree t u e rows gs)
