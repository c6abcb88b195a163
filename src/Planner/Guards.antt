-- ===== src/Planner/Guards.antt =====
-- What the marks of crates/renamewright-core/src/planner.rs guarantee: a row whose source or target the
-- environment forbids is blocked, and stays blocked under the later marks.
use renamewright.Planner.Stable.{Stable, Guarded-Advances, block_where-Guarded}
use renamewright.Planner.Unique.{shares_destination-Guarded}
use renamewright.Common.{ap, Bool, List, All}
use renamewright.Text.{Str}
use renamewright.Model.Source.{ValidationEnvironment, TargetPolicy, contains_id}
use renamewright.Model.Diagnostic.{DiagnosticCode}
use renamewright.Model.Row.{PlanRow}
use renamewright.Rules.Types.{RulePipeline, Libraries}
use renamewright.Planner.Polling.{
  Polled, pure, check_continue, Determined, pure-Determined, check_continue-Determined,
  >>=-Determined, Decides, ◌>>=◌, ◌>>◌,
}
use renamewright.Planner.Marks.{
  Destination, mark_stale_sources, mark_ancestor_conflicts, mark_unavailable_parents,
  mark_duplicates, mark_occupied_destinations, is_occupied, occupied_keys,
}
use renamewright.Planner.Advance.{AllAdvance, AllAdvance-trans, Guarded, mark_duplicates-Advances}
use renamewright.Planner.Duplicates.{shares_destination}
use renamewright.Planner.Build.{PlanBuildContext, mark_rows}

abbrev pub is_stale : ValidationEnvironment → PlanRow → Bool
is_stale env row = contains_id env.stale_sources row.source_id

abbrev pub is_nested : ValidationEnvironment → PlanRow → Bool
is_nested env row = contains_id env.ancestor_conflicts row.source_id

abbrev pub has_no_parent : ValidationEnvironment → PlanRow → Bool
has_no_parent env row = contains_id env.unavailable_parents row.parent_id

is_stale-Stable : (env : ValidationEnvironment) → Stable (is_stale env)
is_stale-Stable env before after a = ap (contains_id env.stale_sources) a.source_id

is_nested-Stable : (env : ValidationEnvironment) → Stable (is_nested env)
is_nested-Stable env before after a = ap (contains_id env.ancestor_conflicts) a.source_id

has_no_parent-Stable : (env : ValidationEnvironment) → Stable (has_no_parent env)
has_no_parent-Stable env before after a = ap (contains_id env.unavailable_parents) a.parent_id

is_occupied-Stable :
    (to_lowercase : Str → Str) (policy : TargetPolicy) (occupied : List Destination)
    → Stable (is_occupied to_lowercase policy occupied)
unfolding is_occupied
is_occupied-Stable to_lowercase policy occupied before after a = rw (a.parent_id, a.proposed_name)

module _ (lib : Libraries) (context : PlanBuildContext) where
  abbrev pub takes_occupied : PlanRow → Bool
  takes_occupied =
      is_occupied lib.to_lowercase context.policy
        (occupied_keys lib.to_lowercase context.policy context.environment.occupied_names)

  -- Every row that the environment forbids is blocked, and so is every row that goes where another of
  -- `all` goes.
  pub record IsMarked (all rows : List PlanRow) : Type 0 where
    pub stale : All (Guarded (is_stale context.environment)) rows
    pub nested : All (Guarded (is_nested context.environment)) rows
    pub parent : All (Guarded (has_no_parent context.environment)) rows
    pub occupied : All (Guarded takes_occupied) rows
    pub unique : All (Guarded (shares_destination lib.to_lowercase context.policy all)) rows

checked {ℓ κ} :
    {A : Type ℓ} {B : Type κ} (a : A) (f : A → Polled B) (b : B)
    → Determined (f a) b
    → Determined (check_continue >> (pure a >>= f)) b
checked a f b h =
    >>=-Determined check_continue _ tt b check_continue-Determined
      (>>=-Determined (pure a) f a b (pure-Determined a) h)

-- The marks decide on rows that follow the same sources, every forbidden one blocked.
pub mark_rows-Decides :
    (lib : Libraries) (pipeline : RulePipeline lib.Regex) (context : PlanBuildContext)
    (rows : List PlanRow)
    → Decides
        (mark_rows lib pipeline context rows)
        (λ marked. AllAdvance rows marked × IsMarked lib context marked marked)
unfolding mark_rows mark_stale_sources mark_ancestor_conflicts mark_unavailable_parents
    mark_occupied_destinations
mark_rows-Decides lib pipeline context rows =
    let env = context.environment in
    let low = lib.to_lowercase in
    let a = mark_stale_sources rows env in
    let b = mark_ancestor_conflicts a env in
    let c = mark_unavailable_parents b env in
    let d = mark_duplicates low context.policy c in
    let e = mark_occupied_destinations low context.policy d env in
    let ga =
      block_where-Guarded (is_stale env) DiagnosticCode.stale_source (is_stale-Stable env) rows in
    let gb =
      block_where-Guarded (is_nested env) DiagnosticCode.ancestor_descendant_conflict
        (is_nested-Stable env) a in
    let gc =
      block_where-Guarded (has_no_parent env) DiagnosticCode.parent_unavailable
        (has_no_parent-Stable env) b in
    let hd = mark_duplicates-Advances low context.policy c in
    let occupied_stable =
      is_occupied-Stable low context.policy (occupied_keys low context.policy env.occupied_names) in
    let ge =
      block_where-Guarded (takes_occupied lib context) DiagnosticCode.occupied_destination
        occupied_stable d in
    let de = AllAdvance-trans c d e hd ge.0 in
    let ce = AllAdvance-trans b c e gc.0 de in
    let be = AllAdvance-trans a b e gb.0 ce in
    (
      e,
      (
        AllAdvance-trans rows a e ga.0 be,
        record {
          stale = Guarded-Advances (is_stale env) (is_stale-Stable env) a e be ga.1;
          nested = Guarded-Advances (is_nested env) (is_nested-Stable env) b e ce gb.1;
          parent = Guarded-Advances (has_no_parent env) (has_no_parent-Stable env) c e de gc.1;
          occupied = ge.1;
          unique = shares_destination-Guarded low context.policy c e ge.0;
        },
      ),
      checked a _ e (
          checked b _ e (
            checked c _ e (
              checked d _ e (
                checked e _ e (
                  >>=-Determined check_continue _ tt e check_continue-Determined
                    (pure-Determined e)))))),
    )
