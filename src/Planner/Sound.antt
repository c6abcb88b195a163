-- ===== src/Planner/Sound.antt =====
-- Which indices the groups of crates/renamewright-core/src/planner.rs hold, against the rows they are of.
use renamewright.Common.{
  ◌⊎◌, subst, ℕ, suc, ◌+◌, ◌≤◌, ◌<◌, ◌≡◌, refl, sym, true, ◌&&◌, Option, none, some, List, [], ◌∷◌,
  ◌++◌, ◌==◌, ltb, if◌then◌else◌, any-append, length, length-append, get_elem?, arith, All,
  Bool-cases, inl, inr,
}
use renamewright.Text.{Str}
use renamewright.Model.Source.{TargetPolicy}
use renamewright.Model.Row.{PlanRow}
use renamewright.Planner.Marks.{Destination, destination_eq, push_index, group_rows}
use renamewright.Planner.Indexed.{mem, in_groups}
use renamewright.Planner.Groups.{destination_eq_iff, indices_of, is_for, key_of, count_for}

-- A group that holds an index and has two of them is among the groups.
pub in_groups-indices_of :
    (e : Destination) (j : ℕ) (groups : List (Destination × List ℕ))
    → 1 < length (indices_of e groups)
    → mem (indices_of e groups) j ≡ true
    → in_groups groups j ≡ true
in_groups-indices_of e j [] big h = cc
in_groups-indices_of e j ((d, indices) ∷ groups) big h =
    let ih = in_groups-indices_of e j groups in
    elim (Bool-cases (destination_eq d e)) [
      | inl t ↦
          let big' : 1 < length indices =
            subst (λ b. 1 < length (if b then indices else indices_of e groups)) t big in
          let h' : mem indices j ≡ true =
            subst (λ b. mem (if b then indices else indices_of e groups) j ≡ true) t h in
          ground arith
      | inr f ↦
          let big' : 1 < length (indices_of e groups) =
            subst (λ b. 1 < length (if b then indices else indices_of e groups)) f big in
          let h' : mem (indices_of e groups) j ≡ true =
            subst (λ b. mem (if b then indices else indices_of e groups) j ≡ true) f h in
          ground (arith, ih big' h')
    ]

-- A group has at most `limit` indices, and owns each of them.
abbrev pub IsSound : (Destination → ℕ) → (ℕ → Destination → Type 0) → Destination × List ℕ → Type 0
IsSound limit Owns (d, indices) =
    (length indices ≤ limit d) × ((j : ℕ) → mem indices j ≡ true → Owns j d)

abbrev step_of : Destination → Option Destination → ℕ
step_of d key = if is_for d key then 1 else 0

mem-snoc :
    (indices : List ℕ) (k j : ℕ)
    → mem (indices ++ k ∷ []) j ≡ true
    → (mem indices j ≡ true) ⊎ (j ≡ k)
mem-snoc indices k j h = ground (arith, any-append (λ n. j == n) indices (k ∷ []))

raise :
    (limit more : Destination → ℕ) (Owns : ℕ → Destination → Type 0)
    → ((d : Destination) → limit d ≤ more d)
    → (groups : List (Destination × List ℕ)) → All (IsSound limit Owns) groups
    → All (IsSound more Owns) groups
raise limit more Owns le [] _ = tt
raise limit more Owns le ((d, indices) ∷ groups) ((n, o), hs) =
    ((omega (arith, le d), o), raise limit more Owns le groups hs)

push_index-IsSound :
    (limit : Destination → ℕ) (Owns : ℕ → Destination → Type 0) (e : Destination) (k : ℕ)
    → ((d : Destination) → destination_eq d e ≡ true → Owns k d)
    → (groups : List (Destination × List ℕ)) → All (IsSound limit Owns) groups
    → All (IsSound (λ d. limit d + step_of d (some e)) Owns) (push_index e k groups)
unfolding push_index
push_index-IsSound limit Owns e k own [] _ =
    let self = (destination_eq_iff e e).1 refl in
    (
      (
        rw self (omega arith),
        λ j h. let at : j ≡ k = ground arith in subst (λ n. Owns n e) (sym at) (own e self),
      ),
      tt,
    )
push_index-IsSound limit Owns e k own ((d, indices) ∷ groups) ((n, o), hs) =
    let ih = push_index-IsSound limit Owns e k own groups hs in
    elim (Bool-cases (destination_eq d e)) [
      | inl t ↦
          let one : step_of d (some e) ≡ 1 = rw t refl in
          rw t (
            (
              omega (arith, one, length-append indices (k ∷ [])),
              λ j h. elim (mem-snoc indices k j h) [
                | inl old ↦ o j old
                | inr at ↦ subst (λ m. Owns m d) (sym at) (own d t)
              ],
            ),
            raise limit (λ c. limit c + step_of c (some e)) Owns (λ c. omega arith) groups hs,
          )
      | inr f ↦ rw f ((omega arith, o), ih)
    ]

pub in_groups-IsSound :
    (limit : Destination → ℕ) (Owns : ℕ → Destination → Type 0) (j : ℕ)
    (groups : List (Destination × List ℕ))
    → All (IsSound limit Owns) groups
    → in_groups groups j ≡ true
    → (d : Destination) × (1 < limit d) × Owns j d
in_groups-IsSound limit Owns j [] _ h = absurd cc
in_groups-IsSound limit Owns j ((d, indices) ∷ groups) ((n, o), hs) h =
    let ih = in_groups-IsSound limit Owns j groups hs in
    elim (Bool-cases (ltb 1 (length indices) && mem indices j)) [
      | inl here ↦
          let big : 1 < length indices = ground arith in
          let held : mem indices j ≡ true = ground arith in (d, omega arith, o j held)
      | inr not_here ↦ ih (ground arith)
    ]

module _ (to_lowercase : Str → Str) (policy : TargetPolicy) where
  pub group_rows-IsSound :
      (limit : Destination → ℕ) (Owns : ℕ → Destination → Type 0) (i : ℕ) (rows : List PlanRow)
      (groups : List (Destination × List ℕ))
      → ((k : ℕ) (row : PlanRow) (d : Destination)
          → get_elem? rows k ≡ some row
          → is_for d (key_of to_lowercase policy row) ≡ true
          → Owns (i + k) d)
      → All (IsSound limit Owns) groups
      → All
          (IsSound (λ d. limit d + count_for to_lowercase policy d rows) Owns)
          (group_rows to_lowercase policy i rows groups)
  unfolding group_rows
  group_rows-IsSound limit Owns i [] groups own hs =
      raise limit (λ d. limit d + 0) Owns (λ d. omega arith) groups hs
  group_rows-IsSound limit Owns i (row ∷ rows) groups own hs =
      go (key_of to_lowercase policy row)
        (λ d h. subst (λ n. Owns n d) (omega arith) (own 0 row d refl h))
        (λ more gs.
          group_rows-IsSound more Owns (suc i) rows gs
            (λ k r d at h. subst (λ n. Owns n d) (omega arith) (own (suc k) r d at h)))
    where
      go :
          (key : Option Destination)
          → ((d : Destination) → is_for d key ≡ true → Owns i d)
          → ((more : Destination → ℕ) (gs : List (Destination × List ℕ))
              → All (IsSound more Owns) gs
              → All
                  (IsSound (λ d. more d + count_for to_lowercase policy d rows) Owns)
                  (group_rows to_lowercase policy (suc i) rows gs))
          → All
              (IsSound (λ d. limit d + (step_of d key + count_for to_lowercase policy d rows)) Owns)
              (group_rows to_lowercase policy
                (suc i)
                rows
                (elim key [ none ↦ groups | some d ↦ push_index d i groups ]))
      go none here ih =
          raise (λ d. limit d + count_for to_lowercase policy d rows)
            (λ d. limit d + (0 + count_for to_lowercase policy d rows)) Owns (λ d. omega arith) _
            (ih limit groups hs)
      go (some e) here ih =
          raise (λ d. (limit d + step_of d (some e)) + count_for to_lowercase policy d rows)
            (λ d. limit d + (step_of d (some e) + count_for to_lowercase policy d rows)) Owns
            (λ d. omega arith) _
            (ih (λ d. limit d + step_of d (some e)) (push_index e i groups)
              (push_index-IsSound limit Owns e i here groups hs))
