-- ===== src/Planner/Groups.antt =====
-- The groups of rows by their destination (crates/renamewright-core/src/planner.rs): which indices a
-- group holds.
use renamewright.Common.{
  subst, ℕ, zero, suc, ◌+◌, ◌≡◌, ◌↔◌, refl, sym, ap, ap₂, ◌∙◌, Bool, true, false, Option, none,
  some, List, [], ◌∷◌, ◌++◌, if◌then◌else◌, length, get_elem?, arith, Bool-cases, inl, inr,
  append-nil, append_assoc,
}
use renamewright.Text.{Str, list_eq_iff}
use renamewright.Model.Source.{TargetPolicy}
use renamewright.Model.Row.{PlanRow}
use renamewright.Planner.Marks.{
  Destination, destination_eq, push_index, destination_key, group_rows,
}
use renamewright.Planner.Indexed.{mem}

pub destination_eq_iff : (a b : Destination) → (destination_eq a b ≡ true) ↔ (a ≡ b)
unfolding destination_eq
destination_eq_iff (p, s) (q, t) =
    let e = list_eq_iff s t in
    (
      λ h. ap₂ (λ x y. (x, y)) (ground arith) (e.0 (ground arith)),
      λ h. ground (arith, ap (λ d. d.0) h, e.1 (ap (λ d. d.1) h)),
    )

destination_eq_sym : (a b : Destination) → destination_eq a b ≡ destination_eq b a
destination_eq_sym a b = elim (Bool-cases (destination_eq a b)) [
  | inl h ↦ h ∙ sym ((destination_eq_iff b a).1 (sym ((destination_eq_iff a b).0 h)))
  | inr h ↦ elim (Bool-cases (destination_eq b a)) [
    | inl k ↦
        absurd (let h' = (destination_eq_iff a b).1 (sym ((destination_eq_iff b a).0 k)) in cc)
    | inr k ↦ h ∙ sym k
  ]
]

-- The indices of the first group of a destination.
abbrev pub indices_of : Destination → List (Destination × List ℕ) → List ℕ
indices_of e [] = []
indices_of e ((d, indices) ∷ groups) = if destination_eq d e then indices else indices_of e groups

abbrev pub when_same : Destination → Destination → ℕ → List ℕ
when_same e d k = if destination_eq e d then k ∷ [] else []

-- Pushing an index puts it at the end of the group of its destination.
indices_of-push_index :
    (e d' : Destination) (k : ℕ) (groups : List (Destination × List ℕ))
    → indices_of e (push_index d' k groups) ≡ indices_of e groups ++ when_same e d' k
unfolding push_index
indices_of-push_index e d' k [] = elim (Bool-cases (destination_eq e d')) [
  | inl h ↦ rw (destination_eq_sym d' e, h)
  | inr h ↦ rw (destination_eq_sym d' e, h)
]
indices_of-push_index e d' k ((d, indices) ∷ groups) =
    let ih = indices_of-push_index e d' k groups in
    elim (Bool-cases (destination_eq d d')) [
      | inl h ↦ elim (Bool-cases (destination_eq d e)) [
        | inl h' ↦
            let same : destination_eq e d' ≡ true =
              subst (λ x. destination_eq x d' ≡ true) ((destination_eq_iff d e).0 h') h in
            rw (h, h', same)
        | inr h' ↦
            let other : destination_eq e d' ≡ false =
              destination_eq_sym e d'
              ∙ subst (λ x. destination_eq x e ≡ false) ((destination_eq_iff d d').0 h) h' in
            rw (h, h', other, append-nil)
      ]
      | inr h ↦ elim (Bool-cases (destination_eq d e)) [
        | inl h' ↦
            let other : destination_eq e d' ≡ false =
              subst (λ x. destination_eq x d' ≡ false) ((destination_eq_iff d e).0 h') h in
            rw (h, h', other, append-nil)
        | inr h' ↦ rw (h, h') ih
      ]
    ]

-- The row goes to the destination.
abbrev pub is_for : Destination → Option Destination → Bool
is_for e none = false
is_for e (some d) = destination_eq e d

module _ (to_lowercase : Str → Str) (policy : TargetPolicy) where
  abbrev pub key_of : PlanRow → Option Destination
  key_of row = destination_key to_lowercase policy row.parent_id row.proposed_name

  -- How many rows go to the destination.
  abbrev pub count_for : Destination → List PlanRow → ℕ
  count_for e [] = 0
  count_for e (row ∷ rows) = (if is_for e (key_of row) then 1 else 0) + count_for e rows

  abbrev pub positions : Destination → ℕ → List PlanRow → List ℕ
  positions e i [] = []
  positions e i (row ∷ rows) =
      (if is_for e (key_of row) then i ∷ [] else []) ++ positions e (suc i) rows

  pub indices_of-group_rows :
      (e : Destination) (i : ℕ) (rows : List PlanRow) (groups : List (Destination × List ℕ))
      → indices_of e (group_rows to_lowercase policy i rows groups)
        ≡ indices_of e groups ++ positions e i rows
  unfolding group_rows
  indices_of-group_rows e i [] groups = sym (append-nil (indices_of e groups))
  indices_of-group_rows e i (row ∷ rows) groups =
      go (key_of row) (indices_of-group_rows e (suc i) rows)
    where
      go :
          (key : Option Destination)
          → ((gs : List (Destination × List ℕ))
              → indices_of e (group_rows to_lowercase policy (suc i) rows gs)
                ≡ indices_of e gs ++ positions e (suc i) rows)
          → indices_of e (
              group_rows to_lowercase policy
                (suc i)
                rows
                (elim key [ none ↦ groups | some d ↦ push_index d i groups ]))
            ≡ indices_of e groups
              ++ ((if is_for e key then i ∷ [] else []) ++ positions e (suc i) rows)
      go none ih = ih groups
      go (some d) ih =
          ih (push_index d i groups)
          ∙ ap (λ l. l ++ positions e (suc i) rows) (indices_of-push_index e d i groups)
          ∙ append_assoc (indices_of e groups) (when_same e d i) (positions e (suc i) rows)

  pub length-positions :
      (e : Destination) (i : ℕ) (rows : List PlanRow)
      → length (positions e i rows) ≡ count_for e rows
  length-positions e i [] = refl
  length-positions e i (row ∷ rows) = elim (Bool-cases (is_for e (key_of row))) [
    | inl h ↦ rw h (omega (arith, length-positions e (suc i) rows))
    | inr h ↦ rw h (omega (arith, length-positions e (suc i) rows))
  ]

  pub mem-positions :
      (e : Destination) (i k : ℕ) (rows : List PlanRow) (row : PlanRow)
      → get_elem? rows k ≡ some row
      → is_for e (key_of row) ≡ true
      → mem (positions e i rows) (i + k) ≡ true
  mem-positions e i k [] row at h = cc
  mem-positions e i zero (r ∷ rows) row at h =
      let first : row ≡ r = cc in
      let same : is_for e (key_of r) ≡ true = subst (λ x. is_for e (key_of x) ≡ true) first h in
      rw same (ground arith)
  mem-positions e i (suc k) (r ∷ rows) row at h =
      let ih : mem (positions e (suc i) rows) (i + suc k) ≡ true =
        subst (λ n. mem (positions e (suc i) rows) n ≡ true) (omega arith)
          (mem-positions e (suc i) k rows row at h) in
      elim (Bool-cases (is_for e (key_of r))) [ inl t ↦ rw t (ground arith) | inr f ↦ rw f ih ]
