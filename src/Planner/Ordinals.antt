-- ===== src/Planner/Ordinals.antt =====
-- `allocate_sequence` (crates/renamewright-core/src/planner.rs): which value each source is given.
use renamewright.Common.{
  subst, ==_iff, ℕ, zero, suc, ◌+◌, ◌≤◌, ◌<◌, ◌≡◌, ◌≢◌, refl, sym, ap, ◌∙◌, true, false, Option,
  none, some, List, [], ◌∷◌, ◌++◌, ◌==◌, if◌then◌else◌, length, get_elem?, set, replicate, arith,
  All, Bool-cases, inl, inr, usize_max,
}
use renamewright.Model.Source.{ParentId, SourceSnapshot}
use renamewright.Rules.Types.{SequenceScope, all_sources, per_parent, SequenceAllocation}
use renamewright.Planner.Sequence.{
  next_ordinal, set_ordinal, Allocating, take_ordinal, sequence_value, allocate_one, allocate_loop,
}

module _ {ℓ} {A : Type ℓ} where
  length-set : (xs : List A) (i : ℕ) (v : A) → length (set xs i v) ≡ length xs
  length-set [] i v = refl
  length-set (x ∷ xs) zero v = refl
  length-set (x ∷ xs) (suc i) v = ap suc (length-set xs i v)

  get_elem?-set : (xs : List A) (i : ℕ) (v : A) → i < length xs → get_elem? (set xs i v) i ≡ some v
  get_elem?-set [] i v h = absurd (omega arith)
  get_elem?-set (x ∷ xs) zero v h = refl
  get_elem?-set (x ∷ xs) (suc i) v h = get_elem?-set xs i v (omega arith)

  get_elem?-set-other :
      (xs : List A) (i j : ℕ) (v : A) → i ≢ j → get_elem? (set xs i v) j ≡ get_elem? xs j
  get_elem?-set-other [] i j v h = refl
  get_elem?-set-other (x ∷ xs) zero zero v h = absurd (h refl)
  get_elem?-set-other (x ∷ xs) zero (suc j) v h = refl
  get_elem?-set-other (x ∷ xs) (suc i) zero v h = refl
  get_elem?-set-other (x ∷ xs) (suc i) (suc j) v h =
      get_elem?-set-other xs i j v (λ e. h (ap suc e))

  pub length-replicate : (n : ℕ) (x : A) → length (replicate n x) ≡ n
  length-replicate zero x = refl
  length-replicate (suc n) x = ap suc (length-replicate n x)

  pub get_elem?-lt-length : (xs : List A) (i : ℕ) {x : A} → get_elem? xs i ≡ some x → i < length xs
  get_elem?-lt-length [] i h = absurd cc
  get_elem?-lt-length (y ∷ ys) zero h = omega arith
  get_elem?-lt-length (y ∷ ys) (suc i) h = omega (arith, get_elem?-lt-length ys i h)

next_ordinal-set_ordinal :
    (ordinals : List (ParentId × ℕ)) (parent other n : ℕ)
    → next_ordinal (set_ordinal ordinals parent n) other
      ≡ (if parent == other then n else next_ordinal ordinals other)
unfolding next_ordinal set_ordinal
next_ordinal-set_ordinal [] parent other n = refl
next_ordinal-set_ordinal ((p, m) ∷ ordinals) parent other n =
    let ih = next_ordinal-set_ordinal ordinals parent other n in
    elim (Bool-cases (p == parent)) [
      | inl h ↦
          let same : p ≡ parent = (==_iff p parent).0 h in
          rw h (elim (Bool-cases (parent == other)) [
            | inl t ↦
                let t' : (p == other) ≡ true = subst (λ x. (x == other) ≡ true) (sym same) t in
                rw (t, t') refl
            | inr f ↦
                let f' : (p == other) ≡ false = subst (λ x. (x == other) ≡ false) (sym same) f in
                rw (f, f') refl
          ])
      | inr h ↦ rw h (elim (Bool-cases (p == other)) [
        | inl t ↦ let f : (parent == other) ≡ false = ground arith in rw (t, f) refl
        | inr f ↦ rw f ih
      ])
    ]

-- The ordinal that the next source of the parent is given.
abbrev pub counter : SequenceScope → Allocating → ParentId → ℕ
counter all_sources st parent = st.global_ordinal
counter per_parent st parent = next_ordinal st.parent_ordinals parent

-- Sources of this parent count together.
abbrev pub counts_with : SequenceScope → ParentId → ParentId → ℕ
counts_with all_sources p parent = 1
counts_with per_parent p parent = if p == parent then 1 else 0

take_ordinal_lem :
    (scope : SequenceScope) (p : ParentId) (st : Allocating)
    → ((take_ordinal scope p st).0 ≡ counter scope st p)
      × ((take_ordinal scope p st).1.values ≡ st.values)
      × ((parent : ParentId)
          → counter scope st parent < usize_max
          → counter scope (take_ordinal scope p st).1 parent
            ≡ counter scope st parent + counts_with scope p parent)
unfolding take_ordinal
take_ordinal_lem all_sources p st = (refl, refl, λ parent h. omega arith)
take_ordinal_lem per_parent p st = (
  refl,
  refl,
  λ parent h.
      next_ordinal-set_ordinal st.parent_ordinals p parent _ ∙ elim (Bool-cases (p == parent)) [
        | inl t ↦ let same : p ≡ parent = (==_iff p parent).0 t in rw (t, same) (omega arith)
        | inr f ↦ rw f (omega arith)
      ],
)

-- What the source at an index adds to the ordinals of a parent.
abbrev pub adds : SequenceScope → Option SourceSnapshot → ParentId → ℕ
adds scope none parent = 0
adds scope (some s) parent = counts_with scope s.parent_id parent

-- How many of the indices come before, among those that count with the parent.
abbrev pub earlier : List SourceSnapshot → SequenceScope → List ℕ → ParentId → ℕ
earlier sources scope [] parent = 0
earlier sources scope (i ∷ indices) parent =
    adds scope (get_elem? sources i) parent + earlier sources scope indices parent

module _ (sources : List SourceSnapshot) (a : SequenceAllocation) where
  -- What the round for the index `i` does, where it finds the source `found`.
  abbrev OneRound : ℕ → Allocating → Option SourceSnapshot → Allocating → Type 0
  OneRound i st found after =
      (length after.values ≡ length st.values)
      × ((j : ℕ) → i ≢ j → get_elem? after.values j ≡ get_elem? st.values j)
      × ((parent : ParentId)
          → counter a.scope st parent < usize_max
          → counter a.scope after parent ≡ counter a.scope st parent + adds a.scope found parent)
      × ((s : SourceSnapshot)
          → found ≡ some s
          → i < length st.values
          → get_elem? after.values i ≡ some (sequence_value a (counter a.scope st s.parent_id)))

  counter-values :
      (scope : SequenceScope) (s : Allocating) (values : List (Option ℕ)) (parent : ParentId)
      → counter scope (record s { values = values }) parent ≡ counter scope s parent
  counter-values all_sources s values parent = refl
  counter-values per_parent s values parent = refl

  allocate_one_lem :
      (i : ℕ) (st : Allocating) → OneRound i st (get_elem? sources i) (allocate_one sources a i st)
  unfolding allocate_one
  allocate_one_lem i st = go (get_elem? sources i)
    where
      go :
          (found : Option SourceSnapshot)
          → OneRound i st found (elim found [
            | none ↦ st
            | some s ↦
                let (ordinal, st') = take_ordinal a.scope s.parent_id st in
                record st' { values = set st'.values i (sequence_value a ordinal) }
          ])
      go none = (refl, λ j h. refl, λ parent h. omega arith, λ s at h. absurd cc)
      go (some s) =
          let taken = take_ordinal_lem a.scope s.parent_id st in
          let after = (take_ordinal a.scope s.parent_id st).1 in
          let v = sequence_value a (take_ordinal a.scope s.parent_id st).0 in
          (
            length-set after.values i v ∙ ap length taken.1,
            λ j h. get_elem?-set-other after.values i j v h ∙ ap (λ l. get_elem? l j) taken.1,
            λ parent h.
                counter-values a.scope after (set after.values i v) parent ∙ taken.2 parent h,
            λ s' at h.
                get_elem?-set after.values i v (subst (λ l. i < length l) (sym taken.1) h)
                ∙ ap (λ n. some (sequence_value a n)) taken.0
                ∙ (let same : s ≡ s' = cc in
                    ap (λ x. some (sequence_value a (counter a.scope st x.parent_id))) same),
          )

  allocate_loop-length :
      (indices : List ℕ) (st : Allocating)
      → length (allocate_loop sources a indices st).values ≡ length st.values
  unfolding allocate_loop
  allocate_loop-length [] st = refl
  allocate_loop-length (i ∷ indices) st =
      allocate_loop-length indices (allocate_one sources a i st) ∙ (allocate_one_lem i st).0

  allocate_loop-other :
      (indices : List ℕ) (j : ℕ) (st : Allocating)
      → All (λ i. i ≢ j) indices
      → get_elem? (allocate_loop sources a indices st).values j ≡ get_elem? st.values j
  unfolding allocate_loop
  allocate_loop-other [] j st _ = refl
  allocate_loop-other (i ∷ indices) j st (h, hs) =
      allocate_loop-other indices j (allocate_one sources a i st) hs ∙ (allocate_one_lem i st).1 j h

  adds-le : (scope : SequenceScope) (s : Option SourceSnapshot) (p : ParentId) → adds scope s p ≤ 1
  adds-le scope none p = omega arith
  adds-le all_sources (some s) p = omega arith
  adds-le per_parent (some s) p = ground arith

  -- The value of the source at `j`, behind the indices `pre` and in front of others than `j`.
  pub allocate_loop_lem :
      (pre post : List ℕ) (j : ℕ) (s : SourceSnapshot) (st : Allocating)
      → get_elem? sources j ≡ some s
      → j < length st.values
      → All (λ i. i ≢ j) post
      → counter a.scope st s.parent_id + length pre ≤ usize_max
      → get_elem? (allocate_loop sources a (pre ++ j ∷ post) st).values j
        ≡ some (
            sequence_value a
              (counter a.scope st s.parent_id + earlier sources a.scope pre s.parent_id))
  unfolding allocate_loop
  allocate_loop_lem [] post j s st at lt other small =
      allocate_loop-other post j (allocate_one sources a j st) other
      ∙ (allocate_one_lem j st).3 s at lt
      ∙ ap (λ n. some (sequence_value a n)) (omega arith)
  allocate_loop_lem (i ∷ pre) post j s st at lt other small =
      let one = allocate_one_lem i st in
      let next = one.2 s.parent_id (omega arith) in
      let le = adds-le a.scope (get_elem? sources i) s.parent_id in
      allocate_loop_lem pre post j s (allocate_one sources a i st) at
        (subst (λ n. j < n) (sym one.0) lt) other (omega (arith, next, le))
      ∙ ap (λ n. some (sequence_value a n)) (omega (arith, next))
