-- ===== src/Planner/Validation.antt =====
-- `validate_overrides` (crates/renamewright-core/src/planner.rs): what it accepts, and what the map holds.
use renamewright.Common.{
  subst, ==_iff, ==_self, ◌≤◌, ◌≡◌, ◌≢◌, refl, sym, ap, ◌∙◌, Bool, true, false, not, ◌||◌, Option,
  none, some, List, [], ◌∷◌, ◌==◌, ltb, if◌then◌else◌, length, map, arith, All, Bool-cases,
  Option-cases, inl, inr,
}
use renamewright.Text.{Str, str_len}
use renamewright.Model.Source.{SourceId, SourceSnapshot, contains_id}
use renamewright.Planner.Overrides.{
  max_overrides, max_override_text_bytes, NameOverride, OverrideMap, find_override, is_some,
  validate_loop, validate_overrides,
}

abbrev pub ids_of : List SourceSnapshot → List SourceId
ids_of sources = map (λ s. s.id) sources

-- The override names a source and is not too long, and no other one in the list names that source.
pub record IsAdmitted (ids : List SourceId) (m : OverrideMap) (o : NameOverride) : Type 0 where
  pub nonzero : o.source_id ≢ 0
  pub known : contains_id ids o.source_id ≡ true
  pub fits : str_len o.proposed_name ≤ max_override_text_bytes
  pub found : find_override m o.source_id ≡ some o.proposed_name

-- No two overrides name one source.
abbrev pub IsDistinct : List NameOverride → Type 0
IsDistinct [] = Unit
IsDistinct (o ∷ overrides) = All (λ p. p.source_id ≢ o.source_id) overrides × IsDistinct overrides

find_override-first :
    (o : NameOverride) (m : OverrideMap)
    → find_override ((o.source_id, o.proposed_name) ∷ m) o.source_id ≡ some o.proposed_name
unfolding find_override
find_override-first o m = rw (==_self o.source_id) refl

find_override-next :
    (o : NameOverride) (m : OverrideMap) (id : SourceId)
    → is_some (find_override m o.source_id) ≡ false
    → is_some (find_override m id) ≡ true
    → find_override ((o.source_id, o.proposed_name) ∷ m) id ≡ find_override m id
unfolding find_override
find_override-next o m id fresh old = elim (Bool-cases (o.source_id == id)) [
  | inl h ↦
      let same : o.source_id ≡ id = (==_iff o.source_id id).0 h in
      let clash : is_some (find_override m id) ≡ false =
        subst (λ x. is_some (find_override m x) ≡ false) same fresh in
      absurd cc
  | inr h ↦ rw h refl
]

-- The entries of the one map are those of the other.
abbrev Extends : OverrideMap → OverrideMap → Type 0
Extends later m =
    (id : SourceId)
    → is_some (find_override m id) ≡ true
    → find_override later id ≡ find_override m id

found_some :
    (m : OverrideMap) (id : SourceId) {name : Str}
    → find_override m id ≡ some name
    → is_some (find_override m id) ≡ true
found_some m id h = ap is_some h

abbrev is_refused : List SourceId → OverrideMap → NameOverride → Bool
is_refused ids m o =
    o.source_id == 0
    || not (contains_id ids o.source_id)
    || ltb max_override_text_bytes (str_len o.proposed_name)
    || is_some (find_override m o.source_id)

-- Overrides that are fresh behind an insertion were so in front of it, and are not for that source.
fresh_before :
    (o : NameOverride) (m : OverrideMap) (overrides : List NameOverride)
    → All
        (λ p. is_some (find_override ((o.source_id, o.proposed_name) ∷ m) p.source_id) ≡ false)
        overrides
    → All (λ p. is_some (find_override m p.source_id) ≡ false) overrides
      × All (λ p. p.source_id ≢ o.source_id) overrides
unfolding find_override
fresh_before o m [] _ = (tt, tt)
fresh_before o m (p ∷ overrides) (h, hs) =
    let (old, other) = fresh_before o m overrides hs in
    elim (Bool-cases (o.source_id == p.source_id)) [
      | inl same ↦
          let no : is_some (some o.proposed_name) ≡ false =
            subst
              (λ b.
                is_some (if b then some o.proposed_name else find_override m p.source_id) ≡ false)
              same h in
          absurd cc
      | inr differ ↦ (
        (
          subst
              (λ b.
                is_some (if b then some o.proposed_name else find_override m p.source_id) ≡ false)
              differ h,
          old,
        ),
        (λ e. ground arith, other),
      )
    ]

validate_loop-accepts :
    (ids : List SourceId) (m : OverrideMap) (overrides : List NameOverride) {result : OverrideMap}
    → validate_loop ids m overrides ≡ some result
    → Extends result m
      × All (IsAdmitted ids result) overrides
      × All (λ o. is_some (find_override m o.source_id) ≡ false) overrides
      × IsDistinct overrides
unfolding validate_loop
validate_loop-accepts ids m [] {result} h =
    let same : m ≡ result = cc in (λ id old. ap (λ x. find_override x id) (sym same), tt, tt, tt)
validate_loop-accepts ids m (o ∷ overrides) {result} h =
    let next : OverrideMap = (o.source_id, o.proposed_name) ∷ m in
    let ih = validate_loop-accepts ids next overrides {result = result} in
    elim (Bool-cases (is_refused ids m o)) [
      | inl t ↦
          let no : none ≡ some result =
            subst (λ b. (if b then none else validate_loop ids next overrides) ≡ some result) t h in
          absurd cc
      | inr f ↦
          let run : validate_loop ids next overrides ≡ some result =
            subst (λ b. (if b then none else validate_loop ids next overrides) ≡ some result) f h in
          let (extends, admitted, fresh, distinct) = ih run in
          let new : is_some (find_override m o.source_id) ≡ false = ground arith in
          let known : contains_id ids o.source_id ≡ true = ground arith in
          let fits : str_len o.proposed_name ≤ max_override_text_bytes = ground arith in
          let (old, other) = fresh_before o m overrides fresh in
          (
            λ id at.
                extends id (ap is_some (find_override-next o m id new at) ∙ at)
                ∙ find_override-next o m id new at,
            (
              record {
                nonzero = λ e. ground arith;
                known = known;
                fits = fits;
                found =
                    extends o.source_id (ap is_some (find_override-first o m))
                    ∙ find_override-first o m;
              },
              admitted,
            ),
            (new, old),
            (other, distinct),
          )
    ]

-- The override names a source and is not too long.
pub record IsValid (ids : List SourceId) (o : NameOverride) : Type 0 where
  pub nonzero : o.source_id ≢ 0
  pub known : contains_id ids o.source_id ≡ true
  pub fits : str_len o.proposed_name ≤ max_override_text_bytes

fresh_after :
    (o : NameOverride) (m : OverrideMap) (overrides : List NameOverride)
    → All (λ p. is_some (find_override m p.source_id) ≡ false) overrides
    → All (λ p. p.source_id ≢ o.source_id) overrides
    → All
        (λ p. is_some (find_override ((o.source_id, o.proposed_name) ∷ m) p.source_id) ≡ false)
        overrides
unfolding find_override
fresh_after o m [] _ _ = tt
fresh_after o m (p ∷ overrides) (h, hs) (n, ns) =
    let differ : (o.source_id == p.source_id) ≡ false = ground arith in
    (rw differ h, fresh_after o m overrides hs ns)

validate_loop-total :
    (ids : List SourceId) (m : OverrideMap) (overrides : List NameOverride)
    → All (IsValid ids) overrides
    → All (λ o. is_some (find_override m o.source_id) ≡ false) overrides
    → IsDistinct overrides
    → validate_loop ids m overrides ≢ none
unfolding validate_loop
validate_loop-total ids m [] _ _ _ h = absurd cc
validate_loop-total ids m (o ∷ overrides) (v, vs) (new, news) (other, others) h =
    let ok_here : is_refused ids m o ≡ false = ground (arith, v.nonzero, v.known, v.fits) in
    validate_loop-total ids ((o.source_id, o.proposed_name) ∷ m) overrides vs
      (fresh_after o m overrides news other) others
      (subst
        (λ b.
          (if b then none else validate_loop ids ((o.source_id, o.proposed_name) ∷ m) overrides)
          ≡ none)
        ok_here h)

fresh_empty :
    (overrides : List NameOverride)
    → All (λ o. is_some (find_override [] o.source_id) ≡ false) overrides
unfolding find_override
fresh_empty [] = tt
fresh_empty (o ∷ overrides) = (refl, fresh_empty overrides)

-- What the overrides have to satisfy, and what the map of accepted ones holds.
abbrev pub OverridesOutcome : List SourceSnapshot → List NameOverride → Option OverrideMap → Type 0
OverridesOutcome sources overrides (some m) =
    (length overrides ≤ max_overrides)
    × IsDistinct overrides
    × All (IsAdmitted (ids_of sources) m) overrides
OverridesOutcome sources overrides none = ¬ (
    (length overrides ≤ max_overrides)
    × IsDistinct overrides
    × All (IsValid (ids_of sources)) overrides)

-- Overrides are accepted exactly if there are at most 100,000, each names a source by a nonzero id with
-- a text of at most 4,096 bytes, and no two name one source; the map of accepted ones gives each of
-- those sources its text.
pub validate_overrides_outcome :
    (sources : List SourceSnapshot) (overrides : List NameOverride)
    → OverridesOutcome sources overrides (validate_overrides sources overrides)
unfolding validate_overrides
validate_overrides_outcome sources overrides =
    elim (Bool-cases (ltb max_overrides (length overrides))) [
      | inl long ↦ rw long (λ h. ground (arith, h.0))
      | inr short ↦
          let few : length overrides ≤ max_overrides = ground arith in
          elim (Option-cases (validate_loop (ids_of sources) [] overrides)) [
            | inl e ↦
                rw (short, e)
                  (λ h.
                    validate_loop-total (ids_of sources) [] overrides h.2 (fresh_empty overrides)
                      h.1 e)
            | inr (m, e) ↦
                let accepted = validate_loop-accepts (ids_of sources) [] overrides e in
                rw (short, e) (few, accepted.3, accepted.1)
          ]
    ]
