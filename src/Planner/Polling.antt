-- ===== src/Planner/Polling.antt =====
-- The `should_cancel` closure of crates/renamewright-core/src/planner.rs: a computation asks it, in
-- turn, whether to go on, and ends with `None` at the first `true`. `polls k` is the answer to the
-- call with number `k`.
use renamewright.Common.{
  Bool-cases, ◌∙◌, ℕ, suc, ◌≡◌, refl, ap, Bool, true, Option, none, some, if◌then◌else◌, ◌⊎◌, inl,
  inr,
}

abbrev pub Polled {ℓ} : Type ℓ → Type ℓ
Polled A = (ℕ → Bool) → ℕ → Option (A × ℕ)

unfoldable pub pure {ℓ} : {A : Type ℓ} → A → Polled A
pure a polls n = some (a, n)

unfoldable pub check_continue : Polled (Unit {0})
check_continue polls n = if polls n then none else some (tt, suc n)

unfoldable pub continue_with {ℓ κ} :
    {A : Type ℓ} {B : Type κ} → (A → Polled B) → (ℕ → Bool) → Option (A × ℕ) → Option (B × ℕ)
continue_with f polls none = none
continue_with f polls (some (a, n)) = f a polls n

infixl 5 ◌>>=◌ ◌>>◌
unfoldable pub ◌>>=◌ {ℓ κ} : {A : Type ℓ} {B : Type κ} → Polled A → (A → Polled B) → Polled B
unfolding continue_with
◌>>=◌ m f polls n = continue_with f polls (m polls n)

abbrev pub ◌>>◌ {κ} : {B : Type κ} → Polled (Unit {0}) → Polled B → Polled B
m >> k = m >>= λ _. k

-- Whatever the answers are, the computation gives `a` or is ended by an answer `true`.
abbrev pub Determined {ℓ} : {A : Type ℓ} → Polled A → A → Type ℓ
Determined m a =
    (polls : ℕ → Bool) (n : ℕ)
    → ((k : ℕ) × (polls k ≡ true) × (m polls n ≡ none)) ⊎ ((k : ℕ) × (m polls n ≡ some (a, k)))

pub pure-Determined {ℓ} : {A : Type ℓ} (a : A) → Determined (pure a) a
unfolding pure
pure-Determined a polls n = inr (n, refl)

pub check_continue-Determined : Determined check_continue tt
unfolding check_continue
check_continue-Determined polls n = elim (Bool-cases (polls n)) [
  | inl h ↦ inl (n, h, rw h)
  | inr h ↦ inr (suc n, rw h)
]

pub >>=-Determined {ℓ κ} :
    {A : Type ℓ} {B : Type κ} (m : Polled A) (f : A → Polled B) (a : A) (b : B)
    → Determined m a
    → Determined (f a) b
    → Determined (m >>= f) b
unfolding ◌>>=◌ continue_with
>>=-Determined m f a b hm hf polls n = elim (hm polls n) [
  | inl (k, e, h) ↦ inl (k, e, ap (continue_with f polls) h)
  | inr (k, h) ↦ elim (hf polls k) [
    | inl (j, e, h') ↦ inl (j, e, ap (continue_with f polls) h ∙ h')
    | inr (j, h') ↦ inr (j, ap (continue_with f polls) h ∙ h')
  ]
]

-- The computation is determined, and what it gives satisfies `P`.
abbrev pub Decides {ℓ κ} : {A : Type ℓ} → Polled A → (A → Type κ) → Type (ℓ ⊔ κ)
Decides {A = A} m P = (a : A) × P a × Determined m a

pub pure-Decides {ℓ κ} : {A : Type ℓ} (P : A → Type κ) (a : A) → P a → Decides (pure a) P
pure-Decides P a h = (a, h, pure-Determined a)

pub check_continue-Decides : Decides check_continue (λ _. Unit {0})
check_continue-Decides = (tt, tt, check_continue-Determined)

pub >>=-Decides {ℓ κ μ ν} :
    {A : Type ℓ} {B : Type κ} {P : A → Type μ} {Q : B → Type ν} (m : Polled A) (f : A → Polled B)
    → Decides m P
    → ((a : A) → P a → Decides (f a) Q)
    → Decides (m >>= f) Q
>>=-Decides {Q = Q} m f (a, p, hm) hf = go (hf a p)
  where
    go : Decides (f a) Q → Decides (m >>= f) Q
    go (b, q, hb) = (b, q, >>=-Determined m f a b hm hb)
