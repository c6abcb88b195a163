-- ===== src/Windows/Reserved.antt =====
-- Reserved device names: what follows the first dot does not matter, and neither does the ASCII case.
use renamewright.Common.{ℕ, ◌≡◌, refl, ap, ◌∙◌, sym, [], ◌∷◌, ◌++◌, map, arith, ◌==◌, if◌then◌else◌}
use renamewright.Text.{Str, trim_end, split_once}
use renamewright.Windows.{dot, is_trailing, ascii_upper, before_dot, reserved_stem, is_reserved}

before_dot-cons :
    (c : ℕ) (s : Str) → before_dot (c ∷ s) ≡ (if c == dot then [] else c ∷ before_dot s)
unfolding split_once
before_dot-cons c s = ground arith

before_dot-extension : (name ext : Str) → before_dot (name ++ dot ∷ ext) ≡ before_dot name
unfolding split_once
before_dot-extension [] ext = before_dot-cons dot ext
before_dot-extension (c ∷ s) ext =
    before_dot-cons c (s ++ dot ∷ ext)
    ∙ ap (λ t. if c == dot then [] else c ∷ t) (before_dot-extension s ext)
    ∙ sym (before_dot-cons c s)

upper_dot : (c : ℕ) → (ascii_upper c == dot) ≡ (c == dot)
unfolding ascii_upper
upper_dot c = ground arith

upper_trailing : (c : ℕ) → is_trailing (ascii_upper c) ≡ is_trailing c
unfolding ascii_upper is_trailing
upper_trailing c = ground arith

upper_twice : (c : ℕ) → ascii_upper (ascii_upper c) ≡ ascii_upper c
unfolding ascii_upper
upper_twice c = ground arith

map_upper_twice : (s : Str) → map ascii_upper (map ascii_upper s) ≡ map ascii_upper s
map_upper_twice [] = refl
map_upper_twice (c ∷ s) = ground (arith, upper_twice c, map_upper_twice s)

before_dot-upper :
    (name : Str) → before_dot (map ascii_upper name) ≡ map ascii_upper (before_dot name)
before_dot-upper [] = unfold split_once in refl
before_dot-upper (c ∷ s) =
    rw (before_dot-cons (ascii_upper c) (map ascii_upper s), before_dot-cons c s)
      (ground (arith, upper_dot c, before_dot-upper s))

trim_end-upper :
    (s : Str) → trim_end is_trailing (map ascii_upper s) ≡ map ascii_upper (trim_end is_trailing s)
unfolding trim_end
trim_end-upper [] = refl
trim_end-upper (c ∷ s) = ground (arith, upper_trailing c, trim_end-upper s)

is_reserved-upper : (name : Str) → is_reserved (map ascii_upper name) ≡ is_reserved name
unfolding is_reserved
is_reserved-upper name = ap reserved_stem (
    ap (λ s. map ascii_upper (trim_end is_trailing s)) (before_dot-upper name)
    ∙ ap (map ascii_upper) (trim_end-upper (before_dot name))
    ∙ map_upper_twice (trim_end is_trailing (before_dot name)))

-- A name is reserved with any extension or with none, and in any ASCII case.
pub is_reserved_lem :
    (name ext : Str)
    → (is_reserved (name ++ dot ∷ ext) ≡ is_reserved name)
      × (is_reserved (map ascii_upper name) ≡ is_reserved name)
unfolding is_reserved
is_reserved_lem name ext = (
  ap (λ s. reserved_stem (map ascii_upper (trim_end is_trailing s)))
      (before_dot-extension name ext),
  is_reserved-upper name,
)
