-- ===== src/Text.antt =====
-- Rust's `str` and `OsString` as the crates use them. A `str` is the list of its characters (code
-- points). An `OsString` is the list of its chunks: a character, or the bytes of one maximal chunk
-- that is no UTF-8 (on Windows, a lone surrogate). What the crates push onto a name is always a
-- `str`, so pushing never joins two chunks. Lengths and orders are those of the encoded bytes.
pub mod Utf8
use renamewright.Common.{
  refl, append_assoc, sym, length-append, ◌∙◌, ap, ℕ, ◌+◌, ◌/◌, ◌%◌, ◌≡◌, ◌↔◌, Bool, true, false,
  ◌&&◌, Option, none, some, List, [], ◌∷◌, ◌++◌, map, arith, ltb, ◌==◌, if◌then◌else◌, length,
}
use Prim.Native.Nat.{compare, Ordering}
use Prim.Native.Char.{code}
use Prim.Native.String.{String}
use mathlib.Core.Option

abbrev pub Str : Type 0
Str = List ℕ

pub data OsUnit : Type 0 where
  scalar : ℕ → OsUnit
  raw : List ℕ → OsUnit

abbrev pub OsString : Type 0
OsString = List OsUnit

-- The code points of a literal.
abbrev pub codes : String → Str
codes String.[] = []
codes (String.◌∷◌ c s) = code c ∷ codes s

-- UTF-8.
abbrev pub char_bytes : ℕ → List ℕ
char_bytes c =
    if ltb c 0x80
    then c ∷ []
    else if ltb c 0x800
    then (0xc0 + c / 64) ∷ (0x80 + c % 64) ∷ []
    else if ltb c 0x10000
    then (0xe0 + c / 4096) ∷ (0x80 + c / 64 % 64) ∷ (0x80 + c % 64) ∷ []
    else (0xf0 + c / 262144) ∷ (0x80 + c / 4096 % 64) ∷ (0x80 + c / 64 % 64) ∷ (0x80 + c % 64) ∷ []

pub str_bytes : Str → List ℕ
str_bytes [] = []
str_bytes (c ∷ s) = char_bytes c ++ str_bytes s

abbrev pub unit_bytes : OsUnit → List ℕ
unit_bytes (scalar c) = char_bytes c
unit_bytes (raw bytes) = bytes

unfoldable pub os_bytes : OsString → List ℕ
os_bytes [] = []
os_bytes (u ∷ s) = unit_bytes u ++ os_bytes s

-- `str::len` and `OsStr::len`.
unfoldable pub str_len : Str → ℕ
unfolding str_bytes
str_len s = length (str_bytes s)

unfoldable pub os_len : OsString → ℕ
unfolding os_bytes
os_len s = length (os_bytes s)

-- `OsString::from` a `str`.
abbrev pub from_str : Str → OsString
from_str = map scalar

-- `OsStr::to_str`.
unfoldable pub to_str : OsString → Option Str
to_str [] = some []
to_str (scalar c ∷ s) = Option.map (λ t. c ∷ t) (to_str s)
to_str (raw bytes ∷ s) = none

-- `OsStr::to_string_lossy`: U+FFFD for each chunk that is no UTF-8.
unfoldable pub to_string_lossy : OsString → Str
to_string_lossy [] = []
to_string_lossy (scalar c ∷ s) = c ∷ to_string_lossy s
to_string_lossy (raw bytes ∷ s) = 0xfffd ∷ to_string_lossy s

-- `==` of two byte strings or of two texts.
unfoldable pub list_eq : List ℕ → List ℕ → Bool
list_eq [] [] = true
list_eq (x ∷ xs) (y ∷ ys) = x == y && list_eq xs ys
list_eq _ _ = false

unfoldable pub os_eq : OsString → OsString → Bool
unfolding os_bytes list_eq
os_eq a b = list_eq (os_bytes a) (os_bytes b)

-- `Ord::cmp` of two byte strings: lexicographic.
unfoldable pub list_cmp : List ℕ → List ℕ → Ordering
list_cmp [] [] = Ordering.eq
list_cmp [] (y ∷ ys) = Ordering.lt
list_cmp (x ∷ xs) [] = Ordering.gt
list_cmp (x ∷ xs) (y ∷ ys) = elim (compare x y) [
  | Ordering.eq ↦ list_cmp xs ys
  | Ordering.lt ↦ Ordering.lt
  | Ordering.gt ↦ Ordering.gt
]

-- `str::starts_with` a text, with what follows it: `str::strip_prefix`.
unfoldable pub strip_prefix : Str → Str → Option Str
strip_prefix [] s = some s
strip_prefix (p ∷ ps) [] = none
strip_prefix (p ∷ ps) (c ∷ s) = if p == c then strip_prefix ps s else none

-- `str::trim_end_matches` over the characters that satisfy `p`.
unfoldable pub trim_end : (ℕ → Bool) → Str → Str
trim_end p [] = []
trim_end p (c ∷ s) = elim (trim_end p s) [ [] ↦ if p c then [] else c ∷ [] | d ∷ t ↦ c ∷ d ∷ t ]

-- The part before the first `dot` and the part after it: `str::split_once`.
unfoldable pub split_once : ℕ → Str → Option (Str × Str)
split_once sep [] = none
split_once sep (c ∷ s) =
    if c == sep then some ([], s) else Option.map (λ p. (c ∷ p.0, p.1)) (split_once sep s)

-- The part before the last `sep`, and the part after it: a split at `rfind` or `rposition`.
unfoldable pub rsplit_once : ℕ → Str → Option (Str × Str)
rsplit_once sep [] = none
rsplit_once sep (c ∷ s) = elim (rsplit_once sep s) [
  | some (before, after) ↦ some (c ∷ before, after)
  | none ↦ if c == sep then some ([], s) else none
]

pub list_eq_iff : (xs ys : List ℕ) → (list_eq xs ys ≡ true) ↔ (xs ≡ ys)
unfolding list_eq
list_eq_iff [] [] = ground arith
list_eq_iff [] (y ∷ ys) = ground arith
list_eq_iff (x ∷ xs) [] = ground arith
list_eq_iff (x ∷ xs) (y ∷ ys) = ground (arith, list_eq_iff xs ys)

str_bytes-append : (s t : Str) → str_bytes (s ++ t) ≡ str_bytes s ++ str_bytes t
unfolding str_bytes
str_bytes-append [] t = refl
str_bytes-append (c ∷ s) t =
    ap (λ b. char_bytes c ++ b) (str_bytes-append s t)
    ∙ sym (append_assoc (char_bytes c) (str_bytes s) (str_bytes t))

pub str_len-append : (s t : Str) → str_len (s ++ t) ≡ str_len s + str_len t
unfolding str_len
str_len-append s t = ap length (str_bytes-append s t) ∙ length-append (str_bytes s) (str_bytes t)

-- A name that comes from a `str` has its bytes.
pub os_len-from_str : (s : Str) → os_len (from_str s) ≡ str_len s
unfolding os_len str_len
os_len-from_str s = ap length (go s)
  where
    go : (t : Str) → os_bytes (from_str t) ≡ str_bytes t
    go [] = refl
    go (c ∷ t) = ap (λ b. char_bytes c ++ b) (go t)

pub to_str-from_str : (s : Str) → to_str (from_str s) ≡ some s
unfolding to_str
to_str-from_str [] = refl
to_str-from_str (c ∷ s) = rw (to_str-from_str s)
