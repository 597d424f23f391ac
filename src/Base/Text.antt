-- ===== src/Base/Text.antt =====
-- The string methods that the program calls on broker text, over the code points of a string.
-- White space and lower case are those of ASCII, in which the broker writes.
use Prim.Native.Char.{code}
use Prim.Native.Nat.{ℕ, zero, suc, ◌+◌, ◌/◌, ◌%◌}
use Prim.Native.String.{String, ◌++◌}
use mathlib.Core.Bool.{Bool, true, false, ◌&&◌, ◌||◌}
use mathlib.Core.List.{List, [], ◌∷◌, map, reverse}
use mathlib.Core.Option.{Option, none, some}
use text.Mathlib.Text.{◌==◌}
pub use text.Mathlib.TextEquality.{eq_iff}
pub use text.Mathlib.TextPositions.{eq_refl}
use tt_ledger.Base.Tests.{leb, eqb, if◌then◌else◌}

abbrev pub str_eq : String → String → Bool
str_eq a b = a == b

-- `f"{a}{b}"`
abbrev pub concat : String → String → String
concat a b = a ++ b

unfoldable pub codes : String → List ℕ
codes String.[] = []
codes (String.◌∷◌ c s) = code c ∷ codes s

unfoldable pub is_space : ℕ → Bool
is_space c = eqb c b' ' || (leb 9 c && leb c 13)

unfoldable pub lstrip : List ℕ → List ℕ
unfolding is_space
lstrip [] = []
lstrip (c ∷ s) = let rest = lstrip s in if is_space c then rest else c ∷ s

unfoldable pub strip : List ℕ → List ℕ
unfolding lstrip
strip s = reverse (lstrip (reverse (lstrip s)))

unfoldable pub lower : List ℕ → List ℕ
lower = map (λ c. if leb b'A' c && leb c b'Z' then c + 32 else c)

unfoldable pub starts_with : List ℕ → List ℕ → Bool
starts_with s [] = true
starts_with [] (p ∷ ps) = false
starts_with (c ∷ s) (p ∷ ps) = eqb c p && starts_with s ps

unfoldable pub ends_with : List ℕ → List ℕ → Bool
unfolding starts_with
ends_with s p = starts_with (reverse s) (reverse p)

-- `s in {…}` and `s == lit` for an optional string
abbrev pub member : String → List String → Bool
member s [] = false
member s (t ∷ ts) = str_eq s t || member s ts

abbrev pub opt_is : Option String → String → Bool
opt_is none t = false
opt_is (some s) t = str_eq s t

abbrev pub opt_member : Option String → List String → Bool
opt_member none ts = false
opt_member (some s) ts = member s ts

-- `s or ""`
unfoldable pub or_empty : Option String → List ℕ
unfolding codes
or_empty none = []
or_empty (some s) = codes s

abbrev pub digit : ℕ → String
digit d =
    if eqb d 0
    then "0"
    else if eqb d 1
    then "1"
    else if eqb d 2
    then "2"
    else if eqb d 3
    then "3"
    else if eqb d 4
    then "4"
    else if eqb d 5
    then "5"
    else if eqb d 6
    then "6"
    else if eqb d 7
    then "7"
    else if eqb d 8
    then "8"
    else "9"

-- the last digits of a number, with fuel for them
unfoldable pub digits : ℕ → ℕ → String
digits zero n = ""
digits (suc fuel) n =
    let rest = digits fuel (n / 10) in
    if leb 10 n then concat rest (digit (n % 10)) else digit (n % 10)

-- `str(n)`: a number has fewer digits than its successor counts
unfoldable pub decimal : ℕ → String
unfolding digits
decimal n = digits (suc n) n

-- the order of texts by code points
abbrev pub codes_le : List ℕ → List ℕ → Bool
codes_le [] t = true
codes_le (c ∷ s) [] = false
codes_le (c ∷ s) (d ∷ t) = let rest = codes_le s t in if eqb c d then rest else leb c d

unfoldable pub text_le : String → String → Bool
unfolding codes
text_le a b = codes_le (codes a) (codes b)
