-- ===== src/Prelude/Text.antt =====
-- Texts: their code points, decimal numbers, Python's order on `str`, and what the library lacks.
use Prim.Native.Nat.{ℕ, zero, suc, ◌/◌, ◌%◌, ◌+◌}
use Prim.Native.Char.{code}
use Prim.Native.String
use Prim.Native.String.{String}
use mathlib.Core.Path.{◌≡◌, refl}
use mathlib.Core.Bool.{Bool, true, false, ◌&&◌, ◌||◌}
use mathlib.Core.List.{List, [], ◌∷◌, ◌++◌}
use text.Mathlib.TextLemmas.{nil-append, cons-append}
use redgw_lite.Prelude.Tests.{ltb, nat_eq, if◌then◌else◌}
use redgw_lite.Prelude.Int.{ℤ, pos, negsuc}

-- `ord(c) for c in s`
abbrev pub codes : String → List ℕ
codes String.[] = []
codes (String.◌∷◌ c s) = code c ∷ codes s

-- `s + t`
infixr 66 ◌⧺◌
abbrev pub ◌⧺◌ : String → String → String
s ⧺ t = String.◌++◌ s t

pub codes-append : (s t : String) → codes (s ⧺ t) ≡ codes s ++ codes t
codes-append String.[] t = rw nil-append
codes-append (String.◌∷◌ c s) t = rw (cons-append, codes-append s t)

digit : ℕ → String
digit n =
    if nat_eq n 0
    then "0"
    else if nat_eq n 1
    then "1"
    else if nat_eq n 2
    then "2"
    else if nat_eq n 3
    then "3"
    else if nat_eq n 4
    then "4"
    else if nat_eq n 5
    then "5"
    else if nat_eq n 6
    then "6"
    else if nat_eq n 7
    then "7"
    else if nat_eq n 8
    then "8"
    else "9"

-- Fuel above the number is enough, since each round divides it by ten.
show_from : ℕ → ℕ → String
show_from zero n = ""
show_from (suc fuel) n =
    let rest = show_from fuel (n / 10) in if ltb n 10 then digit n else rest ⧺ digit (n % 10)

-- `str(n)`
unfoldable pub show_nat : ℕ → String
unfolding digit show_from
show_nat n = show_from (suc n) n

unfoldable pub show_int : ℤ → String
unfolding show_nat
show_int (pos n) = show_nat n
show_int (negsuc n) = "-" ⧺ show_nat (n + 1)

-- `s <= t` for `str`: by code points, a prefix first.
abbrev codes_le : List ℕ → List ℕ → Bool
codes_le [] bs = true
codes_le (a ∷ cs) [] = false
codes_le (a ∷ cs) (b ∷ bs) = if ltb a b then true else if nat_eq a b then codes_le cs bs else false

abbrev pub text_le : String → String → Bool
text_le s t = codes_le (codes s) (codes t)

show_thousand : show_int (negsuc 1023) ≡ "-1024"
unfolding show_int
show_thousand = refl

-- `s.startswith(p)` and `p in s`, on code points.
abbrev pub starts_with : List ℕ → List ℕ → Bool
starts_with [] s = true
starts_with (c ∷ p) [] = false
starts_with (c ∷ p) (d ∷ s) = nat_eq c d && starts_with p s

abbrev codes_within : List ℕ → List ℕ → Bool
codes_within p [] = starts_with p []
codes_within p (c ∷ s) = starts_with p (c ∷ s) || codes_within p s

abbrev pub within : String → String → Bool
within p s = codes_within (codes p) (codes s)

insert_text : String → List String → List String
insert_text s [] = s ∷ []
insert_text s (t ∷ ts) = if text_le s t then s ∷ t ∷ ts else t ∷ insert_text s ts

-- `sorted(xs)` for texts
unfoldable pub sorted_texts : List String → List String
unfolding insert_text
sorted_texts [] = []
sorted_texts (s ∷ ts) = insert_text s (sorted_texts ts)

-- The first characters of a text: `s[:n]`
abbrev pub first_chars : ℕ → String → String
first_chars zero s = ""
first_chars (suc n) String.[] = ""
first_chars (suc n) (String.◌∷◌ c s) = String.◌∷◌ c (first_chars n s)
