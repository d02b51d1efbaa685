-- ===== src/Routers/Event/Ids.antt =====
-- The stream identifiers that app/routers/event.py accepts: `_STREAM_ID_RE`, `^(0|\d+-\d+)$`.
pub mod Accepted
use redgw_lite.Prelude.{ℕ, String, Bool, true, false, ◌&&◌, ◌||◌, List, [], ◌∷◌, nat_eq, codes}

-- `$` stands at the end of the text, and also just before a line feed that ends it.
abbrev pub at_end : List ℕ → Bool
at_end [] = true
at_end (c ∷ []) = nat_eq c 10
at_end (c ∷ d ∷ s) = false

-- `\d` matches what the interpreter's Unicode database has as a decimal digit.
module _ (isdecimal : ℕ → Bool) where
  -- `\d*$`
  abbrev pub digits_end : List ℕ → Bool
  digits_end [] = true
  digits_end (c ∷ s) = (isdecimal c && digits_end s) || at_end (c ∷ s)

  -- `\d+$`
  abbrev pub some_digits_end : List ℕ → Bool
  some_digits_end [] = false
  some_digits_end (c ∷ s) = isdecimal c && digits_end s

  -- `\d*-\d+$`
  abbrev pub digits_dash : List ℕ → Bool
  digits_dash [] = false
  digits_dash (c ∷ s) = (isdecimal c && digits_dash s) || (nat_eq c b'-' && some_digits_end s)

  -- `\d+-\d+$`
  abbrev pub some_digits_dash : List ℕ → Bool
  some_digits_dash [] = false
  some_digits_dash (c ∷ s) = isdecimal c && digits_dash s

  -- `0$`
  abbrev pub zero_end : List ℕ → Bool
  zero_end [] = false
  zero_end (c ∷ s) = nat_eq c b'0' && at_end s

  -- `_STREAM_ID_RE.match(s)`
  unfoldable pub stream_id_re : String → Bool
  stream_id_re s = zero_end (codes s) || some_digits_dash (codes s)
