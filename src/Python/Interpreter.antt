-- ===== src/Python/Interpreter.antt =====
-- What depends on the Unicode database of the interpreter: a parameter.
use redgw_lite.Prelude.{ℕ, String, Bool, List}

pub record Interpreter : Type 0 where
  -- `\w` of a pattern on `str`
  pub isword : ℕ → Bool
  -- `s.upper()`
  pub upper : String → String
  -- `f"{xs}"` of a list of texts, their quotes and escapes included
  pub shown : List String → String
