-- ===== src/Routers/Batch.antt =====
-- What the batch handlers share: keys of several user keys, and replies paired with them.
pub mod Keeps
use redgw_lite.Prelude.{
  ℕ, String, Bool, true, false, not, List, [], ◌∷◌, ◌++◌, length, ℤ, pos, if◌then◌else◌,
}
use redgw_lite.Python.Value.{Value, Items, list, int, dict, fields_of, values_of}
use redgw_lite.Python.Exec.{
  Exec, Result, returned, raised, other_error, pure, lift, ◌>>=◌, comprehension,
}
use redgw_lite.KeyBuilder.{build_key}
use redgw_lite.Redis.{Command}
use redgw_lite.Auth.ApiKey.{store}

-- `[build_key(ns, prefix, k) for k in keys]`
unfoldable pub build_keys : {W : Type 0} → String → String → List String → Exec W (List String)
build_keys ns prefix = comprehension (λ k. lift (build_key ns prefix k))

-- Iterating over a reply. Of the replies that are iterated over, only lists occur.
abbrev pub iterate : Value → Result (List Value)
iterate (list items) = returned (values_of items)
iterate _ = raised (other_error "TypeError")

-- `{k: f(v) for k, v in zip(keys, values) if keep(v)}`, with the entries of `d` before it.
unfoldable pub paired :
    (Value → Bool)
    → (Value → Value)
    → List String
    → List Value
    → List (String × Value)
    → List (String × Value)
paired keep f (k ∷ ks) (v ∷ vs) d = paired keep f ks vs (if keep v then store k (f v) d else d)
paired keep f _ _ d = d

-- `{"values": values, "count": len(values)}`
abbrev pub counted : String → List (String × Value) → List (String × Value)
counted name d = (name, dict (fields_of d)) ∷ ("count", int (pos (length d))) ∷ []

-- The commands that a loop queues, several in each round.
abbrev pub flattened : List (List Command) → List Command
flattened [] = []
flattened (cs ∷ rest) = cs ++ flattened rest
