-- ===== src/Python/Value.antt =====
-- The Python values that cross the gateway's interfaces: what Redis replies and what a response holds.
use redgw_lite.Prelude.{
  ℕ, ◌+◌, ◌*◌, ◌^◌, leb, is_pos, String, Bool, true, false, not, List, [], ◌∷◌, ◌==◌, if◌then◌else◌,
  ℤ, pos, negsuc, int_eq, show_int, ◌≡◌, refl, arith,
}

-- A double: not a number, an infinity, or mantissa * 2 ^ exponent.
pub data Float : Type 0 where
  nan infinite negative_infinite : Float
  finite : ℤ → ℤ → Float

-- `math.isfinite`
abbrev pub isfinite : Float → Bool
isfinite (finite m e) = true
isfinite _ = false

-- `x > 0`
abbrev pub float_is_pos : Float → Bool
float_is_pos infinite = true
float_is_pos (finite m e) = is_pos m
float_is_pos _ = false

-- `x <= n` for a natural number n.
abbrev pub float_le_nat : Float → ℕ → Bool
float_le_nat nan n = false
float_le_nat infinite n = false
float_le_nat negative_infinite n = true
float_le_nat (finite (negsuc m) e) n = true
float_le_nat (finite (pos m) (pos e)) n = leb (m * 2 ^ e) n
float_le_nat (finite (pos m) (negsuc e)) n = leb m (n * 2 ^ (e + 1))

-- A `tuple` and a `set` are held as `list`; `dict` keys are texts.
mutual
  pub data Value : Type 0 where
    null : Value
    bool : Bool → Value
    int : ℤ → Value
    float : Float → Value
    str : String → Value
    list : Items → Value
    dict : Fields → Value

  pub data Items : Type 0 where
    nil : Items
    cons : Value → Items → Items

  pub data Fields : Type 0 where
    end : Fields
    field : String → Value → Fields → Fields

-- A dict literal.
abbrev pub fields_of : List (String × Value) → Fields
fields_of [] = end
fields_of ((k, v) ∷ r) = field k v (fields_of r)

abbrev pub items_of : List Value → Items
items_of [] = nil
items_of (v ∷ r) = cons v (items_of r)

abbrev pub values_of : Items → List Value
values_of nil = []
values_of (cons v r) = v ∷ values_of r

abbrev pub texts : List String → Items
texts [] = nil
texts (s ∷ r) = cons (str s) (texts r)

-- `v is None`
abbrev pub is_none : Value → Bool
is_none null = true
is_none _ = false

-- `v == n` for an integer n; `True` and `False` are 1 and 0 in Python, and no float is compared.
abbrev pub equals_int : Value → ℤ → Bool
equals_int (int m) n = int_eq m n
equals_int (bool true) n = int_eq (pos 1) n
equals_int (bool false) n = int_eq (pos 0) n
equals_int _ n = false

-- `v == s` for a text s.
abbrev pub equals_text : Value → String → Bool
equals_text (str t) s = t == s
equals_text _ s = false

-- `bool(v)`
abbrev pub truthy : Value → Bool
truthy null = false
truthy (bool b) = b
truthy (int n) = not (int_eq n (pos 0))
truthy (float (finite m e)) = not (int_eq m (pos 0))
truthy (float _) = true
truthy (str s) = not (s == "")
truthy (list nil) = false
truthy (list (cons _ _)) = true
truthy (dict end) = false
truthy (dict (field _ _ _)) = true

-- `str(v)` of the values that the gateway turns into text; others do not occur.
abbrev pub text_of : Value → Value
text_of (int n) = str (show_int n)
text_of (bool true) = str "True"
text_of (bool false) = str "False"
text_of null = str "None"
text_of v = v

-- `ttl if ttl != -2 else -1`
abbrev pub normalised : Value → Value
normalised ttl = if equals_int ttl (negsuc 1) then int (negsuc 0) else ttl

pub normalised-ne : (ttl : Value) → equals_int (normalised ttl) (negsuc 1) ≡ false
normalised-ne null = refl
normalised-ne ttl = ground arith
