-- ===== src/KeyBuilder/Roundtrip.antt =====
-- Building a key and taking it apart again: app/utils/key_builder.py.
use text.Mathlib.TextLemmas.{nil-append, cons-append}
use redgw_lite.Prelude.{
  ℕ, String, ◌≡◌, ◌≢◌, refl, sym, ap, ◌∙◌, true, some, List, [], ◌∷◌, ◌⧺◌, arith, eq_iff, code,
  codes, all, All, Bool-cases, ◌==◌, inl, inr,
}
use redgw_lite.Python.Exec.{Result, returned}
use redgw_lite.KeyBuilder.{
  build_key, parse_key, validate_ns, validate_key, build_keys_batch, validated_keys, contains,
  storage_prefixes, joined, is_ns_char, ns_re, key_re, break_colon, split_colon, ◌>>=◌,
}

abbrev pub NoColon : String → Type 0
NoColon String.[] = Unit
NoColon (String.◌∷◌ c s) = (code c ≢ b':') × NoColon s

break_colon-append : (s t : String) → NoColon s → break_colon (s ⧺ ":" ⧺ t) ≡ some (s, t)
unfolding break_colon
break_colon-append String.[] t h = rw (nil-append, cons-append, nil-append)
break_colon-append (String.◌∷◌ c s) t (h, hs) =
    rw cons-append (ground (arith, break_colon-append s t hs))

ns_char_ne_colon : (c : ℕ) → is_ns_char c ≡ true → c ≢ b':'
unfolding is_ns_char
ns_char_ne_colon c h = ground arith

NoColon-of_ns_chars : (s : String) → all is_ns_char (codes s) ≡ true → NoColon s
NoColon-of_ns_chars String.[] h = tt
NoColon-of_ns_chars (String.◌∷◌ c s) h =
    (ns_char_ne_colon (code c) (ground arith), NoColon-of_ns_chars s (ground arith))

NoColon-of_ns : (ns : String) → ns_re ns ≡ true → NoColon ns
unfolding ns_re
NoColon-of_ns ns h = NoColon-of_ns_chars ns (ground arith)

-- A text with a colon behind a namespace determines the namespace.
pub same_namespace :
    (ns other s t : String)
    → ns_re ns ≡ true
    → ns_re other ≡ true
    → ns ⧺ ":" ⧺ s ≡ other ⧺ ":" ⧺ t
    → ns ≡ other
same_namespace ns other s t valid valid' same =
    let e = break_colon-append ns s (NoColon-of_ns ns valid) in
    let e' = break_colon-append other t (NoColon-of_ns other valid') in
    let both : some (ns, s) ≡ some (other, t) = sym e ∙ ap break_colon same ∙ e' in cc both

contains_elim :
    (P : String → Type 0) (xs : List String) (s : String) → All P xs → contains s xs ≡ true → P s
contains_elim P [] s h e = cc
contains_elim P (x ∷ xs) s (h, hs) e = elim (Bool-cases (s == x)) [
  | inl same ↦ rw ((eq_iff s x).0 same) h
  | inr other ↦ contains_elim P xs s hs (rw other at e)
]

NoColon-of_storage : (prefix : String) → contains prefix storage_prefixes ≡ true → NoColon prefix
NoColon-of_storage prefix h = contains_elim NoColon storage_prefixes prefix (omega arith) h

-- What a built key tells of its parts.
pub build_key-inversion :
    (ns prefix key rk : String)
    → build_key ns prefix key ≡ returned rk
    → (ns_re ns ≡ true) × (key_re key ≡ true) × (rk ≡ joined ns prefix key)
unfolding build_key validate_ns validate_key
build_key-inversion ns prefix key rk h = (ground arith, ground arith, ground arith)

split_joined :
    (ns prefix key : String)
    → NoColon ns
    → NoColon prefix
    → split_colon 2 (joined ns prefix key) ≡ ns ∷ prefix ∷ key ∷ []
unfolding split_colon joined
split_joined ns prefix key h k =
    rw (break_colon-append ns (prefix ⧺ ":" ⧺ key) h, break_colon-append prefix key k, split_colon)

-- Whatever namespace, storage prefix and key `build_key` accepts, `parse_key` takes the key that it
-- built apart into the same namespace, prefix and user key, also where the user key holds colons.
pub parse_key-build_key :
    (ns prefix key rk : String)
    → contains prefix storage_prefixes ≡ true
    → build_key ns prefix key ≡ returned rk
    → parse_key rk ≡ returned (ns, prefix, key)
unfolding parse_key
parse_key-build_key ns prefix key rk stored built =
    let (valid, _, same) = build_key-inversion ns prefix key rk built in
    rw same
      (rw (split_joined ns prefix key (NoColon-of_ns ns valid) (NoColon-of_storage prefix stored)))

-- Two accepted requests that reach the same Redis key name the same namespace, storage prefix and
-- user key: no tenant and no data type can reach into another's keys.
pub build_key-injective :
    (ns prefix key ns' prefix' key' rk : String)
    → contains prefix storage_prefixes ≡ true
    → contains prefix' storage_prefixes ≡ true
    → build_key ns prefix key ≡ returned rk
    → build_key ns' prefix' key' ≡ returned rk
    → (ns ≡ ns') × (prefix ≡ prefix') × (key ≡ key')
build_key-injective ns prefix key ns' prefix' key' rk s s' b b' =
    let p = parse_key-build_key ns prefix key rk s b in
    let q = parse_key-build_key ns' prefix' key' rk s' b' in (cc, cc, cc)

-- The keys of a batch, built one by one.
pub each_key : String → String → List String → Result (List String)
each_key ns prefix [] = returned []
each_key ns prefix (k ∷ keys) = do
  rk ← build_key ns prefix k
  rest ← each_key ns prefix keys
  returned (rk ∷ rest)

validated_keys-each_key :
    (ns prefix : String) (keys : List String)
    → ns_re ns ≡ true
    → validated_keys ns prefix keys ≡ each_key ns prefix keys
unfolding validated_keys each_key build_key validate_ns validate_key
validated_keys-each_key ns prefix [] h = refl
validated_keys-each_key ns prefix (k ∷ keys) h =
    ground (arith, validated_keys-each_key ns prefix keys h)

-- Building a non-empty batch of keys checks the namespace once, and has the same result, the first
-- error included, as building each key alone.
pub build_keys_batch-each_key :
    (ns prefix k : String) (keys : List String)
    → build_keys_batch ns prefix (k ∷ keys) ≡ each_key ns prefix (k ∷ keys)
build_keys_batch-each_key ns prefix k keys = elim (Bool-cases (ns_re ns)) [
  | inl valid ↦
      unfold build_keys_batch validate_ns in
      rw valid (validated_keys-each_key ns prefix (k ∷ keys) valid)
  | inr wrong ↦ unfold build_keys_batch each_key build_key validate_ns in rw wrong
]

pub build_key_of_valid :
    (ns prefix key : String)
    → ns_re ns ≡ true
    → key_re key ≡ true
    → build_key ns prefix key ≡ returned (joined ns prefix key)
unfolding build_key validate_ns validate_key
build_key_of_valid ns prefix key valid_ns valid_key = rw (valid_ns, valid_key)
