-- ===== src/KeyBuilder/Scan.antt =====
-- The patterns of an administrator's SCAN: `resolve_type_prefix` and `build_scan_pattern` of
-- app/utils/key_builder.py.
use redgw_lite.Prelude.{
  ℕ, String, ◌≡◌, ◌≢◌, ◌↔◌, ◌⊎◌, inl, inr, refl, true, Option, none, some, List, [], ◌∷◌, ◌++◌,
  ◌==◌, arith, eq_iff, codes, all, Bool-cases, Option-cases,
}
use redgw_lite.Python.Exec.{Result, returned, raised}
use redgw_lite.KeyBuilder.{
  contains, storage_prefixes, joined, is_scan_char, scan_pattern_re, type_prefix_map, find_prefix,
  or_star, scan_prefix, resolve_type_prefix, build_scan_pattern, ◌>>=◌,
}
use redgw_lite.KeyBuilder.Patterns.{scan_rest}

find_prefix-contains :
    (table : List (String × String)) (name prefix : String)
    → all (λ e. contains e.1 storage_prefixes) table ≡ true
    → find_prefix name table ≡ some prefix
    → contains prefix storage_prefixes ≡ true
unfolding find_prefix
find_prefix-contains [] name prefix h e = cc
find_prefix-contains ((n, p) ∷ table) name prefix h e = elim (Bool-cases (n == name)) [
  | inl same ↦ let q : p ≡ prefix = ground arith in rw (← q) (ground arith)
  | inr other ↦ find_prefix-contains table name prefix (ground arith) (rw other at e)
]

-- A type name that is resolved at all is resolved to one of the six storage prefixes.
pub resolve_type_prefix_storage :
    (name prefix : String)
    → resolve_type_prefix name ≡ returned prefix
    → contains prefix storage_prefixes ≡ true
resolve_type_prefix_storage name prefix h = elim (Option-cases (find_prefix name type_prefix_map)) [
  | inl unknown ↦ unfold resolve_type_prefix in cc (rw (unknown, resolve_type_prefix) at h)
  | inr (p, found) ↦
      let q : p ≡ prefix =
        unfold resolve_type_prefix in cc (rw (found, resolve_type_prefix) at h) in
      rw (← q) (unfold type_prefix_map in find_prefix-contains type_prefix_map name p refl found)
]

bind_returned :
    {A B : Type 0} (r : Result A) (f : A → Result B) (b : B)
    → (r >>= f) ≡ returned b
    → (a : A) × (r ≡ returned a) × (f a ≡ returned b)
bind_returned (returned a) f b h = (a, refl, h)
bind_returned (raised e) f b h = cc

scan_prefix-named : (name : String) → name ≢ "" → scan_prefix (some name) ≡ resolve_type_prefix name
unfolding scan_prefix
scan_prefix-named name named = ground (arith, eq_iff name "")

scan_parts :
    (ns type_name : Option String) (pattern result : String)
    → build_scan_pattern ns type_name pattern ≡ returned result
    → (prefix : String) × (scan_prefix type_name ≡ returned prefix)
      × (result ≡ joined (or_star ns) prefix pattern)
unfolding build_scan_pattern
scan_parts ns type_name pattern result h = elim (Bool-cases (scan_pattern_re pattern)) [
  | inl fine ↦
      let (prefix, resolved, same) =
        bind_returned (scan_prefix type_name) _ result (rw fine at h) in
      (prefix, resolved, cc)
  | inr other ↦ cc (rw other at h)
]

pub scan_confined :
    (ns : Option String) (name pattern result : String)
    → name ≢ ""
    → build_scan_pattern ns (some name) pattern ≡ returned result
    → (prefix : String) × (resolve_type_prefix name ≡ returned prefix)
      × (contains prefix storage_prefixes ≡ true)
      × (result ≡ joined (or_star ns) prefix pattern)
scan_confined ns name pattern result named h =
    let (prefix, resolved, same) = scan_parts ns (some name) pattern result h in
    let found : resolve_type_prefix name ≡ returned prefix = cc (scan_prefix-named name named) in
    (prefix, found, resolve_type_prefix_storage name prefix found, same)

-- What the class of the pattern accepts.
abbrev pub IsScanText : List ℕ → Type 0
IsScanText cs = all is_scan_char cs ≡ true

scan_rest_complete : (cs : List ℕ) → IsScanText cs → scan_rest cs ≡ true
scan_rest_complete [] h = refl
scan_rest_complete (c ∷ []) h = ground arith
scan_rest_complete (c ∷ d ∷ s) h = ground (arith, scan_rest_complete (d ∷ s))

scan_rest_line_feed : (cs : List ℕ) → IsScanText cs → scan_rest (cs ++ 10 ∷ []) ≡ true
scan_rest_line_feed [] h = ground arith
scan_rest_line_feed (c ∷ []) h = ground arith
scan_rest_line_feed (c ∷ d ∷ s) h = ground (arith, scan_rest_line_feed (d ∷ s))

scan_rest_sound :
    (cs : List ℕ)
    → scan_rest cs ≡ true
    → (s : List ℕ) × IsScanText s × ((cs ≡ s) ⊎ (cs ≡ s ++ 10 ∷ []))
scan_rest_sound [] h = ([], refl, inl refl)
scan_rest_sound (c ∷ []) h = elim (Bool-cases (is_scan_char c)) [
  | inl fine ↦ (c ∷ [], ground arith, inl refl)
  | inr other ↦ ([], refl, inr (ground arith))
]
scan_rest_sound (c ∷ d ∷ s) h =
    let (r, fine, same) = scan_rest_sound (d ∷ s) (ground arith) in
    (c ∷ r, ground arith, ground arith)

scan_pattern_re_of_rest :
    (pattern : String) → scan_rest (codes pattern) ≡ true → scan_pattern_re pattern ≡ true
unfolding scan_pattern_re
scan_pattern_re_of_rest pattern h = h

-- `build_scan_pattern` without a type accepts a pattern exactly when it is a text over the class of
-- key characters, `*` and `?`, or such a text with one line feed behind it.
pub build_scan_pattern-accepts_iff :
    (ns : Option String) (pattern : String)
    → (build_scan_pattern ns none pattern ≡ returned (joined (or_star ns) "*" pattern))
      ↔ ((s : List ℕ) × IsScanText s × ((codes pattern ≡ s) ⊎ (codes pattern ≡ s ++ 10 ∷ [])))
unfolding build_scan_pattern
build_scan_pattern-accepts_iff ns pattern = (accepted, accepts)
  where
    accepted :
        build_scan_pattern ns none pattern ≡ returned (joined (or_star ns) "*" pattern)
        → (s : List ℕ) × IsScanText s × ((codes pattern ≡ s) ⊎ (codes pattern ≡ s ++ 10 ∷ []))
    accepted h = elim (Bool-cases (scan_pattern_re pattern)) [
      | inl fine ↦ scan_rest_sound (codes pattern) (unfold scan_pattern_re in fine)
      | inr other ↦ cc (rw other at h)
    ]

    accepts :
        (s : List ℕ) × IsScanText s × ((codes pattern ≡ s) ⊎ (codes pattern ≡ s ++ 10 ∷ []))
        → build_scan_pattern ns none pattern ≡ returned (joined (or_star ns) "*" pattern)
    accepts (s, fine, inl e) =
        rw (scan_pattern_re_of_rest pattern (rw e (scan_rest_complete s fine)))
    accepts (s, fine, inr e) =
        rw (scan_pattern_re_of_rest pattern (rw e (scan_rest_line_feed s fine)))
