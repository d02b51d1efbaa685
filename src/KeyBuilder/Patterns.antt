-- ===== src/KeyBuilder/Patterns.antt =====
-- The regular expressions of app/utils/key_builder.py, on the code points of a text.
use redgw_lite.Prelude.{
  ℕ, String, Bool, true, ◌&&◌, ◌||◌, List, [], ◌∷◌, leb, nat_eq, codes, length, all,
}

-- [A-Za-z0-9]
is_alnum : ℕ → Bool
is_alnum c = (leb b'A' c && leb c b'Z') || (leb b'a' c && leb c b'z') || (leb b'0' c && leb c b'9')

-- [A-Za-z0-9_-]
unfoldable pub is_ns_char : ℕ → Bool
unfolding is_alnum
is_ns_char c = is_alnum c || nat_eq c b'_' || nat_eq c b'-'

-- [A-Za-z0-9_.:\-/]
unfoldable pub is_key_char : ℕ → Bool
unfolding is_ns_char
is_key_char c = is_ns_char c || nat_eq c b'.' || nat_eq c b':' || nat_eq c b'/'

-- [A-Za-z0-9_.:/*?\-]
unfoldable pub is_scan_char : ℕ → Bool
unfolding is_key_char
is_scan_char c = is_key_char c || nat_eq c b'*' || nat_eq c b'?'

-- `_NS_RE.fullmatch(ns)`: the class, 1 to 64 times.
unfoldable pub ns_re : String → Bool
unfolding is_ns_char
ns_re ns = all is_ns_char (codes ns) && leb 1 (length (codes ns)) && leb (length (codes ns)) 64

-- `_KEY_RE.fullmatch(key)`
unfoldable pub key_re : String → Bool
unfolding is_key_char
key_re key =
    all is_key_char (codes key) && leb 1 (length (codes key)) && leb (length (codes key)) 256

-- What `^[…]*$` leaves to match behind the characters of the class: `$` stands at the end of the
-- text, and also just before a line feed that ends it.
abbrev pub scan_rest : List ℕ → Bool
scan_rest [] = true
scan_rest (c ∷ []) = is_scan_char c || nat_eq c 10
scan_rest (c ∷ d ∷ s) = is_scan_char c && scan_rest (d ∷ s)

-- `_SCAN_PATTERN_RE.match(pattern)`
unfoldable pub scan_pattern_re : String → Bool
unfolding is_scan_char
scan_pattern_re pattern = scan_rest (codes pattern)
