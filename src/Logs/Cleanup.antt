-- ===== src/Logs/Cleanup.antt =====
-- app/utils/file_logger.py: `_archive_re` and `_cleanup_by_total_size`.
pub mod Oldest
use redgw_lite.Prelude.{
  ℕ, zero, suc, String, Bool, true, false, not, ◌&&◌, ◌||◌, List, [], ◌∷◌, ◌++◌, ◌+◌, ◌-◌, ◌==◌,
  nat_eq, leb, codes, starts_with, if◌then◌else◌, ◌≡◌, refl,
}

-- `$`, also before a line feed that ends the text.
abbrev name_end : List ℕ → Bool
name_end [] = true
name_end (c ∷ []) = nat_eq c 10
name_end (c ∷ d ∷ s) = false

-- `(?:\.gz)?$`
abbrev gz_end : List ℕ → Bool
gz_end (c ∷ d ∷ e ∷ s) =
    name_end (c ∷ d ∷ e ∷ s) || (nat_eq c b'.' && nat_eq d b'g' && nat_eq e b'z' && name_end s)
gz_end s = name_end s

module _ (isdecimal : ℕ → Bool) where
  -- `\d*(?:\.gz)?$`
  abbrev digits_gz : List ℕ → Bool
  digits_gz [] = gz_end []
  digits_gz (c ∷ s) = (isdecimal c && digits_gz s) || gz_end (c ∷ s)

  -- `(?:\.\d+)?(?:\.gz)?$`
  abbrev numbered_end : List ℕ → Bool
  numbered_end (c ∷ d ∷ s) = (nat_eq c b'.' && isdecimal d && digits_gz s) || gz_end (c ∷ d ∷ s)
  numbered_end s = gz_end s

  abbrev log_end : List ℕ → Bool
  log_end (a ∷ b ∷ c ∷ d ∷ s) =
      nat_eq a b'.' && nat_eq b b'l' && nat_eq c b'o' && nat_eq d b'g' && numbered_end s
  log_end s = false

  -- `\d{8}\.log…`, for the digits that are left.
  abbrev date_end : ℕ → List ℕ → Bool
  date_end zero s = log_end s
  date_end (suc n) [] = false
  date_end (suc n) (c ∷ s) = isdecimal c && date_end n s

  abbrev dotted_end : List ℕ → Bool
  dotted_end [] = false
  dotted_end (c ∷ s) = nat_eq c b'.' && date_end 8 s

  -- What `prefix` leaves of a name, and the rest of the pattern on it.
  abbrev prefixed : List ℕ → List ℕ → Bool
  prefixed [] s = dotted_end s
  prefixed (c ∷ p) [] = false
  prefixed (c ∷ p) (d ∷ s) = nat_eq c d && prefixed p s

  -- `_archive_re.match(name)`
  unfoldable pub archive_re : String → String → Bool
  archive_re prefix name = prefixed (codes prefix) (codes name)

-- A file of the directory: its name, its size and the time of its last change.
pub record Entry : Type 0 where
  pub name : String
  pub size : ℕ
  pub mtime : ℕ

abbrev pub total_size : List Entry → ℕ
total_size [] = 0
total_size (e ∷ es) = e.size + total_size es

abbrev insert_entry : Entry → List Entry → List Entry
insert_entry e [] = e ∷ []
insert_entry e (d ∷ es) = if leb e.mtime d.mtime then e ∷ d ∷ es else d ∷ insert_entry e es

-- `entries.sort(key=…mtime)`, which keeps the order of equal times.
unfoldable pub sort_entries : List Entry → List Entry
sort_entries [] = []
sort_entries (e ∷ es) = insert_entry e (sort_entries es)

-- `max_total_bytes`, the file that is written to, and the names that can be deleted.
module _ (max : ℕ) (active : String) (deletable : String → Bool) where
  -- The loop over the entries, oldest first: what is left, and how many are deleted. Where the total is
  -- at most the limit it stops; the active file and what cannot be deleted are passed over. `total` is
  -- never less than the size of an entry that is still there.
  unfoldable pub sweep : ℕ → List Entry → List Entry × ℕ
  sweep total [] = ([], 0)
  sweep total (e ∷ es) =
      let passed = sweep total es in
      let deleted = sweep (total - e.size) es in
      if leb total max
      then (e ∷ es, 0)
      else if e.name == active || not (deletable e.name)
      then (e ∷ passed.0, passed.1)
      else (deleted.0, deleted.1 + 1)

  -- `_cleanup_by_total_size`, for the entries that match the pattern; with a limit of 0 it does nothing.
  -- The count goes to `increment_dropped_disk_full` where the prefix begins with "audit".
  unfoldable pub cleanup_by_total_size : List Entry → List Entry × ℕ
  cleanup_by_total_size entries =
      if leb max 0
      then (entries, 0)
      else if leb (total_size entries) max
      then (entries, 0)
      else sweep (total_size entries) (sort_entries entries)

backup_matches : archive_re (λ c. leb b'0' c && leb c b'9') "redgw" "redgw.20260306.log.2.gz" ≡ true
unfolding archive_re
backup_matches = refl

other_ignored : archive_re (λ c. leb b'0' c && leb c b'9') "redgw" "redgw.2026030.log" ≡ false
unfolding archive_re
other_ignored = refl
