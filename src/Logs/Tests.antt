-- ===== src/Logs/Tests.antt =====
-- Concrete files of the log.
use redgw_lite.Prelude.{
  ℕ, zero, suc, ◌≡◌, ◌⊎◌, inl, inr, refl, true, Option, none, some, List, [], ◌∷◌, ◌+◌, ◌≤◌, ◌<◌,
  arith,
}
use redgw_lite.Logs.Backups.{Files, no_files, Content, shift_backups}
use redgw_lite.Logs.Backups.Order.{backup, IsSingle, backup_after, shift_backups-order}
use redgw_lite.Logs.{LogConfig, Handler, Surroundings}
use redgw_lite.Logs.Bounded.{open_bytes, emit_all, emit_all-bounded}
use redgw_lite.Logs.Cleanup.{Entry, total_size, sort_entries, cleanup_by_total_size}
use redgw_lite.Logs.Cleanup.Oldest.{IsSwept, cleanup_by_total_size-IsSwept}

-- The first backup is compressed, and the second is not.
abbrev kept_gz : ℕ → Option Content
kept_gz zero = none
kept_gz (suc zero) = some ("b" ∷ [])
kept_gz (suc (suc n)) = none

abbrev kept_plain : ℕ → Option Content
kept_plain zero = none
kept_plain (suc zero) = none
kept_plain (suc (suc zero)) = some ("c" ∷ [])
kept_plain (suc (suc (suc n))) = none

abbrev files : Files
files = record { active = some ("a" ∷ []); plain = kept_plain; gz = kept_gz }

files-IsSingle : IsSingle files
files-IsSingle zero = inl refl
files-IsSingle (suc zero) = inr refl
files-IsSingle (suc (suc n)) = inl refl

shift_backups-order_example :
    ((j : ℕ) → backup (shift_backups 3 files) j ≡ backup_after 2 files j)
    × IsSingle (shift_backups 3 files)
    × ((shift_backups 3 files).active ≡ none)
shift_backups-order_example = shift_backups-order 2 files files-IsSingle

abbrev config : LogConfig
config = record { max_bytes = 10; backup_count = 5; compress = true }

abbrev around : Surroundings
around = record {
  compresses = λ day slot. true;
  cutoff = "20260101";
  total_cleanup = λ day days. days;
}

abbrev handler : Handler
handler = record {
  current_date = "20260306";
  current_bytes = 0;
  days = λ d. no_files;
  pending = [];
}

emit_all-bounded_example :
    open_bytes
      (emit_all config around (λ day days. refl) "20260306" ("abcde" ∷ "fghij" ∷ []) handler)
    < config.max_bytes + 6
emit_all-bounded_example =
    emit_all-bounded config around (λ day days. refl) 6 "20260306" ("abcde" ∷ "fghij" ∷ []) handler
      (omega arith) (omega arith) (record { below = omega arith; accounted = omega arith }) refl

abbrev entries : List Entry
entries =
    record { name = "audit.20260306.log"; size = 4; mtime = 3 }
    ∷ record { name = "audit.20260305.log.gz"; size = 5; mtime = 2 }
    ∷ record { name = "audit.20260304.log.gz"; size = 6; mtime = 1 }
    ∷ []

cleanup_by_total_size-IsSwept_example :
    ((10 < total_size entries)
      × IsSwept 10 "audit.20260306.log"
          (λ n. true)
          0
          (sort_entries entries)
          (cleanup_by_total_size 10 "audit.20260306.log" (λ n. true) entries).0
          (cleanup_by_total_size 10 "audit.20260306.log" (λ n. true) entries).1)
    ⊎ ((total_size entries ≤ 10)
        × (cleanup_by_total_size 10 "audit.20260306.log" (λ n. true) entries ≡ (entries, 0)))
cleanup_by_total_size-IsSwept_example =
    cleanup_by_total_size-IsSwept 10 "audit.20260306.log" (λ n. true) entries (omega arith)
