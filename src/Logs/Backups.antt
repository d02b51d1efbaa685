-- ===== src/Logs/Backups.antt =====
-- app/utils/file_logger.py: the files of one day, `_shift_backups` and `_compress_file`.
pub mod Order
pub mod Active
use redgw_lite.Prelude.{
  ℕ, zero, suc, String, Bool, true, false, Option, none, some, List, [], ◌∷◌, ◌+◌, nat_eq,
  if◌then◌else◌,
}

-- The records of a file, the last one first; a compressed file stands for what it unpacks to.
abbrev pub Content : Type 0
Content = List String

-- `base`, `base.i` and `base.i.gz`; the compressed `base.gz` is the slot 0.
pub record Files : Type 0 where
  pub active : Option Content
  pub plain : ℕ → Option Content
  pub gz : ℕ → Option Content

abbrev pub no_files : Files
no_files = record { active = none; plain = λ i. none; gz = λ i. none }

abbrev pub put {ℓ} : {A : Type ℓ} → A → Option A → A
put default none = default
put default (some a) = a

abbrev pub set_slot : ℕ → Option Content → (ℕ → Option Content) → ℕ → Option Content
set_slot i v slots j = if nat_eq j i then v else slots j

abbrev moved_plain : ℕ → Option Content → Files → Files
moved_plain i none f = f
moved_plain i (some c) f = record f { plain = set_slot i none (set_slot (i + 1) (some c) f.plain) }

abbrev moved : ℕ → Option Content → Files → Files
moved i none f = moved_plain i (f.plain i) f
moved i (some c) f = record f { gz = set_slot i none (set_slot (i + 1) (some c) f.gz) }

-- A round of the loop below the last number: `base.i.gz`, or else `base.i`, moves up by one.
unfoldable pub move_up : ℕ → Files → Files
move_up i f = moved i (f.gz i) f

unfoldable pub drop_slot : ℕ → Files → Files
drop_slot i f = record f { plain = set_slot i none f.plain; gz = set_slot i none f.gz }

-- The rounds for the numbers from `i` down to 1.
unfoldable pub move_all : ℕ → Files → Files
move_all zero f = f
move_all (suc i) f = move_all i (move_up (suc i) f)

-- `for i in range(self.backupCount, 0, -1)`
unfoldable pub shift_loop : ℕ → Files → Files
shift_loop zero f = f
shift_loop (suc n) f = move_all n (drop_slot (suc n) f)

abbrev moved_active : Option Content → Files → Files
moved_active none f = f
moved_active (some c) f = record f { active = none; plain = set_slot 1 (some c) f.plain }

-- `_shift_backups`, without the compression that it hands to the background.
unfoldable pub shift_backups : ℕ → Files → Files
shift_backups backup_count f =
    let shifted = shift_loop backup_count f in moved_active shifted.active shifted

abbrev compressed : Bool → ℕ → Option Content → Files → Files
compressed success i none f = record f { gz = set_slot i none f.gz }
compressed false i (some c) f = record f { gz = set_slot i none f.gz }
compressed true i (some c) f = record f {
  plain = set_slot i none f.plain;
  gz = set_slot i (some c) f.gz;
}

abbrev compressed_active : Bool → Option Content → Files → Files
compressed_active success none f = record f { gz = set_slot 0 none f.gz }
compressed_active false (some c) f = record f { gz = set_slot 0 none f.gz }
compressed_active true (some c) f = record f { active = none; gz = set_slot 0 (some c) f.gz }

-- `_compress_file`: where it fails, which it does on a file that is not there, the compressed file goes;
-- where it succeeds, the file itself goes. Slot 0 is the file of a day that is over.
unfoldable pub compress_file : Bool → ℕ → Files → Files
compress_file success zero f = compressed_active success f.active f
compress_file success (suc i) f = compressed success (suc i) (f.plain (suc i)) f
