-- ===== src/Logs/Backups/Active.antt =====
-- `_shift_backups` of app/utils/file_logger.py leaves no file of the day.
use redgw_lite.Prelude.{ℕ, zero, suc, ◌≡◌, refl, ◌∙◌, Option, none, some}
use redgw_lite.Logs.Backups.{
  Files, Content, moved, moved_plain, move_up, move_all, moved_active, shift_loop, shift_backups,
}

moved-active : (i : ℕ) (f : Files) (g p : Option Content) → (moved i g f).active ≡ f.active
moved-active i f (some c) p = refl
moved-active i f none p = plain_case (f.plain i)
  where
    plain_case : (q : Option Content) → (moved_plain i q f).active ≡ f.active
    plain_case none = refl
    plain_case (some c) = refl

move_all-active : (n : ℕ) (f : Files) → (move_all n f).active ≡ f.active
unfolding move_all move_up
move_all-active zero f = refl
move_all-active (suc n) f =
    move_all-active n (move_up (suc n) f) ∙ moved-active (suc n) f (f.gz (suc n)) none

moved_active-none :
    (a : Option Content) (f : Files) → f.active ≡ a → (moved_active a f).active ≡ none
moved_active-none none f h = h
moved_active-none (some c) f h = refl

-- The shift leaves no file of the day, however many backups are kept.
pub shift_backups-active : (n : ℕ) (f : Files) → (shift_backups n f).active ≡ none
unfolding shift_backups
shift_backups-active n f = moved_active-none (shift_loop n f).active (shift_loop n f) refl
