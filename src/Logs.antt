-- ===== src/Logs.antt =====
-- app/utils/file_logger.py: the handler that writes one file for each day, and its backups.
pub mod Backups
pub mod Cleanup
pub mod Bounded
pub mod Tests
use redgw_lite.Prelude.{
  ℕ, zero, suc, String, Bool, true, false, not, ◌&&◌, Option, none, some, List, [], ◌∷◌, ◌++◌, ◌+◌,
  ◌==◌, nat_eq, leb, text_le, if◌then◌else◌,
}
use Prim.Native.String.{len}
use redgw_lite.Logs.Backups.{Files, no_files, Content, put, shift_backups, compress_file}

-- The files of the directory by the day in their names.
abbrev pub Days : Type 0
Days = String → Files

abbrev pub put_day : String → Files → Days → Days
put_day day files days d = if d == day then files else days d

-- The handler's settings; a limit of 0 switches the check of the size off.
pub record LogConfig : Type 0 where
  pub max_bytes : ℕ
  pub backup_count : ℕ
  pub compress : Bool

-- `_current_date`, `_current_bytes`, the directory, and the files that wait for their compression.
pub record Handler : Type 0 where
  pub current_date : String
  pub current_bytes : ℕ
  pub days : Days
  pub pending : List (String × ℕ)

-- `len(msg.encode("utf-8")) + 1`
abbrev pub msg_bytes : String → ℕ
msg_bytes msg = len msg + 1

-- What the files depend on besides: which compressions succeed, the day before which files are too
-- old, and what `_cleanup_by_total_size` leaves of the directory.
pub record Surroundings : Type 0 where
  pub compresses : String → ℕ → Bool
  pub cutoff : String
  pub total_cleanup : String → Days → Days

abbrev pub opened : Option Content → Option Content
opened none = some []
opened (some records) = some records

module _ (config : LogConfig) where
  -- `shouldRollover`, with the day of the cached time: whether to roll over, and the counter.
  unfoldable pub should_rollover : String → String → Handler → Bool × ℕ
  should_rollover today msg h =
      if not (today == h.current_date)
      then (true, h.current_bytes)
      else if leb config.max_bytes 0
      then (false, h.current_bytes)
      else if leb config.max_bytes (h.current_bytes + msg_bytes msg)
      then (true, h.current_bytes)
      else (false, h.current_bytes + msg_bytes msg)

  -- A file that is there is handed over for compression, where the handler compresses.
  abbrev pub handed_over : Option Content → String × ℕ → List (String × ℕ)
  handed_over none file = []
  handed_over (some c) file = if config.compress then file ∷ [] else []

  module _ (around : Surroundings) where
    -- `_wait_pending_compressions`: what was handed to the background is done.
    unfoldable pub wait_pending : List (String × ℕ) → Days → Days
    wait_pending [] days = days
    wait_pending ((day, slot) ∷ rest) days =
        wait_pending rest
          (put_day day (compress_file (around.compresses day slot) slot (days day)) days)

    -- `cleanup_old_files`: dates of eight digits are compared as texts.
    unfoldable pub cleanup_old_files : Days → Days
    cleanup_old_files days d = if text_le around.cutoff d then days d else no_files

    -- A new day: the file of the day before is handed over for compression.
    unfoldable pub change_day : String → Handler → Handler
    change_day today h = record h {
      current_date = today;
      days = cleanup_old_files h.days;
      pending = handed_over (h.days h.current_date).active (h.current_date, 0);
    }

    -- The limit is reached: the backups move up.
    unfoldable pub change_file : Handler → Handler
    change_file h = record h {
      days =
          put_day h.current_date (shift_backups config.backup_count (h.days h.current_date)) h.days;
      pending = handed_over (h.days h.current_date).active (h.current_date, 1);
    }

    -- `self.stream = self._open()`, which appends, and the counter starts again.
    unfoldable pub open_file : Handler → Handler
    open_file h =
        let files = h.days h.current_date in
        record h {
          current_bytes = 0;
          days =
              around.total_cleanup h.current_date
                (put_day h.current_date (record files { active = opened files.active }) h.days);
        }

    unfoldable pub do_rollover : String → Handler → Handler
    do_rollover today h =
        let waited = record h { days = wait_pending h.pending h.days; pending = [] } in
        open_file (if today == h.current_date then change_file waited else change_day today waited)

    -- `logging.FileHandler.emit`: the record goes to the end of the open file.
    unfoldable pub append_record : String → Handler → Handler
    append_record msg h =
        let files = h.days h.current_date in
        record h {
          days =
              put_day h.current_date (record files { active = some (msg ∷ put [] files.active) })
                h.days;
        }

    -- `BaseRotatingHandler.emit`
    unfoldable pub emit : String → String → Handler → Handler
    emit today msg h =
        let (roll, bytes) = should_rollover today msg h in
        let counted = record h { current_bytes = bytes } in
        append_record msg (if roll then do_rollover today counted else counted)
