-- ===== src/Logs/Bounded.antt =====
-- How large the file of app/utils/file_logger.py becomes that records are written to.
use redgw_lite.Prelude.{
  ℕ, String, ◌≡◌, refl, ap, ◌∙◌, true, false, Option, none, some, List, [], ◌∷◌, ◌+◌, ◌≤◌, ◌<◌,
  ◌==◌, leb, All, arith, eq_refl, Bool-cases, inl, inr, if◌then◌else◌,
}
use redgw_lite.Logs.Backups.{Files, Content, put, shift_backups}
use redgw_lite.Logs.Backups.Active.{shift_backups-active}
use redgw_lite.Logs.{
  LogConfig, Handler, Surroundings, Days, put_day, msg_bytes, opened, should_rollover, wait_pending,
  change_file, open_file, do_rollover, append_record, emit,
}

-- The bytes of a file with these records.
abbrev pub file_bytes : Content → ℕ
file_bytes [] = 0
file_bytes (msg ∷ records) = msg_bytes msg + file_bytes records

-- The file that is written to.
abbrev pub open_bytes : Handler → ℕ
open_bytes h = file_bytes (put [] (h.days h.current_date).active)

module _ (config : LogConfig) (around : Surroundings)
    -- `_cleanup_by_total_size` leaves the file that is written to.
    (spares : (day : String) (days : Days)
      → (around.total_cleanup day days day).active ≡ (days day).active) where
  put_day_self : (day : String) (files : Files) (days : Days) → put_day day files days day ≡ files
  put_day_self day files days = rw (eq_refl day)

  open_file-bytes : (h : Handler) → open_bytes (open_file config around h) ≡ open_bytes h
  unfolding open_file
  open_file-bytes h =
      let files = h.days h.current_date in
      let reopened = record files { active = opened files.active } in
      ap (λ a. file_bytes (put [] a))
        (spares h.current_date (put_day h.current_date reopened h.days)
          ∙ ap (λ (f : Files). f.active) (put_day_self h.current_date reopened h.days))
      ∙ by_file files.active
    where
      by_file : (a : Option Content) → file_bytes (put [] (opened a)) ≡ file_bytes (put [] a)
      by_file none = refl
      by_file (some c) = refl

  change_file-bytes : (h : Handler) → open_bytes (change_file config around h) ≡ 0
  unfolding change_file
  change_file-bytes h =
      let files = h.days h.current_date in
      ap (λ (f : Files). file_bytes (put [] f.active))
        (put_day_self h.current_date (shift_backups config.backup_count files) h.days)
      ∙ ap (λ a. file_bytes (put [] a)) (shift_backups-active config.backup_count files)

  do_rollover-bytes :
      (today : String) (h : Handler)
      → (today == h.current_date) ≡ true
      → (open_bytes (do_rollover config around today h) ≡ 0)
        × ((do_rollover config around today h).current_bytes ≡ 0)
        × ((do_rollover config around today h).current_date ≡ h.current_date)
  unfolding do_rollover
  do_rollover-bytes today h same =
      let waited = record h { days = wait_pending config around h.pending h.days; pending = [] } in
      rw same (
        open_file-bytes (change_file config around waited) ∙ change_file-bytes waited,
        unfold open_file in refl,
        unfold open_file change_file in refl,
      )

  append_record-bytes :
      (msg : String) (h : Handler)
      → open_bytes (append_record config around msg h) ≡ open_bytes h + msg_bytes msg
  unfolding append_record
  append_record-bytes msg h = rw (eq_refl h.current_date) (omega arith)

  -- The counter is below the limit, and counts all but at most one record of the open file.
  pub record IsCounted (longest : ℕ) (h : Handler) : Type 0 where
    pub below : h.current_bytes < config.max_bytes
    pub accounted : open_bytes h ≤ h.current_bytes + longest

  append_record-rest :
      (msg : String) (h : Handler)
      → ((append_record config around msg h).current_bytes ≡ h.current_bytes)
        × ((append_record config around msg h).current_date ≡ h.current_date)
  unfolding append_record
  append_record-rest msg h = (refl, refl)

  should_rollover-today :
      (today msg : String) (h : Handler)
      → 0 < config.max_bytes
      → (today == h.current_date) ≡ true
      → should_rollover config today msg h ≡ (
          if leb config.max_bytes (h.current_bytes + msg_bytes msg)
          then (true, h.current_bytes)
          else (false, h.current_bytes + msg_bytes msg))
  unfolding should_rollover
  should_rollover-today today msg h limited same =
      let on : leb config.max_bytes 0 ≡ false = ground (arith, limited) in rw (same, on)

  -- The handler after a record, and its day.
  abbrev Counted : ℕ → String → Handler → Type 0
  Counted longest day h = IsCounted longest h × (h.current_date ≡ day)

  emit-full :
      (longest : ℕ) (today msg : String) (h : Handler)
      → 0 < config.max_bytes
      → (today == h.current_date) ≡ true
      → msg_bytes msg ≤ longest
      → Counted longest h.current_date
          (append_record config around msg (do_rollover config around today h))
  emit-full longest today msg h limited same short =
      let rolled = do_rollover config around today h in
      let (emptied, restarted, kept) = do_rollover-bytes today h same in
      let (bytes, day) = append_record-rest msg rolled in
      (
        record {
          below = omega (arith, bytes, restarted, limited);
          accounted = omega (arith, append_record-bytes msg rolled, emptied, short);
        },
        day ∙ kept,
      )

  emit-room :
      (longest : ℕ) (msg : String) (h : Handler)
      → IsCounted longest h
      → leb config.max_bytes (h.current_bytes + msg_bytes msg) ≡ false
      → Counted longest h.current_date (
          append_record config around msg
            (record h { current_bytes = h.current_bytes + msg_bytes msg }))
  emit-room longest msg h counted room =
      let h' = record h { current_bytes = h.current_bytes + msg_bytes msg } in
      let (bytes, day) = append_record-rest msg h' in
      (
        record {
          below = ground (arith, bytes, room);
          accounted = omega (arith, append_record-bytes msg h', bytes, counted.accounted);
        },
        day,
      )

  emit-Counted :
      (longest : ℕ) (today msg : String) (h : Handler)
      → 0 < config.max_bytes
      → msg_bytes msg ≤ longest
      → Counted longest today h
      → Counted longest today (emit config around today msg h)
  unfolding emit
  emit-Counted longest today msg h limited short (counted, day) =
      let same : (today == h.current_date) ≡ true = rw day (eq_refl today) in
      elim (Bool-cases (leb config.max_bytes (h.current_bytes + msg_bytes msg))) [
        | inl full ↦
            rw (should_rollover-today today msg h limited same, full)
              (let (c, e) = emit-full longest today msg h limited same short in (c, e ∙ day))
        | inr room ↦
            rw (should_rollover-today today msg h limited same, room)
              (let (c, e) = emit-room longest msg h counted room in (c, e ∙ day))
      ]

  -- The records of one day, one after the other.
  abbrev pub emit_all : String → List String → Handler → Handler
  emit_all today [] h = h
  emit_all today (msg ∷ msgs) h = emit_all today msgs (emit config around today msg h)

  emit_all-Counted :
      (longest : ℕ) (today : String) (msgs : List String) (h : Handler)
      → 0 < config.max_bytes
      → All (λ msg. msg_bytes msg ≤ longest) msgs
      → Counted longest today h
      → Counted longest today (emit_all today msgs h)
  emit_all-Counted longest today [] h limited short counted = counted
  emit_all-Counted longest today (msg ∷ msgs) h limited (short, shorts) counted =
      emit_all-Counted longest today msgs (emit config around today msg h) limited shorts
        (emit-Counted longest today msg h limited short counted)

  pub emit_all-bounded :
      (longest : ℕ) (today : String) (msgs : List String) (h : Handler)
      → 0 < config.max_bytes
      → All (λ msg. msg_bytes msg ≤ longest) msgs
      → IsCounted longest h
      → h.current_date ≡ today
      → open_bytes (emit_all today msgs h) < config.max_bytes + longest
  emit_all-bounded longest today msgs h limited shorts counted day =
      let (after, _) = emit_all-Counted longest today msgs h limited shorts (counted, day) in
      omega (arith, after.below, after.accounted)
