-- ===== src/Logs/Backups/Order.antt =====
-- `_shift_backups` of app/utils/file_logger.py moves the backups up, and loses none but the oldest.
use mathlib.Core.Path.{fun_ext}
use redgw_lite.Prelude.{
  ℕ, zero, suc, ◌≡◌, ◌⊎◌, inl, inr, refl, sym, ap, ◌∙◌, true, false, Option, none, some, ◌+◌, ◌-◌,
  nat_eq, leb, arith, Bool-cases, Option-cases, if◌then◌else◌,
}
use redgw_lite.Logs.Backups.{
  Content, Files, set_slot, move_up, moved_plain, drop_slot, move_all, shift_loop, moved_active,
  shift_backups,
}

-- The backup with a number, compressed or not.
abbrev either : Option Content → Option Content → Option Content
either none plain = plain
either (some c) plain = some c

abbrev pub backup : Files → ℕ → Option Content
backup f i = either (f.gz i) (f.plain i)

-- No backup is there both ways.
abbrev pub SingleAt : Files → ℕ → Type 0
SingleAt f i = (f.gz i ≡ none) ⊎ (f.plain i ≡ none)

abbrev pub IsSingle : Files → Type 0
IsSingle f = (i : ℕ) → SingleAt f i

abbrev EmptyAt : Files → ℕ → Type 0
EmptyAt f i = (f.gz i ≡ none) × (f.plain i ≡ none)

-- Number `i` moves up by one.
abbrev up : ℕ → (ℕ → Option Content) → ℕ → Option Content
up i old j = if nat_eq j i then none else if nat_eq j (i + 1) then old i else old j

set_slots :
    (i : ℕ) (c : Content) (old : ℕ → Option Content) (j : ℕ)
    → old i ≡ some c
    → set_slot i none (set_slot (i + 1) (some c) old) j ≡ up i old j
set_slots i c old j h = rw h refl

up_empty :
    (i : ℕ) (old : ℕ → Option Content) (j : ℕ)
    → old i ≡ none
    → old (i + 1) ≡ none
    → old j ≡ up i old j
up_empty i old j h k = elim (Bool-cases (nat_eq j i)) [
  | inl same ↦ let e : j ≡ i = ground (arith, same) in rw (same, e) h
  | inr other ↦ elim (Bool-cases (nat_eq j (i + 1))) [
    | inl same ↦ let e : j ≡ i + 1 = ground (arith, same) in rw (other, same, h) (rw e k)
    | inr other' ↦ rw (other, other')
  ]
]

move_up-Slots :
    (i : ℕ) (f : Files)
    → SingleAt f i
    → EmptyAt f (i + 1)
    → ((j : ℕ) → (move_up i f).gz j ≡ up i f.gz j)
      × ((j : ℕ) → (move_up i f).plain j ≡ up i f.plain j)
      × ((move_up i f).active ≡ f.active)
unfolding move_up
move_up-Slots i f single (no_gz, no_plain) = elim (Option-cases (f.gz i)) [
  | inr (c, there) ↦
      let lone : f.plain i ≡ none = elim single [ inl e ↦ cc (there, e) | inr e ↦ e ] in
      let gz' = set_slot i none (set_slot (i + 1) (some c) f.gz) in
      let same : move_up i f ≡ record f { gz = gz' } = rw (move_up, there) in
      (
        λ j. ap (λ g. g.gz j) same ∙ set_slots i c f.gz j there,
        λ j. ap (λ g. g.plain j) same ∙ up_empty i f.plain j lone no_plain,
        ap (λ g. g.active) same,
      )
  | inl gone ↦ elim (Option-cases (f.plain i)) [
    | inr (c, there) ↦
        let plain' = set_slot i none (set_slot (i + 1) (some c) f.plain) in
        let same : move_up i f ≡ record f { plain = plain' } =
          rw (move_up, gone, moved_plain, there) in
        (
          λ j. ap (λ g. g.gz j) same ∙ up_empty i f.gz j gone no_gz,
          λ j. ap (λ g. g.plain j) same ∙ set_slots i c f.plain j there,
          ap (λ g. g.active) same,
        )
    | inl gone' ↦
        let same : move_up i f ≡ f = rw (move_up, gone, moved_plain, gone') in
        (
          λ j. ap (λ g. g.gz j) same ∙ up_empty i f.gz j gone no_gz,
          λ j. ap (λ g. g.plain j) same ∙ up_empty i f.plain j gone' no_plain,
          ap (λ g. g.active) same,
        )
  ]
]

-- The numbers from 1 to `n` move up by one.
abbrev shifted : ℕ → (ℕ → Option Content) → ℕ → Option Content
shifted n old j =
    if nat_eq j 0
    then old 0
    else if nat_eq j 1
    then none
    else if leb j (n + 1)
    then old (j - 1)
    else old j

-- One number more.
shifted-up :
    (m : ℕ) (old : ℕ → Option Content) (j : ℕ)
    → shifted m (up (suc m) old) j ≡ shifted (suc m) old j
shifted-up m old j = ground arith

abbrev Slots : ℕ → Files → Files → Type 0
Slots n f g =
    ((j : ℕ) → g.gz j ≡ shifted n f.gz j)
    × ((j : ℕ) → g.plain j ≡ shifted n f.plain j)
    × (g.active ≡ f.active)

shifted_zero : (old : ℕ → Option Content) (j : ℕ) → old 1 ≡ none → old j ≡ shifted 0 old j
shifted_zero old j h = elim (Bool-cases (nat_eq j 0)) [
  | inl same ↦ let e : j ≡ 0 = ground (arith, same) in rw (same, e) refl
  | inr other ↦ elim (Bool-cases (nat_eq j 1)) [
    | inl same ↦ let e : j ≡ 1 = ground (arith, same) in rw (other, same, e) h
    | inr other' ↦
        let far : leb j 1 ≡ false = ground (arith, other, other') in rw (other, other', far)
  ]
]

up_single :
    (i : ℕ) (f : Files) (j : ℕ) → IsSingle f → (up i f.gz j ≡ none) ⊎ (up i f.plain j ≡ none)
up_single i f j single = elim (Bool-cases (nat_eq j i)) [
  | inl same ↦ inl (rw same)
  | inr other ↦ elim (Bool-cases (nat_eq j (i + 1))) [
    | inl same ↦ rw (other, same) (single i)
    | inr other' ↦ rw (other, other') (single j)
  ]
]

shifted_single :
    (n : ℕ) (f : Files) (j : ℕ)
    → IsSingle f
    → (shifted n f.gz j ≡ none) ⊎ (shifted n f.plain j ≡ none)
shifted_single n f j single = elim (Bool-cases (nat_eq j 0)) [
  | inl same ↦ rw same (single 0)
  | inr other ↦ elim (Bool-cases (nat_eq j 1)) [
    | inl same ↦ rw (other, same) (inl refl)
    | inr other' ↦ elim (Bool-cases (leb j (n + 1))) [
      | inl near ↦ rw (other, other', near) (single (j - 1))
      | inr far ↦ rw (other, other', far) (single j)
    ]
  ]
]

move_all-Slots : (n : ℕ) (f : Files) → IsSingle f → EmptyAt f (n + 1) → Slots n f (move_all n f)
unfolding move_all
move_all-Slots zero f single (no_gz, no_plain) =
    (λ j. shifted_zero f.gz j no_gz, λ j. shifted_zero f.plain j no_plain, refl)
move_all-Slots (suc m) f single empty =
    let (in_gz, in_plain, active) = move_up-Slots (suc m) f (single (suc m)) empty in
    let g = move_up (suc m) f in
    let single' : IsSingle g = λ j. rw (in_gz j, in_plain j) (up_single (suc m) f j single) in
    let here : nat_eq (m + 1) (suc m) ≡ true = ground arith in
    let (gz, plain, active') =
      move_all-Slots m g single' (in_gz (m + 1) ∙ rw here, in_plain (m + 1) ∙ rw here) in
    (
      λ j. gz j ∙ ap (λ old. shifted m old j) (fun_ext in_gz) ∙ shifted-up m f.gz j,
      λ j. plain j ∙ ap (λ old. shifted m old j) (fun_ext in_plain) ∙ shifted-up m f.plain j,
      active' ∙ active,
    )

drop_slot-IsSingle : (n : ℕ) (f : Files) → IsSingle f → IsSingle (drop_slot n f)
unfolding drop_slot
drop_slot-IsSingle n f single j = elim (Bool-cases (nat_eq j n)) [
  | inl same ↦ rw same (inl refl)
  | inr other ↦ rw other (single j)
]

shifted-drop :
    (n : ℕ) (old : ℕ → Option Content) (j : ℕ)
    → shifted n (set_slot (suc n) none old) j ≡ shifted n old j
shifted-drop n old j = ground arith

shift_loop-Slots : (n : ℕ) (f : Files) → IsSingle f → Slots n f (shift_loop (suc n) f)
unfolding shift_loop drop_slot
shift_loop-Slots n f single =
    let here : nat_eq (n + 1) (suc n) ≡ true = ground arith in
    let (gz, plain, active) =
      move_all-Slots n (drop_slot (suc n) f) (drop_slot-IsSingle (suc n) f single)
        (rw here, rw here) in
    (λ j. gz j ∙ shifted-drop n f.gz j, λ j. plain j ∙ shifted-drop n f.plain j, active)

-- The backup with a number, after the shift.
abbrev pub backup_after : ℕ → Files → ℕ → Option Content
backup_after n f j =
    if nat_eq j 0
    then backup f 0
    else if nat_eq j 1
    then f.active
    else if leb j (n + 1)
    then backup f (j - 1)
    else backup f j

-- The slots after `moved_active`.
with_active : Option Content → ℕ → Files → ℕ → Option Content
with_active none n f j = shifted n f.plain j
with_active (some c) n f j = if nat_eq j 1 then some c else shifted n f.plain j

either_after :
    (a : Option Content) (n : ℕ) (f : Files) (j : ℕ)
    → f.active ≡ a
    → either (shifted n f.gz j) (with_active a n f j) ≡ backup_after n f j
unfolding with_active
either_after none n f j h = rw h (ground arith)
either_after (some c) n f j h = rw h (ground arith)

single_after :
    (a : Option Content) (n : ℕ) (f : Files) (j : ℕ)
    → IsSingle f
    → (shifted n f.gz j ≡ none) ⊎ (with_active a n f j ≡ none)
unfolding with_active
single_after none n f j single = shifted_single n f j single
single_after (some c) n f j single = elim (Bool-cases (nat_eq j 1)) [
  | inl same ↦ let e : j ≡ 1 = ground (arith, same) in inl (rw e refl)
  | inr other ↦
      let skip : with_active (some c) n f j ≡ shifted n f.plain j = ground (arith, other) in
      elim (shifted_single n f j single) [ inl e ↦ inl e | inr e ↦ inr (skip ∙ e) ]
]

moved_active-Slots :
    (a : Option Content) (n : ℕ) (f h : Files)
    → f.active ≡ a
    → Slots n f h
    → ((j : ℕ) → (moved_active a h).gz j ≡ shifted n f.gz j)
      × ((j : ℕ) → (moved_active a h).plain j ≡ with_active a n f j)
      × ((moved_active a h).active ≡ none)
unfolding with_active
moved_active-Slots none n f h e (gz, plain, active) = (gz, plain, active ∙ e)
moved_active-Slots (some c) n f h e (gz, plain, active) =
    (gz, λ j. ap (λ p. if nat_eq j 1 then some c else p) (plain j), refl)

-- Where no backup is there both compressed and not, and at least one is to be kept, `_shift_backups`
-- makes the file of the day the first backup and moves every other up by one, with its content:
-- of the numbers up to `backup_count` only the content of the last is gone, and higher numbers and the
-- compressed file of the day stay. Again no backup is there both ways, and the file of the day is gone.
pub shift_backups-order :
    (n : ℕ) (f : Files)
    → IsSingle f
    → ((j : ℕ) → backup (shift_backups (suc n) f) j ≡ backup_after n f j)
      × IsSingle (shift_backups (suc n) f)
      × ((shift_backups (suc n) f).active ≡ none)
unfolding shift_backups
shift_backups-order n f single =
    let h = shift_loop (suc n) f in
    let slots = shift_loop-Slots n f single in
    let (gz, plain, gone) = moved_active-Slots h.active n f h (sym (slots.2)) slots in
    (
      λ j. rw (gz j, plain j) (either_after h.active n f j (sym (slots.2))),
      λ j. rw (gz j, plain j) (single_after h.active n f j single),
      gone,
    )
