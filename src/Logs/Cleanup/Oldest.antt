-- ===== src/Logs/Cleanup/Oldest.antt =====
-- `_cleanup_by_total_size` of app/utils/file_logger.py brings the directory below its limit, and
-- deletes no file that it need not.
use redgw_lite.Prelude.{
  ℕ, String, ◌≡◌, ◌⊎◌, inl, inr, refl, ap, Bool, true, false, not, ◌||◌, List, [], ◌∷◌, ◌++◌, ◌+◌,
  ◌-◌, ◌≤◌, ◌<◌, ◌==◌, leb, length, select, arith, Bool-cases,
}
use redgw_lite.Logs.Cleanup.{
  Entry, total_size, insert_entry, sort_entries, sweep, cleanup_by_total_size,
}

module _ (max : ℕ) (active : String) (deletable : String → Bool) where
  -- The entries that the loop passes over.
  abbrev is_kept : Entry → Bool
  is_kept e = e.name == active || not (deletable e.name)

  -- The outcome of the loop over `es` with `base` bytes that are passed over before it.
  pub record IsSwept (base : ℕ) (es left : List Entry) (count : ℕ) : Type 0 where
    -- The entries up to some point are deleted, but for those that are passed over.
    pub done : List Entry
    pub rest : List Entry
    pub parts : es ≡ done ++ rest
    pub remaining : left ≡ select is_kept done ++ rest
    -- The total fits, or nothing is left that can be deleted.
    pub fits : (base + total_size left ≤ max) ⊎ (rest ≡ [])
    pub tallied : count + length left ≡ length es
    pub untouched : (0 < count) ⊎ (left ≡ es)
    -- With the file that was deleted last, the total would not fit.
    pub needed :
        (count ≡ 0)
        ⊎ ((last : Entry) × (is_kept last ≡ false) × (max < base + last.size + total_size left))

  keep_first :
      (base : ℕ) (x : Entry) (es left : List Entry) (count : ℕ)
      → is_kept x ≡ true
      → IsSwept (base + x.size) es left count
      → IsSwept base (x ∷ es) (x ∷ left) count
  keep_first base x es left count kept swept = record {
    done = x ∷ swept.done;
    rest = swept.rest;
    parts = ap (λ l. x ∷ l) swept.parts;
    remaining = rw kept (ap (λ l. x ∷ l) swept.remaining);
    fits = elim swept.fits [ inl h ↦ inl (omega (arith, h)) | inr h ↦ inr h ];
    tallied = omega (arith, swept.tallied);
    untouched = elim swept.untouched [ inl h ↦ inl h | inr h ↦ inr (ap (λ l. x ∷ l) h) ];
    needed = elim swept.needed [
      | inl h ↦ inl h
      | inr (last, unkept, h) ↦ inr (last, unkept, omega (arith, h))
    ];
  }

  same_of :
      {base : ℕ} {es left : List Entry} {count : ℕ}
      → IsSwept base es left count
      → count ≡ 0
      → left ≡ es
  same_of swept z = elim swept.untouched [ inl h ↦ absurd (omega (arith, h, z)) | inr h ↦ h ]

  delete_first :
      (base : ℕ) (x : Entry) (es left : List Entry) (count : ℕ)
      → is_kept x ≡ false
      → max < base + (x.size + total_size es)
      → IsSwept base es left count
      → IsSwept base (x ∷ es) left (count + 1)
  delete_first base x es left count gone over swept = record {
    done = x ∷ swept.done;
    rest = swept.rest;
    parts = ap (λ l. x ∷ l) swept.parts;
    remaining = rw gone swept.remaining;
    fits = swept.fits;
    tallied = omega (arith, swept.tallied);
    untouched = inl (omega arith);
    needed = inr (elim swept.needed [
      | inl h ↦ (x, gone, omega (arith, over, ap total_size (same_of swept h)))
      | inr (last, unkept, h) ↦ (last, unkept, h)
    ]);
  }

  sweep-IsSwept :
      (base : ℕ) (es : List Entry) (total : ℕ)
      → total ≡ base + total_size es
      → IsSwept base es
          (sweep max active deletable total es).0
          (sweep max active deletable total es).1
  unfolding sweep
  sweep-IsSwept base [] total e = record {
    done = [];
    rest = [];
    parts = refl;
    remaining = refl;
    fits = inr refl;
    tallied = omega arith;
    needed = inl refl;
    untouched = inr refl;
  }
  sweep-IsSwept base (x ∷ es) total e = elim (Bool-cases (leb total max)) [
    | inl fit ↦ rw fit (record {
      done = [];
      rest = x ∷ es;
      parts = refl;
      remaining = refl;
      fits = inl (ground (arith, fit, e));
      tallied = omega arith;
      needed = inl refl;
      untouched = inr refl;
    })
    | inr over ↦ elim (Bool-cases (is_kept x)) [
      | inl kept ↦
          rw (over, kept)
            (keep_first base x es _ _ kept
              (sweep-IsSwept (base + x.size) es total (omega (arith, e))))
      | inr gone ↦
          rw (over, gone)
            (delete_first base x es _ _ gone (ground (arith, over, e))
              (sweep-IsSwept base es (total - x.size) (omega (arith, e))))
    ]
  ]

  insert_entry-total :
      (e : Entry) (es : List Entry) → total_size (insert_entry e es) ≡ e.size + total_size es
  insert_entry-total e [] = refl
  insert_entry-total e (d ∷ es) = elim (Bool-cases (leb e.mtime d.mtime)) [
    | inl before ↦ rw before
    | inr behind ↦ rw behind (omega (arith, insert_entry-total e es))
  ]

  sort_entries-total : (es : List Entry) → total_size (sort_entries es) ≡ total_size es
  unfolding sort_entries
  sort_entries-total [] = refl
  sort_entries-total (e ∷ es) =
      omega (arith, insert_entry-total e (sort_entries es), sort_entries-total es)

  pub cleanup_by_total_size-IsSwept :
      (es : List Entry)
      → 0 < max
      → (max < total_size es
          × IsSwept 0
              (sort_entries es)
              (cleanup_by_total_size max active deletable es).0
              (cleanup_by_total_size max active deletable es).1)
        ⊎ ((total_size es ≤ max) × (cleanup_by_total_size max active deletable es ≡ (es, 0)))
  unfolding cleanup_by_total_size
  cleanup_by_total_size-IsSwept es limited =
      let on : leb max 0 ≡ false = ground (arith, limited) in
      elim (Bool-cases (leb (total_size es) max)) [
        | inl small ↦ inr (ground (arith, small), rw (on, small))
        | inr large ↦ inl (
          ground (arith, large),
          rw (on, large)
              (sweep-IsSwept 0 (sort_entries es) (total_size es)
                (omega (arith, sort_entries-total es))),
        )
      ]
