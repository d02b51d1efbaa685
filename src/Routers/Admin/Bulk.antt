-- ===== src/Routers/Admin/Bulk.antt =====
-- What `bulk_delete_keys` of app/routers/admin.py deletes.
use mathlib.Core.List.{append-nil, append_assoc}
use redgw_lite.Prelude.{
  ℕ, zero, suc, String, ◌≡◌, refl, sym, ap, ◌∙◌, Bool, true, false, ◌||◌, Option, none, some, List,
  [], ◌∷◌, ◌++◌, ◌-◌, ◌≤◌, leb, ltb, length, length-append, take, drop, select, any, arith,
  Bool-cases, inl, inr, if◌then◌else◌,
}
use redgw_lite.Python.Exec.{Exception, Result, returned, raised}
use redgw_lite.KeyBuilder.{contains}
use redgw_lite.Routers.Admin.{is_storage_key, max_bulk, batch_size, collect, batches}

abbrev pub ended_with : List String → Option Exception → Result (List String × Bool)
ended_with keys none = returned (keys, false)
ended_with keys (some e) = raised e

-- With room for `room` more keys: the first of the storage keys that are still to come.
abbrev pub first_storage_keys :
    List String → ℕ → Option Exception → List String → Result (List String × Bool)
first_storage_keys acc room ended storage =
    if ltb room (length storage)
    then returned (acc ++ take room storage, true)
    else ended_with (acc ++ storage) ended

collect_nil :
    (acc : List String) (ended : Option Exception) → collect acc ended [] ≡ ended_with acc ended
unfolding collect
collect_nil acc none = refl
collect_nil acc (some e) = refl

collect_skip :
    (acc : List String) (ended : Option Exception) (k : String) (ks : List String)
    → is_storage_key k ≡ false
    → collect acc ended (k ∷ ks) ≡ collect acc ended ks
unfolding collect
collect_skip acc ended k ks other = rw other

collect_full :
    (acc : List String) (ended : Option Exception) (k : String) (ks : List String)
    → is_storage_key k ≡ true
    → leb max_bulk (length acc) ≡ true
    → collect acc ended (k ∷ ks) ≡ returned (acc, true)
unfolding collect
collect_full acc ended k ks storage full = rw (storage, full)

collect_keep :
    (acc : List String) (ended : Option Exception) (k : String) (ks : List String)
    → is_storage_key k ≡ true
    → leb max_bulk (length acc) ≡ false
    → collect acc ended (k ∷ ks) ≡ collect (acc ++ k ∷ []) ended ks
unfolding collect
collect_keep acc ended k ks storage space = rw (storage, space)

first_storage_keys-cons :
    (acc : List String) (room room' : ℕ) (ended : Option Exception) (k : String) (ks : List String)
    → room ≡ suc room'
    → first_storage_keys (acc ++ k ∷ []) room' ended ks ≡ first_storage_keys acc room ended (k ∷ ks)
first_storage_keys-cons acc room room' ended k ks e =
    rw (e, append_assoc acc (k ∷ []) (take room' ks), append_assoc acc (k ∷ []) ks) (ground arith)

first_storage_keys-nil :
    (acc : List String) (room : ℕ) (ended : Option Exception)
    → first_storage_keys acc room ended [] ≡ ended_with acc ended
first_storage_keys-nil acc room ended =
    let few : ltb room 0 ≡ false = ground arith in rw (few, append-nil acc)

first_storage_keys-full :
    (acc : List String) (room : ℕ) (ended : Option Exception) (k : String) (ks : List String)
    → room ≡ 0
    → first_storage_keys acc room ended (k ∷ ks) ≡ returned (acc, true)
first_storage_keys-full acc room ended k ks e =
    let more : ltb 0 (length (k ∷ ks)) ≡ true = ground arith in rw (e, more, append-nil acc)

-- The loop takes the storage keys in their order, as many as there is room for, and knows whether
-- there were more; an exception of the iteration comes only where the loop sees the end.
pub collect_lem :
    (acc : List String) (ended : Option Exception) (ks : List String)
    → length acc ≤ max_bulk
    → collect acc ended ks
      ≡ first_storage_keys acc (max_bulk - length acc) ended (select is_storage_key ks)
collect_lem acc ended [] h =
    collect_nil acc ended ∙ sym (first_storage_keys-nil acc (max_bulk - length acc) ended)
collect_lem acc ended (k ∷ ks) h = elim (Bool-cases (is_storage_key k)) [
  | inr other ↦ rw other (collect_skip acc ended k ks other ∙ collect_lem acc ended ks h)
  | inl storage ↦ rw storage (elim (Bool-cases (leb max_bulk (length acc))) [
    | inl full ↦
        collect_full acc ended k ks storage full
        ∙ sym (
            first_storage_keys-full acc _ ended k (select is_storage_key ks) (ground (arith, full)))
    | inr space ↦
        let more : length (acc ++ k ∷ []) ≡ suc (length acc) =
          omega (arith, length-append acc (k ∷ [])) in
        collect_keep acc ended k ks storage space
        ∙ collect_lem (acc ++ k ∷ []) ended ks (ground (arith, more, space))
        ∙ first_storage_keys-cons acc (max_bulk - length acc) (max_bulk - length (acc ++ k ∷ []))
            ended k (select is_storage_key ks) (ground (arith, more, space))
  ])
]

contains-append :
    (k : String) (xs ys : List String) → contains k (xs ++ ys) ≡ (contains k xs || contains k ys)
contains-append k [] ys = refl
contains-append k (x ∷ xs) ys = ground (arith, contains-append k xs ys)

take-drop : (n : ℕ) (xs : List String) → take n xs ++ drop n xs ≡ xs
take-drop zero xs = refl
take-drop (suc n) [] = refl
take-drop (suc n) (x ∷ xs) = ap (λ ys. x ∷ ys) (take-drop n xs)

length-drop-le : (n : ℕ) (xs : List String) → length (drop n xs) ≤ length xs
length-drop-le zero xs = omega arith
length-drop-le (suc n) [] = omega arith
length-drop-le (suc n) (x ∷ xs) = omega (arith, length-drop-le n xs)

length-take-le : (n : ℕ) (xs : List String) → length (take n xs) ≤ n
length-take-le zero xs = omega arith
length-take-le (suc n) [] = omega arith
length-take-le (suc n) (x ∷ xs) = omega (arith, length-take-le n xs)

-- The batches hold the keys between them, where the fuel is as much as there are keys.
pub any-batches :
    (k : String) (fuel : ℕ) (ks : List String)
    → length ks ≤ fuel
    → any (contains k) (batches fuel ks) ≡ contains k ks
unfolding batches
any-batches k zero [] h = refl
any-batches k zero (x ∷ ks) h = absurd (omega (arith, h))
any-batches k (suc fuel) [] h = refl
any-batches k (suc fuel) (x ∷ ks) h =
    let shorter : length (drop 99 ks) ≤ fuel = omega (arith, length-drop-le 99 ks, h) in
    ap (λ b. contains k (take batch_size (x ∷ ks)) || b) (any-batches k fuel (drop 99 ks) shorter)
    ∙ sym (contains-append k (take batch_size (x ∷ ks)) (drop 99 ks))
    ∙ ap (contains k) (take-drop batch_size (x ∷ ks))
