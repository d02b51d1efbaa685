-- ===== src/Routers/Event/Ids/Accepted.antt =====
-- Which texts `_STREAM_ID_RE` of app/routers/event.py accepts.
use redgw_lite.Prelude.{
  ℕ, String, ◌≡◌, ◌↔◌, inl, inr, refl, Bool, true, ◌&&◌, ◌||◌, List, [], ◌∷◌, ◌++◌, all, nat_eq,
  codes, arith, Bool-cases,
}
use redgw_lite.Routers.Event.Ids.{
  at_end, digits_end, some_digits_end, digits_dash, some_digits_dash, zero_end, stream_id_re,
}

module _ (isdecimal : ℕ → Bool) where
  -- Digits, and behind them the end or a line feed that ends the text.
  data IsDigitsEnd : List ℕ → Type 0 where
    digits_then_end :
        (b rest : List ℕ) → all isdecimal b ≡ true → at_end rest ≡ true → IsDigitsEnd (b ++ rest)

  data IsSomeDigitsEnd : List ℕ → Type 0 where
    one_digit : (e : ℕ) (s : List ℕ) → isdecimal e ≡ true → IsDigitsEnd s → IsSomeDigitsEnd (e ∷ s)

  data IsDigitsDash : List ℕ → Type 0 where
    digits_then_dash :
        (b s : List ℕ) → all isdecimal b ≡ true → IsSomeDigitsEnd s → IsDigitsDash (b ++ b'-' ∷ s)

  digits_end_sound : (s : List ℕ) → digits_end isdecimal s ≡ true → IsDigitsEnd s
  digits_end_sound [] h = digits_then_end [] [] refl refl
  digits_end_sound (c ∷ s) h = elim (Bool-cases (isdecimal c && digits_end isdecimal s)) [
    | inl both ↦ one_more c s (ground (arith, both)) (digits_end_sound s (ground (arith, both)))
    | inr neither ↦ digits_then_end [] (c ∷ s) refl (ground (arith, h, neither))
  ]
    where
      one_more : (e : ℕ) (t : List ℕ) → isdecimal e ≡ true → IsDigitsEnd t → IsDigitsEnd (e ∷ t)
      one_more e t digit (digits_then_end b rest digits ends) =
          digits_then_end (e ∷ b) rest (rw (digit, digits)) ends

  digits_end_complete : (s : List ℕ) → IsDigitsEnd s → digits_end isdecimal s ≡ true
  digits_end_complete s (digits_then_end b rest digits ends) = ahead b digits
    where
      ending : (t : List ℕ) → at_end t ≡ true → digits_end isdecimal t ≡ true
      ending [] e = refl
      ending (c ∷ t) e = ground (arith, e)

      ahead : (d : List ℕ) → all isdecimal d ≡ true → digits_end isdecimal (d ++ rest) ≡ true
      ahead [] ds = ending rest ends
      ahead (c ∷ d) ds = ground (arith, ds, ahead d)

  some_digits_end_iff : (s : List ℕ) → (some_digits_end isdecimal s ≡ true) ↔ IsSomeDigitsEnd s
  some_digits_end_iff s = (to s, from s)
    where
      to : (t : List ℕ) → some_digits_end isdecimal t ≡ true → IsSomeDigitsEnd t
      to [] h = cc h
      to (c ∷ t) h = one_digit c t (ground (arith, h)) (digits_end_sound t (ground (arith, h)))

      from : (t : List ℕ) → IsSomeDigitsEnd t → some_digits_end isdecimal t ≡ true
      from t (one_digit e u digit rest) = rw (digit, digits_end_complete u rest)

  digits_dash_sound : (s : List ℕ) → digits_dash isdecimal s ≡ true → IsDigitsDash s
  digits_dash_sound [] h = cc h
  digits_dash_sound (c ∷ s) h = elim (Bool-cases (isdecimal c && digits_dash isdecimal s)) [
    | inl both ↦ one_more c s (ground (arith, both)) (digits_dash_sound s (ground (arith, both)))
    | inr neither ↦
        let dash : c ≡ b'-' = ground (arith, h, neither) in
        rw dash
          (digits_then_dash [] s refl ((some_digits_end_iff s).0 (ground (arith, h, neither))))
  ]
    where
      one_more : (e : ℕ) (t : List ℕ) → isdecimal e ≡ true → IsDigitsDash t → IsDigitsDash (e ∷ t)
      one_more e t digit (digits_then_dash b u digits more) =
          digits_then_dash (e ∷ b) u (rw (digit, digits)) more

  digits_dash_complete : (s : List ℕ) → IsDigitsDash s → digits_dash isdecimal s ≡ true
  digits_dash_complete s (digits_then_dash b u digits more) = ahead b digits
    where
      ahead : (d : List ℕ) → all isdecimal d ≡ true → digits_dash isdecimal (d ++ b'-' ∷ u) ≡ true
      ahead [] ds = ground (arith, (some_digits_end_iff u).1 more)
      ahead (c ∷ d) ds = ground (arith, ds, ahead d)

  -- The texts that the check means to accept, and what the pattern also accepts behind them: a zero, or
  -- digits, a dash and digits, and then the end or one line feed.
  pub data IsStreamId : List ℕ → Type 0 where
    is_zero : (rest : List ℕ) → at_end rest ≡ true → IsStreamId (b'0' ∷ rest)
    is_pair :
        (d : ℕ) (a : List ℕ) (e : ℕ) (b rest : List ℕ)
        → all isdecimal (d ∷ a) ≡ true
        → all isdecimal (e ∷ b) ≡ true
        → at_end rest ≡ true
        → IsStreamId (d ∷ (a ++ b'-' ∷ (e ∷ (b ++ rest))))

  pair_of : (d : ℕ) (s : List ℕ) → isdecimal d ≡ true → IsDigitsDash s → IsStreamId (d ∷ s)
  pair_of d s digit
        (digits_then_dash a u digits (one_digit e t digit' (digits_then_end b rest digits' ends))) =
      is_pair d a e b rest (rw (digit, digits)) (rw (digit', digits')) ends

  match_sound :
      (s : List ℕ) → (zero_end isdecimal s || some_digits_dash isdecimal s) ≡ true → IsStreamId s
  match_sound [] h = cc h
  match_sound (c ∷ s) h = elim (Bool-cases (nat_eq c b'0' && at_end s)) [
    | inl both ↦
        let same : c ≡ b'0' = ground (arith, both) in rw same (is_zero s (ground (arith, both)))
    | inr neither ↦
        pair_of c s (ground (arith, h, neither)) (digits_dash_sound s (ground (arith, h, neither)))
  ]

  match_complete :
      (s : List ℕ) → IsStreamId s → (zero_end isdecimal s || some_digits_dash isdecimal s) ≡ true
  match_complete s (is_zero rest ends) = rw ends
  match_complete s (is_pair d a e b rest ds es ends) =
      let later : digits_dash isdecimal (a ++ b'-' ∷ (e ∷ (b ++ rest))) ≡ true =
        digits_dash_complete _ (
          digits_then_dash a (e ∷ (b ++ rest)) (ground (arith, ds)) (
            one_digit e (b ++ rest) (ground (arith, es))
              (digits_then_end b rest (ground (arith, es)) ends))) in
      ground (arith, ds, later)

  -- `_STREAM_ID_RE.match` accepts exactly a zero, or digits, a dash and digits, where digits are those of
  -- the interpreter's Unicode database, and each of these also with one line feed behind it.
  pub stream_id_re-accepts_iff :
      (s : String) → (stream_id_re isdecimal s ≡ true) ↔ IsStreamId (codes s)
  unfolding stream_id_re
  stream_id_re-accepts_iff s = (match_sound (codes s), match_complete (codes s))
