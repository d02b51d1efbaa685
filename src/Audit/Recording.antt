-- ===== src/Audit/Recording.antt =====
-- What app/audit/middleware.py captures of a body, and what it does not record.
use mathlib.Core.List.{append_assoc, append-nil}
use redgw_lite.Prelude.{
  ℕ, zero, suc, String, ◌≡◌, ◌⊎◌, refl, ap, sym, ◌∙◌, true, false, List, [], ◌∷◌, ◌++◌, ◌-◌, ◌≤◌,
  ◌⧺◌, ◌==◌, leb, leb→le, length, length-append, take, take_all, codes-append, arith, Bool-cases,
  inl, inr, if◌then◌else◌,
}
use redgw_lite.Audit.{
  decide_capture, Message, request, other, Capture, nothing_captured, capture_chunk, receive,
  receive_all, joined_chunks, without_id, echo_id,
}

-- What the messages hold of the body.
abbrev pub body_of : List Message → List ℕ
body_of [] = []
body_of (request chunk ∷ ms) = chunk ++ body_of ms
body_of (other ∷ ms) = body_of ms

take-append_short :
    (n : ℕ) (xs ys : List ℕ) → length xs ≤ n → take n (xs ++ ys) ≡ xs ++ take (n - length xs) ys
take-append_short n [] ys h = let e : n ≡ n - 0 = omega arith in ap (λ k. take k ys) e
take-append_short zero (x ∷ xs) ys h = absurd (omega (arith, h))
take-append_short (suc n) (x ∷ xs) ys h =
    let e : n - length xs ≡ suc n - suc (length xs) = omega arith in
    ap (λ zs. x ∷ zs) (take-append_short n xs ys (omega (arith, h)))
    ∙ ap (λ k. x ∷ (xs ++ take k ys)) e

take-append_long : (n : ℕ) (xs ys : List ℕ) → n ≤ length xs → take n (xs ++ ys) ≡ take n xs
take-append_long zero xs ys h = refl
take-append_long (suc n) [] ys h = absurd (omega (arith, h))
take-append_long (suc n) (x ∷ xs) ys h =
    ap (λ zs. x ∷ zs) (take-append_long n xs ys (omega (arith, h)))

take-nil : (n : ℕ) → ◌≡◌ {A = List ℕ} [] (take n [])
take-nil zero = refl
take-nil (suc n) = refl

joined_chunks-append :
    (cs : List (List ℕ)) (c : List ℕ) → joined_chunks (cs ++ c ∷ []) ≡ joined_chunks cs ++ c
joined_chunks-append [] c = append-nil c
joined_chunks-append (d ∷ cs) c =
    ap (λ xs. d ++ xs) (joined_chunks-append cs c) ∙ sym (append_assoc d (joined_chunks cs) c)

module _ (max : ℕ) where
  -- The state after the part `seen` of the body.
  abbrev pub IsCapture : List ℕ → Capture → Type 0
  IsCapture seen st =
      (joined_chunks st.chunks ≡ take max seen)
      × (st.truncated ≡ false → (st.total ≡ length seen) × (length seen ≤ max))
      × (st.truncated ≡ true → max ≤ length seen)

  capture_chunk-IsCapture :
      (seen chunk : List ℕ) (st : Capture)
      → st.truncated ≡ false
      → IsCapture seen st
      → IsCapture (seen ++ chunk) (capture_chunk max chunk st)
  capture_chunk-IsCapture seen chunk st open_still (same, short, long) =
      let (total, room) = short open_still in
      let held : joined_chunks st.chunks ≡ seen = same ∙ take_all max seen room in
      elim (Bool-cases (leb (length chunk) (max - st.total))) [
        | inl fits ↦
            let small : length (seen ++ chunk) ≤ max =
              omega (arith, length-append seen chunk, leb→le _ _ fits, total, room) in
            rw fits (
              joined_chunks-append st.chunks chunk
                  ∙ ap (λ xs. xs ++ chunk) held
                  ∙ sym (take_all max (seen ++ chunk) small),
              (λ _. (omega (arith, length-append seen chunk, total), small)),
              λ e. cc e,
            )
        | inr over ↦ rw over (
          joined_chunks-append st.chunks (take (max - st.total) chunk)
              ∙ ap (λ xs. xs ++ take (max - st.total) chunk) held
              ∙ ap (λ n. seen ++ take (max - n) chunk) total
              ∙ sym (take-append_short max seen chunk room),
          (λ e. cc e),
          λ _. ground (arith, length-append seen chunk, total, room, over),
        )
      ]

  receive-IsCapture :
      (seen : List ℕ) (m : Message) (st : Capture)
      → IsCapture seen st
      → IsCapture (seen ++ body_of (m ∷ [])) (receive max m st)
  unfolding receive
  receive-IsCapture seen other st h = rw append-nil h
  receive-IsCapture seen (request []) st h = rw append-nil h
  receive-IsCapture seen (request (b ∷ bs)) st h = elim (Bool-cases st.truncated) [
    | inl full ↦
        let (same, short, long) = h in
        let enough : max ≤ length seen = long full in
        rw (full, append-nil)
          (
            same ∙ sym (take-append_long max seen (b ∷ bs) enough),
            (λ e. cc (full, e)),
            λ _. omega (arith, length-append seen (b ∷ bs), enough),
          )
    | inr open_still ↦
        rw (open_still, append-nil) (capture_chunk-IsCapture seen (b ∷ bs) st open_still h)
  ]

  body_of-cons :
      (m : Message) (ms : List Message) → body_of (m ∷ ms) ≡ body_of (m ∷ []) ++ body_of ms
  body_of-cons other ms = refl
  body_of-cons (request chunk) ms = ap (λ c. c ++ body_of ms) (sym (append-nil chunk))

  receive_all-IsCapture :
      (seen : List ℕ) (ms : List Message) (st : Capture)
      → IsCapture seen st
      → IsCapture (seen ++ body_of ms) (receive_all max ms st)
  unfolding receive_all
  receive_all-IsCapture seen [] st h = rw append-nil h
  receive_all-IsCapture seen (m ∷ ms) st h =
      rw (body_of-cons m ms, ← append_assoc seen (body_of (m ∷ [])) (body_of ms))
        (receive_all-IsCapture (seen ++ body_of (m ∷ [])) ms (receive max m st)
          (receive-IsCapture seen m st h))

  -- In whatever messages a body comes, what is captured of it is its first `max` bytes, one after the
  -- other and with none left out; and unless the capture says that it was cut off, that is the whole
  -- body.
  pub receive_all-captured :
      (ms : List Message)
      → (joined_chunks (receive_all max ms nothing_captured).chunks ≡ take max (body_of ms))
        × ((receive_all max ms nothing_captured).truncated ≡ true
            ⊎ (joined_chunks (receive_all max ms nothing_captured).chunks ≡ body_of ms))
  receive_all-captured ms =
      let (same, short, long) =
        receive_all-IsCapture [] ms nothing_captured
          (take-nil max, (λ _. (refl, omega arith)), λ e. cc e) in
      (
        same,
        elim (Bool-cases (receive_all max ms nothing_captured).truncated) [
          | inl full ↦ inl full
          | inr whole ↦ inr (same ∙ take_all max (body_of ms) (short whole).1)
        ],
      )

-- At level 1 no request in a namespace with the name "publish" is recorded, whatever its method, its
-- data type and its key: its path holds the text by which publishing to a channel is told apart.
decide_capture-publish_namespace :
    (method rest : String) → decide_capture method ("/api/v1/ns/publish/" ⧺ rest) 1 ≡ false
unfolding decide_capture
decide_capture-publish_namespace method rest = rw (codes-append "/api/v1/ns/publish/" rest)

-- The values of the header x-request-id.
abbrev pub ids_of : List (String × String) → List String
ids_of [] = []
ids_of ((n, v) ∷ headers) = if n == "x-request-id" then v ∷ ids_of headers else ids_of headers

ids_of-echo :
    (request_id : String) (headers : List (String × String))
    → ids_of (without_id headers ++ ("x-request-id", request_id) ∷ []) ≡ request_id ∷ []
unfolding without_id
ids_of-echo request_id [] = refl
ids_of-echo request_id ((n, v) ∷ headers) = elim (Bool-cases (n == "x-request-id")) [
  | inl same ↦ rw same (ids_of-echo request_id headers)
  | inr differ ↦ rw (differ, differ) (ids_of-echo request_id headers)
]

without_id-echo :
    (request_id : String) (headers : List (String × String))
    → without_id (without_id headers ++ ("x-request-id", request_id) ∷ []) ≡ without_id headers
unfolding without_id
without_id-echo request_id [] = refl
without_id-echo request_id ((n, v) ∷ headers) = elim (Bool-cases (n == "x-request-id")) [
  | inl same ↦ rw same (without_id-echo request_id headers)
  | inr differ ↦ rw (differ, differ) (ap (λ hs. (n, v) ∷ hs) (without_id-echo request_id headers))
]

-- A response carries the header x-request-id exactly once, with the identifier of the request, whatever
-- the handler set; and the handler's other headers are there as they were and in their order.
pub echo_id-once :
    (request_id : String) (headers : List (String × String))
    → (ids_of (echo_id request_id headers) ≡ request_id ∷ [])
      × (without_id (echo_id request_id headers) ≡ without_id headers)
unfolding echo_id
echo_id-once request_id headers =
    (ids_of-echo request_id headers, without_id-echo request_id headers)
