-- ===== src/Routers/Rank/Replies.antt =====
-- The replies and the members that app/routers/rank.py takes apart.
use redgw_lite.Prelude.{String, true, false, List, [], ◌∷◌}
use redgw_lite.Python.Value.{
  Value, Float, nil, cons, list, dict, items_of, values_of, fields_of, truthy,
}
use redgw_lite.Python.Exec.{Result, returned, raised, value_error}
use redgw_lite.Auth.ApiKey.{store}

-- Of app/schemas/rank.py
pub record RankMemberScore : Type 0 where
  pub member : String
  pub score : Float

-- `[{"member": m, "score": s} for m, s in results]`
unfoldable pub member_scores : List Value → Result (List Value)
member_scores [] = returned []
member_scores (list (cons m (cons s nil)) ∷ results) = elim (member_scores results) [
  | returned rest ↦ returned (dict (fields_of (("member", m) ∷ ("score", s) ∷ [])) ∷ rest)
  | raised e ↦ raised e
]
member_scores (_ ∷ results) = raised (value_error "unpack")

-- Iterating over a reply of pairs; of the replies that are iterated over, only lists occur.
unfoldable pub scores_of : Value → Result (List Value)
unfolding member_scores
scores_of (list results) = member_scores (values_of results)
scores_of _ = raised (value_error "unpack")

-- The loop of `batch_get_rank` over `zip(body.keys, results)`.
unfoldable pub ranked :
    List String → List Value → List (String × Value) → Result (List (String × Value))
ranked (k ∷ ks) (result ∷ results) values = elim (truthy result) [
  | false ↦ ranked ks results values
  | true ↦ elim (scores_of result) [
    | returned scores ↦ ranked ks results (store k (list (items_of scores)) values)
    | raised e ↦ raised e
  ]
]
ranked _ _ values = returned values

-- `{item.member: item.score for item in body.members}`, with the entries of `d` before it.
unfoldable pub score_mapping : List RankMemberScore → List (String × Float) → List (String × Float)
score_mapping [] d = d
score_mapping (item ∷ items) d = score_mapping items (store item.member item.score d)

-- `member, score = result[0]`
abbrev pub first_pair : Value → Result (Value × Value)
first_pair (list (cons (list (cons m (cons s nil))) rest)) = returned (m, s)
first_pair _ = raised (value_error "unpack")
