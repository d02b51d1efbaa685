-- ===== src/Routers/Rank/Scores.antt =====
-- The scores that app/routers/rank.py refuses: nan and the infinities.
use redgw_lite.Prelude.{
  String, ◌≡◌, refl, Bool, true, false, List, [], ◌∷◌, all, Bool-cases, inl, inr,
}
use redgw_lite.Python.Value.{Float, isfinite}
use redgw_lite.Python.Exec.{◌>>◌, for_each}
use redgw_lite.Settings.{DefaultsConfig}
use redgw_lite.Redis.{Redis, World}
use redgw_lite.Redis.Keeps.{Keeps, Keeps-require, Keeps-bind}
use redgw_lite.Redis.Stops.{Stops, Stops-raise, Stops-first, Stops-then, Raised}
use redgw_lite.Auth.ApiKey.{ClientInfo}
use redgw_lite.Validation.Keeps.{Keeps-check_value_size}
use redgw_lite.Routers.Rank.Scope.{Keeps-check_finite}
use redgw_lite.Validation.{check_value_size}
use redgw_lite.Routers.Rank.Replies.{RankMemberScore}
use redgw_lite.Routers.Rank.{
  RankRequest, batch_add, add, incr, serve, check_finite, score_message, batch_add_rank, add_rank,
  incr_rank,
}

-- The scores and the increment that a request wants to store.
abbrev pub scores_finite : RankRequest → Bool
scores_finite (batch_add key body) = all (λ item. isfinite item.score) body.members
scores_finite (add key body) = isfinite body.score
scores_finite (incr key member delta) = isfinite delta
scores_finite _ = true

module _ {R : Type 0} {r : R} where
  Stops-check_finite :
      (x : Float) (message : String)
      → isfinite x ≡ false
      → Stops r (check_finite {W = World R} x message)
  unfolding check_finite
  Stops-check_finite x message infinite = rw infinite (Stops-raise _)

  -- The loop of `batch_add_rank` over the members.
  Stops-check_members :
      (defaults : DefaultsConfig) (items : List RankMemberScore)
      → all (λ item. isfinite item.score) items ≡ false
      → Stops r (
          for_each {W = World R} items (λ item. do
            check_value_size defaults item.member "Member"
            check_finite item.score score_message))
  unfolding for_each
  Stops-check_members defaults [] h = cc h
  Stops-check_members defaults (item ∷ items) h = elim (Bool-cases (isfinite item.score)) [
    | inl finite ↦
        Stops-then _ _ (Keeps-checks item)
          (λ _. Stops-check_members defaults items (rw finite at h))
    | inr infinite ↦ Stops-first _ _ (
        Stops-then _ _ (Keeps-check_value_size defaults item.member "Member")
          (λ _. Stops-check_finite item.score score_message infinite))
  ]
    where
      Keeps-checks :
          (i : RankMemberScore)
          → Keeps
              (λ s. s ≡ r)
              (do
                check_value_size defaults i.member "Member"
                check_finite {W = World R} i.score score_message)
      Keeps-checks i = search (Keeps-bind, Keeps-check_value_size, Keeps-check_finite)

module _ {R : Type 0} (redis : Redis R) (defaults : DefaultsConfig) (client : ClientInfo) where
  rank-Stops :
      (r : R) (ns : String) (q : RankRequest)
      → scores_finite q ≡ false
      → Stops r (serve redis defaults client ns q)
  unfolding batch_add_rank add_rank incr_rank
  rank-Stops r ns (batch_add key body) h =
      Stops-then _ _ (Keeps-require client ns "write")
        λ _. Stops-first _ _ (Stops-check_members defaults body.members h)
  rank-Stops r ns (add key body) h = Stops-then _ _ (Keeps-require client ns "write") λ _.
      Stops-then _ _ (Keeps-check_value_size defaults body.member "Member")
        λ _. Stops-first _ _ (Stops-check_finite body.score score_message h)
  rank-Stops r ns (incr key member delta) h = Stops-then _ _ (Keeps-require client ns "write") λ _.
      Stops-then _ _ (Keeps-check_value_size defaults member "Member")
        λ _. Stops-first _ _ (Stops-check_finite delta _ h)
  rank-Stops r ns q h = cc h

  -- A request that would store a score, or add an increment, that is nan or infinite raises an
  -- exception and sends nothing: the server's state is what it was, also if only one of the members
  -- of a batch has such a score.
  pub rank-finite :
      (ns : String) (q : RankRequest) (w : World R)
      → scores_finite q ≡ false
      → Raised w.redis (serve redis defaults client ns q w)
  rank-finite ns q w h = (rank-Stops w.redis ns q h).at w refl
