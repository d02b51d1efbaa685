-- ===== src/Routers/Pubsub/Publish.antt =====
-- app/routers/pubsub.py: publishing a message, and who can be subscribed to its channel.
use redgw_lite.Prelude.{
  String, ◌≡◌, ◌⊎◌, refl, ap, true, List, [], ◌∷◌, ◌⧺◌, some, All, Bool-cases, inl, inr,
}
use redgw_lite.Python.Value.{Value, str}
use redgw_lite.Python.Exec.{Exec, Result, pure, raise, lift, ◌>>=◌, ◌>>◌}
use redgw_lite.Python.Steps.{bind_pure_world}
use redgw_lite.Response.{Response, ok}
use redgw_lite.Settings.{Settings, DefaultsConfig}
use redgw_lite.KeyBuilder.{validate_ns, validate_key, ns_re, key_re}
use redgw_lite.KeyBuilder.Roundtrip.{same_namespace}
use redgw_lite.Redis.{World}
use redgw_lite.Auth.ApiKey.{ClientInfo, resolve_client}
use redgw_lite.Auth.Guard.{check_access, require_access, require_write}
use redgw_lite.Validation.{check_value_size, exceeds_size}
use redgw_lite.Routers.Pubsub.Sessions.{Sessions, Reaches, IsReadable, readable, Reaches-IsBounded}

-- `r.publish(channel, message)`, of the client library.
pub record Publisher (R : Type 0) : Type 0 where
  pub publish : String → String → R → Result Value × R

module _ {R : Type 0} (redis : Publisher R) (defaults : DefaultsConfig) (client : ClientInfo) where
  unfoldable pub await_publish : String → String → Exec (World R) Value
  await_publish channel message w =
      let (result, r) = redis.publish channel message w.redis in (result, record w { redis = r })

  unfoldable pub publish_message : String → String → String → Exec (World R) Response
  publish_message ns channel message = do
    require_write client ns
    _ ← lift (validate_ns ns)
    _ ← lift (validate_key channel)
    check_value_size defaults message "Message"
    let full_channel = ns ⧺ ":" ⧺ channel
    receivers ← await_publish full_channel message
    pure (ok (("channel", str full_channel) ∷ ("receivers", receivers) ∷ []) ns channel "pubsub")

  -- Nothing is published, or the message on the channel, by a client that may write in the namespace.
  abbrev pub IsPublished : String → String → String → World R → World R → Type 0
  IsPublished ns channel message before after =
      (after.redis ≡ before.redis)
      ⊎ ((check_access client ns "write" ≡ true)
          × (ns_re ns ≡ true)
          × (after.redis ≡ (redis.publish (ns ⧺ ":" ⧺ channel) message before.redis).1))

  publish_message-IsPublished :
      (ns channel message : String) (w : World R)
      → IsPublished ns channel message w (publish_message ns channel message w).1
  unfolding publish_message await_publish ◌>>=◌ pure raise lift require_access validate_ns
      validate_key check_value_size
  publish_message-IsPublished ns channel message w =
      elim (Bool-cases (check_access client ns "write")) [
        | inr denied ↦ rw denied (inl refl)
        | inl granted ↦ elim (Bool-cases (ns_re ns)) [
          | inr bad ↦ rw (granted, bad) (inl refl)
          | inl valid ↦ elim (Bool-cases (key_re channel)) [
            | inr bad ↦ rw (granted, valid, bad) (inl refl)
            | inl named ↦ elim (Bool-cases (exceeds_size message defaults.max_value_size)) [
              | inl long ↦ rw (granted, valid, named, long) (inl refl)
              | inr short ↦
                  rw (granted, valid, named, short)
                    (inr (
                      refl,
                      refl,
                      ap (λ v. v.redis)
                          (bind_pure_world (await_publish (ns ⧺ ":" ⧺ channel) message)
                            (λ receivers.
                              ok
                                (("channel", str (ns ⧺ ":" ⧺ channel))
                                  ∷ ("receivers", receivers)
                                  ∷ [])
                                ns channel "pubsub")
                            w),
                    ))
            ]
          ]
        ]
      ]

-- A client of the settings that may read in the namespace.
abbrev pub HasReader : Settings → String → Type 0
HasReader settings ns =
    (api_key : String) × (reader : ClientInfo) × (resolve_client settings api_key ≡ some reader)
    × (check_access reader ns "read" ≡ true)

IsReadable-HasReader :
    (settings : Settings) (ns channel subscribed : String)
    → ns_re ns ≡ true
    → subscribed ≡ ns ⧺ ":" ⧺ channel
    → IsReadable settings subscribed
    → HasReader settings ns
IsReadable-HasReader settings ns channel subscribed valid same
      (readable other theirs api_key reader known granted valid') =
    let e : other ≡ ns = same_namespace other ns theirs channel valid' valid same in
    (api_key, reader, known, rw (← e) granted)

readable_channels :
    (settings : Settings) (ns channel : String) (channels : List String)
    → ns_re ns ≡ true
    → All (IsReadable settings) channels
    → All (λ subscribed. subscribed ≡ ns ⧺ ":" ⧺ channel → HasReader settings ns) channels
readable_channels settings ns channel [] valid h = tt
readable_channels settings ns channel (c ∷ cs) valid (h, hs) = (
  (λ same. IsReadable-HasReader settings ns channel c valid same h),
  readable_channels settings ns channel cs valid hs,
)

module _ {R : Type 0} (redis : Publisher R) (defaults : DefaultsConfig) (client : ClientInfo)
    (settings : Settings) where
  -- What becomes of a message, with the connections that are open.
  abbrev pub IsDelivered : Sessions → String → String → String → World R → World R → Type 0
  IsDelivered s ns channel message before after =
      (after.redis ≡ before.redis)
      ⊎ ((check_access client ns "write" ≡ true)
          × (after.redis ≡ (redis.publish (ns ⧺ ":" ⧺ channel) message before.redis).1)
          × All (λ subscribed. subscribed ≡ ns ⧺ ":" ⧺ channel → HasReader settings ns) s.channels)

  pub publish_message-IsDelivered :
      {s : Sessions}
      → Reaches settings s
      → (ns channel message : String) (w : World R)
      → IsDelivered s ns channel message w
          (publish_message redis defaults client ns channel message w).1
  publish_message-IsDelivered {s} reached ns channel message w =
      elim (publish_message-IsPublished redis defaults client ns channel message w) [
        | inl unchanged ↦ inl unchanged
        | inr (may_write, valid, published) ↦
            let (counted, bound, allowed) = Reaches-IsBounded settings reached in
            inr
              (may_write, published, readable_channels settings ns channel s.channels valid allowed)
      ]
