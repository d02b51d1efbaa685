-- ===== src/Routers/Event/Tests.antt =====
-- Concrete requests of the Stream type, against a server in memory.
use redgw_lite.Prelude.{
  codes, ◌↔◌, ℕ, String, ◌≡◌, refl, Bool, true, false, List, [], ◌∷◌, leb, ◌&&◌,
}
use redgw_lite.Python.Value.{null}
use redgw_lite.Python.Exec.{returned, ◌>>=◌, for_each}
use redgw_lite.Response.{ok}
use redgw_lite.KeyBuilder.{joined, build_key, validate_ns, validate_key, ns_re, key_re}
use redgw_lite.Redis.{await}
use redgw_lite.Redis.Stops.{Raised}
use redgw_lite.Redis.Memory.{memory, memory_call}
use redgw_lite.Auth.ApiKey.{lookup}
use redgw_lite.Auth.Guard.{check_access, granted, require_access}
use redgw_lite.Routers.Fixtures.{defaults, reader, start}
use redgw_lite.Routers.Event.Ids.{stream_id_re}
use redgw_lite.Routers.Event.Ids.Accepted.{stream_id_re-accepts_iff, IsStreamId}
use redgw_lite.Routers.Event.{ack, serve, check_stream_id, ack_events}
use redgw_lite.Routers.Event.Scope.{event-ids_accepted}

-- The decimal digits among the ASCII characters.
abbrev isdecimal : ℕ → Bool
isdecimal c = leb b'0' c && leb c b'9'

zero_accepted : stream_id_re isdecimal "0" ≡ true
unfolding stream_id_re
zero_accepted = refl

pair_accepted : stream_id_re isdecimal "1526919030474-55" ≡ true
unfolding stream_id_re
pair_accepted = refl

line_feed_accepted : stream_id_re isdecimal "0\n" ≡ true
unfolding stream_id_re
line_feed_accepted = refl

stream_id_re-accepts_iff_example :
    (stream_id_re isdecimal "0\n" ≡ true) ↔ IsStreamId isdecimal (codes "0\n")
stream_id_re-accepts_iff_example = stream_id_re-accepts_iff isdecimal "0\n"

half_refused : stream_id_re isdecimal "15-" ≡ false
unfolding stream_id_re
half_refused = refl

abbrev fields : List (String × String)
fields = ("f", "2") ∷ []

event-ids_accepted_example :
    Raised start.redis
      (serve memory isdecimal defaults reader "ERP" (ack "a" "g" ("0-1" ∷ "15-" ∷ [])) start)
event-ids_accepted_example =
    event-ids_accepted memory isdecimal defaults reader "ERP" (ack "a" "g" ("0-1" ∷ "15-" ∷ []))
      start (unfold stream_id_re in refl)

got :
    (serve memory isdecimal defaults reader "ERP" (ack "a" "g" ("0-1" ∷ [])) start).0
    ≡ returned (ok (("acked", null) ∷ []) "ERP" "a" "stream")
unfolding ack_events check_stream_id stream_id_re require_access check_access granted lookup
    for_each build_key validate_ns validate_key ns_re key_re joined await memory_call ◌>>=◌
got = refl
