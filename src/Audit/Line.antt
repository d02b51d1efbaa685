-- ===== src/Audit/Line.antt =====
-- app/audit/middleware.py: the line of JSON that a request leaves in the audit log.
use redgw_lite.Prelude.{
  ℕ, String, Bool, true, false, not, ◌&&◌, Option, none, some, List, [], ◌∷◌, ◌++◌, ◌+◌, ℤ, pos,
  code, codes, nat_eq, ltb, leb, length, take, first_chars, if◌then◌else◌,
}
use redgw_lite.Python.Value.{Value, null, int, str}
use redgw_lite.KeyBuilder.{contains}
use redgw_lite.Audit.Log.{
  validate_request_id, decode_ascii, strip, first_header, extract_ip, extract_key,
  detect_admin_action,
}
use redgw_lite.Audit.Origin.{extract_ns}

-- The settings of the audit that the middleware reads.
pub record AuditConfig : Type 0 where
  pub level : ℕ
  pub exclude_paths : List String
  pub payload_prefix_bytes : ℕ
  pub correlation : Bool
  pub correlation_ttl_seconds : ℤ

-- A scope before the application runs. A header's value is a text with a character for each byte.
pub record Scope : Type 0 where
  pub is_http : Bool
  pub method : String
  pub path : String
  pub headers : List (String × String)
  pub client : Option String

-- A pending event: its name and its error code.
abbrev pub Pending : Type 0
Pending = Option (String × Option String)

-- What the standard library answers for this request: the new UUID, the time, the duration, SHA-256 as
-- text, whether bytes are UTF-8, their text with replacements, and `json.dumps`.
pub record Library : Type 0 where
  pub uuid4 : String
  pub ts : String
  pub latency_ms : Value
  pub sha256 : List ℕ → String
  pub is_utf8 : List ℕ → Bool
  pub decode_replace : List ℕ → String
  pub dumps : List (String × Value) → String

abbrev pub opt_str : Option String → Value
opt_str none = null
opt_str (some s) = str s

-- `content_type.split(";")[0]`
abbrev before_semicolon : String → String
before_semicolon String.[] = ""
before_semicolon (String.◌∷◌ c s) =
    let rest = before_semicolon s in if nat_eq (code c) b';' then "" else String.◌∷◌ c rest

-- A character of ASCII, after `lower()`.
abbrev lower_code : ℕ → ℕ
lower_code c = if leb b'A' c && leb c b'Z' then c + 32 else c

-- Whether the text is `s` after `lower()`.
abbrev lower_is : List ℕ → List ℕ → Bool
lower_is [] [] = true
lower_is [] (d ∷ t) = false
lower_is (c ∷ s) [] = false
lower_is (c ∷ s) (d ∷ t) = nat_eq (lower_code c) d && lower_is s t

abbrev pub no_value_fields : List (String × Value)
no_value_fields = ("value_hash", null) ∷ ("value_size", null) ∷ ("value_type", null) ∷ []

-- `p_event, p_error_code`
abbrev pub event_of : Pending → String × Option String
event_of none = ("api_call", none)
event_of (some event) = event

-- The header x-request-id, or the empty text.
abbrev pub text_of : Option String → String
text_of none = ""
text_of (some val) = decode_ascii val

module _ (library : Library) where
  -- `_detect_value_type`
  unfoldable pub detect_value_type : List ℕ → String → String
  detect_value_type body content_type =
      let ct = codes (strip (before_semicolon content_type)) in
      if lower_is ct (codes "application/json")
      then "json"
      else if lower_is ct (codes "application/octet-stream")
      then "binary"
      else if library.is_utf8 body
      then "string"
      else "binary"

  -- `value_hash`, `value_size` and `value_type` of a record.
  unfoldable pub value_fields : String → List ℕ → String → List (String × Value)
  value_fields method body content_type =
      if contains method ("PUT" ∷ "POST" ∷ "DELETE" ∷ []) && not (nat_eq (length body) 0)
      then ("value_hash", str (first_chars 16 (library.sha256 body)))
        ∷ ("value_size", int (pos (length body)))
        ∷ ("value_type", str (detect_value_type body content_type))
        ∷ []
      else ("value_hash", null) ∷ ("value_size", null) ∷ ("value_type", null) ∷ []

  -- `record`, of both: what is in it before and behind the fields of the value.
  unfoldable pub record_fields :
      Scope
      → String
      → String × Option String
      → Option String
      → ℕ
      → List (String × Value)
      → List (String × Value)
  record_fields scope request_id (event, error_code) client_id status value =
      ("ts", str library.ts)
      ∷ ("request_id", str request_id)
      ∷ ("event", str event)
      ∷ ("client_id", opt_str client_id)
      ∷ ("ip", opt_str (extract_ip scope.headers scope.client))
      ∷ ("method", str scope.method)
      ∷ ("path", str scope.path)
      ∷ ("ns", opt_str (extract_ns scope.path))
      ∷ ("key", opt_str (extract_key scope.path))
      ∷ ("status", int (pos status))
      ∷ ("error_code", opt_str error_code)
      ∷ ("latency_ms", library.latency_ms)
      ∷ (value
          ++ ("admin_action", opt_str (detect_admin_action scope.path))
            ∷ ("schema_version", int (pos 1))
            ∷ [])

  -- `value_prefix`, which only level 2 adds.
  unfoldable pub prefix_field : AuditConfig → List ℕ → List (String × Value)
  prefix_field config body =
      if nat_eq config.level 2 && ltb 0 config.payload_prefix_bytes && not (nat_eq (length body) 0)
      then ("value_prefix", str (library.decode_replace (take config.payload_prefix_bytes body)))
        ∷ []
      else []

  -- The text that is stored as the origin of a write.
  abbrev pub origin_value : String → Option String → String
  origin_value request_id client_id = library.dumps (
      ("request_id", str request_id)
      ∷ ("client_id", opt_str client_id)
      ∷ ("ts", str library.ts)
      ∷ [])

  unfoldable pub request_id_of : Scope → String
  request_id_of scope =
      validate_request_id library.uuid4 (text_of (first_header "x-request-id" scope.headers))
