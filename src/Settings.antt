-- ===== src/Settings.antt =====
-- The settings of app/config.py that the handlers, the authentication and the validation read.
use redgw_lite.Prelude.{String, List, ℤ}

-- `ClientConfig`; a dict keeps its entries in order of insertion.
pub record ClientConfig : Type 0 where
  pub api_key : String
  pub description : String
  pub namespaces : List (String × List String)

-- `DefaultsConfig`. The two lengths and the size are `int` in the source, compared with lengths.
pub record DefaultsConfig : Type 0 where
  pub ttl : ℤ
  pub max_list_length : ℤ
  pub max_stream_length : ℤ
  pub max_value_size : ℤ

pub record Settings : Type 0 where
  pub clients : List (String × ClientConfig)
  pub defaults : DefaultsConfig
  pub admin_api_key : String
  pub redis_url : String
  pub server_port : ℤ
  pub cors_origins : List String
  pub log_level : String
