-- ===== src/Mcp/Guard/Tests.antt =====
-- Small cases of the request guard.
use codewatch.Mcp.Guard.{
  GuardConfig, Headers, Runtime, refusal_status, is_loopback_host, host_and_port, split_at,
  is_allowed_origin, has_bearer_token,
}
use codewatch.Mcp.Guard.Served.{HasLoopback, HasToken, IsLocalOrigin, refusal_status_lem}
use codewatch.Base.{
  ◌⊎◌, strip_prefix, read_digits, string_eq, ◌↔◌, refl, ◌==◌, none, some, ◌≡◌, if◌then◌else◌,
}

-- Texts in small letters already, one page, and digests that are the texts.
abbrev plain_run : Runtime
plain_run = record {
  lower_case = λ s. s;
  url = λ s. if s == "http://localhost:9" then some ("http:", "localhost") else none;
  digest = λ s. s;
}

abbrev config : GuardConfig
config = record { port = 8080; token = "s3cret" }

abbrev good_request : Headers
good_request = record {
  host = some "127.0.0.1:8080";
  origin = some "http://localhost:9";
  authorization = some "Bearer s3cret";
}

good_served : refusal_status plain_run good_request config ≡ none
unfolding refusal_status is_loopback_host host_and_port strip_prefix split_at read_digits
    is_allowed_origin has_bearer_token
good_served = refl

refusal_status_lem_example :
    ((refusal_status plain_run good_request config ≡ none) ↔ (
      HasLoopback plain_run good_request.host config.port
      × IsLocalOrigin plain_run good_request.origin
      × HasToken plain_run good_request.authorization config.token))
    × ((refusal_status plain_run good_request config ≡ some 401) ↔ (
        HasLoopback plain_run good_request.host config.port
        × IsLocalOrigin plain_run good_request.origin
        × (¬ HasToken plain_run good_request.authorization config.token)))
    × ((refusal_status plain_run good_request config ≡ some 403) ↔ (
        (¬ HasLoopback plain_run good_request.host config.port)
        ⊎ (¬ IsLocalOrigin plain_run good_request.origin)))
refusal_status_lem_example = refusal_status_lem plain_run good_request config
