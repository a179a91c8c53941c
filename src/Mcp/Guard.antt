-- ===== src/Mcp/Guard.antt =====
-- packages/cli/src/mcp/http-guard.ts: which requests the server serves. `toLowerCase`, `new URL` and
-- the digest of a token are parameters.
pub mod Hosts
pub mod Served
mod Tests
use text.Mathlib.TextEquality.{eq_iff}
use Prim.Native.Char.{Char, code}
use codewatch.Base.{
  ◌&&◌, is_white, string_eq, read_digits, ◌||◌, contains, eqb, not, false, or_else, ◌==◌, true, [],
  Bool, ◌∷◌, glue, push_front, strip_prefix, if◌then◌else◌, Option, ℕ, String, none, some, List,
}

pub record GuardConfig : Type 0 where
  pub port : ℕ
  pub token : String

pub record Headers : Type 0 where
  pub host : Option String
  pub origin : Option String
  pub authorization : Option String

-- `new URL(s)` gives the protocol and the host name, or throws.
pub record Runtime : Type 0 where
  pub lower_case : String → String
  pub url : String → Option (String × String)
  pub digest : String → String

abbrev pub loopback_hostnames : List String
loopback_hostnames = "127.0.0.1" ∷ ("localhost" ∷ ("[::1]" ∷ []))

abbrev grow_front : Char → Option (String × String) → Option (String × String)
grow_front c none = none
grow_front c (some (front, rest)) = some (push_front c front, rest)

-- What stands before the first character of a code, and what after it.
unfoldable pub split_at : ℕ → String → Option (String × String)
split_at stop String.[] = none
split_at stop (String.◌∷◌ c s) =
    if eqb (code c) stop then some ("", s) else grow_front c (split_at stop s)

abbrev pub non_empty : Option (String × String) → Option (String × String)
non_empty none = none
non_empty (some (front, rest)) = if front == "" then none else some (front, rest)

-- `\d+` to the end, as a number.
abbrev pub port_number : String → Option ℕ
port_number digits = if digits == "" then none else read_digits 0 digits

abbrev pub with_port : String → Option ℕ → Option (String × ℕ)
with_port name none = none
with_port name (some port) = some (name, port)

-- `[^:]+:\d+`
abbrev pub plain_host : Option (String × String) → Option (String × ℕ)
plain_host none = none
plain_host (some (name, digits)) = with_port name (port_number digits)

abbrev pub port_after : Option String → Option ℕ
port_after none = none
port_after (some digits) = port_number digits

abbrev pub closed_host : Option (String × String) → Option (String × ℕ)
closed_host none = none
closed_host (some (inner, rest)) =
    with_port (glue "[" (glue inner "]")) (port_after (strip_prefix ":" rest))

-- `\[[^\]]+\]:\d+`
abbrev pub bracket_host : Option String → Option (String × ℕ)
bracket_host none = none
bracket_host (some inside) = closed_host (non_empty (split_at 93 inside))

abbrev pub or_plain : Option (String × ℕ) → Option (String × ℕ) → Option (String × ℕ)
or_plain (some h) o = some h
or_plain none o = o

-- `/^(\[[^\]]+\]|[^:]+):(\d+)$/`
unfoldable pub host_and_port : String → Option (String × ℕ)
host_and_port host =
    or_plain (bracket_host (strip_prefix "[" host)) (plain_host (non_empty (split_at 58 host)))

abbrev pub loopback_at : ℕ → Option (String × ℕ) → Bool
loopback_at port none = false
loopback_at port (some (name, p)) = contains loopback_hostnames name && eqb p port

-- `^Bearer (\S+)$`
abbrev no_white : String → Bool
no_white String.[] = true
no_white (String.◌∷◌ c s) = not (is_white c) && no_white s

abbrev pub is_token : String → Bool
is_token t = not (t == "") && no_white t

module _ (run : Runtime) where
  unfoldable pub is_loopback_host : Option String → ℕ → Bool
  is_loopback_host none port = false
  is_loopback_host (some host) port =
      if host == "" then false else loopback_at port (host_and_port (run.lower_case host))

  abbrev pub allowed_url : Option (String × String) → Bool
  allowed_url none = false
  allowed_url (some (protocol, hostname)) =
      (protocol == "http:" || protocol == "https:") && contains loopback_hostnames hostname

  unfoldable pub is_allowed_origin : Option String → Bool
  is_allowed_origin none = true
  is_allowed_origin (some origin) = allowed_url (run.url origin)

  abbrev pub presented : Option String → Option String
  presented none = none
  presented (some t) = if is_token t then some t else none

  abbrev pub same_digest : String → Option String → Bool
  same_digest token none = false
  same_digest token (some t) = run.digest t == run.digest token

  unfoldable pub has_bearer_token : Option String → String → Bool
  has_bearer_token authorization token =
      same_digest token (presented (strip_prefix "Bearer " (or_else authorization "")))

  unfoldable pub refusal_status : Headers → GuardConfig → Option ℕ
  refusal_status headers config =
      if not (is_loopback_host headers.host config.port)
      then some 403
      else if not (is_allowed_origin headers.origin)
      then some 403
      else if not (has_bearer_token headers.authorization config.token)
      then some 401
      else none
