-- ===== src/Mcp/Guard/Served.antt =====
-- Which requests are served.
use text.Mathlib.TextEquality.{eq_iff}
use codewatch.Mcp.Guard.{
  GuardConfig, Headers, is_allowed_origin, allowed_url, refusal_status, has_bearer_token, presented,
  same_digest, is_token, is_loopback_host, Runtime, loopback_at, host_and_port, loopback_hostnames,
}
use codewatch.Mcp.Guard.Hosts.{
  IsLoopback, split_or_none, host_or_none, text_or_none, none_is_no_value, false_is_no_truth,
  host_and_port-Names, host_and_port-loopback,
}
use codewatch.Base.{
  strip_prefix-glue, strip_prefix-eq, not, if◌then◌else◌, Bool, contains_iff, contains, string_eq,
  ◌↔◌, true, ◌==◌, false, inr, sym, ◌∙◌, inl, refl, ◌⊎◌, arith, none, ap, Option, Bool-cases,
  strip_prefix, Memᴰ, some, ◌≡◌, ℕ, String, glue,
}

module _ (run : Runtime) where
  -- The header names this machine on the port.
  abbrev pub HasLoopback : Option String → ℕ → Type 0
  HasLoopback header port =
      (host : String) × (header ≡ some host)
      × (host == "" ≡ false)
      × IsLoopback (run.lower_case host) port

  -- There is no origin, or it is a web page of this machine.
  abbrev pub IsLocalOrigin : Option String → Type 0
  IsLocalOrigin header =
      (header ≡ none)
      ⊎ ((origin : String) × (protocol : String) × (hostname : String) × (header ≡ some origin)
          × (run.url origin ≡ some (protocol, hostname))
          × ((protocol ≡ "http:") ⊎ (protocol ≡ "https:"))
          × Memᴰ hostname loopback_hostnames)

  -- A token without white space, whose digest is that of the server's.
  abbrev pub HasToken : Option String → String → Type 0
  HasToken header token =
      (t : String) × (header ≡ some (glue "Bearer " t))
      × (is_token t ≡ true)
      × (run.digest t ≡ run.digest token)

  loopback_at-Names :
      (host : String) (port : ℕ)
      → (loopback_at port (host_and_port host) ≡ true) ↔ IsLoopback host port
  loopback_at-Names host port = (
    λ h. elim (host_or_none (host_and_port host)) [
      | inl nothing ↦ absurd (false_is_no_truth (sym (ap (loopback_at port) nothing) ∙ h))
      | inr ((name, p), found) ↦
          let both = sym (ap (loopback_at port) found) ∙ h in
          let same : p ≡ port = ground (arith, both) in
          let listed : contains loopback_hostnames name ≡ true = ground (arith, both) in
          let (digits, e, q) = host_and_port-Names host name p found in
          (name, digits, (contains_iff loopback_hostnames name).0 listed, e, q ∙ ap some same)
    ],
    λ (name, digits, m, e, q).
        let found = ap host_and_port e ∙ host_and_port-loopback name digits port m q in
        let listed = (contains_iff loopback_hostnames name).1 m in
        ap (loopback_at port) found ∙ ground (arith, listed),
  )

  is_loopback_host_lem :
      (header : Option String) (port : ℕ)
      → (is_loopback_host run header port ≡ true) ↔ HasLoopback header port
  unfolding is_loopback_host
  is_loopback_host_lem none port = (λ h. cc, λ (host, e, given, l). absurd (none_is_no_value e))
  is_loopback_host_lem (some host) port =
      let at = loopback_at-Names (run.lower_case host) port in
      (
        λ h. (host, refl, ground (arith, h), at.0 (ground (arith, h))),
        λ (other, e, given, l).
            let same : other ≡ host = cc in
            let good = at.1 (rw same at l) in
            let new : host == "" ≡ false = rw same at given in ground (arith, good, new),
      )

  allowed_url_lem :
      (protocol hostname : String)
      → (allowed_url run (some (protocol, hostname)) ≡ true)
        ↔ (((protocol ≡ "http:") ⊎ (protocol ≡ "https:")) × Memᴰ hostname loopback_hostnames)
  allowed_url_lem protocol hostname =
      let listed = contains_iff loopback_hostnames hostname in
      let http = eq_iff protocol "http:" in
      let https = eq_iff protocol "https:" in ground (arith, listed, http, https)

  is_allowed_origin_lem :
      (header : Option String) → (is_allowed_origin run header ≡ true) ↔ IsLocalOrigin header
  unfolding is_allowed_origin
  is_allowed_origin_lem none = (λ h. inl refl, λ o. refl)
  is_allowed_origin_lem (some origin) = (
    λ h. elim (split_or_none (run.url origin)) [
      | inl nothing ↦ absurd (false_is_no_truth (sym (ap (allowed_url run) nothing) ∙ h))
      | inr ((protocol, hostname), e) ↦
          let (p, m) = (allowed_url_lem protocol hostname).0 (sym (ap (allowed_url run) e) ∙ h) in
          inr (origin, protocol, hostname, refl, e, p, m)
    ],
    λ o. elim o [
      | inl e ↦ absurd (none_is_no_value (sym e))
      | inr (other, protocol, hostname, e, u, p, m) ↦
          let same : origin ≡ other = cc in
          ap (λ w. allowed_url run (run.url w)) same
          ∙ ap (allowed_url run) u
          ∙ (allowed_url_lem protocol hostname).1 (p, m)
    ],
  )

  abbrev accepted : String → Option String → Bool
  accepted token rest = same_digest run token (presented run rest)

  accepted-lem :
      (token t : String)
      → (accepted token (some t) ≡ true) ↔ ((is_token t ≡ true) × (run.digest t ≡ run.digest token))
  accepted-lem token t = elim (Bool-cases (is_token t)) [
    | inl good ↦
        let same = eq_iff (run.digest t) (run.digest token) in
        rw good (λ h. (refl, same.0 h), λ (g, e). same.1 e)
    | inr bad ↦ rw bad (λ h. absurd (false_is_no_truth h), λ (g, e). absurd (false_is_no_truth g))
  ]

  has_bearer_token_lem :
      (header : Option String) (token : String)
      → (has_bearer_token run header token ≡ true) ↔ HasToken header token
  unfolding has_bearer_token
  has_bearer_token_lem none token = (
    unfold strip_prefix in λ h. absurd (false_is_no_truth h),
    λ (t, e, g, d). absurd (none_is_no_value e),
  )
  has_bearer_token_lem (some header) token = (
    λ h. elim (text_or_none (strip_prefix "Bearer " header)) [
      | inl nothing ↦ absurd (false_is_no_truth (sym (ap (accepted token) nothing) ∙ h))
      | inr (t, e) ↦
          let (g, d) = (accepted-lem token t).0 (sym (ap (accepted token) e) ∙ h) in
          (t, ap some (strip_prefix-eq "Bearer " header t e), g, d)
    ],
    λ (t, e, g, d).
        let same : header ≡ glue "Bearer " t = cc in
        ap (λ s. accepted token (strip_prefix "Bearer " s)) same
        ∙ ap (accepted token) (strip_prefix-glue "Bearer " t)
        ∙ (accepted-lem token t).1 (g, d),
  )

abbrev chosen_status : Bool → Bool → Bool → Option ℕ
chosen_status a b c =
    if not a then some 403 else if not b then some 403 else if not c then some 401 else none

status_parts :
    (a b c : Bool)
    → ((chosen_status a b c ≡ none) ↔ ((a ≡ true) × (b ≡ true) × (c ≡ true)))
      × ((chosen_status a b c ≡ some 401) ↔ ((a ≡ true) × (b ≡ true) × (c ≡ false)))
      × ((chosen_status a b c ≡ some 403) ↔ ((a ≡ false) ⊎ (b ≡ false)))
status_parts a b c = ground arith

is_refuted : (b : Bool) → ¬ (b ≡ true) → b ≡ false
is_refuted b h = elim (Bool-cases b) [ inl t ↦ absurd (h t) | inr f ↦ f ]

-- A request is served exactly if its host header is a loopback name with the server's port, its
-- origin is missing or a web page of a loopback name, and it has a bearer token without white space
-- whose digest is that of the server's token. It is refused with 401 exactly if only the token is
-- wrong, and with 403 exactly if the host header or the origin is.
pub refusal_status_lem :
    (run : Runtime) (headers : Headers) (config : GuardConfig)
    → ((refusal_status run headers config ≡ none) ↔ (
        HasLoopback run headers.host config.port
        × IsLocalOrigin run headers.origin
        × HasToken run headers.authorization config.token))
      × ((refusal_status run headers config ≡ some 401) ↔ (
          HasLoopback run headers.host config.port
          × IsLocalOrigin run headers.origin
          × (¬ HasToken run headers.authorization config.token)))
      × ((refusal_status run headers config ≡ some 403)
          ↔ ((¬ HasLoopback run headers.host config.port) ⊎ (¬ IsLocalOrigin run headers.origin)))
unfolding refusal_status
refusal_status_lem run headers config =
    let host = is_loopback_host_lem run headers.host config.port in
    let origin = is_allowed_origin_lem run headers.origin in
    let token = has_bearer_token_lem run headers.authorization config.token in
    let (served, unauthorized, forbidden) =
      status_parts (is_loopback_host run headers.host config.port)
        (is_allowed_origin run headers.origin)
        (has_bearer_token run headers.authorization config.token) in
    (
      (
        λ h. let (a, b, c) = served.0 h in (host.0 a, origin.0 b, token.0 c),
        λ (a, b, c). served.1 (host.1 a, origin.1 b, token.1 c),
      ),
      (
        λ h.
            let (a, b, c) = unauthorized.0 h in
            (host.0 a, origin.0 b, λ t. false_is_no_truth (sym c ∙ token.1 t)),
        λ (a, b, c). unauthorized.1 (
          host.1 a,
          origin.1 b,
          is_refuted (has_bearer_token run headers.authorization config.token) (λ t. c (token.0 t)),
        ),
      ),
      (
        λ h. elim (forbidden.0 h) [
          | inl a ↦ inl (λ t. false_is_no_truth (sym a ∙ host.1 t))
          | inr b ↦ inr (λ t. false_is_no_truth (sym b ∙ origin.1 t))
        ],
        λ h. forbidden.1 (elim h [
          | inl a ↦
              inl (is_refuted (is_loopback_host run headers.host config.port) (λ t. a (host.0 t)))
          | inr b ↦ inr (is_refuted (is_allowed_origin run headers.origin) (λ t. b (origin.0 t)))
        ]),
      ),
    )
