-- ===== src/Outbound.antt =====
-- src/cardanowall/verifier/fetch.py, the outbound transport: the deny list, and default_fetch_outbound
-- with the redirects that it follows and its limit on the body. The network, urljoin, urlparse,
-- str.lower and the digits of a regular expression are parameters.
pub mod Anchored
mod Runs
use label_309_py.Prelude.{
  ℕ, zero, suc, ◌+◌, ◌-◌, Bool, true, false, not, ◌&&◌, ◌||◌, Option, none, some, List, [], ◌∷◌,
  ◌++◌, leb, ltb, ◌==◌, if◌then◌else◌, length, Result, ok, err, codes,
}
use label_309_py.Bytes.{Bytes, bytes_eq}

abbrev pub Text : Type 0
Text = List ℕ

unfoldable pub ends_with : Text → Text → Bool
ends_with [] suffix = bytes_eq [] suffix
ends_with (c ∷ cs) suffix = bytes_eq (c ∷ cs) suffix || ends_with cs suffix

-- `rstrip`, of one character.
unfoldable pub rstrip : ℕ → Text → Text
rstrip d [] = []
rstrip d (c ∷ cs) = let rest = rstrip d cs in if length rest == 0 && c == d then [] else c ∷ rest

abbrev pub strip_opening : Text → Text
strip_opening [] = []
strip_opening (c ∷ cs) = if c == b'[' then cs else c ∷ cs

-- A closing bracket at the end.
unfoldable pub strip_closing : Text → Text
strip_closing [] = []
strip_closing (c ∷ []) = if c == b']' then [] else c ∷ []
strip_closing (c ∷ d ∷ cs) = c ∷ strip_closing (d ∷ cs)

-- What follows "*." in a pattern.
abbrev pub wildcard : Text → Option Text
wildcard [] = none
wildcard (c ∷ []) = none
wildcard (c ∷ d ∷ suffix) = if c == b'*' && d == b'.' then some suffix else none

abbrev pub is_localhost : Text → Bool
is_localhost h =
    bytes_eq h (codes "::1") || bytes_eq h (codes "0.0.0.0") || bytes_eq h (codes "169.254.169.254")

module _ (is_decimal : ℕ → Bool) where
  -- One to three digits with a dot behind them, `more` times, and one to three digits at the end, after
  -- the digits that have been read.
  unfoldable pub octets : ℕ → ℕ → Text → Bool
  octets more digits [] = more == 0 && leb 1 digits
  octets more digits (c ∷ cs) =
      let longer = octets more (suc digits) cs in
      let next = octets (more - 1) 0 cs in
      if is_decimal c
      then leb digits 2 && longer
      else c == b'.' && leb 1 digits && leb 1 more && next

  -- `_LOOPBACK_127_RE`
  unfoldable pub is_loopback_127 : Text → Bool
  is_loopback_127 (a ∷ b ∷ c ∷ d ∷ cs) =
      bytes_eq (a ∷ b ∷ c ∷ d ∷ []) (codes "127.") && octets 2 0 cs
  is_loopback_127 [] = false
  is_loopback_127 (a ∷ []) = false
  is_loopback_127 (a ∷ b ∷ []) = false
  is_loopback_127 (a ∷ b ∷ c ∷ []) = false

  -- A host against one pattern.
  unfoldable pub matches_pattern : Text → Text → Option Text → Bool
  matches_pattern h pat (some suffix) = ends_with h (b'.' ∷ suffix)
  matches_pattern h pat none =
      bytes_eq h pat
      || (bytes_eq pat (codes "localhost") && is_localhost h)
      || (bytes_eq pat (codes "127.0.0.1") && is_loopback_127 h)

-- What the transport relies on.
pub record Network : Type 0 where
  pub str_lower : Text → Text
  -- the characters that \d matches
  pub is_decimal : ℕ → Bool
  -- `none` for a ValueError
  pub urljoin : Text → Text → Option Text
  -- the scheme and the hostname, "" where there is none
  pub urlparse : Text → Option (Text × Text)

pub record Response : Type 0 where
  pub status : ℕ
  pub location : Option Text
  -- a content-length that is an integer, from 0 on
  pub declared : Option ℕ
  pub chunks : List Bytes

pub data OutboundError : Type 0 where
  body_too_large redirect_limit redirect_refused network_error invalid_url : OutboundError

-- The URLs that are requested, and the status and the body at the end.
pub record Outbound : Type 0 where
  pub requests : List Text
  pub result : Result OutboundError (ℕ × Bytes)

abbrev pub max_redirect_hops : ℕ
max_redirect_hops = 3

-- The loop over the chunks, with those joined so far.
unfoldable pub read_chunks : ℕ → List Bytes → Bytes → Result OutboundError Bytes
read_chunks max_bytes [] body = ok body
read_chunks max_bytes (chunk ∷ chunks) body =
    let rest = read_chunks max_bytes chunks (body ++ chunk) in
    if ltb max_bytes (length body + length chunk) then err body_too_large else rest

abbrev pub exceeds : Option ℕ → ℕ → Bool
exceeds none max_bytes = false
exceeds (some declared) max_bytes = ltb max_bytes declared

abbrev pub with_status : ℕ → Result OutboundError Bytes → Result OutboundError (ℕ × Bytes)
with_status status (ok body) = ok (status, body)
with_status status (err e) = err e

unfoldable pub read_body : ℕ → Response → Result OutboundError (ℕ × Bytes)
read_body max_bytes r =
    if exceeds r.declared max_bytes
    then err body_too_large
    else with_status r.status (read_chunks max_bytes r.chunks [])

abbrev pub is_empty : List Text → Bool
is_empty [] = true
is_empty (d ∷ deny) = false

module _ (net : Network) (deny_hosts : List Text) where
  unfoldable pub canonicalise_host : Text → Text
  canonicalise_host host = net.str_lower (rstrip b'.' (strip_closing (strip_opening host)))

  unfoldable pub matches_any : Text → List Text → Bool
  matches_any h [] = false
  matches_any h (raw ∷ deny) =
      let pat = net.str_lower (rstrip b'.' raw) in
      matches_pattern net.is_decimal h pat (wildcard pat) || matches_any h deny

  unfoldable pub matches_deny_list : Text → Bool
  matches_deny_list host = matches_any (canonicalise_host host) deny_hosts

  -- A redirect target with its scheme and its host.
  unfoldable pub accept_target : Text → Text → Option (Text × Text) → Option Text
  accept_target original_gw_host target none = none
  accept_target original_gw_host target (some (scheme, hostname)) =
      let host = canonicalise_host hostname in
      if not (bytes_eq (net.str_lower scheme) (codes "https"))
      then none
      else if length host == 0 || length original_gw_host == 0
      then none
      else if not (bytes_eq host original_gw_host) && not (ends_with host (b'.' ∷ original_gw_host))
      then none
      else if not (is_empty deny_hosts) && matches_deny_list host
      then none
      else some target

  abbrev pub parse_target : Text → Option Text → Option Text
  parse_target original_gw_host none = none
  parse_target original_gw_host (some target) =
      accept_target original_gw_host target (net.urlparse target)

  unfoldable pub resolve_same_domain_redirect : Text → Option Text → Text → Option Text
  resolve_same_domain_redirect from_url none original_gw_host = none
  resolve_same_domain_redirect from_url (some location) original_gw_host =
      parse_target original_gw_host (net.urljoin from_url location)

module _ (net : Network) (deny_hosts : List Text) (get : ℕ → Text → Option Response)
    (is_arweave : Bool) (max_bytes : ℕ) where
  abbrev pub requested : Text → Outbound → Outbound
  requested url o = record { requests = url ∷ o.requests; result = o.result }

  abbrev pub raises : OutboundError → Outbound
  raises e = record { requests = []; result = err e }

  -- A response; `redirect` is what happens at one that redirects.
  unfoldable pub respond : (Option Text → Outbound) → Option Response → Outbound
  respond redirect none = raises network_error
  respond redirect (some r) =
      let answer : Outbound = record { requests = []; result = read_body max_bytes r } in
      if is_arweave && leb 300 r.status && ltb r.status 400 then redirect r.location else answer

  -- The loop over the hops, with how many redirects it may still follow; `get` knows of it, so that one
  -- URL may have two answers.
  unfoldable pub fetch_hops : Text → ℕ → Text → Outbound
  fetch_hops original_gw_host zero url =
      requested url (respond (λ location. raises redirect_limit) (get 0 url))
  fetch_hops original_gw_host (suc hops) url = requested url (
      respond
        (λ location.
          elim (resolve_same_domain_redirect net deny_hosts url location original_gw_host) [
            | none ↦ raises redirect_refused
            | some next_url ↦ fetch_hops original_gw_host hops next_url
          ])
        (get (suc hops) url))

  unfoldable pub fetch_from : Text → Option (Text × Text) → Outbound
  fetch_from url none = raises invalid_url
  fetch_from url (some (scheme, hostname)) =
      fetch_hops (canonicalise_host net deny_hosts hostname) max_redirect_hops url

  unfoldable pub default_fetch_outbound : Text → Outbound
  default_fetch_outbound url = fetch_from url (net.urlparse url)
