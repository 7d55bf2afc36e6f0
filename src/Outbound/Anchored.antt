-- ===== src/Outbound/Anchored.antt =====
-- Redirects stay with the host of the first request, and bodies within their limit.
use label_309_py.Prelude.{
  ℕ, zero, suc, ◌+◌, ◌≤◌, ◌≡◌, refl, sym, ap, ◌⊎◌, inl, inr, Bool, true, false, not, ◌&&◌, ◌||◌,
  Option, none, some, List, [], ◌∷◌, ◌++◌, All, leb, ltb, ◌==◌, length, length-append, Result, ok,
  err, ok-injective, codes, arith, Bool-cases, Option-cases, ltb→le,
}
use label_309_py.Bytes.{Bytes, bytes_eq, bytes_eq-eq}
use label_309_py.Outbound.{
  Text, ends_with, Network, Response, Outbound, OutboundError, read_chunks, read_body, exceeds,
  with_status, is_empty, canonicalise_host, matches_any, matches_deny_list, accept_target,
  resolve_same_domain_redirect, requested, raises, respond, fetch_hops, fetch_from,
  default_fetch_outbound, max_redirect_hops,
}

ends_with-append :
    (h suffix : Text) → ends_with h suffix ≡ true → (sub : Text) × (h ≡ sub ++ suffix)
unfolding ends_with
ends_with-append [] suffix h = ([], bytes_eq-eq [] suffix h)
ends_with-append (c ∷ cs) suffix h = elim (Bool-cases (bytes_eq (c ∷ cs) suffix)) [
  | inl whole ↦ ([], bytes_eq-eq (c ∷ cs) suffix whole)
  | inr proper ↦
      let (sub, e) = ends_with-append cs suffix (rw proper at h) in
      (c ∷ sub, ap (λ (l : Text). c ∷ l) e)
]

length-read_chunks :
    (max_bytes : ℕ) (chunks : List Bytes) (body result : Bytes)
    → length body ≤ max_bytes
    → read_chunks max_bytes chunks body ≡ ok result
    → length result ≤ max_bytes
unfolding read_chunks
length-read_chunks max_bytes [] body result room e = rw (ok-injective _ e) at room
length-read_chunks max_bytes (chunk ∷ chunks) body result room e =
    elim (Bool-cases (ltb max_bytes (length body + length chunk))) [
      | inl over ↦ absurd (let f = rw over at e in cc)
      | inr fits ↦
          let more = ltb→le _ _ fits in
          length-read_chunks max_bytes chunks (body ++ chunk) result
            (omega (arith, length-append body chunk)) (rw fits at e)
    ]

with_status-eq-ok :
    (r_status status : ℕ) (read : Result OutboundError Bytes) (body : Bytes)
    → with_status r_status read ≡ ok (status, body)
    → read ≡ ok body
with_status-eq-ok r_status status (ok found) body e =
    ap (λ (answer : ℕ × Bytes). ok answer.1) (ok-injective _ e)
with_status-eq-ok r_status status (err reason) body e = cc

length-read_body :
    (max_bytes : ℕ) (r : Response) (status : ℕ) (body : Bytes)
    → read_body max_bytes r ≡ ok (status, body)
    → length body ≤ max_bytes
unfolding read_body
length-read_body max_bytes r status body e = elim (Bool-cases (exceeds r.declared max_bytes)) [
  | inl over ↦ absurd (let f = rw over at e in cc)
  | inr fits ↦
      length-read_chunks max_bytes r.chunks [] body (omega arith)
        (with_status-eq-ok r.status status _ body (rw fits at e))
]

not_denied :
    (net : Network) (deny_hosts : List Text) (host : Text)
    → (not (is_empty deny_hosts) && matches_deny_list net deny_hosts host) ≡ false
    → matches_deny_list net deny_hosts host ≡ false
unfolding matches_deny_list matches_any
not_denied net [] host h = refl
not_denied net (d ∷ deny_hosts) host h = h

module _ (net : Network) (deny_hosts : List Text) (origin : Text) where
  -- A target at an https URL whose host is the origin or below it, and which is not denied.
  abbrev pub IsAnchored : Text → Type 0
  IsAnchored target =
      (scheme hostname : Text) × (net.urlparse target ≡ some (scheme, hostname))
      × (net.str_lower scheme ≡ codes "https")
      × ((canonicalise_host net deny_hosts hostname ≡ origin)
          ⊎ ((sub : Text) × (canonicalise_host net deny_hosts hostname ≡ sub ++ b'.' ∷ origin)))
      × (matches_deny_list net deny_hosts (canonicalise_host net deny_hosts hostname) ≡ false)

  same_host :
      (host : Text)
      → (not (bytes_eq host origin) && not (ends_with host (b'.' ∷ origin))) ≡ false
      → (host ≡ origin) ⊎ ((sub : Text) × (host ≡ sub ++ b'.' ∷ origin))
  same_host host h = elim (Bool-cases (bytes_eq host origin)) [
    | inl same ↦ inl (bytes_eq-eq host origin same)
    | inr other ↦ elim (Bool-cases (ends_with host (b'.' ∷ origin))) [
      | inl below ↦ inr (ends_with-append host (b'.' ∷ origin) below)
      | inr no_ ↦ absurd (let f = rw (other, no_) at h in cc)
    ]
  ]

  accept_target-IsAnchored :
      (target next_url : Text) (parsed : Option (Text × Text))
      → net.urlparse target ≡ parsed
      → accept_target net deny_hosts origin target parsed ≡ some next_url
      → IsAnchored next_url
  unfolding accept_target
  accept_target-IsAnchored target next_url none p e = cc
  accept_target-IsAnchored target next_url (some (scheme, hostname)) p e =
      let host = canonicalise_host net deny_hosts hostname in
      elim (Bool-cases (bytes_eq (net.str_lower scheme) (codes "https"))) [
        | inr other ↦ absurd (let f = rw other at e in cc)
        | inl https ↦ elim (Bool-cases (length host == 0 || length origin == 0)) [
          | inl no_host ↦ absurd (let f = rw (https, no_host) at e in cc)
          | inr some_host ↦
              elim (Bool-cases
                (not (bytes_eq host origin) && not (ends_with host (b'.' ∷ origin)))) [
                  | inl foreign ↦ absurd (let f = rw (https, some_host, foreign) at e in cc)
                  | inr near ↦
                      elim (Bool-cases
                        (not (is_empty deny_hosts) && matches_deny_list net deny_hosts host)) [
                          | inl denied ↦
                              absurd (let f = rw (https, some_host, near, denied) at e in cc)
                          | inr clear ↦
                              let same : target ≡ next_url =
                                let f = rw (https, some_host, near, clear) at e in cc in
                              rw (sym same) (
                                scheme,
                                hostname,
                                p,
                                bytes_eq-eq _ _ https,
                                same_host host near,
                                not_denied net deny_hosts host clear,
                              )
                        ]
                ]
        ]
      ]

  resolve-IsAnchored :
      (from_url next_url : Text) (location : Option Text)
      → resolve_same_domain_redirect net deny_hosts from_url location origin ≡ some next_url
      → IsAnchored next_url
  unfolding resolve_same_domain_redirect
  resolve-IsAnchored from_url next_url none e = cc
  resolve-IsAnchored from_url next_url (some location) e =
      elim (Option-cases (net.urljoin from_url location)) [
        | inl no_ ↦ absurd (let f = rw no_ at e in cc)
        | inr (target, joined) ↦
            accept_target-IsAnchored target next_url (net.urlparse target) refl (rw joined at e)
      ]

module _ (net : Network) (deny_hosts : List Text) (get : ℕ → Text → Option Response)
    (is_arweave : Bool) (max_bytes : ℕ) (origin : Text) where
  -- Redirects that are anchored, no more than a number of them, and a body within its limit.
  abbrev pub IsWithin : ℕ → Outbound → Type 0
  IsWithin hops o =
      All (IsAnchored net deny_hosts origin) o.requests
      × (length o.requests ≤ hops)
      × ((status : ℕ) (body : Bytes) → o.result ≡ ok (status, body) → length body ≤ max_bytes)

  raises-IsWithin :
      (hops : ℕ) (e : OutboundError)
      → IsWithin hops (raises net deny_hosts get is_arweave max_bytes e)
  raises-IsWithin hops e = (tt, omega arith, λ status body h. cc)

  respond-IsWithin :
      (hops : ℕ) (redirect : Option Text → Outbound) (r : Option Response)
      → ((location : Option Text) → IsWithin hops (redirect location))
      → IsWithin hops (respond net deny_hosts get is_arweave max_bytes redirect r)
  unfolding respond
  respond-IsWithin hops redirect none h = raises-IsWithin hops _
  respond-IsWithin hops redirect (some r) h =
      elim (Bool-cases (is_arweave && leb 300 r.status && ltb r.status 400)) [
        | inl redirects ↦ rw redirects (h r.location)
        | inr answers ↦
            rw answers
              (tt, omega arith, λ status body e. length-read_body max_bytes r status body e)
      ]

  fetch_hops-IsWithin :
      (hops : ℕ) (url : Text)
      → (o : Outbound) × (fetch_hops net deny_hosts get is_arweave max_bytes origin hops url
          ≡ requested net deny_hosts get is_arweave max_bytes url o)
        × IsWithin hops o
  unfolding fetch_hops
  fetch_hops-IsWithin zero url =
      (_, refl, respond-IsWithin 0 _ (get 0 url) (λ location. raises-IsWithin 0 _))
  fetch_hops-IsWithin (suc hops) url = (
    _,
    refl,
    respond-IsWithin (suc hops) _ (get (suc hops) url) (λ location.
        elim (Option-cases (resolve_same_domain_redirect net deny_hosts url location origin)) [
          | inl refused ↦ rw refused (raises-IsWithin (suc hops) _)
          | inr (next_url, target) ↦
              let (o, same, (anchored, few, bounded)) = fetch_hops-IsWithin hops next_url in
              rw (target, same)
                (
                  (resolve-IsAnchored net deny_hosts origin url next_url location target, anchored),
                  omega (arith, few),
                  bounded,
                )
        ]),
  )

module _ (net : Network) (deny_hosts : List Text) (get : ℕ → Text → Option Response)
    (is_arweave : Bool) (max_bytes : ℕ) (url scheme hostname : Text)
    (parsed : net.urlparse url ≡ some (scheme, hostname)) where
  -- Of a URL that parses, the requests are the URL and behind it at most three redirect targets, each at
  -- an https URL whose host is the URL's own or below it, and is not on the deny list.
  pub default_fetch_outbound-IsAnchored :
      (later : List Text) × ((default_fetch_outbound net deny_hosts get is_arweave max_bytes
          url).requests
        ≡ url ∷ later)
      × All (IsAnchored net deny_hosts (canonicalise_host net deny_hosts hostname)) later
      × (length later ≤ max_redirect_hops)
  unfolding default_fetch_outbound fetch_from
  default_fetch_outbound-IsAnchored =
      let (o, same, (anchored, few, bounded)) =
        fetch_hops-IsWithin net deny_hosts get is_arweave max_bytes
          (canonicalise_host net deny_hosts hostname) 3 url in
      rw (parsed, same) (o.requests, refl, anchored, few)

  -- A body that is returned for a URL that parses is no longer than the limit.
  pub length-default_fetch_outbound :
      (status : ℕ) (body : Bytes)
      → (default_fetch_outbound net deny_hosts get is_arweave max_bytes url).result
        ≡ ok (status, body)
      → length body ≤ max_bytes
  unfolding default_fetch_outbound fetch_from
  length-default_fetch_outbound status body e =
      let (o, same, (anchored, few, bounded)) =
        fetch_hops-IsWithin net deny_hosts get is_arweave max_bytes
          (canonicalise_host net deny_hosts hostname) 3 url in
      bounded status body (rw (parsed, same) at e)
