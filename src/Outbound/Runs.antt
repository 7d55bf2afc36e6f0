-- ===== src/Outbound/Runs.antt =====
-- A gateway that redirects to its sandbox, and a deny list. The URLs are only schemes and hosts, read
-- by a stand-in for urlparse.
use label_309_py.Prelude.{
  ℕ, zero, suc, ◌≤◌, ◌≡◌, refl, true, ◌&&◌, Option, none, some, List, [], ◌∷◌, All, leb, length, ok,
  codes,
}
use label_309_py.Bytes.{bytes_eq}
use label_309_py.TxBinding.{lower}
use label_309_py.Outbound.{
  Text, Network, Response, ends_with, rstrip, strip_closing, octets, is_loopback_127,
  matches_pattern, canonicalise_host, matches_any, matches_deny_list, read_chunks, read_body,
  accept_target, resolve_same_domain_redirect, respond, fetch_hops, fetch_from,
  default_fetch_outbound, max_redirect_hops,
}
use label_309_py.Outbound.Anchored.{
  IsAnchored, default_fetch_outbound-IsAnchored, length-default_fetch_outbound,
}

abbrev toy_network : Network
toy_network = record {
  str_lower = lower;
  is_decimal = λ c. leb b'0' c && leb c b'9';
  urljoin = λ from_url location. some location;
  urlparse = λ url. some (codes "https", url);
}

abbrev gateway : ℕ → Text → Option Response
gateway (suc (suc (suc zero))) url =
    some (record { status = 302; location = some (codes "x.g.net"); declared = none; chunks = [] })
gateway _ url = some (record {
  status = 200;
  location = none;
  declared = some 3;
  chunks = (1 ∷ 2 ∷ []) ∷ (3 ∷ []) ∷ [];
})

loopback_denied :
    matches_deny_list toy_network (codes "127.0.0.1" ∷ []) (codes "127.12.0.255.") ≡ true
unfolding matches_deny_list matches_any matches_pattern canonicalise_host rstrip strip_closing
    is_loopback_127 octets ends_with bytes_eq lower
loopback_denied = refl

sandbox_followed :
    (default_fetch_outbound toy_network [] gateway true 3 (codes "g.net")).result
    ≡ ok (200, 1 ∷ 2 ∷ 3 ∷ [])
unfolding default_fetch_outbound fetch_from fetch_hops respond resolve_same_domain_redirect
    accept_target canonicalise_host ends_with rstrip strip_closing read_body read_chunks bytes_eq
    lower
sandbox_followed = refl

default_fetch_outbound-IsAnchored_example :
    (later : List Text) × ((default_fetch_outbound toy_network [] gateway true 3
        (codes "g.net")).requests
      ≡ codes "g.net" ∷ later)
    × All (IsAnchored toy_network [] (canonicalise_host toy_network [] (codes "g.net"))) later
    × (length later ≤ max_redirect_hops)
default_fetch_outbound-IsAnchored_example =
    default_fetch_outbound-IsAnchored toy_network [] gateway true 3 (codes "g.net") (codes "https")
      (codes "g.net") refl

length-default_fetch_outbound_example : 3 ≤ 3
length-default_fetch_outbound_example =
    length-default_fetch_outbound toy_network [] gateway true 3 (codes "g.net") (codes "https")
      (codes "g.net") refl 200 (1 ∷ 2 ∷ 3 ∷ []) sandbox_followed
