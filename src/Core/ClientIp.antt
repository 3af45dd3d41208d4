-- ===== src/Core/ClientIp.antt =====
-- app/core/client_ip.py: who is calling, behind a reverse proxy. The package ipaddress is a
-- parameter.
use mathlib.Core.List.{reverse, reverse-append, reverse-cons, reverse-reverse, append_assoc}
use smart_travel_aggregator.Prelude.{
  ◌≡◌, refl, Bool, true, false, not, Option, none, some, List, [], ◌∷◌, ◌++◌, arith, if◌then◌else◌,
  nat_eq, list_eq, any, All,
}
use smart_travel_aggregator.Prelude.Text.{Text, strip, split, split-append}

-- `ip_network(cidr, strict=False)` and `ip_address(text)`, with `none` for a `ValueError`, and
-- `ip in network`.
pub record IpAddresses : Type 1 where
  pub Network : Type 0
  pub Address : Type 0
  pub ip_network : Text → Option Network
  pub ip_address : Text → Option Address
  pub contains : Network → Address → Bool

-- What a request has of its caller: the host of the peer, and the header `X-Forwarded-For`, empty
-- when it is missing.
pub record Request : Type 0 where
  pub host : Option Text
  pub forwarded : Text

-- `[part.strip() for part in forwarded.split(",") if part.strip()]`
abbrev pub strip_parts : List Text → List Text
strip_parts [] = []
strip_parts (part ∷ parts) = elim (strip part) [
  | [] ↦ strip_parts parts
  | c ∷ s ↦ (c ∷ s) ∷ strip_parts parts
]

unfoldable pub hops_of : Text → List Text
hops_of forwarded = strip_parts (split b',' forwarded)

module _ (ips : IpAddresses) where
  open ips use {Network, Address, ip_network, ip_address, contains}

  -- `ProxyTrust(trusted_cidrs)`: texts that are no network are left out.
  unfoldable pub proxy_trust : List Text → List Network
  proxy_trust [] = []
  proxy_trust (cidr ∷ cidrs) = elim (ip_network cidr) [
    | none ↦ proxy_trust cidrs
    | some network ↦ network ∷ proxy_trust cidrs
  ]

  module _ (networks : List Network) where
    unfoldable pub configured : Bool
    configured = elim networks [ [] ↦ false | n ∷ ns ↦ true ]

    unfoldable pub trusts : Text → Bool
    unfolding configured
    trusts [] = false
    trusts (c ∷ s) = if not configured then false else elim (ip_address (c ∷ s)) [
      | none ↦ false
      | some ip ↦ any (λ network. contains network ip) networks
    ]

    -- `trusts(address)` of an address that may be `None`.
    abbrev pub trusts_peer : Option Text → Bool
    trusts_peer none = false
    trusts_peer (some host) = trusts host

    -- The first hop of a list that is not trusted.
    abbrev pub first_stranger : List Text → Option Text → Option Text
    first_stranger [] peer = peer
    first_stranger (hop ∷ hops) peer =
        if not (trusts hop) then some hop else first_stranger hops peer

    unfoldable pub client_ip : Request → Option Text
    client_ip request =
        let peer = request.host in
        if not (trusts_peer peer)
        then peer
        else first_stranger (reverse (hops_of request.forwarded)) peer

strip_parts-append : (xs ys : List Text) → strip_parts (xs ++ ys) ≡ strip_parts xs ++ strip_parts ys
strip_parts-append [] ys = refl
strip_parts-append (x ∷ xs) ys = ground (arith, strip_parts-append xs ys)

hops-append : (s t : Text) → hops_of (s ++ b',' ∷ t) ≡ hops_of s ++ hops_of t
unfolding hops_of
hops-append s t = rw (split-append b',' s t) (strip_parts-append (split b',' s) (split b',' t))

module _ (ips : IpAddresses) (networks : List (IpAddresses.Network ips)) where
  skip_trusted :
      (near far : List Text) (hop : Text) (peer : Option Text)
      → All (λ h. trusts ips networks h ≡ true) near
      → trusts ips networks hop ≡ false
      → first_stranger ips networks (near ++ hop ∷ far) peer ≡ some hop
  skip_trusted [] far hop peer h stranger = ground (arith, stranger)
  skip_trusted (n ∷ near) far hop peer h stranger =
      ground (arith, h.0, skip_trusted near far hop peer h.1 stranger)

  -- Whoever calls from a peer that is not trusted is that peer, whatever header is sent.
  pub client_ip_direct :
      (host : Option Text) (forwarded : Text)
      → trusts_peer ips networks host ≡ false
      → client_ip ips networks (record { host = host; forwarded = forwarded }) ≡ host
  unfolding client_ip
  client_ip_direct host forwarded stranger = ground (arith, stranger)

  -- Behind a trusted peer, what a caller wrote into the header itself does not matter: when our
  -- proxies appended the address that they saw, followed by addresses of trusted proxies only, the
  -- caller is that address.
  pub client_ip_forged :
      (host : Option Text) (forged appended hop : Text) (proxies : List Text)
      → trusts_peer ips networks host ≡ true
      → hops_of appended ≡ hop ∷ reverse proxies
      → All (λ h. trusts ips networks h ≡ true) proxies
      → trusts ips networks hop ≡ false
      → client_ip ips networks (record { host = host; forwarded = forged ++ b',' ∷ appended })
        ≡ some hop
  unfolding client_ip
  client_ip_forged host forged appended hop proxies trusted seen near stranger =
      let far = reverse (hops_of forged) in
      let e : reverse (hops_of (forged ++ b',' ∷ appended)) ≡ proxies ++ hop ∷ far =
        rw
          (
            hops-append forged appended,
            seen,
            reverse-append (hops_of forged) (hop ∷ reverse proxies),
            reverse-cons hop (reverse proxies),
            reverse-reverse proxies,
            append_assoc proxies (hop ∷ []) far,
          )
          refl in
      ground (arith, trusted, e, skip_trusted proxies far hop host near stranger)
