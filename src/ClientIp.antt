-- ===== src/ClientIp.antt =====
-- internal/clientip/clientip.go: which address counts as the client's. The addresses, the networks and
-- their parsing are those of the package net, and parameters.
pub mod Spoofing
mod Tests
use pdag.Common.{
  ℕ, ◌≡◌, Bool, true, false, Text, codes, text_eq, split, trim_space, List, [], ◌∷◌, Option, none,
  some, any, is_empty, not, ◌||◌, if◌then◌else◌,
}
use mathlib.Core.List.{reverse}
use pdag.Header.{Header, get}

-- What is used of net: ParseCIDR, IPNet.Contains, ParseIP, and the host of SplitHostPort.
pub record Net : Type 1 where
  pub Ip : Type 0
  pub IpNet : Type 0
  pub parse_cidr : Text → Option IpNet
  pub net_contains : IpNet → Ip → Bool
  pub parse_ip : Text → Option Ip
  pub split_host_port : Text → Option Text

-- What is used of an http.Request.
pub record Request : Type 0 where
  pub remote_addr : Text
  pub headers : Header

abbrev pub forwarded_for : Text
forwarded_for = codes "X-Forwarded-For"

module _ (net : Net) where
  open net use {Ip, IpNet, parse_cidr, net_contains, parse_ip, split_host_port}

  -- New, with `none` for the error of an invalid CIDR; the resolver is its trusted networks.
  unfoldable pub new : List Text → Option (List IpNet)
  new [] = some []
  new (c ∷ cs) =
      let rest = new cs in
      elim (parse_cidr (trim_space c)) [
        | none ↦ none
        | some n ↦ elim rest [ none ↦ none | some ns ↦ some (n ∷ ns) ]
      ]

  unfoldable pub is_trusted : List IpNet → Ip → Bool
  is_trusted trusted ip = any (λ n. net_contains n ip) trusted

  unfoldable pub peer_ip : Text → Option Ip
  peer_ip remote_addr = elim (split_host_port remote_addr) [
    | none ↦ parse_ip remote_addr
    | some host ↦ parse_ip host
  ]

  -- The loop over the hops, the last hop first.
  unfoldable pub walk : List IpNet → Ip → List Text → Ip
  walk trusted peer [] = peer
  walk trusted peer (hop ∷ hops) =
      let further = walk trusted peer hops in
      elim (parse_ip (trim_space hop)) [
        | none ↦ peer
        | some ip ↦ if is_trusted trusted ip then further else ip
      ]

  resolve : List IpNet → Text → Ip → Ip
  resolve trusted xff peer =
      if text_eq xff [] then peer else walk trusted peer (reverse (split b',' xff))

  -- ClientIP
  unfoldable pub client_ip : List IpNet → Request → Option Ip
  unfolding resolve is_trusted
  client_ip trusted req = elim (peer_ip req.remote_addr) [
    | none ↦ none
    | some peer ↦
        if is_empty trusted || not (is_trusted trusted peer)
        then some peer
        else some (resolve trusted (get req.headers forwarded_for) peer)
  ]
