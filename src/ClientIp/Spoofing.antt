-- ===== src/ClientIp/Spoofing.antt =====
-- What a client can do to the address by the headers that it sends itself.
use mathlib.Core.List.{reverse, reverse-append}
use pdag.Common.{
  ◌≡◌, refl, sym, ap, ◌∙◌, if◌then◌else◌, is_empty, ◌||◌, Option, Bool, true, false, Text, text_eq,
  split, trim_space, List, [], ◌∷◌, ◌++◌, none, some, arith, any, not, split-append, Option-cases,
  ◌⊎◌, Bool-cases, inl, inr,
}
use pdag.Header.{get, set}
use pdag.ClientIp.{Net, Request, is_trusted, peer_ip, walk, resolve, client_ip, forwarded_for}

-- A request whose X-Forwarded-For is the given text.
abbrev pub forwarded : Request → Text → Request
forwarded req xff = record req { headers = set req.headers forwarded_for xff }

module _ (net : Net) where
  open net use {Ip, IpNet, parse_ip, net_contains}

  -- The walk ends at this hop: it is no address, or not a trusted one.
  abbrev pub stops : List IpNet → Text → Bool
  stops trusted hop = elim (parse_ip (trim_space hop)) [
    | none ↦ true
    | some ip ↦ not (is_trusted net trusted ip)
  ]

  -- Behind a hop that ends the walk nothing counts.
  walk-append :
      (trusted : List IpNet) (peer : Ip) (near far : List Text)
      → any (stops trusted) near ≡ true
      → walk net trusted peer (near ++ far) ≡ walk net trusted peer near
  unfolding walk
  walk-append trusted peer [] far h = cc
  walk-append trusted peer (hop ∷ near) far h = ground (arith, walk-append trusted peer near far)

  -- If the peer is not a trusted proxy, X-Forwarded-For is ignored: the address is the peer's own.
  pub untrusted_peer :
      (trusted : List IpNet) (req : Request) (peer : Ip)
      → peer_ip net req.remote_addr ≡ some peer
      → is_trusted net trusted peer ≡ false
      → client_ip net trusted req ≡ some peer
  unfolding client_ip
  untrusted_peer trusted req peer h d = ground arith

  not_empty : (s t : Text) → text_eq (s ++ b',' ∷ t) [] ≡ false
  unfolding text_eq
  not_empty [] t = refl
  not_empty (c ∷ s) t = refl

  resolve-append :
      (trusted : List IpNet) (made_up genuine : Text) (peer : Ip)
      → text_eq genuine [] ≡ false
      → any (stops trusted) (reverse (split b',' genuine)) ≡ true
      → resolve net trusted (made_up ++ b',' ∷ genuine) peer ≡ resolve net trusted genuine peer
  unfolding resolve
  resolve-append trusted made_up genuine peer d h =
      rw
        (
          d,
          not_empty made_up genuine,
          split-append b',' made_up genuine,
          reverse-append (split b',' made_up) (split b',' genuine),
        )
        (walk-append trusted peer (reverse (split b',' genuine)) (reverse (split b',' made_up)) h)

  -- The address for a peer and a line.
  abbrev address : List IpNet → Option Ip → Text → Option Ip
  address trusted p xff = elim p [
    | none ↦ none
    | some peer ↦
        if is_empty trusted || not (is_trusted net trusted peer)
        then some peer
        else some (resolve net trusted xff peer)
  ]

  address-append :
      (trusted : List IpNet) (p : Option Ip) (made_up genuine : Text)
      → text_eq genuine [] ≡ false
      → any (stops trusted) (reverse (split b',' genuine)) ≡ true
      → address trusted p (made_up ++ b',' ∷ genuine) ≡ address trusted p genuine
  address-append trusted none made_up genuine d h = refl
  address-append trusted (some peer) made_up genuine d h =
      ap
        (λ ip. if is_empty trusted || not (is_trusted net trusted peer) then some peer else some ip)
        (resolve-append trusted made_up genuine peer d h)

  -- Two requests from the same peer have the same address if the first X-Forwarded-For line of one is the
  -- other's with anything put in front of it and a comma between, and some hop of the other's is no trusted
  -- proxy's address. Further lines and all other headers may differ.
  pub made_up_hops_ignored :
      (trusted : List IpNet) (req other : Request) (made_up genuine : Text)
      → req.remote_addr ≡ other.remote_addr
      → get req.headers forwarded_for ≡ made_up ++ b',' ∷ genuine
      → get other.headers forwarded_for ≡ genuine
      → text_eq genuine [] ≡ false
      → any (stops trusted) (reverse (split b',' genuine)) ≡ true
      → client_ip net trusted req ≡ client_ip net trusted other
  unfolding client_ip
  made_up_hops_ignored trusted req other made_up genuine same mixed plain d h =
      let peer = peer_ip net other.remote_addr in
      ap (λ a. address trusted (peer_ip net a) (get req.headers forwarded_for)) same
      ∙ ap (address trusted peer) mixed
      ∙ address-append trusted peer made_up genuine d h
      ∙ ap (address trusted peer) (sym plain)

  walk_untrusted :
      (trusted : List IpNet) (peer : Ip) (hops : List Text)
      → (walk net trusted peer hops ≡ peer)
        ⊎ (is_trusted net trusted (walk net trusted peer hops) ≡ false)
  unfolding walk
  walk_untrusted trusted peer [] = inl refl
  walk_untrusted trusted peer (hop ∷ hops) = elim (Option-cases (parse_ip (trim_space hop))) [
    | inl bad ↦ rw (bad, walk) (inl refl)
    | inr (ip, good) ↦ elim (Bool-cases (is_trusted net trusted ip)) [
      | inl proxy ↦ rw (good, walk, proxy) (walk_untrusted trusted peer hops)
      | inr client ↦ rw (good, walk, client) (inr client)
    ]
  ]

  -- The address of a client is the peer's own, or else that of no trusted proxy.
  pub client_ip_untrusted :
      (trusted : List IpNet) (req : Request) (ip : Ip)
      → client_ip net trusted req ≡ some ip
      → (peer_ip net req.remote_addr ≡ some ip) ⊎ (is_trusted net trusted ip ≡ false)
  unfolding client_ip resolve
  client_ip_untrusted trusted req ip h = elim (Option-cases (peer_ip net req.remote_addr)) [
    | inl e ↦ cc (rw (e, client_ip) at h)
    | inr (peer, e) ↦ ground (
      arith,
      e,
      walk_untrusted trusted peer (reverse (split b',' (get req.headers forwarded_for))),
    )
  ]
