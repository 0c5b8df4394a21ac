-- ===== src/A2a/Policy/Allowed.antt =====
-- The addresses that src/a2a/policy.rs allows.
use guigu_agent_bridge.Prelude.{
  ◌≤◌, ◌≡◌, ◌↔◌, ◌⊎◌, inl, inr, Bool, true, false, ◌&&◌, ◌||◌, List, [], ◌∷◌, ok, all, All,
  is_empty, arith, Bool-cases, length,
}
use guigu_agent_bridge.Prelude.Texts.{codes, text_eq}
use guigu_agent_bridge.A2a.Policy.{
  IpAddr, v4, v6, is_unspecified, is_loopback, is_multicast, is_private_or_link_local,
  allowed_outbound, ListenPolicy, validate_listener, Url, carries_more, scheme_verdict,
  validate_peer_url,
}

-- A loopback, private or link-local address is neither a wildcard nor a multicast address.
local_apart :
    (ip : IpAddr)
    → (is_loopback ip || is_private_or_link_local ip) ≡ true
    → (is_unspecified ip || is_multicast ip) ≡ false
unfolding is_private_or_link_local
local_apart (v4 a b c d) h = ground arith
local_apart (v6 a b c d e f g i) h = ground arith

-- The server may listen exactly on a loopback address, and on a private or link-local one when the
-- policy allows plaintext there; the test for wildcard and multicast addresses refuses none of these.
pub validate_listener_iff :
    (ip : IpAddr) (policy : ListenPolicy)
    → (validate_listener ip policy ≡ ok tt)
      ↔ ((is_loopback ip || (policy.allow_private_plaintext && is_private_or_link_local ip)) ≡ true)
unfolding validate_listener
validate_listener_iff ip policy = (λ h. ground (arith, h), λ h. ground (arith, h, local_apart ip))

-- An address on this machine or in its network.
pub record IsLocal (ip : IpAddr) : Type 0 where
  pub near : (is_loopback ip || is_private_or_link_local ip) ≡ true
  pub definite : (is_unspecified ip || is_multicast ip) ≡ false

allowed-IsLocal : (ip : IpAddr) → allowed_outbound ip ≡ true → IsLocal ip
unfolding allowed_outbound
allowed-IsLocal ip h = record { near = h; definite = local_apart ip h }

loopback-allowed : (ip : IpAddr) → is_loopback ip ≡ true → allowed_outbound ip ≡ true
unfolding allowed_outbound
loopback-allowed ip h = ground (arith, h)

all-All :
    (test : IpAddr → Bool) (P : IpAddr → Type 0) (ips : List IpAddr)
    → ((ip : IpAddr) → test ip ≡ true → P ip)
    → all test ips ≡ true
    → All P ips
all-All test P [] k h = tt
all-All test P (ip ∷ ips) k h = (k ip (ground (arith, h)), all-All test P ips k (ground (arith, h)))

-- A peer that was accepted.
pub record IsPeer (url : Url) (resolved : List IpAddr) : Type 0 where
  pub plain : carries_more url ≡ false
  pub some_address : 1 ≤ length resolved
  pub all_local : All IsLocal resolved
  pub scheme :
      ((text_eq url.scheme (codes "http") ≡ true) × All (λ ip. is_loopback ip ≡ true) resolved)
      ⊎ (text_eq url.scheme (codes "https") ≡ true)

scheme-IsPeer :
    (url : Url) (resolved : List IpAddr)
    → carries_more url ≡ false
    → 1 ≤ length resolved
    → scheme_verdict
        (text_eq url.scheme (codes "http"))
        (text_eq url.scheme (codes "https"))
        resolved
      ≡ ok tt
    → IsPeer url resolved
scheme-IsPeer url resolved plain some_address h =
    elim (Bool-cases (text_eq url.scheme (codes "http") && all is_loopback resolved)) [
      | inl e ↦
          let near : all is_loopback resolved ≡ true = ground (arith, e) in
          record {
            plain = plain;
            some_address = some_address;
            all_local =
                all-All is_loopback IsLocal resolved
                  (λ ip l. allowed-IsLocal ip (loopback-allowed ip l)) near;
            scheme = inl (ground (arith, e), all-All is_loopback _ resolved (λ ip l. l) near);
          }
      | inr e ↦
          let secure : (text_eq url.scheme (codes "https") && all allowed_outbound resolved)
              ≡ true =
            ground (arith, e, h) in
          record {
            plain = plain;
            some_address = some_address;
            all_local =
                all-All allowed_outbound IsLocal resolved allowed-IsLocal (ground (arith, secure));
            scheme = inr (ground (arith, secure));
          }
    ]

-- A peer's URL that is accepted carries no credentials, query or fragment, resolves to some address,
-- and only to addresses of this machine or its network, never to a wildcard or multicast address; over
-- plain HTTP only to this machine, and otherwise the scheme is HTTPS.
pub validate_peer_url-IsPeer :
    (url : Url) (resolved : List IpAddr)
    → validate_peer_url url resolved ≡ ok tt
    → IsPeer url resolved
unfolding validate_peer_url
validate_peer_url-IsPeer url resolved h = elim (Bool-cases (carries_more url)) [
  | inl e ↦ absurd (ground (arith, e, h))
  | inr e ↦ elim (Bool-cases (is_empty resolved)) [
    | inl x ↦ absurd (ground (arith, e, x, h))
    | inr x ↦ scheme-IsPeer url resolved e (nonempty resolved x) (ground (arith, e, x, h))
  ]
]
  where
    nonempty : (ips : List IpAddr) → is_empty ips ≡ false → 1 ≤ length ips
    nonempty [] h = absurd (ground (arith, h))
    nonempty (ip ∷ ips) h = omega arith
