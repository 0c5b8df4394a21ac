-- ===== src/A2a/Policy.antt =====
-- src/a2a/policy.rs: where the server may listen and which peers may be called. The tests on addresses
-- are those of the standard library.
pub mod Allowed
pub mod Examples
use guigu_agent_bridge.Prelude.{
  ℕ, ◌/◌, ◌≤◌, ◌<◌, ◌^◌, Option, none, some, Bool, true, false, not, ◌&&◌, ◌||◌, List, [], ◌∷◌,
  Result, ok, err, leb, ◌==◌, if◌then◌else◌, all, is_empty, is_some,
}
use guigu_agent_bridge.Prelude.Texts.{Text, codes, text_eq}
use guigu_agent_bridge.A2a.{A2aError, config}

-- Four bytes, or eight segments of 16 bits.
pub data IpAddr : Type 0 where
  v4 : ℕ → ℕ → ℕ → ℕ → IpAddr
  v6 : ℕ → ℕ → ℕ → ℕ → ℕ → ℕ → ℕ → ℕ → IpAddr

abbrev pub is_unspecified : IpAddr → Bool
is_unspecified (v4 a b c d) = a == 0 && b == 0 && c == 0 && d == 0
is_unspecified (v6 a b c d e f g h) =
    a == 0 && b == 0 && c == 0 && d == 0 && e == 0 && f == 0 && g == 0 && h == 0

abbrev pub is_loopback : IpAddr → Bool
is_loopback (v4 a b c d) = a == 127
is_loopback (v6 a b c d e f g h) =
    a == 0 && b == 0 && c == 0 && d == 0 && e == 0 && f == 0 && g == 0 && h == 1

abbrev pub is_multicast : IpAddr → Bool
is_multicast (v4 a b c d) = leb 224 a && leb a 239
is_multicast (v6 a b c d e f g h) = a / 256 == 255

-- On IPv4 `is_private` and `is_link_local`; on IPv6 `is_unicast_link_local`, the first ten bits of
-- fe80, and the first seven of fc00.
unfoldable pub is_private_or_link_local : IpAddr → Bool
is_private_or_link_local (v4 a b c d) =
    a == 10
    || (a == 172 && leb 16 b && leb b 31)
    || (a == 192 && b == 168)
    || (a == 169 && b == 254)
is_private_or_link_local (v6 a b c d e f g h) = a / 64 == 1018 || a / 512 == 126

unfoldable pub allowed_outbound : IpAddr → Bool
unfolding is_private_or_link_local
allowed_outbound ip = is_loopback ip || is_private_or_link_local ip

pub record ListenPolicy : Type 0 where
  pub allow_private_plaintext : Bool

-- The port is not looked at.
unfoldable pub validate_listener : IpAddr → ListenPolicy → Result (Unit {0}) A2aError
unfolding is_private_or_link_local
validate_listener ip policy =
    if is_unspecified ip || is_multicast ip
    then err (config (codes "wildcard or multicast listener rejected"))
    else if is_loopback ip
    then ok tt
    else if policy.allow_private_plaintext && is_private_or_link_local ip
    then ok tt
    else err (config (codes "listener must be loopback or explicitly allowed private IP"))

-- The parts of a URL that are looked at.
pub record Url : Type 0 where
  pub username : Text
  pub password : Option Text
  pub query : Option Text
  pub fragment : Option Text
  pub scheme : Text

abbrev pub carries_more : Url → Bool
carries_more url =
    not (is_empty url.username) || is_some url.password || is_some url.query || is_some url.fragment

abbrev pub scheme_verdict : Bool → Bool → List IpAddr → Result (Unit {0}) A2aError
scheme_verdict is_http is_https resolved =
    if is_http && all is_loopback resolved
    then ok tt
    else if is_https && all allowed_outbound resolved
    then ok tt
    else if is_http
    then err (config (codes "plaintext peer must resolve only to loopback"))
    else err (config (codes "peer URL must use http or https"))

unfoldable pub validate_peer_url : Url → List IpAddr → Result (Unit {0}) A2aError
unfolding allowed_outbound
validate_peer_url url resolved =
    if carries_more url
    then err (config (codes "peer URL cannot contain credentials, query or fragment"))
    else if is_empty resolved
    then err (config (codes "peer DNS returned no addresses"))
    else scheme_verdict (text_eq url.scheme (codes "http")) (text_eq url.scheme (codes "https"))
        resolved
