-- ===== src/A2a/Policy/Examples.antt =====
-- A listener in a private network, and peers that are called.
use guigu_agent_bridge.Prelude.{◌≡◌, ◌↔◌, refl, none, true, ◌&&◌, ◌||◌, List, [], ◌∷◌, ok, err}
use guigu_agent_bridge.Prelude.Texts.{Text, codes, text_eq}
use guigu_agent_bridge.A2a.{config}
use guigu_agent_bridge.A2a.Policy.{
  IpAddr, v4, v6, is_loopback, is_private_or_link_local, allowed_outbound, ListenPolicy,
  validate_listener, Url, validate_peer_url,
}
use guigu_agent_bridge.A2a.Policy.Allowed.{validate_listener_iff, IsPeer, validate_peer_url-IsPeer}

abbrev office : IpAddr
office = v4 192 168 1 20

abbrev plaintext : ListenPolicy
plaintext = record { allow_private_plaintext = true }

validate_listener_iff_example :
    (validate_listener office plaintext ≡ ok tt)
    ↔ ((is_loopback office || (true && is_private_or_link_local office)) ≡ true)
validate_listener_iff_example = validate_listener_iff office plaintext

abbrev peer_over : Text → Url
peer_over scheme = record {
  username = [];
  password = none;
  query = none;
  fragment = none;
  scheme = scheme;
}

abbrev two_hosts : List IpAddr
two_hosts = office ∷ v6 0 0 0 0 0 0 0 1 ∷ []

peer_accepted : validate_peer_url (peer_over (codes "https")) two_hosts ≡ ok tt
unfolding validate_peer_url allowed_outbound is_private_or_link_local text_eq
peer_accepted = refl

validate_peer_url-IsPeer_example : IsPeer (peer_over (codes "https")) two_hosts
validate_peer_url-IsPeer_example =
    validate_peer_url-IsPeer (peer_over (codes "https")) two_hosts peer_accepted

-- The message of the refusal speaks of the scheme, which is HTTPS here.
public_test :
    validate_peer_url (peer_over (codes "https")) (v4 8 8 8 8 ∷ [])
    ≡ err (config (codes "peer URL must use http or https"))
unfolding validate_peer_url allowed_outbound is_private_or_link_local text_eq
public_test = refl
