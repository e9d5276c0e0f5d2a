-- ===== src/Push/Validation.antt =====
-- `ValidateSubscription` and the addresses that internal/push/subscription.go refuses. An address is
-- its number, of 32 or of 128 bits; the parsing of URLs, addresses and base64 is a parameter.
use signa.Prelude.{
  ℕ, ◌+◌, ◌*◌, ◌/◌, ◌^◌, Bool, true, false, not, ◌&&◌, ◌||◌, Option, none, some, List, ◌∷◌, ◌==◌,
  if◌then◌else◌, length, is_empty,
}
use signa.Prelude.Result.{Result, err, fail_if, ◌>>◌}
use signa.Prelude.Text.{contains_codes, codes, trim_space, equal_codes}
use signa.Push.{
  SubscriptionInput, Error, endpoint_not_https, bad_p256dh, bad_auth, endpoint_not_public,
}

pub data Ip : Type 0 where
  v4 : ℕ → Ip
  v6 : ℕ → Ip

-- `network.Contains(ip)` of the network of an address whose last bits are free.
abbrev pub in_network : ℕ → ℕ → ℕ → Bool
in_network base free n = n / 2 ^ free == base / 2 ^ free

abbrev pub v4_of : ℕ → ℕ → ℕ → ℕ → ℕ
v4_of a b c d = ((a * 256 + b) * 256 + c) * 256 + d

-- The first 32 bits of an address of 128 bits.
abbrev pub v6_of : ℕ → ℕ → ℕ
v6_of a b = (a * 65536 + b) * 2 ^ 96

-- `IsUnspecified`, `IsLoopback`, `IsPrivate`, `IsLinkLocalUnicast`, `IsLinkLocalMulticast`,
-- `IsMulticast` and `IsGlobalUnicast` of package net.
unfoldable pub is_unspecified : Ip → Bool
is_unspecified (v4 n) = n == 0
is_unspecified (v6 n) = n == 0

unfoldable pub is_loopback : Ip → Bool
is_loopback (v4 n) = in_network (v4_of 127 0 0 0) 24 n
is_loopback (v6 n) = n == 1

unfoldable pub is_private : Ip → Bool
is_private (v4 n) =
    in_network (v4_of 10 0 0 0) 24 n
    || in_network (v4_of 172 16 0 0) 20 n
    || in_network (v4_of 192 168 0 0) 16 n
is_private (v6 n) = in_network (v6_of 0xfc00 0) 121 n

unfoldable pub is_link_local_unicast : Ip → Bool
is_link_local_unicast (v4 n) = in_network (v4_of 169 254 0 0) 16 n
is_link_local_unicast (v6 n) = in_network (v6_of 0xfe80 0) 118 n

unfoldable pub is_link_local_multicast : Ip → Bool
is_link_local_multicast (v4 n) = in_network (v4_of 224 0 0 0) 8 n
is_link_local_multicast (v6 n) = in_network (v6_of 0xff02 0) 112 n

unfoldable pub is_multicast : Ip → Bool
is_multicast (v4 n) = in_network (v4_of 224 0 0 0) 28 n
is_multicast (v6 n) = in_network (v6_of 0xff00 0) 120 n

abbrev pub is_broadcast : Ip → Bool
is_broadcast (v4 n) = n == v4_of 255 255 255 255
is_broadcast (v6 n) = false

unfoldable pub is_global_unicast : Ip → Bool
unfolding is_unspecified is_loopback is_multicast is_link_local_unicast
is_global_unicast ip =
    not (is_broadcast ip)
    && not (is_unspecified ip)
    && not (is_loopback ip)
    && not (is_multicast ip)
    && not (is_link_local_unicast ip)

-- `nonPublicEndpointCIDRs`.
unfoldable pub in_non_public_network : Ip → Bool
in_non_public_network (v4 n) =
    in_network (v4_of 0 0 0 0) 24 n
    || in_network (v4_of 100 64 0 0) 22 n
    || in_network (v4_of 192 0 0 0) 8 n
    || in_network (v4_of 192 0 2 0) 8 n
    || in_network (v4_of 192 88 99 0) 8 n
    || in_network (v4_of 198 18 0 0) 17 n
    || in_network (v4_of 198 51 100 0) 8 n
    || in_network (v4_of 203 0 113 0) 8 n
    || in_network (v4_of 240 0 0 0) 28 n
in_non_public_network (v6 n) =
    in_network (v6_of 0x2001 2) 80 n
    || in_network (v6_of 0x2001 0x10) 100 n
    || in_network (v6_of 0x2001 0xdb8) 96 n

-- `isPublicIP` of an address that is not nil.
unfoldable pub is_public_ip : Ip → Bool
unfolding is_global_unicast is_private is_loopback is_link_local_unicast is_link_local_multicast
    is_multicast is_unspecified in_non_public_network
is_public_ip ip =
    if not (is_global_unicast ip)
      || is_private ip
      || is_loopback ip
      || is_link_local_unicast ip
      || is_link_local_multicast ip
      || is_multicast ip
      || is_unspecified ip
    then false
    else not (in_non_public_network ip)

-- What `url.Parse` finds.
pub record Url : Type 0 where
  pub scheme : List ℕ
  pub host : List ℕ
  pub hostname : List ℕ
  pub has_user : Bool
  pub fragment : List ℕ

-- `url.Parse`, `net.ParseIP` and `base64.RawURLEncoding.DecodeString`, where `none` is a failure.
pub record Parsers : Type 0 where
  pub parse_url : List ℕ → Option Url
  pub parse_ip : List ℕ → Option Ip
  pub decode_key : List ℕ → Option (List ℕ)

abbrev pub trim_input : SubscriptionInput → SubscriptionInput
trim_input input = record {
  endpoint = trim_space input.endpoint;
  p256dh = trim_space input.p256dh;
  auth = trim_space input.auth;
}

module _ (p : Parsers) where
  abbrev pub is_prohibited_ip : Option Ip → Bool
  is_prohibited_ip none = false
  is_prohibited_ip (some ip) = not (is_public_ip ip)

  -- `isProhibitedLiteralIP`.
  unfoldable pub is_prohibited_literal_ip : List ℕ → Bool
  unfolding contains_codes is_public_ip
  is_prohibited_literal_ip host =
      if contains_codes host (codes "%") then true else is_prohibited_ip (p.parse_ip host)

  abbrev pub is_https : Url → Bool
  is_https url =
      equal_codes url.scheme (codes "https")
      && not (is_empty url.host)
      && not url.has_user
      && is_empty url.fragment

  abbrev pub check_url : Option Url → Result Error (Unit {0})
  check_url none = err endpoint_not_https
  check_url (some url) = do
    fail_if (not (is_https url)) endpoint_not_https
    fail_if (is_prohibited_literal_ip url.hostname) endpoint_not_public

  abbrev pub is_public_key : Option (List ℕ) → Bool
  is_public_key (some (first ∷ rest)) = length (first ∷ rest) == 65 && first == 4
  is_public_key _ = false

  abbrev pub is_auth_key : Option (List ℕ) → Bool
  is_auth_key none = false
  is_auth_key (some key) = length key == 16

  -- `ValidateSubscription` after its trimming.
  unfoldable pub validate_trimmed : SubscriptionInput → Result Error (Unit {0})
  unfolding is_prohibited_literal_ip equal_codes
  validate_trimmed input = do
    check_url (p.parse_url input.endpoint)
    fail_if (not (is_public_key (p.decode_key input.p256dh))) bad_p256dh
    fail_if (not (is_auth_key (p.decode_key input.auth))) bad_auth

  -- `ValidateSubscription`.
  unfoldable pub validate_subscription : SubscriptionInput → Result Error (Unit {0})
  unfolding validate_trimmed trim_space
  validate_subscription input = validate_trimmed (trim_input input)
