-- ===== src/Hostipc/Hello.antt =====
-- internal/hostipc/hello.go: the negotiation of the version and of the capabilities. Version numbers
-- are not negative here.
pub mod Negotiated
use codebridge.Base.{
  ℕ, ◌-◌, Bool, true, false, ◌&&◌, not, String, Option, none, some, List, [], ◌∷◌, nat_eq, ltb,
  str_eq, any, if◌then◌else◌,
}
use codebridge.Hostipc.Methods.{Role, Error, protocol_major_mismatch, protocol_minor_unsupported}

pub record Protocol : Type 0 where
  pub major : ℕ
  pub minor : ℕ

abbrev pub Capability : Type 0
Capability = String

pub record HelloParams : Type 0 where
  pub protocol : Protocol
  pub role : Role
  pub capabilities : List Capability

abbrev pub supported_client_minors : ℕ → List ℕ
supported_client_minors daemon_minor =
    daemon_minor ∷ (if ltb 0 daemon_minor then (daemon_minor - 1) ∷ [] else [])

pub data Negotiation : Type 0 where
  agreed : Protocol → Negotiation
  rejected : Error → Negotiation

unfoldable pub negotiate : Protocol → Protocol → Negotiation
negotiate daemon client =
    if not (nat_eq client.major daemon.major)
    then rejected protocol_major_mismatch
    else if any (nat_eq client.minor) (supported_client_minors daemon.minor)
    then agreed (record { major = daemon.major; minor = client.minor })
    else rejected protocol_minor_unsupported

abbrev pub among : Capability → List Capability → Bool
among c caps = any (str_eq c) caps

-- The loop over the client's capabilities.
unfoldable pub negotiate_from :
    List Capability → List Capability → List Capability → List Capability
negotiate_from daemon seen [] = []
negotiate_from daemon seen (c ∷ client) =
    let more = c ∷ negotiate_from daemon (c ∷ seen) client in
    let rest = negotiate_from daemon seen client in
    if among c daemon && not (among c seen) then more else rest

unfoldable pub negotiate_capabilities : List Capability → List Capability → List Capability
unfolding negotiate_from
negotiate_capabilities daemon client = negotiate_from daemon [] client
