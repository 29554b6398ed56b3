-- ===== src/Hostipc/Hello/Negotiated.antt =====
-- What a negotiation grants.
use codebridge.Base.{◌≡◌, false, ◌&&◌, not, List, [], ◌∷◌, arith, eq_iff, Bool-cases, inl, inr}
use codebridge.Hostipc.Hello.{Capability, among, negotiate_from, negotiate_capabilities}

-- No capability is there twice.
abbrev pub IsDistinct : List Capability → Type 0
IsDistinct [] = Unit {0}
IsDistinct (c ∷ caps) = (among c caps ≡ false) × IsDistinct caps

among-from :
    (c : Capability) (daemon seen client : List Capability)
    → among c (negotiate_from daemon seen client)
      ≡ (among c daemon && among c client && not (among c seen))
unfolding negotiate_from
among-from c daemon seen [] = ground arith
among-from c daemon seen (x ∷ client) =
    ground
      (arith, eq_iff c x, among-from c daemon (x ∷ seen) client, among-from c daemon seen client)

from-IsDistinct :
    (daemon seen client : List Capability) → IsDistinct (negotiate_from daemon seen client)
unfolding negotiate_from
from-IsDistinct daemon seen [] = tt
from-IsDistinct daemon seen (x ∷ client) =
    elim (Bool-cases (among x daemon && not (among x seen))) [
      | inl granted ↦ rw granted (
        ground (arith, among-from x daemon (x ∷ seen) client, eq_iff x x),
        from-IsDistinct daemon (x ∷ seen) client,
      )
      | inr dropped ↦ rw dropped (from-IsDistinct daemon seen client)
    ]

-- A connection is granted just the capabilities that the client asks for and the daemon offers, each
-- of them once.
pub negotiate_capabilities_lem :
    (daemon client : List Capability)
    → ((c : Capability)
        → among c (negotiate_capabilities daemon client) ≡ (among c daemon && among c client))
      × IsDistinct (negotiate_capabilities daemon client)
unfolding negotiate_capabilities
negotiate_capabilities_lem daemon client =
    (λ c. ground (arith, among-from c daemon [] client), from-IsDistinct daemon [] client)
