-- ===== src/Authserver.antt =====
-- internal/authserver: the state of the authorization server, and the file that survives restarts.
-- A Go map is a function from its keys. Times are nanoseconds.
pub mod Authorize
pub mod Tokens
pub mod Requests
pub mod Subjects
pub mod Exchanges
pub mod Users
pub mod Redirects
pub mod SingleUse
pub mod Restarts
pub mod Tests
use codebridge.Base.{
  ℕ, ◌+◌, ◌*◌, Bool, true, false, not, Option, none, some, List, [], ltb, if◌then◌else◌,
}
use codebridge.Base.Text.{Text, is_empty, text_eq}

abbrev pub Table : Type 0 → Type 0
Table V = Text → Option V

module _ {V : Type 0} where
  -- `m[key] = v`, and `delete(m, key)` for `none`
  unfoldable pub with_entry : Text → Option V → Table V → Table V
  unfolding text_eq
  with_entry key entry table k = if text_eq key k then entry else table k

  abbrev pub kept : (V → Bool) → Option V → Option V
  kept p none = none
  kept p (some v) = if p v then some v else none

  abbrev pub retained : (V → Bool) → Table V → Table V
  retained p table k = kept p (table k)

  abbrev pub no_entry : Table V
  no_entry k = none

abbrev pub second : ℕ
second = 1000000000

abbrev pub access_token_ttl : ℕ
access_token_ttl = 3600 * second

abbrev pub refresh_token_ttl : ℕ
refresh_token_ttl = 30 * 24 * 3600 * second

abbrev pub auth_code_ttl : ℕ
auth_code_ttl = 5 * 60 * second

abbrev pub session_ttl : ℕ
session_ttl = 24 * 3600 * second

pub record Config : Type 0 where
  pub issuer : Text
  pub resource : Text
  pub users : Table Text

pub record AuthCode : Type 0 where
  pub client_id : Text
  pub redirect_uri : Text
  pub resource : Text
  pub scopes : List Text
  pub subject : Text
  pub code_challenge : Text
  pub expires_at : ℕ

pub record Session : Type 0 where
  pub subject : Text
  pub expires_at : ℕ

pub record RefreshGrant : Type 0 where
  pub client_id : Text
  pub resource : Text
  pub scopes : List Text
  pub subject : Text
  pub expires_at : ℕ

pub record DcrClient : Type 0 where
  pub id : Text
  pub redirect_uris : List Text
  pub created_at : ℕ

pub record Persisted : Type 0 where
  pub dcr_clients : Table DcrClient
  pub refresh : Table RefreshGrant

-- `file` is what stands at StorePath.
pub record Server : Type 0 where
  pub cfg : Config
  pub codes : Table AuthCode
  pub sessions : Table Session
  pub refresh : Table RefreshGrant
  pub dcr_clients : Table DcrClient
  pub file : Option Persisted

-- `!expires_at.Before(now)`
abbrev pub is_live : ℕ → ℕ → Bool
is_live now expires_at = not (ltb expires_at now)

unfoldable pub prune : ℕ → Server → Server
prune now s = record s {
  refresh = retained (λ (g : RefreshGrant). is_live now g.expires_at) s.refresh;
  sessions = retained (λ (x : Session). is_live now x.expires_at) s.sessions;
}

-- `written` says whether the file was written and renamed.
unfoldable pub persist : Bool → Server → Server
persist true s = record s {
  file = some (record { dcr_clients = s.dcr_clients; refresh = s.refresh });
}
persist false s = s

pub data Error : Type 0 where
  issuer_not_https no_users store_unreadable : Error

pub data Result {ℓ} (A : Type ℓ) : Type ℓ where
  ok : A → Result A
  err : Error → Result A

abbrev pub fresh_server : Config → Option Persisted → Server
fresh_server cfg file = record {
  cfg = cfg;
  codes = no_entry;
  sessions = no_entry;
  refresh = no_entry;
  dcr_clients = no_entry;
  file = file;
}

-- `readable` says that the file, where there is one, can be read and decoded.
unfoldable pub load_store : ℕ → Bool → Server → Option Persisted → Result Server
unfolding prune
load_store now readable s none = ok s
load_store now false s (some p) = err store_unreadable
load_store now true s (some p) =
    ok (prune now (record s { dcr_clients = p.dcr_clients; refresh = p.refresh }))
