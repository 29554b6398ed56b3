-- ===== src/Authserver/Authorize.antt =====
-- internal/authserver/server.go and store.go: the authorization endpoint. The metadata that a client
-- publishes and what `url.Parse` finds are arguments.
use codebridge.Base.{
  ℕ, ◌+◌, Bool, true, false, ◌&&◌, ◌||◌, not, Option, none, some, List, [], ◌∷◌, nat_eq, any, drop,
  if◌then◌else◌,
}
use codebridge.Base.Text.{Text, codes, is_empty, text_eq, trim_space, has_prefix, fields}
use codebridge.Authserver.{
  Table, with_entry, retained, AuthCode, Session, DcrClient, Server, is_live, auth_code_ttl,
  session_ttl,
}

pub data AuthError : Type 0 where
  ids_required pkce_required not_metadata_url fetch_failed bad_metadata : AuthError
  client_id_mismatch unknown_client redirect_not_allowed bad_password : AuthError

pub data Checked {ℓ} (A : Type ℓ) : Type ℓ where
  passed : A → Checked A
  failed : AuthError → Checked A

infixl 5 ◌>>=◌
abbrev pub ◌>>=◌ {ℓ κ} : {A : Type ℓ} {B : Type κ} → Checked A → (A → Checked B) → Checked B
passed a >>= f = f a
failed e >>= f = failed e

pub record CimdDocument : Type 0 where
  pub client_id : Text
  pub redirect_uris : List Text

-- What fetching the URL of a client gives.
pub data Fetched : Type 0 where
  unreachable not_ok undecodable : Fetched
  fetched : CimdDocument → Fetched

pub record Url : Type 0 where
  pub hostname : Text
  pub path : Text

abbrev pub chatgpt_client : Text
chatgpt_client = codes "https://chatgpt.com/oauth/client.json"

abbrev pub codex_client : Text
codex_client = codes "https://chatgpt.com/oauth/codex/client.json"

abbrev pub builtin_cimd : Table CimdDocument
builtin_cimd id =
    if text_eq id chatgpt_client
    then some (record {
      client_id = chatgpt_client;
      redirect_uris =
          codes "https://chatgpt.com/connector_platform_oauth_redirect"
          ∷ codes "https://chatgpt.com/aip/connector/callback"
          ∷ codes "https://chatgpt.com/backend-api/codex/connect"
          ∷ [];
    })
    else if text_eq id codex_client
    then some (record {
      client_id = codex_client;
      redirect_uris =
          codes "http://127.0.0.1/callback"
          ∷ codes "http://localhost/callback"
          ∷ codes "http://127.0.0.1:57917/callback"
          ∷ [];
    })
    else none

abbrev or_failed : AuthError → Option CimdDocument → Checked CimdDocument
or_failed e none = failed e
or_failed e (some doc) = passed doc

abbrev pub read_cimd : Text → Fetched → Checked CimdDocument
read_cimd client_id unreachable = or_failed fetch_failed (builtin_cimd client_id)
read_cimd client_id not_ok = or_failed fetch_failed (builtin_cimd client_id)
read_cimd client_id undecodable = failed bad_metadata
read_cimd client_id (fetched doc) =
    if not (text_eq doc.client_id client_id) then failed client_id_mismatch else passed doc

unfoldable pub fetch_cimd : (Text → Fetched) → Text → Checked CimdDocument
unfolding has_prefix text_eq
fetch_cimd fetch client_id =
    if not (has_prefix client_id (codes "https://")) || not (any (nat_eq b'/') (drop 8 client_id))
    then failed not_metadata_url
    else read_cimd client_id (fetch client_id)

abbrev registered : Option DcrClient → Checked (List Text)
registered none = failed unknown_client
registered (some c) = passed c.redirect_uris

abbrev pub uris_of : CimdDocument → Checked (List Text)
uris_of doc = passed doc.redirect_uris

unfoldable pub allowed_redirect_uris : (Text → Fetched) → Server → Text → Checked (List Text)
unfolding fetch_cimd has_prefix
allowed_redirect_uris fetch s client_id =
    if has_prefix client_id (codes "https://")
    then fetch_cimd fetch client_id >>= uris_of
    else registered (s.dcr_clients client_id)

abbrev pub is_loopback : Url → Bool
is_loopback u =
    text_eq u.hostname (codes "127.0.0.1")
    || text_eq u.hostname (codes "localhost")
    || text_eq u.hostname (codes "::1")

abbrev pub same_loopback : Url → Option Url → Bool
same_loopback wanted none = false
same_loopback wanted (some u) = is_loopback u && is_loopback wanted && text_eq u.path wanted.path

abbrev pub redirect_matches : (Text → Option Url) → Text → Url → Text → Bool
redirect_matches parse want wanted a = text_eq a want || same_loopback wanted (parse a)

abbrev pub matches_any : (Text → Option Url) → List Text → Text → Option Url → Bool
matches_any parse allowed want none = false
matches_any parse allowed want (some wanted) = any (redirect_matches parse want wanted) allowed

unfoldable pub redirect_allowed : (Text → Option Url) → List Text → Text → Bool
unfolding text_eq
redirect_allowed parse allowed want = matches_any parse allowed want (parse want)

-- The values of the form that the code reads.
pub record Form : Type 0 where
  pub client_id : Text
  pub redirect_uri : Text
  pub code_challenge : Text
  pub code_challenge_method : Text
  pub resource : Text
  pub state : Text
  pub scope : Text

pub record AuthorizeRequest : Type 0 where
  pub client_id : Text
  pub redirect_uri : Text
  pub code_challenge : Text
  pub resource : Text
  pub state : Text

abbrev pub request_of : Server → Form → AuthorizeRequest
request_of s form = record {
  client_id = trim_space form.client_id;
  redirect_uri = trim_space form.redirect_uri;
  code_challenge = trim_space form.code_challenge;
  resource =
      if is_empty (trim_space form.resource) then s.cfg.resource else trim_space form.resource;
  state = form.state;
}

-- What lies outside the server.
pub record Web : Type 0 where
  pub fetch : Text → Fetched
  pub parse : Text → Option Url

abbrev pub check_redirect : Web → AuthorizeRequest → List Text → Checked AuthorizeRequest
check_redirect web req allowed =
    if not (redirect_allowed web.parse allowed req.redirect_uri)
    then failed redirect_not_allowed
    else passed req

unfoldable pub validate_authorize_request : Web → Server → Form → Checked AuthorizeRequest
unfolding allowed_redirect_uris redirect_allowed trim_space text_eq
validate_authorize_request web s form =
    let req = request_of s form in
    if is_empty req.client_id || is_empty req.redirect_uri
    then failed ids_required
    else if not (text_eq (trim_space form.code_challenge_method) (codes "S256"))
        || is_empty req.code_challenge
    then failed pkce_required
    else allowed_redirect_uris web.fetch s req.client_id >>= check_redirect web req

-- The subject of a session; the text is empty where there is no cookie.
abbrev pub live_subject : ℕ → Option Session → Text
live_subject now none = []
live_subject now (some x) = if is_live now x.expires_at then x.subject else []

unfoldable pub session_subject : ℕ → Server → Text → Text
session_subject now s cookie = if is_empty cookie then [] else live_subject now (s.sessions cookie)

-- The answer: an error, the login form, or a redirect with a code.
pub data Page : Type 0 where
  bad_request : AuthError → Page
  login : Bool → Page
  redirected : Text → Text → Text → Page

abbrev pub code_for : ℕ → AuthorizeRequest → List Text → Text → AuthCode
code_for now req scopes subject = record {
  client_id = req.client_id;
  redirect_uri = req.redirect_uri;
  resource = req.resource;
  scopes = scopes;
  subject = subject;
  code_challenge = req.code_challenge;
  expires_at = now + auth_code_ttl;
}

abbrev pub issued : ℕ → Text → Server → Form → Text → Checked AuthorizeRequest → Server × Page
issued now code s form subject (failed e) = (s, bad_request e)
issued now code s form subject (passed req) = (
  record s {
    codes =
        retained (λ (c : AuthCode). is_live now c.expires_at)
          (with_entry code (some (code_for now req (fields form.scope) subject)) s.codes);
  },
  redirected req.redirect_uri code req.state,
)

-- `code` is the random token.
unfoldable pub issue_code : ℕ → Web → Text → Server → Form → Text → Server × Page
unfolding validate_authorize_request with_entry fields
issue_code now web code s form subject =
    issued now code s form subject (validate_authorize_request web s form)

abbrev pub shown_or_issued :
    ℕ → Web → Text → Server → Form → Text → Checked AuthorizeRequest → Server × Page
shown_or_issued now web code s form subject (failed e) = (s, bad_request e)
shown_or_issued now web code s form subject (passed req) =
    if is_empty subject then (s, login false) else issue_code now web code s form subject

unfoldable pub authorize_get : ℕ → Web → Text → Server → Form → Text → Server × Page
unfolding issue_code validate_authorize_request session_subject
authorize_get now web code s form cookie =
    shown_or_issued now web code s form (session_subject now s cookie)
      (validate_authorize_request web s form)

-- `compare` is bcrypt's comparison of a password with a hash.
abbrev pub password_matches : (Text → Text → Bool) → Text → Option Text → Bool
password_matches compare password none = false
password_matches compare password (some hash) = compare password hash

abbrev pub with_session : ℕ → Text → Server → Text → Server
with_session now sid s user = record s {
  sessions =
      with_entry sid (some (record { subject = user; expires_at = now + session_ttl })) s.sessions;
}

unfoldable pub authorize_post :
    ℕ → Web → (Text → Text → Bool) → Text → Text → Server → Form → Text → Text → Server × Page
unfolding issue_code with_entry trim_space
authorize_post now web compare sid code s form username password =
    let user = trim_space username in
    if not (password_matches compare password (s.cfg.users user))
    then (s, login true)
    else issue_code now web code (with_session now sid s user) form user
