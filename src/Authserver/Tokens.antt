-- ===== src/Authserver/Tokens.antt =====
-- internal/authserver/token.go: the token endpoint and the registration of clients. Each request is
-- one step. SHA-256 with base64 is `pkce_s256`; whether signing works and the file is written are
-- arguments, as the random tokens are.
use codebridge.Base.{ℕ, ◌+◌, Bool, ◌||◌, not, Option, none, some, List, ◌∷◌, ltb, if◌then◌else◌}
use codebridge.Base.Text.{Text, codes, text_eq, trim_space}
use codebridge.Authserver.{
  with_entry, AuthCode, RefreshGrant, DcrClient, Server, prune, persist, access_token_ttl,
  refresh_token_ttl,
}

pub data TokenError : Type 0 where
  method_not_allowed unsupported_grant_type unknown_code code_expired client_mismatch : TokenError
  pkce_failed bad_refresh_token other_client signing_failed : TokenError

-- The claims of an access token but for its `jti`; times are in nanoseconds.
pub record Claims : Type 0 where
  pub iss : Text
  pub sub : Text
  pub aud : Text
  pub iat : ℕ
  pub exp : ℕ
  pub scopes : List Text
  pub client_id : Text

pub data TokenAnswer : Type 0 where
  refused : TokenError → TokenAnswer
  tokens : Claims → Text → TokenAnswer

-- What the server draws from outside in one request.
pub record Draw : Type 0 where
  pub now : ℕ
  pub token : Text
  pub signs : Bool
  pub written : Bool

abbrev pub claims_of : Server → ℕ → Text → Text → Text → List Text → Claims
claims_of s now client_id subject resource scopes = record {
  iss = s.cfg.issuer;
  sub = subject;
  aud = resource;
  iat = now;
  exp = now + access_token_ttl;
  scopes = scopes;
  client_id = client_id;
}

abbrev pub refresh_for : ℕ → Text → Text → Text → List Text → RefreshGrant
refresh_for now client_id subject resource scopes = record {
  client_id = client_id;
  resource = resource;
  scopes = scopes;
  subject = subject;
  expires_at = now + refresh_token_ttl;
}

unfoldable pub issue_tokens : Draw → Server → Text → Text → Text → List Text → Server × TokenAnswer
unfolding with_entry prune persist
issue_tokens d s client_id subject resource scopes =
    let grant = refresh_for d.now client_id subject resource scopes in
    if not d.signs then (s, refused signing_failed) else (
      persist d.written
          (prune d.now (record s { refresh = with_entry d.token (some grant) s.refresh })),
      tokens (claims_of s d.now client_id subject resource scopes) d.token,
    )

-- The form of a token request, with its values trimmed.
pub record CodeRequest : Type 0 where
  pub code : Text
  pub code_verifier : Text
  pub client_id : Text
  pub redirect_uri : Text

abbrev pub exchanged :
    (Text → Text) → Draw → Server → CodeRequest → Option AuthCode → Server × TokenAnswer
exchanged pkce_s256 d s req none = (s, refused unknown_code)
exchanged pkce_s256 d s req (some gr) =
    let s' = record s { codes = with_entry req.code none s.codes } in
    if ltb gr.expires_at d.now
    then (s', refused code_expired)
    else if not (text_eq req.client_id gr.client_id)
        || not (text_eq req.redirect_uri gr.redirect_uri)
    then (s', refused client_mismatch)
    else if not (text_eq (pkce_s256 req.code_verifier) gr.code_challenge)
    then (s', refused pkce_failed)
    else issue_tokens d s' gr.client_id gr.subject gr.resource gr.scopes

unfoldable pub token_code : (Text → Text) → Draw → Server → CodeRequest → Server × TokenAnswer
unfolding with_entry issue_tokens text_eq
token_code pkce_s256 d s req = exchanged pkce_s256 d s req (s.codes req.code)

abbrev pub refreshed : Draw → Server → Text → Text → Option RefreshGrant → Server × TokenAnswer
refreshed d s raw client_id none = (s, refused bad_refresh_token)
refreshed d s raw client_id (some gr) =
    let s' = record s { refresh = with_entry raw none s.refresh } in
    if ltb gr.expires_at d.now
    then (s', refused bad_refresh_token)
    else if not (text_eq gr.client_id client_id)
    then (s', refused other_client)
    else issue_tokens d s' gr.client_id gr.subject gr.resource gr.scopes

unfoldable pub token_refresh : Draw → Server → Text → Text → Server × TokenAnswer
unfolding with_entry issue_tokens text_eq
token_refresh d s raw client_id = refreshed d s raw client_id (s.refresh raw)

-- A request to the token endpoint.
pub record TokenForm : Type 0 where
  pub is_post : Bool
  pub grant_type : Text
  pub code : Text
  pub code_verifier : Text
  pub client_id : Text
  pub redirect_uri : Text
  pub refresh_token : Text

abbrev pub code_request : TokenForm → CodeRequest
code_request form = record {
  code = trim_space form.code;
  code_verifier = trim_space form.code_verifier;
  client_id = trim_space form.client_id;
  redirect_uri = trim_space form.redirect_uri;
}

unfoldable pub token : (Text → Text) → Draw → Server → TokenForm → Server × TokenAnswer
unfolding token_code token_refresh text_eq trim_space
token pkce_s256 d s form =
    if not form.is_post
    then (s, refused method_not_allowed)
    else if text_eq form.grant_type (codes "authorization_code")
    then token_code pkce_s256 d s (code_request form)
    else if text_eq form.grant_type (codes "refresh_token")
    then token_refresh d s (trim_space form.refresh_token) (trim_space form.client_id)
    else (s, refused unsupported_grant_type)

-- `cb-` and the random token
abbrev pub client_name : Text → Text
client_name random = b'c' ∷ b'b' ∷ b'-' ∷ random

abbrev pub registered_client : Draw → List Text → DcrClient
registered_client d redirect_uris = record {
  id = client_name d.token;
  redirect_uris = redirect_uris;
  created_at = d.now;
}

-- The new client's id is the answer.
unfoldable pub register : Draw → Server → List Text → Server × Text
unfolding with_entry persist
register d s redirect_uris = (
  persist d.written (record s {
    dcr_clients =
        with_entry (client_name d.token) (some (registered_client d redirect_uris)) s.dcr_clients;
  }),
  client_name d.token,
)
