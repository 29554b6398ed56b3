-- ===== src/Authserver/Tests.antt =====
-- The theorems on the authorization server at a small server: a client registers, a user logs in,
-- and the code and then the refresh token are exchanged.
use codebridge.Base.{ℕ, ◌≡◌, refl, true, none, some, List, [], ◌∷◌, arith, if◌then◌else◌}
use codebridge.Base.Text.{Text, codes, text_eq, trim_space, trim_left, trim_right, is_space, fields}
use codebridge.Authserver.{Table, Config, AuthCode, Server, is_live, fresh_server}
use codebridge.Authserver.Authorize.{
  Web, Form, AuthorizeRequest, unreachable, redirected, authorize_post, validate_authorize_request,
  passed, code_for, request_of,
}
use codebridge.Authserver.Tokens.{
  Draw, Claims, tokens, refused, unknown_code, claims_of, refresh_for, CodeRequest, TokenForm,
  token_code, token_refresh, token, register,
}
use codebridge.Authserver.Requests.{Request, posts, asks, registers, restarts, serve, serve_all}
use codebridge.Authserver.Exchanges.{token_code-ok}
use codebridge.Authserver.Subjects.{IsUser}
use codebridge.Authserver.Users.{token-IsUser}
use codebridge.Authserver.Redirects.{Valid, authorize_post-redirected, register-validates}
use codebridge.Authserver.SingleUse.{token_code-single_use}
use codebridge.Authserver.Restarts.{token_refresh-restart}

abbrev ann_only : Table Text
ann_only user = if text_eq user (codes "ann") then some (codes "pw") else none

abbrev cfg : Config
cfg = record { issuer = codes "https://m"; resource = codes "https://m"; users = ann_only }

-- The hash is the password, and the digest of a verifier is the verifier.
abbrev digest : Text → Text
digest verifier = verifier

abbrev web : Web
web = record {
  fetch = λ url. unreachable;
  parse = λ uri. some (record { hostname = codes "h"; path = uri });
}

abbrev draw : ℕ → Text → Draw
draw now token = record { now = now; token = token; signs = true; written = true }

abbrev callback : Text
callback = codes "https://h/cb"

abbrev form : Form
form = record {
  client_id = codes "cb-r";
  redirect_uri = callback;
  code_challenge = codes "v";
  code_challenge_method = codes "S256";
  resource = [];
  state = codes "s";
  scope = codes "codebridge.read";
}

abbrev one_client : Server
one_client = (register (draw 1 (codes "r")) (fresh_server cfg none) (callback ∷ [])).0

register-validates_example :
    validate_authorize_request web one_client form ≡ passed (request_of one_client form)
unfolding trim_space trim_left trim_right is_space register text_eq
register-validates_example =
    register-validates web (draw 1 (codes "r")) (fresh_server cfg none) form (callback ∷ [])
      callback (record { hostname = codes "h"; path = callback }) refl refl refl refl refl refl refl

ann_redirected :
    (authorize_post 2 web text_eq
      (codes "sid")
      (codes "k")
      one_client
      form
      (codes "ann")
      (codes "pw")).1
    ≡ redirected callback (codes "k") (codes "s")
unfolding authorize_post register trim_space
ann_redirected = refl

abbrev logged_in : Server
logged_in =
    (authorize_post 2 web text_eq (codes "sid") (codes "k") one_client form (codes "ann")
      (codes "pw")).0

abbrev exchange : CodeRequest
exchange = record {
  code = codes "k";
  code_verifier = codes "v";
  client_id = codes "cb-r";
  redirect_uri = callback;
}

abbrev ann_claims : ℕ → Claims
ann_claims now =
    claims_of one_client now (codes "cb-r") (codes "ann") (codes "https://m")
      (codes "codebridge.read" ∷ [])

ann_tokens :
    (token_code digest (draw 3 (codes "f")) logged_in exchange).1
    ≡ tokens (ann_claims 3) (codes "f")
unfolding authorize_post register token_code trim_space fields
ann_tokens = refl

abbrev exchanged_server : Server
exchanged_server = (token_code digest (draw 3 (codes "f")) logged_in exchange).0

token_code-ok_example :
    (gr : AuthCode) × (logged_in.codes (codes "k") ≡ some gr)
    × (is_live 3 gr.expires_at ≡ true)
    × (codes "cb-r" ≡ gr.client_id)
    × (callback ≡ gr.redirect_uri)
    × (codes "v" ≡ gr.code_challenge)
    × (ann_claims 3 ≡ claims_of logged_in 3 gr.client_id gr.subject gr.resource gr.scopes)
    × (exchanged_server.refresh (codes "f")
        ≡ some (refresh_for 3 gr.client_id gr.subject gr.resource gr.scopes))
token_code-ok_example =
    token_code-ok digest (draw 3 (codes "f")) logged_in exchange (ann_claims 3) (codes "f")
      ann_tokens

ann_again :
    (token_refresh (draw 4 (codes "g")) exchanged_server (codes "f") (codes "cb-r")).1
    ≡ tokens (ann_claims 4) (codes "g")
unfolding authorize_post register token_code token_refresh trim_space fields
ann_again = refl

abbrev history : List Request
history =
    registers (draw 1 (codes "r")) (callback ∷ [])
    ∷ posts 2 web (codes "sid") (codes "k") form (codes "ann") (codes "pw")
    ∷ []

abbrev code_form : TokenForm
code_form = record {
  is_post = true;
  grant_type = codes "authorization_code";
  code = codes "k";
  code_verifier = codes "v";
  client_id = codes "cb-r";
  redirect_uri = callback;
  refresh_token = [];
}

history_tokens :
    (token digest
      (draw 3 (codes "f"))
      (serve_all text_eq digest (fresh_server cfg none) history)
      code_form).1
    ≡ tokens (ann_claims 3) (codes "f")
unfolding serve_all token trim_space fields
history_tokens = refl

token-IsUser_example : IsUser text_eq cfg (codes "ann") × (cfg.issuer ≡ cfg.issuer)
unfolding register
token-IsUser_example =
    token-IsUser text_eq digest cfg none history (draw 3 (codes "f")) code_form (ann_claims 3)
      (codes "f") tt history_tokens

authorize_post-redirected_example :
    (req : AuthorizeRequest) × (Valid web one_client form req
      × ((hash : Text) × (ann_only (trim_space (codes "ann")) ≡ some hash)
          × (text_eq (codes "pw") hash ≡ true)))
    × (callback ≡ req.redirect_uri)
    × (codes "k" ≡ codes "k")
    × (logged_in.codes (codes "k")
        ≡ some (code_for 2 req (fields (codes "codebridge.read")) (trim_space (codes "ann"))))
unfolding register
authorize_post-redirected_example =
    authorize_post-redirected text_eq 2 web (codes "sid") (codes "k") one_client form (codes "ann")
      (codes "pw") callback (codes "k") (codes "s") ann_redirected

abbrev between : List Request
between = asks (draw 4 (codes "g")) code_form ∷ restarts 5 ∷ []

token_code-single_use_example :
    (token_code digest
      (draw 6 (codes "x"))
      (serve_all text_eq digest exchanged_server between)
      exchange).1
    ≡ refused unknown_code
token_code-single_use_example =
    token_code-single_use text_eq digest logged_in (draw 3 (codes "f")) (draw 6 (codes "x"))
      exchange exchange between refl (tt, (tt, tt))

token_refresh-restart_example :
    (token_refresh
      (draw 6 (codes "g"))
      (serve text_eq digest exchanged_server (restarts 5))
      (codes "f")
      (codes "cb-r")).1
    ≡ tokens
        (claims_of logged_in 6
          (codes "cb-r")
          (codes "ann")
          (codes "https://m")
          (codes "codebridge.read" ∷ []))
        (codes "g")
token_refresh-restart_example =
    token_refresh-restart text_eq digest (draw 3 (codes "f")) (draw 6 (codes "g")) logged_in
      exchange (ann_claims 3) (codes "f") 5 refl ann_tokens (omega arith) (omega arith) refl
