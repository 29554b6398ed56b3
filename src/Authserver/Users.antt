-- ===== src/Authserver/Users.antt =====
-- Whatever requests come, a token names a configured user.
use codebridge.Base.{
  ℕ, ◌≡◌, refl, sym, ap, ◌∙◌, Bool, true, not, Option, none, some, List, [], ◌∷◌, arith, if_lem,
}
use mathlib.Core.Path.{subst}
use codebridge.Base.Text.{Text, codes, text_eq, trim_space}
use codebridge.Authserver.{Config, Persisted, Server, fresh_server, load_store}
use codebridge.Authserver.Authorize.{
  Web, Form, Page, session_subject, authorize_get, password_matches, with_session, authorize_post,
  validate_authorize_request,
}
use codebridge.Authserver.Tokens.{
  Claims, TokenAnswer, tokens, Draw, CodeRequest, token_code, token_refresh, TokenForm,
  code_request, token, register,
}
use codebridge.Authserver.Exchanges.{token_code-ok, token_refresh-ok}
use codebridge.Authserver.Requests.{
  Request, gets, posts, asks, registers, restarts, started, serve, serve_all,
}
use codebridge.Authserver.Subjects.{
  IsUser, FileIsAuthorized, IsAuthorized, persist-IsAuthorized, prune-IsAuthorized,
  issue_code-IsAuthorized, session_subject-IsUser, shown-IsAuthorized, password_matches-IsUser,
  with_session-IsAuthorized, exchanged-IsAuthorized, refreshed-IsAuthorized,
}

module _ (compare : Text → Text → Bool) (pkce_s256 : Text → Text) (cfg : Config) where
  get-IsAuthorized :
      (now : ℕ) (web : Web) (code : Text) (s : Server) (form : Form) (cookie : Text)
      → IsAuthorized compare cfg s
      → IsAuthorized compare cfg (authorize_get now web code s form cookie).0
  unfolding authorize_get
  get-IsAuthorized now web code s form cookie v =
      shown-IsAuthorized compare cfg now web code s form (session_subject now s cookie)
        (validate_authorize_request web s form) (session_subject-IsUser compare cfg now s cookie v)
        v

  post-IsAuthorized :
      (now : ℕ) (web : Web) (sid code : Text) (s : Server) (form : Form) (username password : Text)
      → IsAuthorized compare cfg s
      → IsAuthorized compare cfg
          (authorize_post now web compare sid code s form username password).0
  unfolding authorize_post
  post-IsAuthorized now web sid code s form username password v =
      let user = trim_space username in
      if_lem (λ (x : Server × Page). IsAuthorized compare cfg x.0)
        (not (password_matches compare password (s.cfg.users user))) _ _ (λ bad. v)
        (λ good.
          let known =
            password_matches-IsUser compare cfg password user (s.cfg.users user)
              (ap (λ (c : Config). c.users user) v.same) (ground (arith, good)) in
          issue_code-IsAuthorized compare cfg now web code (with_session now sid s user) form user
            known (with_session-IsAuthorized compare cfg now sid s user known v))

  code-IsAuthorized :
      (d : Draw) (s : Server) (req : CodeRequest)
      → IsAuthorized compare cfg s
      → IsAuthorized compare cfg (token_code pkce_s256 d s req).0
  unfolding token_code
  code-IsAuthorized d s req v =
      exchanged-IsAuthorized compare cfg pkce_s256 d s req (s.codes req.code) (v.of_codes req.code)
        v

  refresh-IsAuthorized :
      (d : Draw) (s : Server) (raw client_id : Text)
      → IsAuthorized compare cfg s
      → IsAuthorized compare cfg (token_refresh d s raw client_id).0
  unfolding token_refresh
  refresh-IsAuthorized d s raw client_id v =
      refreshed-IsAuthorized compare cfg d s raw client_id (s.refresh raw) (v.of_refresh raw) v

  -- The server stays authorized, and a token's subject is a user.
  abbrev Sound : Server × TokenAnswer → Type 0
  Sound (s', answer) =
      IsAuthorized compare cfg s'
      × ((claims : Claims) (fresh : Text)
          → answer ≡ tokens claims fresh
          → IsUser compare cfg claims.sub × (claims.iss ≡ cfg.issuer))

  code-Sound :
      (d : Draw) (s : Server) (req : CodeRequest)
      → IsAuthorized compare cfg s
      → Sound (token_code pkce_s256 d s req)
  code-Sound d s req v = (
    code-IsAuthorized d s req v,
    λ claims fresh h.
        let (gr, there, live, client, uri, proof, said, kept) =
          token_code-ok pkce_s256 d s req claims fresh h in
        (
          subst (λ (c : Claims). IsUser compare cfg c.sub) (sym said)
              (v.of_codes req.code gr there),
          ap (λ (c : Claims). c.iss) said ∙ ap (λ (c : Config). c.issuer) v.same,
        ),
  )

  refresh-Sound :
      (d : Draw) (s : Server) (raw client_id : Text)
      → IsAuthorized compare cfg s
      → Sound (token_refresh d s raw client_id)
  refresh-Sound d s raw client_id v = (
    refresh-IsAuthorized d s raw client_id v,
    λ claims fresh h.
        let (gr, there, live, client, said, kept) =
          token_refresh-ok d s raw client_id claims fresh h in
        (
          subst (λ (c : Claims). IsUser compare cfg c.sub) (sym said) (v.of_refresh raw gr there),
          ap (λ (c : Claims). c.iss) said ∙ ap (λ (c : Config). c.issuer) v.same,
        ),
  )

  token-Sound :
      (d : Draw) (s : Server) (form : TokenForm)
      → IsAuthorized compare cfg s
      → Sound (token pkce_s256 d s form)
  unfolding token
  token-Sound d s form v =
      if_lem Sound (not form.is_post) _ _ (λ a. (v, λ claims fresh h. absurd (ground arith)))
        (λ a.
          if_lem Sound (text_eq form.grant_type (codes "authorization_code")) _ _
            (λ b. code-Sound d s (code_request form) v)
            (λ b.
              if_lem Sound (text_eq form.grant_type (codes "refresh_token")) _ _
                (λ c.
                  refresh-Sound d s (trim_space form.refresh_token) (trim_space form.client_id) v)
                (λ c. (v, λ claims fresh h. absurd (ground arith)))))

  clients-IsAuthorized :
      (d : Draw) (s : Server) (redirect_uris : List Text)
      → IsAuthorized compare cfg s
      → IsAuthorized compare cfg (register d s redirect_uris).0
  unfolding register
  clients-IsAuthorized d s redirect_uris v = persist-IsAuthorized compare cfg d.written _ (record {
    same = v.same;
    of_codes = v.of_codes;
    of_sessions = v.of_sessions;
    of_refresh = v.of_refresh;
    of_file = v.of_file;
  })

  fresh-IsAuthorized :
      (file : Option Persisted)
      → FileIsAuthorized compare cfg file
      → IsAuthorized compare cfg (fresh_server cfg file)
  fresh-IsAuthorized file v = record {
    same = refl;
    of_codes = λ k c h. absurd (ground arith);
    of_sessions = λ k x h. absurd (ground arith);
    of_refresh = λ k g h. absurd (ground arith);
    of_file = v;
  }

  started-IsAuthorized :
      (now : ℕ) (s : Server) (o : Option Persisted)
      → IsAuthorized compare cfg s
      → FileIsAuthorized compare cfg o
      → IsAuthorized compare cfg (started s (load_store now true s o))
  unfolding load_store
  started-IsAuthorized now s none v f = v
  started-IsAuthorized now s (some p) v f = prune-IsAuthorized compare cfg now _ (record {
    same = v.same;
    of_codes = v.of_codes;
    of_sessions = v.of_sessions;
    of_refresh = f;
    of_file = v.of_file;
  })

  serve-IsAuthorized :
      (s : Server) (r : Request)
      → IsAuthorized compare cfg s
      → IsAuthorized compare cfg (serve compare pkce_s256 s r)
  unfolding serve
  serve-IsAuthorized s (gets now web code form cookie) v =
      get-IsAuthorized now web code s form cookie v
  serve-IsAuthorized s (posts now web sid code form username password) v =
      post-IsAuthorized now web sid code s form username password v
  serve-IsAuthorized s (asks d form) v = (token-Sound d s form v).0
  serve-IsAuthorized s (registers d redirect_uris) v = clients-IsAuthorized d s redirect_uris v
  serve-IsAuthorized s (restarts now) v =
      started-IsAuthorized now _ s.file
        (subst (λ c. IsAuthorized compare cfg (fresh_server c s.file)) (sym v.same)
          (fresh-IsAuthorized s.file v.of_file))
        v.of_file

  serve_all-IsAuthorized :
      (s : Server) (rs : List Request)
      → IsAuthorized compare cfg s
      → IsAuthorized compare cfg (serve_all compare pkce_s256 s rs)
  unfolding serve_all
  serve_all-IsAuthorized s [] v = v
  serve_all-IsAuthorized s (r ∷ rs) v =
      serve_all-IsAuthorized (serve compare pkce_s256 s r) rs (serve-IsAuthorized s r v)

-- After any requests and restarts, from a file whose refresh grants are of users: an access token
-- names this server as its issuer, and its subject is a configured user for whom some password
-- passed the comparison with the configured hash.
pub token-IsUser :
    (compare : Text → Text → Bool) (pkce_s256 : Text → Text) (cfg : Config)
    (file : Option Persisted) (rs : List Request) (d : Draw) (form : TokenForm) (claims : Claims)
    (fresh : Text)
    → FileIsAuthorized compare cfg file
    → (token pkce_s256 d (serve_all compare pkce_s256 (fresh_server cfg file) rs) form).1
      ≡ tokens claims fresh
    → IsUser compare cfg claims.sub × (claims.iss ≡ cfg.issuer)
token-IsUser compare pkce_s256 cfg file rs d form claims fresh v h =
    (token-Sound compare pkce_s256 cfg d _ form (
        serve_all-IsAuthorized compare pkce_s256 cfg _ rs
          (fresh-IsAuthorized compare pkce_s256 cfg file v))).1
      claims fresh h
