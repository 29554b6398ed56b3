-- ===== src/Authserver/Requests.antt =====
-- The requests that reach the authorization server, one after another, and its restarts.
use codebridge.Base.{ℕ, Bool, true, List, [], ◌∷◌}
use codebridge.Base.Text.{Text}
use codebridge.Authserver.{Server, Result, ok, err, fresh_server, load_store}
use codebridge.Authserver.Authorize.{Web, Form, authorize_get, authorize_post}
use codebridge.Authserver.Tokens.{Draw, TokenForm, token, register}

pub data Request : Type 0 where
  gets : ℕ → Web → Text → Form → Text → Request
  posts : ℕ → Web → Text → Text → Form → Text → Text → Request
  asks : Draw → TokenForm → Request
  registers : Draw → List Text → Request
  restarts : ℕ → Request

-- A start that succeeds; without one there is no server.
abbrev pub started : Server → Result Server → Server
started s (ok s') = s'
started s (err e) = s

-- `compare` is bcrypt's comparison, `pkce_s256` the digest of a verifier.
unfoldable pub serve : (Text → Text → Bool) → (Text → Text) → Server → Request → Server
unfolding authorize_get authorize_post token register load_store
serve compare pkce_s256 s (gets now web code form cookie) =
    (authorize_get now web code s form cookie).0
serve compare pkce_s256 s (posts now web sid code form username password) =
    (authorize_post now web compare sid code s form username password).0
serve compare pkce_s256 s (asks d form) = (token pkce_s256 d s form).0
serve compare pkce_s256 s (registers d redirect_uris) = (register d s redirect_uris).0
serve compare pkce_s256 s (restarts now) =
    let fresh = fresh_server s.cfg s.file in started fresh (load_store now true fresh s.file)

unfoldable pub serve_all : (Text → Text → Bool) → (Text → Text) → Server → List Request → Server
unfolding serve
serve_all compare pkce_s256 s [] = s
serve_all compare pkce_s256 s (r ∷ rs) =
    serve_all compare pkce_s256 (serve compare pkce_s256 s r) rs
