-- ===== src/Authserver/Redirects.antt =====
-- Where the authorization endpoint sends a code.
use codebridge.Base.{
  ℕ, ◌+◌, ◌≡◌, refl, sym, ap, Bool, true, false, ◌||◌, not, Option, none, some, List, [], ◌∷◌,
  arith, any, if_lem, Bool-cases, inl, inr,
}
use mathlib.Core.Path.{subst}
use codebridge.Base.Text.{
  Text, codes, is_empty, text_eq, text_eq_iff, trim_space, has_prefix, fields,
}
use codebridge.Authserver.{DcrClient, Server, is_live, persist, auth_code_ttl}
use codebridge.Authserver.Authorize.{
  Web, Url, Form, Page, redirected, login, bad_request, Checked, passed, failed, ◌>>=◌,
  AuthorizeRequest, request_of, check_redirect, allowed_redirect_uris, redirect_allowed,
  same_loopback, validate_authorize_request, code_for, issued, issue_code, password_matches,
  with_session, authorize_post,
}
use codebridge.Authserver.Tokens.{Draw, client_name, registered_client, register}
use codebridge.Authserver.Exchanges.{with_entry_self}

-- The request has a challenge, and its redirect URI is allowed for its client.
abbrev pub Valid : Web → Server → Form → AuthorizeRequest → Type 0
Valid web s form req =
    (req ≡ request_of s form)
    × (trim_space form.code_challenge_method ≡ codes "S256")
    × (is_empty req.code_challenge ≡ false)
    × ((allowed : List Text) × (allowed_redirect_uris web.fetch s req.client_id ≡ passed allowed)
        × (redirect_allowed web.parse allowed req.redirect_uri ≡ true))

checked-Valid :
    (web : Web) (req : AuthorizeRequest) (c : Checked (List Text)) (r : AuthorizeRequest)
    → (c >>= check_redirect web req) ≡ passed r
    → (r ≡ req)
      × ((allowed : List Text) × (c ≡ passed allowed)
          × (redirect_allowed web.parse allowed req.redirect_uri ≡ true))
checked-Valid web req (failed e) r h = absurd (ground arith)
checked-Valid web req (passed allowed) r h =
    elim (Bool-cases (redirect_allowed web.parse allowed req.redirect_uri)) [
      | inl fine ↦ (sym (same (rw fine at h)), (allowed, refl, fine))
      | inr bad ↦ absurd (ground (arith, rw bad at h))
    ]
  where
    same : {a b : AuthorizeRequest} → passed a ≡ passed b → a ≡ b
    same e = ap (λ (x : Checked AuthorizeRequest). elim x [ passed a ↦ a | failed f ↦ req ]) e

validate-Valid :
    (web : Web) (s : Server) (form : Form) (req : AuthorizeRequest)
    → validate_authorize_request web s form ≡ passed req
    → Valid web s form req
unfolding validate_authorize_request
validate-Valid web s form req =
    let r = request_of s form in
    let P = λ (x : Checked AuthorizeRequest). x ≡ passed req → Valid web s form req in
    let method = trim_space form.code_challenge_method in
    if_lem P (is_empty r.client_id || is_empty r.redirect_uri) _ _ (λ a h. absurd (ground arith))
      (λ a.
        if_lem P (not (text_eq method (codes "S256")) || is_empty r.code_challenge) _ _
          (λ b h. absurd (ground arith))
          (λ b h.
            let (same, (allowed, from, fine)) =
              checked-Valid web r (allowed_redirect_uris web.fetch s r.client_id) req h in
            subst
              (λ (x : AuthorizeRequest).
                (x ≡ r)
                × (method ≡ codes "S256")
                × (is_empty x.code_challenge ≡ false)
                × ((us : List Text) × (allowed_redirect_uris web.fetch s x.client_id ≡ passed us)
                    × (redirect_allowed web.parse us x.redirect_uri ≡ true)))
              (sym same)
              (
                refl,
                (text_eq_iff method (codes "S256")).0 (ground (arith, b)),
                ground (arith, b),
                (allowed, from, fine),
              )))

-- A code was stored for this subject and a valid request, and the browser is sent to its URI.
abbrev pub Sends : ℕ → Text → Form → Text → (AuthorizeRequest → Type 0) → Server × Page → Type 0
Sends now code form subject P (s', page) =
    (uri drawn state : Text)
    → page ≡ redirected uri drawn state
    → (req : AuthorizeRequest) × P req
      × (uri ≡ req.redirect_uri)
      × (drawn ≡ code)
      × (s'.codes code ≡ some (code_for now req (fields form.scope) subject))

code_live : (now : ℕ) → is_live now (now + auth_code_ttl) ≡ true
code_live now = ground arith

issued-Sends :
    (now : ℕ) (code : Text) (s : Server) (form : Form) (subject : Text)
    (c : Checked AuthorizeRequest)
    → Sends now code form subject (λ req. c ≡ passed req) (issued now code s form subject c)
issued-Sends now code s form subject (failed e) = λ uri drawn state h. absurd (ground arith)
issued-Sends now code s form subject (passed req) = λ uri drawn state h. (
  req,
  refl,
  ap (λ (p : Page). elim p [ redirected u d t ↦ u | login b ↦ uri | bad_request e ↦ uri ]) (sym h),
  ap (λ (p : Page). elim p [ redirected u d t ↦ d | login b ↦ drawn | bad_request e ↦ drawn ])
      (sym h),
  rw
      (
        with_entry_self code (some (code_for now req (fields form.scope) subject)) s.codes,
        code_live now,
      )
      refl,
)

matched :
    (compare : Text → Text → Bool) (password : Text) (o : Option Text)
    → password_matches compare password o ≡ true
    → (hash : Text) × (o ≡ some hash) × (compare password hash ≡ true)
matched compare password none h = absurd (ground arith)
matched compare password (some hash) h = (hash, refl, h)

abbrev pub Logged :
    (Text → Text → Bool) → ℕ → Web → Text → Server → Form → Text → Text → Server × Page → Type 0
Logged compare now web code s form user password answer =
    Sends now code form user
      (λ req.
        Valid web s form req
        × ((hash : Text) × (s.cfg.users user ≡ some hash) × (compare password hash ≡ true)))
      answer

logged_in :
    (compare : Text → Text → Bool) (now : ℕ) (web : Web) (sid code : Text) (s : Server)
    (form : Form) (user password : Text)
    → password_matches compare password (s.cfg.users user) ≡ true
    → Logged compare now web code s form user password
        (issue_code now web code (with_session now sid s user) form user)
unfolding issue_code allowed_redirect_uris
logged_in compare now web sid code s form user password good uri drawn state h =
    let s' = with_session now sid s user in
    let (req, valid, to, at, kept) =
      issued-Sends now code s' form user (validate_authorize_request web s' form) uri drawn state
        h in
    (
      req,
      (validate-Valid web s' form req valid, matched compare password (s.cfg.users user) good),
      to,
      at,
      kept,
    )

-- A login that is answered by a redirect: the password passed the comparison with the user's hash;
-- the request asks for PKCE with S256 and has a challenge; its redirect URI, to which the browser
-- is sent with the new code, is allowed by what its client published or registered; and the code is
-- stored for that user, client, URI, challenge and scopes, to last five minutes.
pub authorize_post-redirected :
    (compare : Text → Text → Bool) (now : ℕ) (web : Web) (sid code : Text) (s : Server)
    (form : Form) (username password uri drawn state : Text)
    → (authorize_post now web compare sid code s form username password).1
      ≡ redirected uri drawn state
    → (req : AuthorizeRequest) × (Valid web s form req
        × ((hash : Text) × (s.cfg.users (trim_space username) ≡ some hash)
            × (compare password hash ≡ true)))
      × (uri ≡ req.redirect_uri)
      × (drawn ≡ code)
      × ((authorize_post now web compare sid code s form username password).0.codes code
          ≡ some (code_for now req (fields form.scope) (trim_space username)))
unfolding authorize_post
authorize_post-redirected compare now web sid code s form username password =
    let user = trim_space username in
    if_lem (λ (x : Server × Page). Logged compare now web code s form user password x)
      (not (password_matches compare password (s.cfg.users user))) _ _
      (λ bad uri drawn state h. absurd (ground arith))
      (λ good. logged_in compare now web sid code s form user password (ground (arith, good)))

any-or : (p q : Text → Bool) (xs : List Text) → any p xs ≡ true → any (λ x. p x || q x) xs ≡ true
any-or p q [] h = absurd (ground arith)
any-or p q (x ∷ xs) h = ground (arith, h, any-or p q xs)

listed_allowed :
    (parse : Text → Option Url) (uri : Text) (u : Url) (uris : List Text)
    → parse uri ≡ some u
    → any (λ a. text_eq a uri) uris ≡ true
    → redirect_allowed parse uris uri ≡ true
unfolding redirect_allowed
listed_allowed parse uri u uris parsed listed =
    rw parsed (any-or (λ a. text_eq a uri) (λ a. same_loopback u (parse a)) uris listed)

validate-registered :
    (web : Web) (s : Server) (form : Form) (name uri : Text) (c : DcrClient) (u : Url)
    → trim_space form.client_id ≡ client_name name
    → trim_space form.code_challenge_method ≡ codes "S256"
    → is_empty (trim_space form.code_challenge) ≡ false
    → trim_space form.redirect_uri ≡ uri
    → is_empty uri ≡ false
    → web.parse uri ≡ some u
    → s.dcr_clients (client_name name) ≡ some c
    → any (λ a. text_eq a uri) c.redirect_uris ≡ true
    → validate_authorize_request web s form ≡ passed (request_of s form)
unfolding validate_authorize_request allowed_redirect_uris redirect_allowed has_prefix
validate-registered web s form name uri c u client method challenge redirect filled parsed there
      listed =
    rw (client, method, challenge, redirect, filled, there)
      (rw (listed_allowed web.parse uri u c.redirect_uris parsed listed) refl)

persist-clients :
    (written : Bool) (s : Server) (key : Text) (c : DcrClient)
    → s.dcr_clients key ≡ some c
    → (persist written s).dcr_clients key ≡ some c
unfolding persist
persist-clients true s key c e = e
persist-clients false s key c e = e

-- A client may register any redirect URI that parses, on whatever host: right after, a request with
-- its new id, that URI and a PKCE challenge is valid.
pub register-validates :
    (web : Web) (d : Draw) (s : Server) (form : Form) (uris : List Text) (uri : Text) (u : Url)
    → trim_space form.client_id ≡ (register d s uris).1
    → trim_space form.code_challenge_method ≡ codes "S256"
    → is_empty (trim_space form.code_challenge) ≡ false
    → trim_space form.redirect_uri ≡ uri
    → is_empty uri ≡ false
    → web.parse uri ≡ some u
    → any (λ a. text_eq a uri) uris ≡ true
    → validate_authorize_request web (register d s uris).0 form
      ≡ passed (request_of (register d s uris).0 form)
unfolding register
register-validates web d s form uris uri u client method challenge redirect filled parsed listed =
    validate-registered web (register d s uris).0 form d.token uri (registered_client d uris) u
      client method challenge redirect filled parsed
      (persist-clients d.written _ (client_name d.token) _
        (with_entry_self (client_name d.token) _ s.dcr_clients))
      listed
