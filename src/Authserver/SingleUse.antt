-- ===== src/Authserver/SingleUse.antt =====
-- Codes and refresh tokens are used once.
use codebridge.Base.{
  ℕ, ◌≡◌, refl, ap, ◌∙◌, Bool, true, false, ◌||◌, not, Option, none, some, List, [], ◌∷◌, ltb,
  if_lem, All, Bool-cases, inl, inr,
}
use codebridge.Base.Text.{Text, codes, is_empty, text_eq, trim_space}
use codebridge.Authserver.{
  Table, with_entry, AuthCode, RefreshGrant, Persisted, Server, prune, fresh_server, load_store,
}
use codebridge.Authserver.Authorize.{
  Web, Form, Page, Checked, passed, failed, AuthorizeRequest, issued, issue_code, shown_or_issued,
  session_subject, authorize_get, password_matches, with_session, authorize_post,
  validate_authorize_request,
}
use codebridge.Authserver.Tokens.{
  TokenAnswer, refused, unknown_code, Draw, issue_tokens, CodeRequest, exchanged, token_code,
  refreshed, token_refresh, TokenForm, code_request, token, register,
}
use codebridge.Authserver.Exchanges.{with_entry-at, with_entry_self, persist-codes}
use codebridge.Authserver.Requests.{
  Request, gets, posts, asks, registers, restarts, started, serve, serve_all,
}

erased-stays :
    {V : Type 0} (key k : Text) (table : Table V)
    → table k ≡ none
    → with_entry key none table k ≡ none
erased-stays key k table e = elim (Bool-cases (text_eq key k)) [
  | inl same ↦ rw (with_entry-at, same) refl
  | inr other ↦ rw (with_entry-at, other) e
]

-- This code is not drawn for a new grant.
abbrev pub Avoids : Text → Request → Type 0
Avoids code (gets now web drawn form cookie) = text_eq drawn code ≡ false
Avoids code (posts now web sid drawn form username password) = text_eq drawn code ≡ false
Avoids code (asks d form) = Unit {0}
Avoids code (registers d redirect_uris) = Unit {0}
Avoids code (restarts now) = Unit {0}

module _ (compare : Text → Text → Bool) (pkce_s256 : Text → Text) (code : Text) where
  -- The code is in the table no more.
  abbrev Spent : Server → Type 0
  Spent s = s.codes code ≡ none

  abbrev SpentBy : {A : Type 0} → Server × A → Type 0
  SpentBy (s, a) = Spent s

  issued-Spent :
      (now : ℕ) (drawn : Text) (s : Server) (form : Form) (subject : Text)
      (c : Checked AuthorizeRequest)
      → text_eq drawn code ≡ false
      → Spent s
      → SpentBy (issued now drawn s form subject c)
  issued-Spent now drawn s form subject (failed e) other v = v
  issued-Spent now drawn s form subject (passed req) other v = rw (with_entry-at, other, v) refl

  issue_code-Spent :
      (now : ℕ) (web : Web) (drawn : Text) (s : Server) (form : Form) (subject : Text)
      → text_eq drawn code ≡ false
      → Spent s
      → SpentBy (issue_code now web drawn s form subject)
  unfolding issue_code
  issue_code-Spent now web drawn s form subject other v =
      issued-Spent now drawn s form subject (validate_authorize_request web s form) other v

  shown-Spent :
      (now : ℕ) (web : Web) (drawn : Text) (s : Server) (form : Form) (subject : Text)
      (c : Checked AuthorizeRequest)
      → text_eq drawn code ≡ false
      → Spent s
      → SpentBy (shown_or_issued now web drawn s form subject c)
  shown-Spent now web drawn s form subject (failed e) other v = v
  shown-Spent now web drawn s form subject (passed req) other v =
      if_lem (λ (x : Server × Page). SpentBy x) (is_empty subject) _ _ (λ e. v)
        (λ e. issue_code-Spent now web drawn s form subject other v)

  issue_tokens-Spent :
      (d : Draw) (s : Server) (client_id subject resource : Text) (scopes : List Text)
      → Spent s
      → SpentBy (issue_tokens d s client_id subject resource scopes)
  unfolding issue_tokens prune
  issue_tokens-Spent d s client_id subject resource scopes v =
      if_lem (λ (x : Server × TokenAnswer). SpentBy x) (not d.signs) _ _ (λ e. v)
        (λ e. ap (λ t. t code) (persist-codes d.written _) ∙ v)

  exchanged-Spent :
      (d : Draw) (s : Server) (req : CodeRequest) (o : Option AuthCode)
      → with_entry req.code none s.codes code ≡ none
      → (o ≡ none → Spent s)
      → SpentBy (exchanged pkce_s256 d s req o)
  exchanged-Spent d s req none erased v = v refl
  exchanged-Spent d s req (some gr) erased v =
      let P = λ (x : Server × TokenAnswer). SpentBy x in
      if_lem P (ltb gr.expires_at d.now) _ _ (λ a. erased)
        (λ a.
          if_lem P
            (not (text_eq req.client_id gr.client_id)
              || not (text_eq req.redirect_uri gr.redirect_uri))
            _ _ (λ b. erased)
            (λ b.
              if_lem P (not (text_eq (pkce_s256 req.code_verifier) gr.code_challenge)) _ _
                (λ c. erased)
                (λ c. issue_tokens-Spent d _ gr.client_id gr.subject gr.resource gr.scopes erased)))

  refreshed-Spent :
      (d : Draw) (s : Server) (raw client_id : Text) (o : Option RefreshGrant)
      → Spent s
      → SpentBy (refreshed d s raw client_id o)
  refreshed-Spent d s raw client_id none v = v
  refreshed-Spent d s raw client_id (some gr) v =
      let P = λ (x : Server × TokenAnswer). SpentBy x in
      if_lem P (ltb gr.expires_at d.now) _ _ (λ a. v)
        (λ a.
          if_lem P (not (text_eq gr.client_id client_id)) _ _ (λ b. v)
            (λ b. issue_tokens-Spent d _ gr.client_id gr.subject gr.resource gr.scopes v))

  token_code-Spent :
      (d : Draw) (s : Server) (req : CodeRequest) → Spent s → SpentBy (token_code pkce_s256 d s req)
  unfolding token_code
  token_code-Spent d s req v =
      exchanged-Spent d s req (s.codes req.code) (erased-stays req.code code s.codes v) (λ e. v)

  token-Spent :
      (d : Draw) (s : Server) (form : TokenForm) → Spent s → SpentBy (token pkce_s256 d s form)
  unfolding token token_refresh
  token-Spent d s form v =
      let P = λ (x : Server × TokenAnswer). SpentBy x in
      if_lem P (not form.is_post) _ _ (λ a. v)
        (λ a.
          if_lem P (text_eq form.grant_type (codes "authorization_code")) _ _
            (λ b. token_code-Spent d s (code_request form) v)
            (λ b.
              if_lem P (text_eq form.grant_type (codes "refresh_token")) _ _
                (λ c.
                  refreshed-Spent d s (trim_space form.refresh_token) (trim_space form.client_id) _
                    v)
                (λ c. v)))

  started-Spent :
      (now : ℕ) (s : Server) (o : Option Persisted)
      → Spent s
      → Spent (started s (load_store now true s o))
  unfolding load_store prune
  started-Spent now s none v = v
  started-Spent now s (some p) v = v

  serve-Spent :
      (s : Server) (r : Request) → Avoids code r → Spent s → Spent (serve compare pkce_s256 s r)
  unfolding serve authorize_get authorize_post register
  serve-Spent s (gets now web drawn form cookie) other v =
      shown-Spent now web drawn s form (session_subject now s cookie)
        (validate_authorize_request web s form) other v
  serve-Spent s (posts now web sid drawn form username password) other v =
      let user = trim_space username in
      if_lem (λ (x : Server × Page). SpentBy x)
        (not (password_matches compare password (s.cfg.users user))) _ _ (λ bad. v)
        (λ good. issue_code-Spent now web drawn (with_session now sid s user) form user other v)
  serve-Spent s (asks d form) other v = token-Spent d s form v
  serve-Spent s (registers d redirect_uris) other v =
      ap (λ t. t code) (persist-codes d.written _) ∙ v
  serve-Spent s (restarts now) other v = started-Spent now (fresh_server s.cfg s.file) s.file refl

  serve_all-Spent :
      (s : Server) (rs : List Request)
      → All (Avoids code) rs
      → Spent s
      → Spent (serve_all compare pkce_s256 s rs)
  unfolding serve_all
  serve_all-Spent s [] avoid v = v
  serve_all-Spent s (r ∷ rs) (first, later) v =
      serve_all-Spent (serve compare pkce_s256 s r) rs later (serve-Spent s r first v)

unknown-refused :
    (pkce_s256 : Text → Text) (d : Draw) (s : Server) (req : CodeRequest)
    → s.codes req.code ≡ none
    → (token_code pkce_s256 d s req).1 ≡ refused unknown_code
unfolding token_code
unknown-refused pkce_s256 d s req e = ap (λ o. (exchanged pkce_s256 d s req o).1) e

exchange-Spent :
    (pkce_s256 : Text → Text) (d : Draw) (s : Server) (req : CodeRequest)
    → (token_code pkce_s256 d s req).0.codes req.code ≡ none
unfolding token_code
exchange-Spent pkce_s256 d s req =
    exchanged-Spent (λ p h. false) pkce_s256 req.code d s req (s.codes req.code)
      (with_entry_self req.code none s.codes) (λ e. e)

-- An authorization code is presented once, whatever the answer was: until the same text is drawn as
-- a new code, every later exchange of it is refused, whatever requests and restarts come between.
pub token_code-single_use :
    (compare : Text → Text → Bool) (pkce_s256 : Text → Text) (s : Server) (d later : Draw)
    (req again : CodeRequest) (rs : List Request)
    → again.code ≡ req.code
    → All (Avoids req.code) rs
    → (token_code pkce_s256 later
        (serve_all compare pkce_s256 (token_code pkce_s256 d s req).0 rs)
        again).1
      ≡ refused unknown_code
token_code-single_use compare pkce_s256 s d later req again rs same avoid =
    let s' = (token_code pkce_s256 d s req).0 in
    let spent =
      serve_all-Spent compare pkce_s256 req.code s' rs avoid (exchange-Spent pkce_s256 d s req) in
    unknown-refused pkce_s256 later (serve_all compare pkce_s256 s' rs) again
      (ap (serve_all compare pkce_s256 s' rs).codes same ∙ spent)
