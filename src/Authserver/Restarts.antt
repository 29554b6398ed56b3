-- ===== src/Authserver/Restarts.antt =====
-- A refresh token that was saved works after a restart.
use codebridge.Base.{
  ℕ, ◌+◌, ◌≤◌, ◌≡◌, refl, sym, ap, ◌∙◌, Bool, true, false, ◌||◌, not, Option, none, some, List,
  arith, ltb, if_lem,
}
use mathlib.Core.Path.{subst}
use codebridge.Base.Text.{Text, text_eq, text_eq_self}
use codebridge.Authserver.{
  with_entry, AuthCode, RefreshGrant, Persisted, Server, is_live, prune, persist, load_store,
  refresh_token_ttl,
}
use codebridge.Authserver.Tokens.{
  Claims, TokenAnswer, tokens, Draw, claims_of, refresh_for, issue_tokens, CodeRequest, exchanged,
  token_code, token_refresh,
}
use codebridge.Authserver.Exchanges.{token_code-ok}
use codebridge.Authserver.Requests.{restarts, serve}

-- Where there are tokens, the file holds the clients and refresh grants of the server.
abbrev Saved : Server → Server × TokenAnswer → Type 0
Saved s (s', answer) =
    (claims : Claims) (fresh : Text)
    → answer ≡ tokens claims fresh
    → (s'.file ≡ some (record { dcr_clients = s'.dcr_clients; refresh = s'.refresh }))
      × (s'.cfg ≡ s.cfg)

persist-file :
    (written : Bool) (s : Server)
    → written ≡ true
    → ((persist written s).file
        ≡ some (record {
          dcr_clients = (persist written s).dcr_clients;
          refresh = (persist written s).refresh;
        }))
      × ((persist written s).cfg ≡ s.cfg)
unfolding persist
persist-file true s h = (refl, refl)
persist-file false s h = absurd (ground arith)

issue_tokens-Saved :
    (d : Draw) (s : Server) (client_id subject resource : Text) (scopes : List Text)
    → d.written ≡ true
    → Saved s (issue_tokens d s client_id subject resource scopes)
unfolding issue_tokens prune
issue_tokens-Saved d s client_id subject resource scopes w =
    if_lem (Saved s) (not d.signs) _ _ (λ e claims fresh h. absurd (ground arith))
      (λ e claims fresh h. persist-file d.written _ w)

exchanged-Saved :
    (pkce_s256 : Text → Text) (d : Draw) (s : Server) (req : CodeRequest) (o : Option AuthCode)
    → d.written ≡ true
    → Saved s (exchanged pkce_s256 d s req o)
exchanged-Saved pkce_s256 d s req none w = λ claims fresh h. absurd (ground arith)
exchanged-Saved pkce_s256 d s req (some gr) w =
    if_lem (Saved s) (ltb gr.expires_at d.now) _ _ (λ a claims fresh h. absurd (ground arith))
      (λ a.
        if_lem (Saved s)
          (not (text_eq req.client_id gr.client_id)
            || not (text_eq req.redirect_uri gr.redirect_uri))
          _ _ (λ b claims fresh h. absurd (ground arith))
          (λ b.
            if_lem (Saved s) (not (text_eq (pkce_s256 req.code_verifier) gr.code_challenge)) _ _
              (λ c claims fresh h. absurd (ground arith))
              (λ c.
                issue_tokens-Saved d (record s { codes = with_entry req.code none s.codes })
                  gr.client_id gr.subject gr.resource gr.scopes w)))

restarted :
    (compare : Text → Text → Bool) (pkce_s256 : Text → Text) (now : ℕ) (s : Server) (p : Persisted)
    (k : Text) (g : RefreshGrant)
    → s.file ≡ some p
    → p.refresh k ≡ some g
    → is_live now g.expires_at ≡ true
    → ((serve compare pkce_s256 s (restarts now)).refresh k ≡ some g)
      × ((serve compare pkce_s256 s (restarts now)).cfg ≡ s.cfg)
unfolding serve load_store prune
restarted compare pkce_s256 now s p k g e there live = (rw (e, there, live) refl, rw e refl)

refresh_works :
    (d : Draw) (s : Server) (raw : Text) (gr : RefreshGrant)
    → s.refresh raw ≡ some gr
    → is_live d.now gr.expires_at ≡ true
    → d.signs ≡ true
    → (token_refresh d s raw gr.client_id).1
      ≡ tokens (claims_of s d.now gr.client_id gr.subject gr.resource gr.scopes) d.token
unfolding token_refresh issue_tokens
refresh_works d s raw gr there live signs =
    let late : ltb gr.expires_at d.now ≡ false = ground (arith, live) in
    rw (there, late, text_eq_self gr.client_id, signs) refl

within : (t until : ℕ) → t ≤ until → is_live t until ≡ true
within t until h = ground (arith, h)

-- A code was exchanged and the file was written; then the server restarts, and within thirty days
-- of the exchange the client presents its refresh token: it gets tokens, for the same subject,
-- resource, scopes and client, if signing works.
pub token_refresh-restart :
    (compare : Text → Text → Bool) (pkce_s256 : Text → Text) (d later : Draw) (s : Server)
    (req : CodeRequest) (claims : Claims) (fresh : Text) (now : ℕ)
    → d.written ≡ true
    → (token_code pkce_s256 d s req).1 ≡ tokens claims fresh
    → now ≤ d.now + refresh_token_ttl
    → later.now ≤ d.now + refresh_token_ttl
    → later.signs ≡ true
    → (token_refresh later
        (serve compare pkce_s256 (token_code pkce_s256 d s req).0 (restarts now))
        fresh
        claims.client_id).1
      ≡ tokens
          (claims_of s later.now claims.client_id claims.sub claims.aud claims.scopes)
          later.token
unfolding token_code
token_refresh-restart compare pkce_s256 d later s req claims fresh now w h soon later_soon signs =
    let (gr, there, live, client, uri, proof, said, kept) =
      token_code-ok pkce_s256 d s req claims fresh h in
    let s' = (token_code pkce_s256 d s req).0 in
    let (file, same) = exchanged-Saved pkce_s256 d s req (s.codes req.code) w claims fresh h in
    let grant = refresh_for d.now gr.client_id gr.subject gr.resource gr.scopes in
    let (back, same') =
      restarted compare pkce_s256 now s' _ fresh grant file kept
        (within now (d.now + refresh_token_ttl) soon) in
    subst
      (λ (c : Claims).
        (token_refresh later (serve compare pkce_s256 s' (restarts now)) fresh c.client_id).1
        ≡ tokens (claims_of s later.now c.client_id c.sub c.aud c.scopes) later.token)
      (sym said)
      (refresh_works later (serve compare pkce_s256 s' (restarts now)) fresh grant back
          (within later.now (d.now + refresh_token_ttl) later_soon) signs
        ∙ ap
            (λ cfg.
              tokens
                (claims_of (record s { cfg = cfg }) later.now gr.client_id gr.subject gr.resource
                  gr.scopes)
                later.token)
            (same' ∙ same))
