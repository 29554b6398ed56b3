-- ===== src/Authserver/Exchanges.antt =====
-- What a token answer says of the grant that was presented.
use codebridge.Base.{
  ℕ, ◌+◌, ◌≡◌, refl, sym, ap, ◌∙◌, Bool, true, false, ◌||◌, not, Option, none, some, List, arith,
  ltb, if◌then◌else◌, if_lem,
}
use mathlib.Core.Path.{subst}
use codebridge.Base.Text.{Text, text_eq, text_eq_iff, text_eq_self}
use codebridge.Authserver.{
  Table, with_entry, AuthCode, RefreshGrant, Server, is_live, prune, persist, refresh_token_ttl,
}
use codebridge.Authserver.Tokens.{
  Claims, TokenAnswer, tokens, refused, Draw, claims_of, refresh_for, issue_tokens, CodeRequest,
  exchanged, token_code, refreshed, token_refresh,
}

pub with_entry-at :
    {V : Type 0} (key : Text) (entry : Option V) (table : Table V) (k : Text)
    → with_entry key entry table k ≡ (if text_eq key k then entry else table k)
unfolding with_entry
with_entry-at key entry table k = refl

pub with_entry_self :
    {V : Type 0} (key : Text) (entry : Option V) (table : Table V)
    → with_entry key entry table key ≡ entry
with_entry_self key entry table = rw (with_entry-at, text_eq_self key) refl

pub persist-refresh : (written : Bool) (s : Server) → (persist written s).refresh ≡ s.refresh
unfolding persist
persist-refresh true s = refl
persist-refresh false s = refl

pub persist-codes : (written : Bool) (s : Server) → (persist written s).codes ≡ s.codes
unfolding persist
persist-codes true s = refl
persist-codes false s = refl

-- The claims and the new refresh grant say the client, subject, resource and scopes.
abbrev pub Grants : Server → ℕ → Text → Text → Text → List Text → Server × TokenAnswer → Type 0
Grants s now client_id subject resource scopes (s', answer) =
    (claims : Claims) (fresh : Text)
    → answer ≡ tokens claims fresh
    → (claims ≡ claims_of s now client_id subject resource scopes)
      × (s'.refresh fresh ≡ some (refresh_for now client_id subject resource scopes))

prune-live :
    (now : ℕ) (s : Server) (k : Text) (g : RefreshGrant)
    → s.refresh k ≡ some g
    → is_live now g.expires_at ≡ true
    → (prune now s).refresh k ≡ some g
unfolding prune
prune-live now s k g e live = rw (e, live) refl

not_expired : (now : ℕ) → ltb (now + refresh_token_ttl) now ≡ false
not_expired now = ground arith

issue_tokens-Grants :
    (d : Draw) (s : Server) (client_id subject resource : Text) (scopes : List Text)
    → Grants s d.now client_id subject resource scopes
        (issue_tokens d s client_id subject resource scopes)
unfolding issue_tokens
issue_tokens-Grants d s client_id subject resource scopes =
    let grant = refresh_for d.now client_id subject resource scopes in
    let s' = record s { refresh = with_entry d.token (some grant) s.refresh } in
    if_lem (Grants s d.now client_id subject resource scopes) (not d.signs) _ _
      (λ unsigned claims fresh h. absurd (ground arith))
      (λ signed claims fresh h.
        let (same, drawn) = answers h in
        (
          sym same,
          ap (λ t. t fresh) (persist-refresh d.written (prune d.now s'))
              ∙ prune-live d.now s' fresh grant
                  (subst (λ x. with_entry d.token (some grant) s.refresh x ≡ some grant) drawn
                    (with_entry_self d.token (some grant) s.refresh))
                  (ap not (not_expired d.now)),
        ))
  where
    answers : {a b : Claims} {x y : Text} → tokens a x ≡ tokens b y → (a ≡ b) × (x ≡ y)
    answers h = (ap claims_in h, ap fresh_in h)
      where
        claims_in : TokenAnswer → Claims
        claims_in (tokens a x) = a
        claims_in (refused e) = claims_of s d.now client_id subject resource scopes

        fresh_in : TokenAnswer → Text
        fresh_in (tokens a x) = x
        fresh_in (refused e) = d.token

-- The presented code was there, live, and for this client, redirect and verifier.
abbrev pub Exchanged :
    (Text → Text) → Draw → Server → CodeRequest → Option AuthCode → Server × TokenAnswer → Type 0
Exchanged pkce_s256 d s req o (s', answer) =
    (claims : Claims) (fresh : Text)
    → answer ≡ tokens claims fresh
    → (gr : AuthCode) × (o ≡ some gr)
      × (is_live d.now gr.expires_at ≡ true)
      × (req.client_id ≡ gr.client_id)
      × (req.redirect_uri ≡ gr.redirect_uri)
      × (pkce_s256 req.code_verifier ≡ gr.code_challenge)
      × (claims ≡ claims_of s d.now gr.client_id gr.subject gr.resource gr.scopes)
      × (s'.refresh fresh ≡ some (refresh_for d.now gr.client_id gr.subject gr.resource gr.scopes))

exchanged-Exchanged :
    (pkce_s256 : Text → Text) (d : Draw) (s : Server) (req : CodeRequest) (o : Option AuthCode)
    → Exchanged pkce_s256 d s req o (exchanged pkce_s256 d s req o)
exchanged-Exchanged pkce_s256 d s req none = λ claims fresh h. absurd (ground arith)
exchanged-Exchanged pkce_s256 d s req (some gr) =
    let P = Exchanged pkce_s256 d s req (some gr) in
    let s' = record s { codes = with_entry req.code none s.codes } in
    if_lem P (ltb gr.expires_at d.now) _ _ (λ late claims fresh h. absurd (ground arith))
      (λ live.
        if_lem P
          (not (text_eq req.client_id gr.client_id)
            || not (text_eq req.redirect_uri gr.redirect_uri))
          _ _ (λ other claims fresh h. absurd (ground arith))
          (λ same.
            if_lem P (not (text_eq (pkce_s256 req.code_verifier) gr.code_challenge)) _ _
              (λ unproved claims fresh h. absurd (ground arith))
              (λ proved claims fresh h.
                let (c, r) =
                  issue_tokens-Grants d s' gr.client_id gr.subject gr.resource gr.scopes claims
                    fresh h in
                (
                  gr,
                  refl,
                  ap not live,
                  (text_eq_iff req.client_id gr.client_id).0 (ground (arith, same)),
                  (text_eq_iff req.redirect_uri gr.redirect_uri).0 (ground (arith, same)),
                  (text_eq_iff (pkce_s256 req.code_verifier) gr.code_challenge).0
                      (ground (arith, proved)),
                  c,
                  r,
                ))))

-- Where a code is exchanged for tokens, the code was in the table and had not expired, the client
-- and the redirect URI are those of the authorization request, and the verifier's digest is its
-- challenge. The access token names the grant's subject, resource, scopes and client and expires
-- one hour from now; so does the refresh grant that is stored, which lasts thirty days.
pub token_code-ok :
    (pkce_s256 : Text → Text) (d : Draw) (s : Server) (req : CodeRequest) (claims : Claims)
    (fresh : Text)
    → (token_code pkce_s256 d s req).1 ≡ tokens claims fresh
    → (gr : AuthCode) × (s.codes req.code ≡ some gr)
      × (is_live d.now gr.expires_at ≡ true)
      × (req.client_id ≡ gr.client_id)
      × (req.redirect_uri ≡ gr.redirect_uri)
      × (pkce_s256 req.code_verifier ≡ gr.code_challenge)
      × (claims ≡ claims_of s d.now gr.client_id gr.subject gr.resource gr.scopes)
      × ((token_code pkce_s256 d s req).0.refresh fresh
          ≡ some (refresh_for d.now gr.client_id gr.subject gr.resource gr.scopes))
unfolding token_code
token_code-ok pkce_s256 d s req claims fresh h =
    exchanged-Exchanged pkce_s256 d s req (s.codes req.code) claims fresh h

-- The presented refresh token was there, live, and this client's.
abbrev pub Refreshed : Draw → Server → Text → Option RefreshGrant → Server × TokenAnswer → Type 0
Refreshed d s client_id o (s', answer) =
    (claims : Claims) (fresh : Text)
    → answer ≡ tokens claims fresh
    → (gr : RefreshGrant) × (o ≡ some gr)
      × (is_live d.now gr.expires_at ≡ true)
      × (gr.client_id ≡ client_id)
      × (claims ≡ claims_of s d.now gr.client_id gr.subject gr.resource gr.scopes)
      × (s'.refresh fresh ≡ some (refresh_for d.now gr.client_id gr.subject gr.resource gr.scopes))

refreshed-Refreshed :
    (d : Draw) (s : Server) (raw client_id : Text) (o : Option RefreshGrant)
    → Refreshed d s client_id o (refreshed d s raw client_id o)
refreshed-Refreshed d s raw client_id none = λ claims fresh h. absurd (ground arith)
refreshed-Refreshed d s raw client_id (some gr) =
    let P = Refreshed d s client_id (some gr) in
    let s' = record s { refresh = with_entry raw none s.refresh } in
    if_lem P (ltb gr.expires_at d.now) _ _ (λ late claims fresh h. absurd (ground arith))
      (λ live.
        if_lem P (not (text_eq gr.client_id client_id)) _ _
          (λ other claims fresh h. absurd (ground arith))
          (λ same claims fresh h.
            let (c, r) =
              issue_tokens-Grants d s' gr.client_id gr.subject gr.resource gr.scopes claims fresh
                h in
            (
              gr,
              refl,
              ap not live,
              (text_eq_iff gr.client_id client_id).0 (ground (arith, same)),
              c,
              r,
            )))

-- Where a refresh token is exchanged for tokens, it was in the table, had not expired and belongs
-- to this client. The new tokens name the same subject, resource, scopes and client as the grant,
-- and no more.
pub token_refresh-ok :
    (d : Draw) (s : Server) (raw client_id : Text) (claims : Claims) (fresh : Text)
    → (token_refresh d s raw client_id).1 ≡ tokens claims fresh
    → (gr : RefreshGrant) × (s.refresh raw ≡ some gr)
      × (is_live d.now gr.expires_at ≡ true)
      × (gr.client_id ≡ client_id)
      × (claims ≡ claims_of s d.now gr.client_id gr.subject gr.resource gr.scopes)
      × ((token_refresh d s raw client_id).0.refresh fresh
          ≡ some (refresh_for d.now gr.client_id gr.subject gr.resource gr.scopes))
unfolding token_refresh
token_refresh-ok d s raw client_id claims fresh h =
    refreshed-Refreshed d s raw client_id (s.refresh raw) claims fresh h
