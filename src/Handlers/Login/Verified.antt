-- ===== src/Handlers/Login/Verified.antt =====
-- internal/handlers/auth.go, Callback: who gets a session.
use gslb.Prelude.{
  ℕ, String, ◌≡◌, ◌⊎◌, inl, inr, Bool-cases, Option-cases, some, List, [], str_eq, eq_iff, arith,
}
use gslb.Types.{User}
use gslb.Result.{ok, Result-cases}
use gslb.Auth.Oidc.{sync_user}
use gslb.Auth.Tokens.{verify_id_token, extract_user_info, create_session}
use gslb.Handlers.Api.{Handlers, Caller}
use gslb.Handlers.Login.{
  AuthReply, AuthService, CallbackRequest, session_cookies, start_session, exchange_code, callback,
}

module _ {W : Type 0} (h : Handlers W) (svc : AuthService W) where
  open svc use {lib}

  -- An ID token of the provider for the code, the verifier and the nonce, whose user SyncUser lets in, and a
  -- session of this user with a token.
  abbrev pub IsVerified : String → ℕ → String → String → String → W → AuthReply → Type 0
  IsVerified jti now code verifier nonce w reply =
      (token : lib.Token) × (raw : String) × (id_token : lib.IdToken) × (info : User × List String)
      × (user : User) × (session : String) × (lib.exchange code verifier ≡ ok token)
      × (lib.extra_id_token token ≡ some raw)
      × (lib.verify raw ≡ ok id_token)
      × (lib.nonce id_token ≡ nonce)
      × (extract_user_info lib svc.oidc id_token ≡ ok info)
      × ((sync_user svc.users now svc.oidc.default_role info.0 info.1 w).0 ≡ ok user)
      × ((create_session lib svc.sessions svc.jwt jti now user
            (sync_user svc.users now svc.oidc.default_role info.0 info.1 w).1).0
          ≡ ok session)
      × (reply.cookies ≡ session_cookies svc.jwt session)

  exchange_code-IsVerified :
      (caller : Caller) (jti : String) (now : ℕ) (code verifier nonce : String) (w : W)
      → ((exchange_code h svc caller jti now code verifier nonce w).0.cookies ≡ [])
        ⊎ IsVerified jti now code verifier nonce w
            (exchange_code h svc caller jti now code verifier nonce w).0
  unfolding exchange_code verify_id_token start_session
  exchange_code-IsVerified caller jti now code verifier nonce w =
      elim (Result-cases (lib.exchange code verifier)) [
        | inr (e, x) ↦ inl (ground (arith, x))
        | inl (token, x) ↦ elim (Option-cases (lib.extra_id_token token)) [
          | inl y ↦ inl (ground (arith, x, y))
          | inr (raw, y) ↦ elim (Result-cases (lib.verify raw)) [
            | inr (e, z) ↦ inl (ground (arith, x, y, z))
            | inl (id_token, z) ↦ elim (Bool-cases (str_eq (lib.nonce id_token) nonce)) [
              | inr n ↦ inl (ground (arith, x, y, z, n))
              | inl n ↦ elim (Result-cases (extract_user_info lib svc.oidc id_token)) [
                | inr (e, i) ↦ inl (ground (arith, x, y, z, n, i))
                | inl (info, i) ↦
                    let synced = sync_user svc.users now svc.oidc.default_role info.0 info.1 w in
                    elim (Result-cases synced.0) [
                      | inr (e, s) ↦ inl (ground (arith, x, y, z, n, i, s))
                      | inl (user, s) ↦
                          elim (Result-cases
                            (create_session lib svc.sessions svc.jwt jti now user synced.1).0) [
                              | inr (e, c) ↦ inl (ground (arith, x, y, z, n, i, s, c))
                              | inl (session, c) ↦ inr (
                                token,
                                raw,
                                id_token,
                                info,
                                user,
                                session,
                                x,
                                y,
                                z,
                                (eq_iff (lib.nonce id_token) nonce).0 n,
                                i,
                                s,
                                c,
                                ground (arith, x, y, z, n, i, s, c),
                              )
                            ]
                    ]
              ]
            ]
          ]
        ]
      ]

  -- A callback sets cookies only where the state of the query is that of the cookie, and the code is
  -- exchanged, with the verifier of the cookie, for a token whose ID token the provider verifies and has the
  -- nonce of the cookie; SyncUser lets the user of its claims in, and CreateSession has stored a session of
  -- this user. The cookies are then that of the session, and the three of the login are deleted.
  pub callback-IsVerified :
      (caller : Caller) (jti : String) (now : ℕ) (req : CallbackRequest) (w : W)
      → ((callback h svc caller jti now req w).0.cookies ≡ [])
        ⊎ ((nonce verifier : String) × (req.state_cookie ≡ some req.state)
            × (req.nonce_cookie ≡ some nonce)
            × (req.pkce_cookie ≡ some verifier)
            × IsVerified jti now req.code verifier nonce w (callback h svc caller jti now req w).0)
  unfolding callback
  callback-IsVerified caller jti now req w = elim (Option-cases req.state_cookie) [
    | inl x ↦ inl (ground (arith, x))
    | inr (state, x) ↦ elim (Bool-cases (str_eq state req.state)) [
      | inr s ↦ inl (ground (arith, x, s))
      | inl s ↦ elim (Option-cases req.nonce_cookie) [
        | inl n ↦ inl (ground (arith, x, s, n))
        | inr (nonce, n) ↦ elim (Option-cases req.pkce_cookie) [
          | inl p ↦ inl (ground (arith, x, s, n, p))
          | inr (verifier, p) ↦ elim (Bool-cases (str_eq req.code "")) [
            | inl c ↦ inl (ground (arith, x, s, n, p, c))
            | inr c ↦
                let same : callback h svc caller jti now req w
                    ≡ exchange_code h svc caller jti now req.code verifier nonce w =
                  ground (arith, x, s, n, p, c) in
                let known : req.state_cookie ≡ some req.state =
                  ground (arith, x, (eq_iff state req.state).0 s) in
                elim (exchange_code-IsVerified caller jti now req.code verifier nonce w) [
                  | inl none_set ↦ inl (rw same none_set)
                  | inr verified ↦ inr (nonce, verifier, known, n, p, rw same verified)
                ]
          ]
        ]
      ]
    ]
  ]
