-- ===== src/Api/Auth/Sessions.antt =====
-- What logging in and out over app/api/v1/auth.py means for the requests that follow.
use smart_travel_aggregator.Prelude.{
  ℕ, ◌+◌, ◌≤◌, ◌<◌, ◌≡◌, refl, ap, ◌∙◌, ◌≢◌, inl, inr, true, false, Option, none, some, List, [],
  ◌∷◌, ◌++◌, arith, ltb, leb, Bool-cases, Option-cases, ==_refl, nat_eq, list_eq,
}
use smart_travel_aggregator.Prelude.Text.{Text, codes}
use smart_travel_aggregator.Core.ClientIp.{IpAddresses, Request, client_ip}
use smart_travel_aggregator.Core.Security
use smart_travel_aggregator.Services.AuthService
use smart_travel_aggregator.Services.TokenBlocklist.{revoke, revoke-is_revoked, revoke_other}
use smart_travel_aggregator.Services.AuthService.Passwords.{IsUuids, authenticate_sound}
use smart_travel_aggregator.Repositories.Users.Rows.{get_by_id-get_by_email}
use smart_travel_aggregator.Core.Security.{
  decode_token, IsJwt, access, create_token, new_claims, ttl_of, verify_password,
}
use smart_travel_aggregator.Core.Security.Tokens.{decode_own, decode_token_iff}
use smart_travel_aggregator.Repositories.Users.{
  IsTable, User, get_by_id, get_by_email, update_password, get_by_id-update,
}
use smart_travel_aggregator.Services.TokenBlocklist.{token_id-new_claims, token_id, is_revoked}
use smart_travel_aggregator.Services.AuthService.{
  Uuids, Packages, World, Moment, authenticate, issue_tokens, subject_user,
}
use smart_travel_aggregator.Services.AuthService.Sessions.{returns, result-cases}
use smart_travel_aggregator.Api.Deps.{get_current_user, get_access_payload, active_user}
use smart_travel_aggregator.Api.Auth.{
  logout, Claims, MessageResponse, me, State, user_out, TokenResponse, token_response, entry,
  served, LoginRequest, login,
}

module _ (p : Packages) where
  -- Logging in leaves the row of the user as it is, but for a new hash, and revokes nothing.
  authenticate_row :
      (w : World p) (m : Moment) (email password : Text) (u v : User)
      → (authenticate p w m email password).0 ≡ inr u
      → get_by_email w.users email ≡ some v
      → get_by_id w.users v.id ≡ some v
      → (row : User) × (get_by_id (authenticate p w m email password).1.users v.id ≡ some row)
        × (user_out row ≡ user_out v)
        × (row.is_active ≡ v.is_active)
        × ((authenticate p w m email password).1.revoked ≡ w.revoked)
  unfolding authenticate verify_password update_password user_out
  authenticate_row w m email password u v h found by_id =
      let hashed = p.hasher.hash m.salt password in
      let rewritten =
        get_by_id-update (λ row. record row { hashed_password = hashed }) w.users v.id v.id
          (λ row. refl) in
      elim (Bool-cases (p.hasher.check_needs_rehash v.hashed_password)) [
        | inl stale ↦ (
          record v { hashed_password = hashed },
          ground (arith, found, by_id, stale, rewritten),
          refl,
          refl,
          ground (arith, found, stale),
        )
        | inr fresh ↦
            (v, ground (arith, found, by_id, fresh), refl, refl, ground (arith, found, fresh))
      ]

  get_current_user_own :
      (jwts : IsJwt p.jwt) (w : World p) (later : Moment) (id : ℕ) (u : User) (issued : ℕ)
      (jti : Text)
      → p.uuids.parse (p.uuids.str id) ≡ some id
      → get_by_id w.users id ≡ some u
      → u.is_active ≡ true
      → issued ≤ later.now
      → later.now < issued + ttl_of access p.settings
      → (is_revoked p.cache w.revoked later.tick
          (new_claims (p.uuids.str id) access (ttl_of access p.settings) issued jti)).1
        ≡ false
      → (get_current_user p w later
          (some (create_token p.jwt p.settings access (p.uuids.str id) issued jti))).0
        ≡ inr u
  unfolding get_current_user get_access_payload active_user subject_user new_claims
  get_current_user_own jwts w later id u issued jti ids by_id active made alive kept = ground (
    arith,
    ids,
    by_id,
    active,
    kept,
    (decode_token_iff p.jwt jwts p.settings access (p.uuids.str id) issued later.now jti access).1
        (refl, made, alive),
  )

  -- Logging out revokes the access token, whatever comes with it.
  logout_revokes :
      (w : World p) (m : Moment) (payload : Claims) (refresh_token : Option Text) (jti : Text)
      (exp later tick : ℕ)
      → token_id payload ≡ some jti
      → payload.exp ≡ some exp
      → m.now < exp
      → later < exp
      → tick + m.now ≤ m.tick + later
      → ((token : Text) (claims : Claims)
          → refresh_token ≡ some token
          → decode_token p.jwt p.settings token Security.refresh m.now ≡ inr claims
          → token_id claims ≢ some jti)
      → (is_revoked p.cache (AuthService.logout p w m payload refresh_token).revoked tick payload).1
        ≡ true
  unfolding AuthService.logout
  logout_revokes w m payload none jti exp later tick named at alive still steps other =
      revoke-is_revoked p.cache w.revoked m.now m.tick payload jti exp later tick named at alive
        still steps
  logout_revokes w m payload (some token) jti exp later tick named at alive still steps other =
      let first =
        revoke-is_revoked p.cache w.revoked m.now m.tick payload jti exp later tick named at alive
          still steps in
      elim (result-cases (decode_token p.jwt p.settings token Security.refresh m.now)) [
        | inl (e, bad) ↦ ground (arith, bad, first)
        | inr (claims, good) ↦
            let kept =
              revoke_other p.cache (revoke p.cache w.revoked m.now m.tick payload) m.now m.tick tick
                claims payload (λ same. other token claims refl good (same ∙ named)) in
            ground (arith, good, first, kept)
      ]

  -- `me` refuses an access token of this server that is revoked for as long as it is alive.
  me_refused :
      (jwts : IsJwt p.jwt) (s : State p) (m : Moment) (subject jti : Text) (issued : ℕ)
      → (m.now < issued + ttl_of access p.settings
          → (is_revoked p.cache s.world.revoked m.tick
              (new_claims subject access (ttl_of access p.settings) issued jti)).1
            ≡ true)
      → returns
          (served (me p m (some (create_token p.jwt p.settings access subject issued jti))) s).0
        ≡ false
  unfolding served me get_current_user get_access_payload new_claims
  me_refused jwts s m subject jti issued gone =
      let own = decode_own p.jwt jwts p.settings access subject issued m.now jti access in
      elim (Bool-cases (ltb m.now issued)) [
        | inl early ↦ ground (arith, own, early)
        | inr made ↦ elim (Bool-cases (leb (issued + ttl_of access p.settings) m.now)) [
          | inl over ↦ ground (arith, own, made, over)
          | inr alive ↦
              ground
                (arith, own, made, alive, gone (ground (arith, alive)), ==_refl (codes "access"))
        ]
      ]

  module _ (ips : IpAddresses) (networks : List (IpAddresses.Network ips)) where
    pub login_lem :
        (s : State p) (m : Moment) (body : LoginRequest) (request : Request) (out : TokenResponse)
        → (served (login p m ips networks body request) s).0 ≡ inr out
        → (u : User) × ((authenticate p s.world m body.email body.password).0 ≡ inr u)
          × (out ≡ token_response (issue_tokens p m u))
          × ((served (login p m ips networks body request) s).1 ≡ record {
            world = (authenticate p s.world m body.email body.password).1;
            audit =
                s.audit
                ++ entry m.now u.id (codes "user.login") (client_ip ips networks request) ∷ [];
          })
    unfolding served login
    login_lem s m body request out h =
        elim (result-cases (authenticate p s.world m body.email body.password).0) [
          | inl (e, bad) ↦ absurd (ground (arith, bad))
          | inr (u, good) ↦ (u, good, ground (arith, good), ground (arith, good))
        ]

    -- Who logs in is given an access token with which `me` answers as that user, from then until the
    -- token expires, provided that its id is not revoked.
    pub me-login :
        (jwts : IsJwt p.jwt) (ids : IsUuids p p.uuids) (s : State p) (m later : Moment)
        (body : LoginRequest) (request : Request) (out : TokenResponse) (v : User)
        → IsTable s.world.users
        → (served (login p m ips networks body request) s).0 ≡ inr out
        → get_by_email s.world.users body.email ≡ some v
        → m.now ≤ later.now
        → later.now < m.now + ttl_of access p.settings
        → (is_revoked p.cache s.world.revoked later.tick
            (new_claims (p.uuids.str v.id) access (ttl_of access p.settings) m.now m.jti)).1
          ≡ false
        → (served
            (me p later (some out.access_token))
            (served (login p m ips networks body request) s).1).0
          ≡ inr (user_out v)
    unfolding served me issue_tokens token_response
    me-login jwts ids s m later body request out v table h found goes alive kept =
        let (u, good, made, after) = login_lem s m body request out h in
        let (w, at, matches, active, same) =
          authenticate_sound p s.world m body.email body.password u good in
        let v-is : w ≡ v = ground (arith, at, found) in
        let (row, there, shown, still, store) =
          authenticate_row s.world m body.email body.password u v good found
            (get_by_id-get_by_email s.world.users body.email v table found) in
        let own =
          get_current_user_own jwts (authenticate p s.world m body.email body.password).1 later v.id
            row m.now m.jti (ids v.id) there (ground arith) goes alive (rw store kept) in
        let token-is : out.access_token
            ≡ create_token p.jwt p.settings access (p.uuids.str v.id) m.now m.jti =
          ap (λ x. x.access_token) made
          ∙ ap (λ id. create_token p.jwt p.settings access (p.uuids.str id) m.now m.jti)
              (same ∙ ap (λ x. x.id) v-is) in
        rw (token-is, after) (ground (arith, own, shown))

    logout_lem :
        (jwts : IsJwt p.jwt) (s : State p) (m : Moment) (subject jti : Text) (issued : ℕ)
        (refresh_token : Option Text) (request : Request) (out : MessageResponse)
        → let token = create_token p.jwt p.settings access subject issued jti in
          let claims = new_claims subject access (ttl_of access p.settings) issued jti in
          (served (logout p m ips networks (some token) refresh_token request) s).0 ≡ inr out
          → (m.now < issued + ttl_of access p.settings)
            × ((served (logout p m ips networks (some token) refresh_token request) s).1.world
                ≡ AuthService.logout p
                    (record s.world {
                      revoked = (is_revoked p.cache s.world.revoked m.tick claims).0;
                    })
                    m
                    claims
                    refresh_token)
    unfolding served logout get_access_payload new_claims
    logout_lem jwts s m subject jti issued refresh_token request out h =
        let own = decode_own p.jwt jwts p.settings access subject issued m.now jti access in
        let claims = new_claims subject access (ttl_of access p.settings) issued jti in
        elim (Bool-cases (ltb m.now issued)) [
          | inl early ↦ absurd (ground (arith, own, early))
          | inr made ↦ elim (Bool-cases (leb (issued + ttl_of access p.settings) m.now)) [
            | inl over ↦ absurd (ground (arith, own, made, over))
            | inr alive ↦ elim (Bool-cases (is_revoked p.cache s.world.revoked m.tick claims).1) [
              | inl out ↦ absurd (ground (arith, own, made, alive, out, ==_refl (codes "access")))
              | inr kept ↦ elim (Option-cases (p.uuids.parse subject)) [
                | inl bad ↦
                    absurd (ground (arith, own, made, alive, kept, bad, ==_refl (codes "access")))
                | inr (id, good) ↦ (
                  ground (arith, alive),
                  ground (arith, own, made, alive, kept, good, ==_refl (codes "access")),
                )
              ]
            ]
          ]
        ]

    -- After a logout that succeeds, `me` refuses its access token at any later time, provided that
    -- the refresh token sent along has another id and that the clock of the cache does not run ahead of
    -- the wall clock.
    pub me-logout :
        (jwts : IsJwt p.jwt) (s : State p) (m later : Moment) (subject jti : Text) (issued : ℕ)
        (refresh_token : Option Text) (request : Request) (out : MessageResponse)
        → jti ≢ []
        → later.tick + m.now ≤ m.tick + later.now
        → ((token : Text) (claims : Claims)
            → refresh_token ≡ some token
            → decode_token p.jwt p.settings token Security.refresh m.now ≡ inr claims
            → token_id claims ≢ some jti)
        → let token = create_token p.jwt p.settings access subject issued jti in
          (served (logout p m ips networks (some token) refresh_token request) s).0 ≡ inr out
          → returns
              (served
                (me p later (some token))
                (served (logout p m ips networks (some token) refresh_token request) s).1).0
            ≡ false
    unfolding new_claims
    me-logout jwts s m later subject jti issued refresh_token request out named steps other h =
        let ttl = ttl_of access p.settings in
        let claims = new_claims subject access ttl issued jti in
        let (alive, after) = logout_lem jwts s m subject jti issued refresh_token request out h in
        me_refused jwts _ later subject jti issued λ still. rw after (
          logout_revokes
            (record s.world { revoked = (is_revoked p.cache s.world.revoked m.tick claims).0 }) m
            claims refresh_token jti (issued + ttl) later.now later.tick
            (token_id-new_claims subject access ttl issued jti named) refl alive still steps other)
