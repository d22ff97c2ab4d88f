-- ===== src/Server/Access.antt =====
-- Who changes the database through the handlers of server.go, and what an unauthorised request gets.
use agidb_on_chain.Base.{
  ◌≤◌, ◌≡◌, ◌≢◌, Bool, List, ◌∷◌, refl, subst, ◌∙◌, ap, true, false, some, ◌⊎◌, inl, inr, [], ◌++◌,
  Bytes, codes, beq, beq_of_ne, length, Bool-cases, arith,
}
use agidb_on_chain.Go.Json.{JsonText}
use agidb_on_chain.Go.Sha256.{Sha256}
use agidb_on_chain.Engine.{Store}
use agidb_on_chain.Engine.Status.{Counts}
use agidb_on_chain.Server.{
  Request, Response, Server, CommitRequest, RequestJson, Moment, Endpoint, at_tx, message, Route,
  to, redirected, no_route, bad_request, route, segments, is_canonical, match_segments, match_name,
  match_below, at_status, at_state, at_block, at_verify, refuses, body_limit, commit_request,
  handle, auth, dispatch, serve,
}
use agidb_on_chain.Server.Handlers.{IsPosted, handle_cases}

refused_by :
    (token : Bytes) (r : Request)
    → token ≢ []
    → r.authorization ≢ codes "Bearer " ++ token
    → refuses token r ≡ true
unfolding refuses
refused_by token r filled bearer =
    let some_token : beq token [] ≡ false = beq_of_ne token [] filled in
    let other : beq r.authorization (codes "Bearer " ++ token) ≡ false =
      beq_of_ne r.authorization (codes "Bearer " ++ token) bearer in
    rw (some_token, other) refl

-- the paths of the server, by their segments
pub data IsOwn : List Bytes → Type 0 where
  status_path : IsOwn (codes "v1" ∷ codes "status" ∷ [])
  tx_path : IsOwn (codes "v1" ∷ codes "tx" ∷ [])
  verify_path : IsOwn (codes "v1" ∷ codes "verify" ∷ [])
  state_path : (q : Bytes) (qs : List Bytes) → IsOwn (codes "v1" ∷ codes "state" ∷ q ∷ qs)
  block_path : (q : Bytes) (qs : List Bytes) → IsOwn (codes "v1" ∷ codes "block" ∷ q ∷ qs)

-- a request for one of them
pub record IsAddressed (r : Request) : Type 0 where
  pub named : r.request_uri ≢ codes "*"
  pub canonical : is_canonical r ≡ true
  pub own : IsOwn (segments r.escaped_path)

-- what a request without the token is answered
pub data Denied (r : Request) (a : Response) : Type 0 where
  refused_by_token :
      a ≡ record { code = 401; content = message (codes "unauthorized") } → Denied r a
  elsewhere :
      ¬ IsAddressed r
      → (a.code ≡ 401) ⊎ ((a.code ≡ 404) ⊎ ((a.code ≡ 301) ⊎ (a.code ≡ 400)))
      → Denied r a

match_segments-IsOwn :
    (ps : List Bytes) → IsOwn ps → (endpoint : Endpoint) × (match_segments ps ≡ to endpoint)
unfolding match_segments match_name match_below beq
match_segments-IsOwn _ status_path = (at_status, refl)
match_segments-IsOwn _ tx_path = (at_tx, refl)
match_segments-IsOwn _ verify_path = (at_verify, refl)
match_segments-IsOwn _ (state_path q qs) = (at_state, refl)
match_segments-IsOwn _ (block_path q qs) = (at_block, refl)

abbrev is_endpoint : Route → Bool
is_endpoint (to endpoint) = true
is_endpoint redirected = false
is_endpoint no_route = false
is_endpoint bad_request = false

route-IsAddressed : (r : Request) → IsAddressed r → is_endpoint (route r) ≡ true
unfolding route
route-IsAddressed r a =
    let (endpoint, matched) = match_segments-IsOwn (segments r.escaped_path) a.own in
    let some_path : beq r.request_uri (codes "*") ≡ false =
      beq_of_ne r.request_uri (codes "*") a.named in
    let found : route r ≡ to endpoint = rw (route, some_path) (rw a.canonical matched) in
    ap is_endpoint found

own_route :
    (r : Request) → IsAddressed r → (way : Route) → route r ≡ way → is_endpoint way ≡ false → ⊥
own_route r a way h ends = cc (route-IsAddressed r a, h, ends)

module _ ⦃H : Sha256⦄ ⦃J : JsonText⦄ {F : Type 0} ⦃S : Store F⦄ ⦃N : Counts F⦄
    ⦃Q : RequestJson⦄ where
  -- the request is an authorised POST of a transaction that can be read, and the answer is that of
  -- its commit
  pub record IsCommit (m : Moment) (s : Server F) (r : Request) (x : Server F × Response)
      : Type 0 where
    pub admitted : refuses s.token r ≡ false
    pub routed : route r ≡ to at_tx
    pub posted : r.method ≡ codes "POST"
    pub bounded : length r.body ≤ body_limit
    pub whole : r.broken ≡ false
    pub request : CommitRequest
    pub decoded : Q.decode r.body ≡ some request
    pub answered : x ≡ (
      record s { engine = (commit_request m s.engine request).0 },
      (commit_request m s.engine request).1,
    )

  -- the answer of `auth` to a request that it lets through, and to one that it does not
  pub auth_admits :
      (m : Moment) (s : Server F) (r : Request) (endpoint : Endpoint)
      → refuses s.token r ≡ false
      → auth m s r endpoint ≡ handle m s.engine r endpoint
  unfolding auth
  auth_admits m s r endpoint h = rw (auth, h) refl

  pub auth-refuses :
      (m : Moment) (s : Server F) (r : Request) (endpoint : Endpoint)
      → refuses s.token r ≡ true
      → auth m s r endpoint
        ≡ (s.engine, record { code = 401; content = message (codes "unauthorized") })
  unfolding auth
  auth-refuses m s r endpoint h = rw (auth, h) refl

  pub serve_at :
      (m : Moment) (s : Server F) (r : Request) (endpoint : Endpoint)
      → refuses s.token r ≡ false
      → route r ≡ to endpoint
      → serve m s r
        ≡ (record s { engine = (handle m s.engine r endpoint).0 }, (handle m s.engine r endpoint).1)
  unfolding serve dispatch
  serve_at m s r endpoint admitted routed =
      ap (λ x. (record s { engine = x.0 }, x.1))
        (ap (dispatch m s r) routed ∙ auth_admits m s r endpoint admitted)

  IsPosted-IsCommit :
      (m : Moment) (s : Server F) (r : Request)
      → refuses s.token r ≡ false
      → route r ≡ to at_tx
      → IsPosted m s.engine r (handle m s.engine r at_tx)
      → IsCommit m s r (serve m s r)
  IsPosted-IsCommit m s r admitted routed p = record {
    admitted = admitted;
    routed = routed;
    posted = p.posted;
    bounded = p.bounded;
    whole = p.whole;
    request = p.request;
    decoded = p.decoded;
    answered =
        serve_at m s r at_tx admitted routed
        ∙ ap (λ x. (record s { engine = x.0 }, x.1)) p.answered;
  }

  abbrev pub IsUntouched : Server F → Server F × Response → Type 0
  IsUntouched s x = (x.0 ≡ s) × (x.1.code ≢ 201)

  admitted_cases :
      (m : Moment) (s : Server F) (r : Request) (endpoint : Endpoint)
      → refuses s.token r ≡ false
      → route r ≡ to endpoint
      → IsUntouched s (serve m s r) ⊎ IsCommit m s r (serve m s r)
  admitted_cases m s r endpoint admitted routed = elim (handle_cases m s.engine r endpoint) [
    | inl (same, code) ↦ inl (
        rw (serve_at m s r endpoint admitted routed) (ap (λ e. record s { engine = e }) same, code))
    | inr (is_tx, post) ↦
        let routed : route r ≡ to at_tx = routed ∙ ap to is_tx in
        inr (
          IsPosted-IsCommit m s r admitted routed
            (subst (λ x. IsPosted m s.engine r (handle m s.engine r x)) is_tx post))
  ]

  unrouted :
      (m : Moment) (s : Server F) (r : Request) (x : Response)
      → dispatch m s r (route r) ≡ (s.engine, x)
      → serve m s r ≡ (s, x)
  unfolding serve
  unrouted m s r x h = ap (λ y. (record s { engine = y.0 }, y.1)) h

  -- A request leaves the server as it is and is not answered with 201 Created, or it is an authorised
  -- POST to /v1/tx with a body of at most 16 MiB that arrives whole and decodes, and the engine and the
  -- answer are those of the commit of the one transaction that it asks for.
  pub serve-IsCommit :
      (m : Moment) (s : Server F) (r : Request)
      → IsUntouched s (serve m s r) ⊎ IsCommit m s r (serve m s r)
  unfolding dispatch
  serve-IsCommit m s r = step (route r) refl
    where
      step :
          (way : Route) → route r ≡ way → IsUntouched s (serve m s r) ⊎ IsCommit m s r (serve m s r)
      step redirected h =
          inl (rw (unrouted m s r _ (ap (dispatch m s r) h)) (refl, λ e. omega (arith, e)))
      step no_route h =
          inl (rw (unrouted m s r _ (ap (dispatch m s r) h)) (refl, λ e. omega (arith, e)))
      step bad_request h =
          inl (rw (unrouted m s r _ (ap (dispatch m s r) h)) (refl, λ e. omega (arith, e)))
      step (to endpoint) h = elim (Bool-cases (refuses s.token r)) [
        | inr admitted ↦ admitted_cases m s r endpoint admitted h
        | inl refused ↦ inl (
            rw (unrouted m s r _ (ap (dispatch m s r) h ∙ auth-refuses m s r endpoint refused))
              (refl, λ e. omega (arith, e)))
      ]

  -- A server with a token that the request does not carry as its bearer stays as it is. It answers 401
  -- Unauthorized to every request for one of its own paths: those whose URI is not `*`, that are sent
  -- clean, or by CONNECT, and whose segments, with their escapes resolved, are /v1/status, /v1/tx,
  -- /v1/verify, or /v1/state/ or /v1/block/ with anything behind it. To any other request it answers
  -- 401, 404 Not Found, 301 Moved Permanently or 400 Bad Request.
  pub serve_unauthorized :
      (m : Moment) (s : Server F) (r : Request)
      → s.token ≢ []
      → r.authorization ≢ codes "Bearer " ++ s.token
      → ((serve m s r).0 ≡ s) × Denied r (serve m s r).1
  unfolding dispatch
  serve_unauthorized m s r token bearer = step (route r) refl
    where
      refused : refuses s.token r ≡ true
      refused = refused_by s.token r token bearer

      step : (way : Route) → route r ≡ way → ((serve m s r).0 ≡ s) × Denied r (serve m s r).1
      step redirected h =
          rw (unrouted m s r _ (ap (dispatch m s r) h))
            (refl, elsewhere (λ a. own_route r a redirected h refl) (inr (inr (inl refl))))
      step no_route h =
          rw (unrouted m s r _ (ap (dispatch m s r) h))
            (refl, elsewhere (λ a. own_route r a no_route h refl) (inr (inl refl)))
      step bad_request h =
          rw (unrouted m s r _ (ap (dispatch m s r) h))
            (refl, elsewhere (λ a. own_route r a bad_request h refl) (inr (inr (inr refl))))
      step (to endpoint) h =
          rw (unrouted m s r _ (ap (dispatch m s r) h ∙ auth-refuses m s r endpoint refused))
            (refl, refused_by_token refl)
