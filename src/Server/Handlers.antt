-- ===== src/Server/Handlers.antt =====
-- What each handler of server.go makes of the database.
use agidb_on_chain.Base.{
  ℕ, ◌≤◌, ◌≡◌, ◌≢◌, refl, ap, Bool, true, false, Option, none, some, ◌⊎◌, inl, inr, Bytes, codes,
  beq, beq_eq, length, ltb, Bool-cases, Option-cases, arith,
}
use agidb_on_chain.Go.Strings.{Parsed, parsed, bad_syntax, out_of_range}
use agidb_on_chain.Go.Json.{JsonText}
use agidb_on_chain.Go.Sha256.{Sha256}
use agidb_on_chain.Model.{Block}
use agidb_on_chain.Result.{Error}
use agidb_on_chain.Engine.{Engine, Store}
use agidb_on_chain.Engine.Status.{Counts}
use agidb_on_chain.Server.{
  Request, Response, CommitRequest, RequestJson, Moment, Endpoint, at_status, at_tx, at_state,
  at_block, at_verify, body_limit, status_handler, commit_request, decoded_request, tx_handler,
  state_answer, state_handler, block_answer, parsed_height, block_handler, verify_answer,
  verify_handler, handle,
}

state_answer_code : (key : Bytes) (h : ℕ) (v : Bytes × Bool) → (state_answer key h v).code ≢ 201
unfolding state_answer
state_answer_code key h (v, true) = λ e. omega (arith, e)
state_answer_code key h (v, false) = λ e. omega (arith, e)

block_answer_code : (o : Option Block) → (block_answer o).code ≢ 201
unfolding block_answer
block_answer_code none = λ e. omega (arith, e)
block_answer_code (some b) = λ e. omega (arith, e)

verify_answer_code : (m : Moment) (o : Option Error) → (verify_answer m o).code ≢ 201
unfolding verify_answer
verify_answer_code m none = λ e. omega (arith, e)
verify_answer_code m (some x) = λ e. omega (arith, e)

module _ ⦃H : Sha256⦄ ⦃J : JsonText⦄ {F : Type 0} ⦃S : Store F⦄ ⦃N : Counts F⦄
    ⦃Q : RequestJson⦄ where
  abbrev pub IsRead : Engine F → Engine F × Response → Type 0
  IsRead e x = (x.0 ≡ e) × (x.1.code ≢ 201)

  -- the body is committed
  pub record IsPosted (m : Moment) (e : Engine F) (r : Request) (x : Engine F × Response)
      : Type 0 where
    pub posted : r.method ≡ codes "POST"
    pub bounded : length r.body ≤ body_limit
    pub whole : r.broken ≡ false
    pub request : CommitRequest
    pub decoded : Q.decode r.body ≡ some request
    pub answered : x ≡ commit_request m e request

  decoded_request_cases :
      (m : Moment) (e : Engine F) (r : Request)
      → r.method ≡ codes "POST"
      → length r.body ≤ body_limit
      → r.broken ≡ false
      → IsRead e (decoded_request m e (Q.decode r.body))
        ⊎ IsPosted m e r (decoded_request m e (Q.decode r.body))
  unfolding decoded_request
  decoded_request_cases m e r posted bounded whole = elim (Option-cases (Q.decode r.body)) [
    | inl bad ↦ inl (rw bad (refl, λ h. omega (arith, h)))
    | inr (req, good) ↦ inr record {
      posted = posted;
      bounded = bounded;
      whole = whole;
      request = req;
      decoded = good;
      answered = ap (decoded_request m e) good;
    }
  ]

  tx_handler_cases :
      (m : Moment) (e : Engine F) (r : Request)
      → IsRead e (tx_handler m e r) ⊎ IsPosted m e r (tx_handler m e r)
  unfolding tx_handler
  tx_handler_cases m e r = elim (Bool-cases (beq r.method (codes "POST"))) [
    | inr other ↦ rw (tx_handler, other) (inl (refl, λ h. omega (arith, h)))
    | inl post ↦ elim (Bool-cases (ltb body_limit (length r.body))) [
      | inl large ↦ rw (tx_handler, post) (rw large (inl (refl, λ h. omega (arith, h))))
      | inr small ↦ elim (Bool-cases r.broken) [
        | inl cut ↦ rw (tx_handler, post) (rw small (rw cut (inl (refl, λ h. omega (arith, h)))))
        | inr whole ↦
            let reached : tx_handler m e r ≡ decoded_request m e (Q.decode r.body) =
              rw (tx_handler, post) (rw small (rw whole refl)) in
            rw reached (decoded_request_cases m e r (beq_eq _ _ post) (ground arith) whole)
      ]
    ]
  ]

  parsed_height_code : (e : Engine F) (p : Parsed) → (parsed_height e p).code ≢ 201
  unfolding parsed_height
  parsed_height_code e (parsed h) = block_answer_code _
  parsed_height_code e bad_syntax = λ h. omega (arith, h)
  parsed_height_code e out_of_range = λ h. omega (arith, h)

  pub handle_cases :
      (m : Moment) (e : Engine F) (r : Request) (endpoint : Endpoint)
      → IsRead e (handle m e r endpoint)
        ⊎ ((endpoint ≡ at_tx) × IsPosted m e r (handle m e r endpoint))
  unfolding handle status_handler state_handler block_handler verify_handler
  handle_cases m e r at_status = inl (refl, λ h. omega (arith, h))
  handle_cases m e r at_tx = elim (tx_handler_cases m e r) [
    | inl read ↦ inl read
    | inr post ↦ inr (refl, post)
  ]
  handle_cases m e r at_state = inl (refl, state_answer_code _ _ _)
  handle_cases m e r at_block = inl (refl, parsed_height_code e _)
  handle_cases m e r at_verify = inl (refl, verify_answer_code m _)
