-- ===== src/Server.antt =====
-- engine/internal/server/server.go: the HTTP interface of an engine. A request is what the handlers
-- read of it, a response the status code and the value that is written. `serve` is the handler that
-- `Handler` returns: the routes, the authorisation, and a function for each method. The routes are those
-- of `http.ServeMux` as it is from Go 1.22 on: the path as it was sent must be clean, and its segments
-- are compared with the patterns after their escapes are resolved.
pub mod Handlers
pub mod Access
pub mod Visits
pub mod Commits
pub mod Reads
pub mod Progress
use agidb_on_chain.Base.{
  ℕ, ◌*◌, ◌^◌, Bool, true, false, not, ◌&&◌, ◌||◌, Option, none, some, List, [], ◌∷◌, ◌++◌, Bytes,
  codes, beq, map, length, ltb, if◌then◌else◌,
}
use agidb_on_chain.Go.Slices.{Slice}
use agidb_on_chain.Go.Strings.{
  split, unescape, trim_prefix, Parsed, parsed, bad_syntax, out_of_range, parse_uint, uint_of,
}
use agidb_on_chain.Go.Json.{JsonText}
use agidb_on_chain.Go.Sha256.{Sha256}
use agidb_on_chain.Model.{Operation, Transaction, Block, Status}
use agidb_on_chain.Result.{Error, io_failure}
use agidb_on_chain.Engine.{Engine, Store}
use agidb_on_chain.Engine.Batches.{new_transaction}
use agidb_on_chain.Engine.Committing.{Reply, committed, uncleared, rejected, commit}
use agidb_on_chain.Engine.Loading.{verify}
use agidb_on_chain.Engine.Reading.{get, get_at, block_at}
use agidb_on_chain.Engine.Status.{Counts, status}

pub record Request : Type 0 where
  pub method : Bytes
  -- `r.RequestURI`
  pub request_uri : Bytes
  -- `r.URL.EscapedPath()`, `r.URL.Path`
  pub escaped_path : Bytes
  pub path : Bytes
  -- `r.Header.Get("Authorization")`, `r.URL.Query().Get("height")`
  pub authorization : Bytes
  pub height : Bytes
  -- the bytes of the body, and whether the connection breaks off behind them
  pub body : Bytes
  pub broken : Bool

-- what is written: the text of `http.Error`, or the value that is encoded as JSON
pub data Content : Type 0 where
  message : Bytes → Content
  reason : Error → Content
  not_json moved no_content : Content
  verification_failed : Error → Content
  status_content : Status → Content
  block_content : Block → Content
  value_content : Bytes → Bytes → ℕ → Content
  verified_content : ℕ → Content

pub record Response : Type 0 where
  pub code : ℕ
  pub content : Content

pub record Server (F : Type 0) : Type 0 where
  pub engine : Engine F
  pub token : Bytes

-- the body of `/v1/tx`, and `json.Unmarshal` into it
pub record CommitRequest : Type 0 where
  pub sender : Bytes
  pub nonce : ℕ
  pub ops : List Operation
  pub payload : Slice

pub record RequestJson : Type 0 where
  pub decode : Bytes → Option CommitRequest

-- what a request meets: the random id and the times that the handlers ask for
pub record Moment : Type 0 where
  pub id : Bytes
  pub time : ℕ
  pub clock : ℕ
  pub elapsed : ℕ

-- the five handlers, and the ends of the routing
pub data Endpoint : Type 0 where
  at_status at_tx at_state at_block at_verify : Endpoint

pub data Route : Type 0 where
  to : Endpoint → Route
  redirected no_route bad_request : Route

abbrev pub is_dots : Bytes → Bool
is_dots s = beq s (codes ".") || beq s (codes "..")

-- the parts of a path behind its first slash, as `cleanPath` leaves them
unfoldable pub clean_parts : List Bytes → Bool
clean_parts [] = false
clean_parts (p ∷ []) = not (is_dots p)
clean_parts (p ∷ q ∷ ps) =
    let rest = clean_parts (q ∷ ps) in not (beq p []) && not (is_dots p) && rest

unfoldable pub is_clean : Bytes → Bool
unfolding clean_parts
is_clean path = elim (split 47 path) [ [] ↦ false | p ∷ ps ↦ beq p [] && clean_parts ps ]

-- `url.PathUnescape`, or the segment as it is
abbrev pub resolved : Option Bytes → Bytes → Bytes
resolved none s = s
resolved (some r) s = r

-- the segments behind the first slash, with their escapes resolved
unfoldable pub segments : Bytes → List Bytes
unfolding unescape
segments path = elim (split 47 path) [ [] ↦ [] | p ∷ ps ↦ map (λ s. resolved (unescape s) s) ps ]

-- the patterns of `Handler` that have no slash at their end, and the redirect to one that has
unfoldable pub match_name : Bytes → Route
match_name name =
    if beq name (codes "status")
    then to at_status
    else if beq name (codes "tx")
    then to at_tx
    else if beq name (codes "verify")
    then to at_verify
    else if beq name (codes "state") || beq name (codes "block")
    then redirected
    else no_route

-- the patterns with a slash at their end, which match all that follows
unfoldable pub match_below : Bytes → Route
match_below name =
    if beq name (codes "state")
    then to at_state
    else if beq name (codes "block")
    then to at_block
    else no_route

unfoldable pub match_segments : List Bytes → Route
unfolding match_name match_below
match_segments [] = no_route
match_segments (v ∷ []) = no_route
match_segments (v ∷ name ∷ []) = if beq v (codes "v1") then match_name name else no_route
match_segments (v ∷ name ∷ q ∷ qs) = if beq v (codes "v1") then match_below name else no_route

-- a path that is not clean is redirected, except for `CONNECT`
unfoldable pub is_canonical : Request → Bool
unfolding is_clean
is_canonical r = beq r.method (codes "CONNECT") || is_clean r.escaped_path

-- `http.ServeMux`
unfoldable pub route : Request → Route
unfolding segments match_segments is_canonical
route r =
    if beq r.request_uri (codes "*")
    then bad_request
    else if is_canonical r
    then match_segments (segments r.escaped_path)
    else redirected

-- the test of `auth`
unfoldable pub refuses : Bytes → Request → Bool
refuses token r = not (beq token []) && not (beq r.authorization (codes "Bearer " ++ token))

abbrev pub body_limit : ℕ
body_limit = 16 * 2 ^ 20

-- `http.Error`
abbrev pub http_error : ℕ → Content → Response
http_error code content = record { code = code; content = content }

-- `write`
abbrev pub written : Content → Response
written content = record { code = 200; content = content }

-- the height of the query, 0 if it is no number
unfoldable pub query_height : Request → ℕ
query_height r = uint_of (parse_uint r.height)

unfoldable pub state_answer : Bytes → ℕ → Bytes × Bool → Response
state_answer key h (v, true) = written (value_content key v h)
state_answer key h (v, false) = http_error 404 (message (codes "not found"))

unfoldable pub block_answer : Option Block → Response
block_answer none = http_error 404 (message (codes "not found"))
block_answer (some b) = written (block_content b)

unfoldable pub verify_answer : Moment → Option Error → Response
verify_answer m none = written (verified_content m.elapsed)
verify_answer m (some x) = http_error 500 (verification_failed x)

module _ ⦃H : Sha256⦄ ⦃J : JsonText⦄ {F : Type 0} where
  unfoldable pub status_handler : ⦃N : Counts F⦄ → Engine F → Response
  status_handler e = written (status_content (status e))

  -- the end of `tx`
  unfoldable pub tx_answer : Engine F × Reply → Engine F × Response
  tx_answer (e, committed b) = (e, record { code = 201; content = block_content b })
  tx_answer (e, uncleared b x) = (e, http_error 400 (reason x))
  tx_answer (e, rejected x) = (e, http_error 400 (reason x))

  module _ ⦃S : Store F⦄ where
    -- `tx` from the decoded body on
    unfoldable pub commit_request : Moment → Engine F → CommitRequest → Engine F × Response
    unfolding tx_answer
    commit_request m e req = tx_answer (
        commit m.clock e
          (new_transaction m.id m.time req.ops req.sender req.nonce req.payload ∷ []))

    unfoldable pub decoded_request : Moment → Engine F → Option CommitRequest → Engine F × Response
    unfolding commit_request
    decoded_request m e none = (e, http_error 400 not_json)
    decoded_request m e (some req) = commit_request m e req

    unfoldable pub tx_handler :
        ⦃Q : RequestJson⦄ → Moment → Engine F → Request → Engine F × Response
    unfolding decoded_request
    tx_handler ⦃Q⦄ m e r =
        if not (beq r.method (codes "POST"))
        then (e, http_error 405 (message (codes "method not allowed")))
        else if ltb body_limit (length r.body)
        then (e, http_error 400 (message (codes "http: request body too large")))
        else if r.broken
        then (e, http_error 400 (reason io_failure))
        else decoded_request m e (Q.decode r.body)

  unfoldable pub state_handler : Engine F → Request → Response
  unfolding query_height state_answer
  state_handler e r =
      let key = trim_prefix r.path (codes "/v1/state/") in
      let h = query_height r in state_answer key h (if ltb 0 h then get_at e key h else get e key)

  unfoldable pub parsed_height : Engine F → Parsed → Response
  unfolding block_answer
  parsed_height e (parsed h) = block_answer (block_at e h)
  parsed_height e bad_syntax = http_error 400 (message (codes "invalid height"))
  parsed_height e out_of_range = http_error 400 (message (codes "invalid height"))

  unfoldable pub block_handler : Engine F → Request → Response
  unfolding parsed_height
  block_handler e r = parsed_height e (parse_uint (trim_prefix r.path (codes "/v1/block/")))

  unfoldable pub verify_handler : Moment → Engine F → Response
  unfolding verify_answer
  verify_handler m e = verify_answer m (verify e)

  module _ ⦃S : Store F⦄ ⦃N : Counts F⦄ ⦃Q : RequestJson⦄ where
    -- the handler behind `auth`
    unfoldable pub handle : Moment → Engine F → Request → Endpoint → Engine F × Response
    unfolding status_handler tx_handler state_handler block_handler verify_handler
    handle m e r at_status = (e, status_handler e)
    handle m e r at_tx = tx_handler m e r
    handle m e r at_state = (e, state_handler e r)
    handle m e r at_block = (e, block_handler e r)
    handle m e r at_verify = (e, verify_handler m e)

    unfoldable pub auth : Moment → Server F → Request → Endpoint → Engine F × Response
    unfolding handle
    auth m s r endpoint =
        if refuses s.token r
        then (s.engine, http_error 401 (message (codes "unauthorized")))
        else handle m s.engine r endpoint

    -- the router answers itself where no pattern matches
    unfoldable pub dispatch : Moment → Server F → Request → Route → Engine F × Response
    unfolding auth
    dispatch m s r redirected = (s.engine, http_error 301 moved)
    dispatch m s r bad_request = (s.engine, http_error 400 no_content)
    dispatch m s r no_route = (s.engine, http_error 404 (message (codes "404 page not found")))
    dispatch m s r (to endpoint) = auth m s r endpoint

    -- `Handler`
    unfoldable pub serve : Moment → Server F → Request → Server F × Response
    unfolding dispatch
    serve m s r = let a = dispatch m s r (route r) in (record s { engine = a.0 }, a.1)
