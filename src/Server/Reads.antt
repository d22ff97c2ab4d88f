-- ===== src/Server/Reads.antt =====
-- The answers of /v1/state and /v1/block beside the blocks of the database.
use agidb_on_chain.Base.{
  ℕ, zero, suc, ◌^◌, ◌≤◌, ◌<◌, ◌≡◌, ◌≢◌, refl, ◌∙◌, ap, true, false, Option, none, some, ◌⊎◌, inl,
  inr, List, [], ◌++◌, Bytes, codes, All, length, take, ltb, leb, ◌==◌, ◌||◌, if◌then◌else◌,
  Bool-cases, arith,
}
use agidb_on_chain.Go.Maps.{lookup}
use agidb_on_chain.Go.Strings.{trim_prefix, parse_uint}
use agidb_on_chain.Go.Decimals.{
  IsDigit, decimal_value, in_range, parse_uint-decimal_value, trim_prefix-prefix,
}
use agidb_on_chain.Go.Json.{JsonText}
use agidb_on_chain.Go.Sha256.{Sha256}
use agidb_on_chain.Model.{Block}
use agidb_on_chain.Engine.{Engine, Store, u64}
use agidb_on_chain.Engine.Chain.{block_at-IsReplay}
use agidb_on_chain.Engine.History.{state_from, get_at-IsReplay}
use agidb_on_chain.Engine.Reading.{get, get_at, block_at}
use agidb_on_chain.Engine.Replay.{IsReplay}
use agidb_on_chain.Engine.Status.{Counts}
use agidb_on_chain.Engine.Versions.{found}
use agidb_on_chain.Server.{
  Request, Response, Server, RequestJson, Moment, to, at_state, at_block, message, value_content,
  block_content, route, refuses, query_height, state_answer, state_handler, block_answer,
  parsed_height, block_handler, handle, serve,
}
use agidb_on_chain.Server.Access.{serve_at}

-- the answer to a read of a key at a height
abbrev pub read_reply : Bytes → ℕ → Option Bytes → Response
read_reply key h none = record { code = 404; content = message (codes "not found") }
read_reply key h (some v) = record { code = 200; content = value_content key v h }

-- the blocks up to a height, all of them for the height 0
abbrev pub blocks_to : ℕ → List Block → List Block
blocks_to h blocks = if h == 0 then blocks else take h blocks

state_answer-found :
    (key : Bytes) (h : ℕ) (o : Option Bytes) → state_answer key h (found o) ≡ read_reply key h o
unfolding state_answer
state_answer-found key h none = refl
state_answer-found key h (some v) = refl

module _ ⦃H : Sha256⦄ ⦃J : JsonText⦄ {F : Type 0} where
  read_at_height :
      (e : Engine F) (key : Bytes) (h : ℕ)
      → length e.blocks < 2 ^ 64
      → IsReplay e
      → (if ltb 0 h then get_at e key h else get e key)
        ≡ found (lookup (state_from [] (blocks_to h e.blocks)) key)
  read_at_height e key zero small i = (get_at-IsReplay e key 0 small i).0
  read_at_height e key (suc h) small i =
      let above : ltb 0 (suc h) ≡ true = ground arith in
      let some_height : (suc h == 0) ≡ false = ground arith in
      rw (above, some_height) (get_at-IsReplay e key (suc h) small i).1

  -- the answer to a read of the block at a height
  pub data IsBlockReply (e : Engine F) (n : ℕ) (a : Response) : Type 0 where
    stored :
        (b : Block)
        → block_at e n ≡ some b
        → b.header.height ≡ n
        → a ≡ record { code = 200; content = block_content b }
        → IsBlockReply e n a
    absent :
        (n ≡ 0) ⊎ (length e.blocks < n)
        → n < 2 ^ 64
        → a ≡ record { code = 404; content = message (codes "not found") }
        → IsBlockReply e n a
    too_high :
        2 ^ 64 ≤ n
        → a ≡ record { code = 400; content = message (codes "invalid height") }
        → IsBlockReply e n a

  no_block_at :
      (e : Engine F) (n : ℕ)
      → length e.blocks < 2 ^ 64
      → (n ≡ 0) ⊎ (length e.blocks < n)
      → block_at e n ≡ none
  unfolding block_at
  no_block_at e n small outside =
      let test : ((n == 0) || ltb (u64 (length e.blocks)) n) ≡ true =
        ground (arith, small, outside) in
      rw (block_at, test) refl

  parsed_height-IsBlockReply :
      (e : Engine F) (n : ℕ)
      → length e.blocks < 2 ^ 64
      → IsReplay e
      → IsBlockReply e n (parsed_height e (in_range n))
  unfolding parsed_height block_answer
  parsed_height-IsBlockReply e n small i = elim (Bool-cases (leb (2 ^ 64) n)) [
    | inl large ↦ rw large (too_high (ground (arith, large)) refl)
    | inr within ↦ rw within elim (Bool-cases ((n == 0) || ltb (length e.blocks) n)) [
      | inl outside ↦
          let out : (n ≡ 0) ⊎ (length e.blocks < n) = ground (arith, outside) in
          absent out (ground (arith, within)) (ap block_answer (no_block_at e n small out))
      | inr inside ↦
          let (b, at, height) =
            block_at-IsReplay e n small i (ground (arith, inside)) (ground (arith, inside)) in
          stored b at height (ap block_answer at)
    ]
  ]

  module _ ⦃S : Store F⦄ ⦃N : Counts F⦄ ⦃Q : RequestJson⦄ where
    -- On a database that is the replay of fewer than 2^64 blocks, an authorised request to /v1/state/
    -- is answered from the state that the blocks up to the height of its query lead to, from the state
    -- of all the blocks where the query names no height or 0: with 200 and the value, or with 404
    -- where that state has no such key. The server stays as it is.
    pub serve_state :
        (m : Moment) (s : Server F) (r : Request)
        → length s.engine.blocks < 2 ^ 64
        → IsReplay s.engine
        → refuses s.token r ≡ false
        → route r ≡ to at_state
        → serve m s r ≡ (
          s,
          read_reply (trim_prefix r.path (codes "/v1/state/")) (query_height r) (
              lookup
                (state_from [] (blocks_to (query_height r) s.engine.blocks))
                (trim_prefix r.path (codes "/v1/state/"))),
        )
    unfolding handle state_handler
    serve_state m s r small i admitted routed =
        let key = trim_prefix r.path (codes "/v1/state/") in
        serve_at m s r at_state admitted routed
        ∙ ap (λ v. (s, state_answer key (query_height r) v))
            (read_at_height s.engine key (query_height r) small i)
        ∙ ap (λ a. (s, a)) (state_answer-found key (query_height r) _)

    -- On a database that is the replay of fewer than 2^64 blocks, an authorised request to /v1/block/
    -- behind which stands a decimal number is answered with the block of that height, with 404 where
    -- there is none, and with 400 where the number is not below 2^64. The server stays as it is.
    pub serve_block :
        (m : Moment) (s : Server F) (r : Request) (digits : Bytes)
        → length s.engine.blocks < 2 ^ 64
        → IsReplay s.engine
        → refuses s.token r ≡ false
        → route r ≡ to at_block
        → r.path ≡ codes "/v1/block/" ++ digits
        → digits ≢ []
        → All IsDigit digits
        → ((serve m s r).0 ≡ s) × IsBlockReply s.engine (decimal_value digits) (serve m s r).1
    unfolding handle block_handler
    serve_block m s r digits small i admitted routed path filled d =
        let number : parse_uint (trim_prefix r.path (codes "/v1/block/"))
            ≡ in_range (decimal_value digits) =
          ap (λ p. parse_uint (trim_prefix p (codes "/v1/block/"))) path
          ∙ ap parse_uint (trim_prefix-prefix (codes "/v1/block/") digits)
          ∙ parse_uint-decimal_value digits filled d in
        let served =
          serve_at m s r at_block admitted routed
          ∙ ap (λ p. (s, parsed_height s.engine p)) number in
        rw served (refl, parsed_height-IsBlockReply s.engine (decimal_value digits) small i)
