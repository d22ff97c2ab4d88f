-- ===== src/Server/Progress.antt =====
-- /v1/tx where the writes of the block succeed.
use agidb_on_chain.Base.{
  ◌≤◌, ◌≡◌, ◌≢◌, All, sym, ◌∙◌, ap, subst, true, false, some, List, [], ◌∷◌, Bytes, codes, beq,
  beq_refl, length, ltb, arith,
}
use agidb_on_chain.Go.Maps.{GoMap, lookup}
use agidb_on_chain.Go.Json.{JsonText}
use agidb_on_chain.Go.Sha256.{Sha256}
use agidb_on_chain.Model.{Transaction, Block}
use agidb_on_chain.Result.{ok}
use agidb_on_chain.Engine.{Engine, Store, filter_txs}
use agidb_on_chain.Engine.Roots.{clone_state}
use agidb_on_chain.Engine.Batches.{new_transaction}
use agidb_on_chain.Engine.Committing.{Reply, committed, uncleared, rejected, installed, new_block}
use agidb_on_chain.Engine.Effects.{put_ops, put_txs}
use agidb_on_chain.Engine.Progress.{IsWritable, commit-IsWritable}
use agidb_on_chain.Engine.Replay.{IsReplay, IsReplay-Distinct}
use agidb_on_chain.Engine.Status.{Counts}
use agidb_on_chain.Server.{
  Request, Response, Server, RequestJson, CommitRequest, Moment, to, at_tx, block_content, route,
  refuses, body_limit, tx_answer, commit_request, decoded_request, tx_handler, handle, serve,
}
use agidb_on_chain.Server.Access.{serve_at}
use agidb_on_chain.Server.Commits.{IsAdded, commit-IsAdded}
use agidb_on_chain.Server.Visits.{transaction_of}

module _ ⦃H : Sha256⦄ ⦃J : JsonText⦄ {F : Type 0} ⦃S : Store F⦄ where
  -- the answer 201 with a block that was added
  pub record IsCreated (m : Moment) (e : Engine F) (req : CommitRequest) (x : Engine F × Response)
      : Type 0 where
    pub block : Block
    pub added : IsAdded e (transaction_of m req) x.0 block
    pub answer : x.1 ≡ record { code = 201; content = block_content block }

  tx_answer-IsCreated :
      (m : Moment) (e : Engine F) (req : CommitRequest) (b : Block) (x : Engine F × Reply)
      → IsAdded e (transaction_of m req) x.0 b
      → x.1 ≡ committed b
      → IsCreated m e req (tx_answer x)
  unfolding tx_answer
  tx_answer-IsCreated m e req b (e', committed c) a h = record { block = b; added = a; answer = cc }
  tx_answer-IsCreated m e req b (e', uncleared c y) a h = cc
  tx_answer-IsCreated m e req b (e', rejected y) a h = cc

  commit_request-IsCreated :
      (m : Moment) (e : Engine F) (req : CommitRequest) (k : Bytes)
      → IsReplay e
      → ((next : GoMap Bytes) (kept : List Transaction)
          → filter_txs (clone_state e.state) (transaction_of m req ∷ []) ≡ ok (next, kept)
          → IsWritable e (new_block m.clock e.blocks next kept))
      → m.id ≢ []
      → All (λ op. op.key ≢ []) req.ops
      → lookup (put_ops e.state req.ops) k ≢ lookup e.state k
      → IsCreated m e req (commit_request m e req)
  unfolding commit_request put_txs new_transaction
  commit_request-IsCreated m e req k i writable filled named change =
      let (b, done) =
        commit-IsWritable m.clock e (transaction_of m req ∷ []) k (IsReplay-Distinct e i)
          ((filled, named), tt) writable change in
      tx_answer-IsCreated m e req b _
        (commit-IsAdded m.clock e (transaction_of m req) b i (ap installed done)) done

  tx_handler_commits :
      ⦃Q : RequestJson⦄ (m : Moment) (e : Engine F) (r : Request) (req : CommitRequest)
      → r.method ≡ codes "POST"
      → length r.body ≤ body_limit
      → r.broken ≡ false
      → Q.decode r.body ≡ some req
      → tx_handler m e r ≡ commit_request m e req
  unfolding tx_handler decoded_request
  tx_handler_commits m e r req posted bounded whole decoded =
      let post : beq r.method (codes "POST") ≡ true =
        ap (λ x. beq x (codes "POST")) posted ∙ beq_refl (codes "POST") in
      let small : ltb body_limit (length r.body) ≡ false = ground arith in
      rw (tx_handler, post) (rw small (rw whole (ap (decoded_request m e) decoded)))

  module _ ⦃N : Counts F⦄ ⦃Q : RequestJson⦄ where
    -- On a database that is the replay of its blocks, an authorised POST to /v1/tx, with a body of at most
    -- 16 MiB that arrives whole and decodes to operations that all have a key and that give some key
    -- another value, is answered with 201 and a block that is the new last one, over a state that holds
    -- what the operations make of it. The random id is not empty, and the three writes of `Commit`, to
    -- the write-ahead log, to the segment and the clearing, succeed for the block that is made of what
    -- the filter keeps.
    pub serve-IsCreated :
        (m : Moment) (s : Server F) (r : Request) (req : CommitRequest) (k : Bytes)
        → IsReplay s.engine
        → ((next : GoMap Bytes) (kept : List Transaction)
            → filter_txs (clone_state s.engine.state) (transaction_of m req ∷ []) ≡ ok (next, kept)
            → IsWritable s.engine (new_block m.clock s.engine.blocks next kept))
        → refuses s.token r ≡ false
        → route r ≡ to at_tx
        → r.method ≡ codes "POST"
        → length r.body ≤ body_limit
        → r.broken ≡ false
        → Q.decode r.body ≡ some req
        → m.id ≢ []
        → All (λ op. op.key ≢ []) req.ops
        → lookup (put_ops s.engine.state req.ops) k ≢ lookup s.engine.state k
        → IsCreated m s.engine req ((serve m s r).0.engine, (serve m s r).1)
    unfolding handle
    serve-IsCreated m s r req k i writable admitted routed posted bounded whole decoded filled named
          change =
        let answered : handle m s.engine r at_tx ≡ commit_request m s.engine req =
          tx_handler_commits m s.engine r req posted bounded whole decoded in
        subst (IsCreated m s.engine req)
          (sym (ap (λ x. (x.0.engine, x.1)) (serve_at m s r at_tx admitted routed) ∙ answered))
          (commit_request-IsCreated m s.engine req k i writable filled named change)
