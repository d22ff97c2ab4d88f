-- ===== src/Server/Commits.antt =====
-- The answer of /v1/tx beside what became of the database.
use agidb_on_chain.Base.{ℕ, ◌≡◌, refl, sym, ◌∙◌, ap, subst, none, some, [], ◌∷◌, ◌++◌}
use agidb_on_chain.Go.Json.{JsonText}
use agidb_on_chain.Go.Sha256.{Sha256}
use agidb_on_chain.Model.{Transaction, Block}
use agidb_on_chain.Result.{Error}
use agidb_on_chain.Engine.{Engine, Store}
use agidb_on_chain.Engine.Committing.{Reply, installed, commit}
use agidb_on_chain.Engine.Effects.{mount}
use agidb_on_chain.Engine.NoOps.{IsEffective, commit-IsEffective}
use agidb_on_chain.Engine.Outcome.{
  Committed, nothing, a_block, commit-Committed, IsWritten, Clearing, cleared_log, kept_log,
  no_block, commit-Clearing,
}
use agidb_on_chain.Engine.Replay.{IsReplay, IsReplay-Distinct, blocks-install}
use agidb_on_chain.Engine.Status.{Counts}
use agidb_on_chain.Server.{
  Request, Response, Server, RequestJson, CommitRequest, Moment, reason, block_content, tx_answer,
  commit_request, serve,
}
use agidb_on_chain.Server.Access.{IsCommit}
use agidb_on_chain.Server.Visits.{transaction_of}

module _ ⦃H : Sha256⦄ ⦃J : JsonText⦄ {F : Type 0} ⦃S : Store F⦄ where
  -- the block is the last one, and the state holds what the operations make of it
  pub record IsAdded (e : Engine F) (tx : Transaction) (e' : Engine F) (b : Block) : Type 0 where
    pub last : e'.blocks ≡ e.blocks ++ (b ∷ [])
    pub effective : IsEffective e (tx ∷ []) e' b

  -- how a commit is answered, with what became of the write-ahead log
  pub data Answered (e : Engine F) (tx : Transaction) (x : Engine F × Response) : Type 0 where
    created :
        (b : Block) (f : F)
        → IsAdded e tx x.0 b
        → IsWritten e b f
        → S.clear_wal f ≡ (x.0.store, none)
        → x.1 ≡ record { code = 201; content = block_content b }
        → Answered e tx x
    kept :
        (failure : Error)
        → x.0 ≡ mount x.0.store e.air_gapped e
        → x.1 ≡ record { code = 400; content = reason failure }
        → Answered e tx x
    still_logged :
        (b : Block) (failure : Error) (f : F)
        → IsAdded e tx x.0 b
        → IsWritten e b f
        → S.clear_wal f ≡ (x.0.store, some failure)
        → x.1 ≡ record { code = 400; content = reason failure }
        → Answered e tx x

  pub commit-IsAdded :
      (now : ℕ) (e : Engine F) (tx : Transaction) (b : Block)
      → IsReplay e
      → installed (commit now e (tx ∷ [])).1 ≡ some b
      → IsAdded e tx (commit now e (tx ∷ [])).0 b
  commit-IsAdded now e tx b i h = record {
    last = grown (commit-Committed now e (tx ∷ []) (IsReplay-Distinct e i)) h;
    effective = commit-IsEffective now e (tx ∷ []) b (IsReplay-Distinct e i) h;
  }
    where
      grown :
          {r : Engine F × Reply}
          → Committed now e (tx ∷ []) r
          → installed r.1 ≡ some b
          → r.0.blocks ≡ e.blocks ++ (b ∷ [])
      grown (nothing i m) h = cc
      grown (a_block next left c f new i loads m) h =
          let same : c ≡ b = cc in
          ap (λ (x : Engine F). x.blocks) m
          ∙ blocks-install e c
          ∙ ap (λ x. e.blocks ++ (x ∷ [])) same

  -- a commit that reports no block leaves the memory
  commit-kept :
      (now : ℕ) (e : Engine F) (tx : Transaction)
      → IsReplay e
      → installed (commit now e (tx ∷ [])).1 ≡ none
      → (commit now e (tx ∷ [])).0 ≡ mount (commit now e (tx ∷ [])).0.store e.air_gapped e
  commit-kept now e tx i h = unmoved (commit-Committed now e (tx ∷ []) (IsReplay-Distinct e i)) h
    where
      unmoved :
          {r : Engine F × Reply}
          → Committed now e (tx ∷ []) r
          → installed r.1 ≡ none
          → r.0 ≡ mount r.0.store e.air_gapped e
      unmoved (nothing i m) h = m
      unmoved (a_block next left c f new i loads m) h = cc

  tx_answer-Answered :
      (e : Engine F) (tx : Transaction) (x : Engine F × Reply)
      → Clearing e x
      → ((b : Block) → installed x.1 ≡ some b → IsAdded e tx x.0 b)
      → (installed x.1 ≡ none → x.0 ≡ mount x.0.store e.air_gapped e)
      → Answered e tx (tx_answer x)
  unfolding tx_answer
  tx_answer-Answered e tx (d, reply) (cleared_log b f w c h) added same =
      rw h (created b f (added b (ap installed h)) w c refl)
  tx_answer-Answered e tx (d, reply) (kept_log b f x w c h) added same =
      rw h (still_logged b x f (added b (ap installed h)) w c refl)
  tx_answer-Answered e tx (d, reply) (no_block x h) added same =
      rw h (kept x (same (ap installed h)) refl)

  commit_request-Answered :
      (m : Moment) (e : Engine F) (req : CommitRequest)
      → IsReplay e
      → Answered e (transaction_of m req) (commit_request m e req)
  unfolding commit_request
  commit_request-Answered m e req i =
      tx_answer-Answered e (transaction_of m req) _
        (commit-Clearing m.clock e (transaction_of m req ∷ []))
        (λ b. commit-IsAdded m.clock e (transaction_of m req) b i)
        (commit-kept m.clock e (transaction_of m req) i)

  -- On a database that is the replay of its blocks, the answer to a request that commits is 201 with the
  -- new last block, over a state that holds what the operations of the request make of it, where the
  -- block was written and the write-ahead log then cleared; or 400 with the error, over the memory as
  -- it was; or 400 with the error although the block was added, where it was written and the clearing
  -- of the write-ahead log failed with that error.
  pub serve-Answered :
      ⦃N : Counts F⦄ ⦃Q : RequestJson⦄ (m : Moment) (s : Server F) (r : Request)
      → IsReplay s.engine
      → (c : IsCommit m s r (serve m s r))
      → Answered s.engine (transaction_of m c.request) ((serve m s r).0.engine, (serve m s r).1)
  serve-Answered m s r i c =
      subst (λ x. Answered s.engine (transaction_of m c.request) (x.0.engine, x.1)) (sym c.answered)
        (commit_request-Answered m s.engine c.request i)
