-- ===== src/Server/Visits.antt =====
-- A server from its start on: the database is opened, and requests of every kind are answered.
use agidb_on_chain.Base.{◌≡◌, refl, sym, ◌∙◌, ap, subst, Bool, false, inl, inr, [], ◌∷◌, Bytes}
use agidb_on_chain.Go.Json.{JsonText}
use agidb_on_chain.Go.Sha256.{Sha256}
use agidb_on_chain.Model.{Transaction}
use agidb_on_chain.Result.{ok}
use agidb_on_chain.Engine.{Engine, Store}
use agidb_on_chain.Engine.Batches.{new_transaction}
use agidb_on_chain.Engine.Committing.{Reply, committed, uncleared, rejected, commit}
use agidb_on_chain.Engine.Loading.{open_engine}
use agidb_on_chain.Engine.Replay.{IsReplay}
use agidb_on_chain.Engine.Sessions.{Session, opened, then_commit, Session-IsReplay, verify-Session}
use agidb_on_chain.Engine.Status.{Counts}
use agidb_on_chain.Server.{
  Request, Server, RequestJson, CommitRequest, Moment, to, at_verify, verified_content, route,
  refuses, tx_answer, commit_request, verify_answer, verify_handler, handle, serve,
}
use agidb_on_chain.Server.Access.{serve-IsCommit, serve_at}

-- the transaction of a request
abbrev pub transaction_of : Moment → CommitRequest → Transaction
transaction_of m req = new_transaction m.id m.time req.ops req.sender req.nonce req.payload

module _ ⦃H : Sha256⦄ ⦃J : JsonText⦄ {F : Type 0} ⦃S : Store F⦄ ⦃N : Counts F⦄
    ⦃Q : RequestJson⦄ where
  -- the servers of one process
  pub data Visited : Server F → Type 0 where
    started :
        (files : F) (air_gapped : Bool) (e : Engine F) (token : Bytes)
        → (open_engine files air_gapped).1 ≡ ok e
        → Visited (record { engine = e; token = token })
    then_serve : (s : Server F) (m : Moment) (r : Request) → Visited s → Visited (serve m s r).0

  engine-tx_answer : (x : Engine F × Reply) → (tx_answer x).0 ≡ x.0
  unfolding tx_answer
  engine-tx_answer (e, committed b) = refl
  engine-tx_answer (e, uncleared b x) = refl
  engine-tx_answer (e, rejected x) = refl

  engine-commit_request :
      (m : Moment) (e : Engine F) (req : CommitRequest)
      → (commit_request m e req).0 ≡ (commit m.clock e (transaction_of m req ∷ [])).0
  unfolding commit_request
  engine-commit_request m e req = engine-tx_answer _

  Visited-Session : (s : Server F) → Visited s → Session s.engine
  Visited-Session s (started files air_gapped e token h) = opened files air_gapped e h
  Visited-Session s (then_serve s₀ m r v) =
      let before : Session s₀.engine = Visited-Session s₀ v in
      elim (serve-IsCommit m s₀ r) [
        | inl (same, code) ↦ subst (λ x. Session x.engine) (sym same) before
        | inr c ↦
            subst Session
              (sym (ap (λ x. x.0.engine) c.answered ∙ engine-commit_request m s₀.engine c.request))
              (then_commit s₀.engine m.clock (transaction_of m c.request ∷ []) before)
      ]

  pub Visited-IsReplay : (s : Server F) → Visited s → IsReplay s.engine
  Visited-IsReplay s v = Session-IsReplay s.engine (Visited-Session s v)

  -- Whatever requests a server has answered, and whatever its storage answered, an authorised request
  -- for /v1/verify is answered with 200 and the report that the database is verified, and leaves the
  -- server as it is.
  pub serve-Visited :
      (m : Moment) (s : Server F) (r : Request)
      → Visited s
      → refuses s.token r ≡ false
      → route r ≡ to at_verify
      → serve m s r ≡ (s, record { code = 200; content = verified_content m.elapsed })
  unfolding handle verify_handler verify_answer
  serve-Visited m s r v admitted routed =
      serve_at m s r at_verify admitted routed
      ∙ ap (λ o. (s, verify_answer m o)) (verify-Session s.engine (Visited-Session s v))
