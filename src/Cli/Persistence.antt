-- ===== src/Cli/Persistence.antt =====
-- `put` and `get` of cli.go as two runs of the program, one after the other.
use agidb_on_chain.Base.{
  ◌≡◌, refl, sym, ◌∙◌, ap, subst, true, none, some, List, [], ◌∷◌, Bytes, codes, beq_refl,
  if◌then◌else◌,
}
use agidb_on_chain.Go.Maps.{lookup, lookup-insert}
use agidb_on_chain.Go.Slices.{nil_slice, slice}
use agidb_on_chain.Go.Json.{JsonText}
use agidb_on_chain.Go.Sha256.{Sha256}
use agidb_on_chain.Merkle.{value_of}
use agidb_on_chain.Model.{Transaction, Block}
use agidb_on_chain.Result.{ok}
use agidb_on_chain.Engine.{Engine, Store, put_op}
use agidb_on_chain.Engine.Batches.{new_transaction}
use agidb_on_chain.Engine.Committing.{committed, installed, commit}
use agidb_on_chain.Engine.Effects.{mount, put_ops, put_txs}
use agidb_on_chain.Engine.Loading.{open_engine}
use agidb_on_chain.Engine.NoOps.{commit-IsEffective}
use agidb_on_chain.Engine.Opening.{open_clean}
use agidb_on_chain.Engine.Puts.{Stamp, set_to}
use agidb_on_chain.Engine.Reading.{get}
use agidb_on_chain.Engine.Replay.{IsReplay, IsReplay-Distinct}
use agidb_on_chain.Engine.Sessions.{Session, opened, then_commit, Session-IsReplay}
use agidb_on_chain.Engine.Status.{Counts}
use agidb_on_chain.Enterprise.Cluster.{pos}
use agidb_on_chain.Cli.Words.{int_arg}
use agidb_on_chain.Cli.Bodies.{
  Outcome, prints, value_line, get_answer, commit_op, read_value, no_change, reply_error,
}
use agidb_on_chain.Cli.Databases.{
  Host, dir_of, opened_engine, open_store, then_close, open_database, with_database, put_command,
  get_command,
}

-- the transaction of `put`
abbrev pub put_transaction : Stamp → Bytes → Bytes → Transaction
put_transaction m key value =
    new_transaction m.id m.time (set_to key (slice value) ∷ []) (codes "cli") 0 nil_slice

module _ ⦃H : Sha256⦄ ⦃J : JsonText⦄ {F : Type 0} ⦃S : Store F⦄ where
  get_put :
      (m : Stamp) (e : Engine F) (key value : Bytes) (b : Block)
      → IsReplay e
      → installed (commit m.clock e (put_transaction m key value ∷ [])).1 ≡ some b
      → lookup (commit m.clock e (put_transaction m key value ∷ [])).0.state key ≡ some value
  unfolding put_txs put_ops put_op new_transaction
  get_put m e key value b i h =
      (commit-IsEffective m.clock e (put_transaction m key value ∷ []) b (IsReplay-Distinct e i)
          h).effect
        key
      ∙ lookup-insert e.state key value key
      ∙ ap (λ t. if t then some value else lookup e.state key) (beq_refl key)

module _ ⦃H : Sha256⦄ ⦃J : JsonText⦄ {W F : Type 0} ⦃S : Store F⦄ ⦃O : Host W F⦄ where
  -- a command on a directory that opens
  with_database_opened :
      (args : List Bytes) (dir : Bytes) (body : Engine F → Engine F × Outcome) (w w₁ : W) (f f' : F)
      (e : Engine F)
      → dir_of args ≡ dir
      → O.open_at dir w ≡ (w₁, ok f)
      → open_engine f true ≡ (f', ok e)
      → with_database F args body w ≡ (O.close_at dir (body e).0.store w₁, (body e).1)
  unfolding with_database open_database open_store opened_engine then_close
  with_database_opened args dir body w w₁ f f' e named files engine =
      ap (λ d. then_close d body (open_store d true (O.open_at d w))) named
      ∙ ap (λ x. then_close dir body (open_store dir true x)) files
      ∙ ap (λ x. then_close dir body (opened_engine dir w₁ x)) engine

  module _ ⦃N : Counts F⦄ where
    put_command_opened :
        (m : Stamp) (name key value : Bytes) (rest : List Bytes) (dir : Bytes) (w w₁ : W) (f f' : F)
        (e e' : Engine F) (b : Block)
        → dir_of (name ∷ key ∷ value ∷ rest) ≡ dir
        → O.open_at dir w ≡ (w₁, ok f)
        → open_engine f true ≡ (f', ok e)
        → commit m.clock e (put_transaction m key value ∷ []) ≡ (e', committed b)
        → put_command F m (name ∷ key ∷ value ∷ rest) w
          ≡ (O.close_at dir e'.store w₁, record { printed = []; failure = none })
    unfolding put_command commit_op no_change
    put_command_opened m name key value rest dir w w₁ f f' e e' b named files engine done =
        with_database_opened (name ∷ key ∷ value ∷ rest) dir
          (commit_op m (set_to key (slice value))) w w₁ f f' e named files engine
        ∙ ap (λ r. (O.close_at dir r.0.store w₁, no_change r.0 (reply_error r.1))) done

    get_command_opened :
        (name key value : Bytes) (rest : List Bytes) (dir : Bytes) (w w₁ : W) (f f' : F)
        (e : Engine F)
        → dir_of (name ∷ key ∷ rest) ≡ dir
        → int_arg (name ∷ key ∷ rest) (codes "--height") (pos 0) ≡ pos 0
        → O.open_at dir w ≡ (w₁, ok f)
        → open_engine f true ≡ (f', ok e)
        → lookup e.state key ≡ some value
        → get_command F (name ∷ key ∷ rest) w
          ≡ (O.close_at dir e.store w₁, prints (value_line value))
    unfolding get_command get_answer get value_of
    get_command_opened name key value rest dir w w₁ f f' e named now files engine held =
        let h = int_arg (name ∷ key ∷ rest) (codes "--height") (pos 0) in
        let answer : get_answer (read_value e key (pos 0)) ≡ prints (value_line value) =
          rw (value_of, held) refl in
        with_database_opened (name ∷ key ∷ rest) dir (λ d. (d, get_answer (read_value d key h))) w
          w₁ f f' e named files engine
        ∙ ap (λ k. (O.close_at dir e.store w₁, get_answer (read_value e key k))) now
        ∙ ap (λ o. (O.close_at dir e.store w₁, o)) answer

    -- A run of `put` whose commit succeeds prints nothing and reports no error, and a later run of `get`
    -- for the key on the same directory, without a height, prints the value: where the directory opens
    -- both times, the second time to files that hold the blocks of the engine after the commit and
    -- nothing in the write-ahead log.
    pub get_command-put_command :
        (m : Stamp) (put_name get_name key value : Bytes) (put_rest get_rest : List Bytes)
        (dir : Bytes) (w w₁ w₂ : W) (f f' g : F) (e e' : Engine F) (b : Block)
        → dir_of (put_name ∷ key ∷ value ∷ put_rest) ≡ dir
        → dir_of (get_name ∷ key ∷ get_rest) ≡ dir
        → int_arg (get_name ∷ key ∷ get_rest) (codes "--height") (pos 0) ≡ pos 0
        → O.open_at dir w ≡ (w₁, ok f)
        → open_engine f true ≡ (f', ok e)
        → commit m.clock e (put_transaction m key value ∷ []) ≡ (e', committed b)
        → O.open_at dir (O.close_at dir e'.store w₁) ≡ (w₂, ok g)
        → S.read_all g ≡ ok e'.blocks
        → S.read_wal g ≡ ok none
        → ((put_command F m (put_name ∷ key ∷ value ∷ put_rest) w).1
            ≡ record { printed = []; failure = none })
          × ((get_command F
                (get_name ∷ key ∷ get_rest)
                (put_command F m (put_name ∷ key ∷ value ∷ put_rest) w).0).1
              ≡ prints (value_line value))
    get_command-put_command m put_name get_name key value put_rest get_rest dir w w₁ w₂ f f' g e e'
          b named same now files engine done again log wal =
        let before : Session e = opened f true e (ap (λ x. x.1) engine) in
        let after : Session e' =
          subst Session (ap (λ x. x.0) done)
            (then_commit e m.clock (put_transaction m key value ∷ []) before) in
        let held : lookup e'.state key ≡ some value =
          ap (λ x. lookup (Engine.state x.0) key) (sym done)
          ∙ get_put m e key value b (Session-IsReplay e before) (ap (λ x. installed x.1) done) in
        let put =
          put_command_opened m put_name key value put_rest dir w w₁ f f' e e' b named files engine
            done in
        (
          ap (λ x. x.1) put,
          ap (λ x. (get_command F (get_name ∷ key ∷ get_rest) x.0).1) put
              ∙ ap (λ x. x.1)
                  (get_command_opened get_name key value get_rest dir (O.close_at dir e'.store w₁)
                    w₂ g g (mount g true e') same now again
                    (open_clean e' g true (Session-IsReplay e' after) log wal) held),
        )
