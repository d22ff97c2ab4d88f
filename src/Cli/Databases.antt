-- ===== src/Cli/Databases.antt =====
-- The commands of cli.go on a database: it is opened, used and closed again, whatever came of it.
use agidb_on_chain.Base.{
  ℕ, Bool, true, false, not, Option, none, some, List, [], ◌∷◌, Bytes, codes, beq, if◌then◌else◌,
}
use agidb_on_chain.Go.Slices.{nil_slice, slice}
use agidb_on_chain.Go.Json.{JsonText}
use agidb_on_chain.Go.Sha256.{Sha256}
use agidb_on_chain.Result.{
  Error, Result, ok, err, usage, key_not_found, airgap_refused, file_required, out_required,
  bad_json,
}
use agidb_on_chain.Engine.{Engine, Store}
use agidb_on_chain.Engine.Executions.{ExecutionBundle, commit_execution}
use agidb_on_chain.Engine.Loading.{verify, open_engine}
use agidb_on_chain.Engine.Puts.{Stamp, JsonCheck, set_to}
use agidb_on_chain.Engine.Reading.{engine_proof}
use agidb_on_chain.Engine.Snapshots.{SnapshotStore, take_snapshot, verify_snapshot}
use agidb_on_chain.Engine.Status.{Counts, status}
use agidb_on_chain.Enterprise.Cluster.{pos}
use agidb_on_chain.Cli.Words.{arg, int_arg}
use agidb_on_chain.Cli.Bodies.{
  initialized, status_line, metrics_line, proof_written, Outcome, prints, fails, CliJson,
  get_answer, is_none, commit_op, read_value, verify_outcome, execution_outcome, proof_file,
  snapshot_outcome, checked_snapshot,
}

-- the file system as the commands see it: `storage.Open` on a directory, the files that a failed
-- `engine.Open` leaves, `Close`, and single files
pub record Host (W F : Type 0) : Type 0 where
  pub open_at : Bytes → W → W × Result F
  pub leave_at : Bytes → F → W → W
  pub close_at : Bytes → F → W → W
  pub read_file : Bytes → W → Result Bytes
  pub write_file : Bytes → Bytes → W → W × Option Error

abbrev pub dir_of : List Bytes → Bytes
dir_of args = arg args (codes "--dir") (codes "./agidb-data")

module _ ⦃H : Sha256⦄ ⦃J : JsonText⦄ {W F : Type 0} ⦃S : Store F⦄ ⦃O : Host W F⦄ where
  unfoldable pub opened_engine : Bytes → W → F × Result (Engine F) → W × Result (Engine F)
  opened_engine dir w (files, err x) = (O.leave_at dir files w, err x)
  opened_engine dir w (files, ok e) = (w, ok e)

  unfoldable pub open_store : Bytes → Bool → W × Result F → W × Result (Engine F)
  unfolding opened_engine
  open_store dir air (w, err x) = (w, err x)
  open_store dir air (w, ok files) = opened_engine dir w (open_engine files air)

  -- the rest of a command after `open`, with the deferred `Close`
  unfoldable pub then_close :
      Bytes → (Engine F → Engine F × Outcome) → W × Result (Engine F) → W × Outcome
  then_close dir body (w, err x) = (w, fails x)
  then_close dir body (w, ok e) = let r = body e in (O.close_at dir r.0.store w, r.1)

module _ ⦃H : Sha256⦄ ⦃J : JsonText⦄ {W : Type 0} (F : Type 0) ⦃S : Store F⦄ ⦃O : Host W F⦄ where
  -- `open`
  unfoldable pub open_database : List Bytes → Bool → W → W × Result (Engine F)
  unfolding open_store
  open_database args air w = open_store (dir_of args) air (O.open_at (dir_of args) w)

  unfoldable pub with_database : List Bytes → (Engine F → Engine F × Outcome) → W → W × Outcome
  unfolding then_close open_database
  with_database args body w = then_close (dir_of args) body (open_database args true w)

  -- `initDB`
  unfoldable pub init_command : List Bytes → W → W × Outcome
  unfolding with_database
  init_command args = with_database args (λ e. (e, prints (initialized (dir_of args))))

  module _ ⦃N : Counts F⦄ where
    unfoldable pub put_command : Stamp → List Bytes → W → W × Outcome
    unfolding with_database commit_op
    put_command m (name ∷ key ∷ value ∷ rest) w =
        with_database (name ∷ key ∷ value ∷ rest) (commit_op m (set_to key (slice value))) w
    put_command m args w = (w, fails (usage (codes "put KEY VALUE [--dir PATH]")))

    unfoldable pub delete_command : Stamp → List Bytes → W → W × Outcome
    unfolding with_database commit_op
    delete_command m (name ∷ key ∷ rest) w =
        with_database (name ∷ key ∷ rest)
          (commit_op m record { key = key; value = nil_slice; delete = true }) w
    delete_command m args w = (w, fails (usage (codes "delete KEY [--dir PATH]")))

    unfoldable pub get_command : List Bytes → W → W × Outcome
    unfolding with_database get_answer
    get_command (name ∷ key ∷ rest) w =
        let h = int_arg (name ∷ key ∷ rest) (codes "--height") (pos 0) in
        with_database (name ∷ key ∷ rest) (λ e. (e, get_answer (read_value e key h))) w
    get_command args w = (w, fails (usage (codes "get KEY [--height N] [--dir PATH]")))

    unfoldable pub status_command : List Bytes → W → W × Outcome
    unfolding with_database
    status_command args = with_database args (λ e. (e, prints (status_line (status e))))

    unfoldable pub verify_command : List Bytes → W → W × Outcome
    unfolding with_database verify_outcome
    verify_command args = with_database args (λ e. (e, verify_outcome e (verify e)))

    unfoldable pub metrics_command : List Bytes → W → W × Outcome
    unfolding with_database
    metrics_command args =
        with_database args (λ e. (e, prints (metrics_line (status e) (is_none (verify e)))))

    unfoldable pub commit_bundle :
        ⦃V : JsonCheck⦄ → Stamp → List Bytes → W → Option ExecutionBundle → W × Outcome
    unfolding with_database execution_outcome
    commit_bundle m args w none = (w, fails bad_json)
    commit_bundle m args w (some x) =
        with_database args (λ e. let r = commit_execution m e x in (r.0, execution_outcome r.0 r.1))
          w

    unfoldable pub execution_file :
        ⦃V : JsonCheck⦄ → ⦃K : CliJson⦄ → Stamp → List Bytes → W → Result Bytes → W × Outcome
    unfolding commit_bundle
    execution_file m args w (err x) = (w, fails x)
    execution_file ⦃K⦄ m args w (ok b) = commit_bundle m args w (K.bundle b)

    unfoldable pub execution_command :
        ⦃V : JsonCheck⦄ → ⦃K : CliJson⦄ → Stamp → List Bytes → W → W × Outcome
    unfolding execution_file
    execution_command m args w =
        let file = arg args (codes "--file") [] in
        if beq file []
        then (w, fails file_required)
        else execution_file m args w (O.read_file file w)

  module _ ⦃K : CliJson⦄ where
    unfoldable pub written_proof : Bytes → W × Option Error → W × Outcome
    written_proof out (w, none) = (w, prints (proof_written out))
    written_proof out (w, some x) = (w, fails x)

    -- `proofGet` after `open`: the file is written before the database is closed
    unfoldable pub prove : Bytes → Bytes → Bytes → W × Result (Engine F) → W × Outcome
    unfolding written_proof
    prove dir key out (w, err x) = (w, fails x)
    prove dir key out (w, ok e) =
        let p = engine_proof e key in
        let r =
          if p.exists
          then written_proof out (O.write_file out (K.print_proof p) w)
          else (w, fails (key_not_found key)) in
        (O.close_at dir e.store r.0, r.1)

    unfoldable pub proof_get_command : List Bytes → W → W × Outcome
    unfolding prove open_database
    proof_get_command (name ∷ key ∷ rest) w =
        let out = arg (name ∷ key ∷ rest) (codes "--out") [] in
        if beq out []
        then (w, fails out_required)
        else prove (dir_of (name ∷ key ∷ rest)) key out (open_database (name ∷ key ∷ rest) true w)
    proof_get_command args w = (w, fails (usage (codes "proof-get KEY --out FILE")))

    unfoldable pub proof_verify_command : List Bytes → W → W × Outcome
    unfolding proof_file
    proof_verify_command (name ∷ file ∷ rest) w = (w, proof_file (O.read_file file w))
    proof_verify_command args w = (w, fails (usage (codes "proof-verify FILE")))

  -- what `serve` starts: a server on an engine, an address; the engine is closed when it ends
  unfoldable pub serve_command : List Bytes → W → W × Result (Engine F × (Bytes × Bytes))
  unfolding open_database
  serve_command args w =
      let o = open_database args false w in
      if not (beq (arg args (codes "--airgap") []) []) then (w, err airgap_refused) else elim o.1 [
        | err x ↦ (o.0, err x)
        | ok e ↦ (
          o.0,
          ok (
            e,
            (arg args (codes "--addr") (codes "127.0.0.1:7319"), arg args (codes "--token") []),
          ),
        )
      ]

  module _ ⦃P : SnapshotStore F⦄ where
    unfoldable pub snapshot_command : ℕ → List Bytes → W → W × Outcome
    unfolding with_database snapshot_outcome
    snapshot_command now args = with_database args (λ e.
        let r = take_snapshot now e in (record e { store = r.0 }, snapshot_outcome r.1.1 r.1.0))

    unfoldable pub snapshot_verify_command : List Bytes → W → W × Outcome
    unfolding with_database checked_snapshot
    snapshot_verify_command (name ∷ path ∷ rest) w =
        with_database (name ∷ path ∷ rest)
          (λ e. (e, checked_snapshot path (verify_snapshot e path))) w
    snapshot_verify_command args w = (w, fails (usage (codes "snapshot-verify FILE")))
