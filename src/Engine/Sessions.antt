-- ===== src/Engine/Sessions.antt =====
-- The life of a database: it is opened, and transactions are committed to it, with whatever answers the
-- storage gives.
use agidb_on_chain.Base.{
  ℕ, ◌≡◌, refl, subst, sym, ◌∙◌, ap, Bool, inl, inr, Option, none, some, List, Bool-cases,
}
use agidb_on_chain.Go.Json.{JsonText}
use agidb_on_chain.Go.Sha256.{Sha256}
use agidb_on_chain.Model.{Transaction, Block}
use agidb_on_chain.Result.{Error, Result, ok, err, ◌>>=◌}
use agidb_on_chain.Engine.{Engine, Store, new_engine}
use agidb_on_chain.Engine.Committing.{commit}
use agidb_on_chain.Engine.Loading.{
  apply_loaded, load_all, verify, wal_pending, clear, install_wal, after_load, replay_wal,
  after_read, open_engine,
}
use agidb_on_chain.Engine.Effects.{install-mount}
use agidb_on_chain.Engine.Outcome.{commit-Committed}
use agidb_on_chain.Engine.Replay.{
  IsReplay, IsReplay-Distinct, IsReplay-mount, IsReplay-install, Committed-IsReplay,
  load_all-IsReplay, apply_loaded-inv, verify-IsReplay,
}

-- the invariant of a result
abbrev Good {ℓ} : {A : Type ℓ} → (A → Type ℓ) → Result A → Type ℓ
Good P (ok a) = P a
Good P (err x) = Unit

module _ ⦃H : Sha256⦄ ⦃J : JsonText⦄ {F : Type 0} ⦃S : Store F⦄ where
  clear-IsReplay : (e : Engine F) → IsReplay e → Good IsReplay (clear e).1
  unfolding clear
  clear-IsReplay e i = IsReplay-mount (S.clear_wal e.store).0 e i

  after_load-IsReplay :
      (files : F) (r : Result (Engine F)) → Good IsReplay r → Good IsReplay (after_load files r).1
  unfolding after_load
  after_load-IsReplay files (err x) g = tt
  after_load-IsReplay files (ok e) g = clear-IsReplay e g

  apply_loaded-IsReplay : (e : Engine F) (b : Block) → IsReplay e → Good IsReplay (apply_loaded e b)
  apply_loaded-IsReplay e b i = step (apply_loaded e b) refl
    where
      step : (r : Result (Engine F)) → apply_loaded e b ≡ r → Good IsReplay r
      step (err x) h = tt
      step (ok e') h =
          let (_, _, same) = apply_loaded-inv e b e' h in
          subst IsReplay (sym (install-mount e.store e.air_gapped e b) ∙ same)
            (IsReplay-install e b i (h ∙ ap (λ d. ok d) (sym same)) e.store)

  install_wal-IsReplay :
      (e : Engine F) (wal : Block) (w : F × Option Error)
      → IsReplay e
      → Good IsReplay (install_wal e wal w).1
  unfolding install_wal
  install_wal-IsReplay e wal (files, some x) i = tt
  install_wal-IsReplay e wal (files, none) i =
      after_load-IsReplay files _
        (apply_loaded-IsReplay (record e { store = files }) wal (IsReplay-mount files e i))

  replay_wal-IsReplay :
      (e : Engine F) (r : Result (Option Block)) → IsReplay e → Good IsReplay (replay_wal e r).1
  unfolding replay_wal
  replay_wal-IsReplay e (err x) i = tt
  replay_wal-IsReplay e (ok none) i = i
  replay_wal-IsReplay e (ok (some wal)) i = elim (Bool-cases (wal_pending e.blocks wal)) [
    | inl pending ↦ rw pending (install_wal-IsReplay e wal (S.append_block e.store wal) i)
    | inr done ↦ rw done (clear-IsReplay e i)
  ]

  after_read-IsReplay :
      (files : F) (r : Result (Engine F)) → Good IsReplay r → Good IsReplay (after_read files r).1
  unfolding after_read
  after_read-IsReplay files (err x) g = tt
  after_read-IsReplay files (ok e) g = replay_wal-IsReplay e (S.read_wal files) g

  loaded-IsReplay :
      (files : F) (air_gapped : Bool) (r : Result (List Block))
      → Good IsReplay (r >>= load_all (new_engine files air_gapped))
  loaded-IsReplay files air_gapped (err x) = tt
  loaded-IsReplay files air_gapped (ok bs) = step (load_all (new_engine files air_gapped) bs) refl
    where
      step :
          (r : Result (Engine F)) → load_all (new_engine files air_gapped) bs ≡ r → Good IsReplay r
      step (err x) h = tt
      step (ok e) h = load_all-IsReplay files air_gapped bs e h

  open_engine-IsReplay :
      (files : F) (air_gapped : Bool) → Good IsReplay (open_engine files air_gapped).1
  unfolding open_engine
  open_engine-IsReplay files air_gapped =
      after_read-IsReplay files _ (loaded-IsReplay files air_gapped (S.read_all files))

  -- the engines of one process: one that was opened, and what the calls of `Commit` make of it
  pub data Session : Engine F → Type 0 where
    opened :
        (files : F) (air_gapped : Bool) (e : Engine F)
        → (open_engine files air_gapped).1 ≡ ok e
        → Session e
    then_commit :
        (e : Engine F) (now : ℕ) (txs : List Transaction) → Session e → Session (commit now e txs).0

  -- In every session the memory is the replay of the blocks, whatever files were opened and whatever the
  -- storage answered.
  pub Session-IsReplay : (e : Engine F) → Session e → IsReplay e
  Session-IsReplay e (opened files air_gapped e' h) =
      rw h at (open_engine-IsReplay files air_gapped)
  Session-IsReplay e (then_commit e₀ now txs s) =
      let i : IsReplay e₀ = Session-IsReplay e₀ s in
      Committed-IsReplay now e₀ txs (commit now e₀ txs) i
        (commit-Committed now e₀ txs (IsReplay-Distinct e₀ i))

  -- In every session `Verify` reports no error.
  pub verify-Session : (e : Engine F) → Session e → verify e ≡ none
  verify-Session e s = verify-IsReplay e (Session-IsReplay e s)
