-- ===== src/Engine/BatchEffects.antt =====
-- What `CommitOperations` leaves where it reports no error.
use agidb_on_chain.Base.{
  ℕ, ◌≡◌, ◌≢◌, refl, sym, subst, ◌∙◌, ap, Option, none, some, inl, inr, List, [], ◌∷◌, ◌++◌, Bytes,
  beq, if◌then◌else◌, Bool-cases,
}
use mathlib.Core.List.{append-nil}
use agidb_on_chain.Go.Json.{JsonText}
use agidb_on_chain.Go.Maps.{GoMap}
use agidb_on_chain.Go.Sha256.{Sha256}
use agidb_on_chain.Merkle.Order.{SameMap}
use agidb_on_chain.Model.{Operation, Transaction, Block}
use agidb_on_chain.Result.{Error, Result, ok, err, ◌>>=◌, no_state_change}
use agidb_on_chain.Engine.{Engine, Store, changes, put_op, filter_ops, filter_txs, keep_tx}
use agidb_on_chain.Engine.Roots.{clone_state}
use agidb_on_chain.Engine.Committing.{
  Reply, committed, rejected, installed, clear_reply, new_block, after_append, after_wal,
  write_block, commit_filtered, commit,
}
use agidb_on_chain.Engine.Effects.{put_txs}
use agidb_on_chain.Engine.Outcome.{Committed, nothing, a_block, commit-Committed}
use agidb_on_chain.Engine.NoOps.{commit-IsEffective, commit_nothing_kept}
use agidb_on_chain.Engine.Replay.{IsReplay, IsReplay-Distinct, Committed-IsReplay, blocks-install}

-- an error of a chain that goes on without one is the error of its first link
err_first {ℓ κ} :
    {A : Type ℓ} {B : Type κ} (r : Result A) (g : A → B) (x : Error)
    → (r >>= λ a. ok (g a)) ≡ err x
    → r ≡ err x
err_first (err y) g x h = cc
err_first (ok a) g x h = cc

-- the filter has no error for an unchanged state
filter_ops_other : (s : GoMap Bytes) (ops : List Operation) → filter_ops s ops ≢ err no_state_change
unfolding filter_ops
filter_ops_other s [] h = cc
filter_ops_other s (op ∷ ops) h = elim (Bool-cases (beq op.key [])) [
  | inl empty ↦ cc (rw empty at h)
  | inr named ↦
      filter_ops_other (if changes s op then put_op s op else s) ops
        (err_first (filter_ops _ ops) _ no_state_change (rw named at h))
]

-- the filter after the operations of one transaction
abbrev keep_rest :
    Transaction
    → List Transaction
    → GoMap Bytes × List Operation
    → Result (GoMap Bytes × List Transaction)
keep_rest tx txs q = filter_txs q.0 txs >>= λ p. ok (p.0, keep_tx tx q.1 p.1)

first_link :
    (s : GoMap Bytes) (tx : Transaction) (txs : List Transaction)
    → ((q : GoMap Bytes) → filter_txs q txs ≢ err no_state_change)
    → (r : Result (GoMap Bytes × List Operation)) → filter_ops s tx.ops ≡ r
    → (r >>= keep_rest tx txs) ≢ err no_state_change
first_link s tx txs others (err x) same k =
    let is : x ≡ no_state_change = cc in filter_ops_other s tx.ops (same ∙ ap (λ y. err y) is)
first_link s tx txs others (ok q) same k =
    others q.0 (err_first (filter_txs q.0 txs) (λ p. (p.0, keep_tx tx q.1 p.1)) no_state_change k)

filter_txs_other :
    (s : GoMap Bytes) (txs : List Transaction) → filter_txs s txs ≢ err no_state_change
unfolding filter_txs
filter_txs_other s [] h = cc
filter_txs_other s (tx ∷ txs) h = elim (Bool-cases (beq tx.id [])) [
  | inl empty ↦ cc (rw empty at h)
  | inr named ↦
      first_link s tx txs (λ q. filter_txs_other q txs) (filter_ops s tx.ops) refl (rw named at h)
]

-- the storage has no such error either
pub record IsQuiet (F : Type 0) ⦃S : Store F⦄ : Type 0 where
  pub quiet_wal : (f f' : F) (b : Block) → S.write_wal f b ≢ (f', some no_state_change)
  pub quiet_append : (f f' : F) (b : Block) → S.append_block f b ≢ (f', some no_state_change)

module _ ⦃H : Sha256⦄ ⦃J : JsonText⦄ {F : Type 0} ⦃S : Store F⦄ (Q : IsQuiet F) where
  after_append_other :
      (e : Engine F) (b : Block) (f : F) (w : F × Option Error)
      → S.append_block f b ≡ w
      → (after_append e b w).1 ≢ rejected no_state_change
  unfolding after_append clear_reply
  after_append_other e b f (files, some x) same h =
      let is : x ≡ no_state_change = cc in
      Q.quiet_append f files b (same ∙ ap (λ y. (files, some y)) is)
  after_append_other e b f (files, none) same h = step (S.clear_wal files).1 h
    where
      step : (o : Option Error) → clear_reply b o ≢ rejected no_state_change
      step none k = cc
      step (some x) k = cc

  write_block_other : (e : Engine F) (b : Block) → (write_block e b).1 ≢ rejected no_state_change
  unfolding write_block after_wal
  write_block_other e b = step (S.write_wal e.store b) refl
    where
      step :
          (w : F × Option Error)
          → S.write_wal e.store b ≡ w
          → (after_wal e b w).1 ≢ rejected no_state_change
      step (files, some x) same h =
          let is : x ≡ no_state_change = cc in
          Q.quiet_wal e.store files b (same ∙ ap (λ y. (files, some y)) is)
      step (files, none) same h = after_append_other e b files (S.append_block files b) refl h

  -- where `Commit` reports an unchanged state, the filter kept nothing
  nothing_kept :
      (now : ℕ) (e : Engine F) (tx : Transaction) (txs : List Transaction)
      → (commit now e (tx ∷ txs)).1 ≡ rejected no_state_change
      → (next : GoMap Bytes) × (filter_txs (clone_state e.state) (tx ∷ txs) ≡ ok (next, []))
  unfolding commit commit_filtered
  nothing_kept now e tx txs = step (filter_txs (clone_state e.state) (tx ∷ txs)) refl
    where
      step :
          (r : Result (GoMap Bytes × List Transaction))
          → filter_txs (clone_state e.state) (tx ∷ txs) ≡ r
          → (commit_filtered now e r).1 ≡ rejected no_state_change
          → (next : GoMap Bytes) × (filter_txs (clone_state e.state) (tx ∷ txs) ≡ ok (next, []))
      step (err x) same h =
          let is : x ≡ no_state_change = cc in
          absurd (filter_txs_other (clone_state e.state) (tx ∷ txs) (same ∙ ap (λ y. err y) is))
      step (ok (next, [])) same h = (next, same)
      step (ok (next, t ∷ kept)) same h =
          absurd (write_block_other e (new_block now e.blocks next (t ∷ kept)) h)

  -- after a `Commit` that lets the loop go on: the memory is a replay again, its state holds what the
  -- transactions make of it, and its log has grown by the block, if there is one
  pub record GoesOn (e : Engine F) (txs : List Transaction) (e' : Engine F) (bs : List Block)
      : Type 0 where
    pub replay : IsReplay e'
    pub state : SameMap e'.state (put_txs e.state txs)
    pub blocks : e'.blocks ≡ e.blocks ++ bs

  Committed-blocks :
      (now : ℕ) (e : Engine F) (txs : List Transaction) (r : Engine F × Reply) (b : Block)
      → Committed now e txs r
      → installed r.1 ≡ some b
      → r.0.blocks ≡ e.blocks ++ (b ∷ [])
  Committed-blocks now e txs r b (nothing i m) h = cc
  Committed-blocks now e txs r b (a_block next kept c f new i loads m) h =
      let same : c ≡ b = cc in
      ap (λ (x : Engine F). x.blocks) m ∙ blocks-install e c ∙ ap (λ d. e.blocks ++ (d ∷ [])) same

  pub committed-GoesOn :
      (now : ℕ) (e e' : Engine F) (txs : List Transaction) (b : Block)
      → IsReplay e
      → commit now e txs ≡ (e', committed b)
      → GoesOn e txs e' (b ∷ [])
  committed-GoesOn now e e' txs b r h =
      let d = IsReplay-Distinct e r in
      let c = subst (Committed now e txs) h (commit-Committed now e txs d) in
      let done : installed (commit now e txs).1 ≡ some b = ap (λ x. installed x.1) h in
      let engine : (commit now e txs).0 ≡ e' = ap (λ x. x.0) h in
      record {
        replay = Committed-IsReplay now e txs (e', committed b) r c;
        state =
            subst (λ (x : Engine F). SameMap x.state (put_txs e.state txs)) engine
              (commit-IsEffective now e txs b d done).effect;
        blocks = Committed-blocks now e txs (e', committed b) b c refl;
      }

  pub idle-GoesOn :
      (now : ℕ) (e e' : Engine F) (tx : Transaction) (txs : List Transaction)
      → IsReplay e
      → commit now e (tx ∷ txs) ≡ (e', rejected no_state_change)
      → GoesOn e (tx ∷ txs) e' []
  idle-GoesOn now e e' tx txs r h =
      let (next, none_kept) = nothing_kept now e tx txs (ap (λ x. x.1) h) in
      let (same, state) =
        commit_nothing_kept now e (tx ∷ txs) next (IsReplay-Distinct e r) (λ x. cc) none_kept in
      let engine : e ≡ e' = ap (λ x. x.0) (sym same ∙ h) in
      subst (λ x. GoesOn e (tx ∷ txs) x []) engine
        record { replay = r; state = λ k. sym (state k); blocks = sym (append-nil e.blocks) }
