-- ===== src/Engine/NoOps.antt =====
-- The suppression of writes that change nothing, as a caller of `Commit` sees it.
use agidb_on_chain.Base.{ℕ, ◌≡◌, ◌≢◌, All, refl, sym, ◌∙◌, ap, some, List, [], ◌∷◌, Bytes}
use agidb_on_chain.Go.Maps.{GoMap, keys, lookup, Distinct}
use agidb_on_chain.Go.Json.{JsonText}
use agidb_on_chain.Go.Sha256.{Sha256}
use agidb_on_chain.Merkle.Order.{SameMap}
use agidb_on_chain.Model.{Transaction, Block}
use agidb_on_chain.Result.{ok, no_state_change}
use agidb_on_chain.Engine.{Engine, Store, filter_txs}
use agidb_on_chain.Engine.Roots.{clone_state, clone_state-SameMap}
use agidb_on_chain.Engine.Committing.{
  Reply, rejected, installed, new_block, commit, commit_filtered,
}
use agidb_on_chain.Engine.Effects.{put_txs, put_txs_congr}
use agidb_on_chain.Engine.Suppression.{filter_txs-IsFilteredTxs}
use agidb_on_chain.Engine.Outcome.{Committed, nothing, a_block, commit-Committed}
use agidb_on_chain.Engine.Replay.{state-install}

-- the filtered transactions of the clone have, on the state itself, the effect of them all
pub same_effect :
    (s : GoMap Bytes) (txs kept : List Transaction) (next : GoMap Bytes)
    → Distinct (keys s)
    → filter_txs (clone_state s) txs ≡ ok (next, kept)
    → SameMap (put_txs s kept) (put_txs s txs)
same_effect s txs kept next d h k =
    let f = filter_txs-IsFilteredTxs (clone_state s) txs (next, kept) h in
    sym (put_txs_congr (clone_state s) s kept (clone_state-SameMap s d) k)
    ∙ ap (λ m. lookup m k) (sym f.exact)
    ∙ f.same k
    ∙ put_txs_congr (clone_state s) s txs (clone_state-SameMap s d) k

module _ ⦃H : Sha256⦄ ⦃J : JsonText⦄ {F : Type 0} ⦃S : Store F⦄ where
  -- what a caller is told of a block: its transactions all have an operation, and the state holds what
  -- all the operations that were submitted, in order, make of it
  pub record IsEffective (e : Engine F) (txs : List Transaction) (e' : Engine F) (b : Block)
      : Type 0 where
    pub full : All (λ tx. tx.ops ≢ []) b.transactions
    pub effect : SameMap e'.state (put_txs e.state txs)

  of_Committed :
      (now : ℕ) (e : Engine F) (txs : List Transaction) (r : Engine F × Reply) (b : Block)
      → Distinct (keys e.state)
      → Committed now e txs r
      → installed r.1 ≡ some b
      → IsEffective e txs r.0 b
  unfolding new_block
  of_Committed now e txs r b d (nothing i m) h = cc
  of_Committed now e txs r b d (a_block next kept c f new i loads m) h =
      let same : b ≡ c = cc in
      let made : b.transactions ≡ kept = ap (λ x. x.transactions) (same ∙ new) in
      record {
        full = rw made (filter_txs-IsFilteredTxs (clone_state e.state) txs (next, kept) f).full;
        effect = λ k.
            ap (λ (x : Engine F). lookup x.state k) m
            ∙ ap (λ s. lookup s k) (state-install e c)
            ∙ ap (λ l. lookup (put_txs e.state l) k) (ap (λ x. x.transactions) new)
            ∙ same_effect e.state txs kept next d f k;
      }

  -- Where `Commit` writes a block, each of its transactions has an operation, and the state holds what
  -- all the submitted operations, in order, make of it: what was dropped makes no difference.
  pub commit-IsEffective :
      (now : ℕ) (e : Engine F) (txs : List Transaction) (b : Block)
      → Distinct (keys e.state)
      → installed (commit now e txs).1 ≡ some b
      → IsEffective e txs (commit now e txs).0 b
  commit-IsEffective now e txs b d =
      of_Committed now e txs (commit now e txs) b d (commit-Committed now e txs d)

  -- Where the filter keeps nothing of a submission, the engine and its files stay as they are, the
  -- reply is the error for an unchanged state, and the submitted operations would have left what the
  -- state holds.
  pub commit_nothing_kept :
      (now : ℕ) (e : Engine F) (txs : List Transaction) (next : GoMap Bytes)
      → Distinct (keys e.state)
      → txs ≢ []
      → filter_txs (clone_state e.state) txs ≡ ok (next, [])
      → (commit now e txs ≡ (e, rejected no_state_change)) × SameMap (put_txs e.state txs) e.state
  unfolding commit commit_filtered put_txs
  commit_nothing_kept now e [] next d n h = absurd (n refl)
  commit_nothing_kept now e (tx ∷ txs) next d n h =
      (ap (commit_filtered now e) h, λ k. sym (same_effect e.state (tx ∷ txs) [] next d h k))
