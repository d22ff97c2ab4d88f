-- ===== src/Examples/Crashes.antt =====
-- The first commit over the storage in memory, and what a crash in it leaves.
use agidb_on_chain.Base.{
  ◌≡◌, ◌≢◌, refl, ap, sym, ◌∙◌, true, false, some, none, [], ◌∷◌, ◌++◌, codes, arith,
}
use agidb_on_chain.Model.{Transaction, Block}
use agidb_on_chain.Result.{ok}
use agidb_on_chain.Engine.{last_hash, filter_txs}
use agidb_on_chain.Engine.Roots.{clone_state}
use agidb_on_chain.Engine.Committing.{committed, new_block, install, commit}
use agidb_on_chain.Engine.Effects.{mount, put_txs, put_ops}
use agidb_on_chain.Engine.Replay.{IsReplay}
use agidb_on_chain.Engine.Opening.{LogStore}
use agidb_on_chain.Engine.Durability.{IsAtomic, commit-IsAtomic}
use agidb_on_chain.Examples.Toys.{toy_sha256, toy_json, memory_store, Memory, put, tx}
use agidb_on_chain.Examples.Sessions.{program, fresh, first}

-- the storage in memory gives every block back
abbrev pub memory_log : LogStore Memory
memory_log = record {
  IsLog = λ f bs. f.blocks ≡ bs;
  IsStored = λ b. Unit;
  read_log = λ f bs i. ap (λ l. ok l) i;
  log_wal = λ f f' bs b i s h.
      let same : record f { wal = some b } ≡ f' = ap (λ r. r.0) h in
      (ap (λ (g : Memory). g.blocks) (sym same) ∙ i, ap (λ (g : Memory). ok g.wal) (sym same));
  log_append = λ f f' bs b i s n h.
      let same : record f { blocks = f.blocks ++ (b ∷ []) } ≡ f' = ap (λ r. r.0) h in
      (
        ap (λ (g : Memory). g.blocks) (sym same) ∙ ap (λ l. l ++ (b ∷ [])) i,
        ap (λ (g : Memory). ok g.wal) (sym same),
      );
  log_clear = λ f f' bs i h.
      let same : record f { wal = none } ≡ f' = ap (λ r. r.0) h in
      (ap (λ (g : Memory). g.blocks) (sym same) ∙ i, ap (λ (g : Memory). ok g.wal) (sym same));
}

fresh-IsReplay : IsReplay fresh
unfolding program
fresh-IsReplay = refl

abbrev kept : Transaction
kept = tx (put (codes "a") (codes "1") ∷ put (codes "b") (codes "2") ∷ [])

first_filtered : filter_txs (clone_state []) first ≡ ok (put_txs [] first, kept ∷ [])
unfolding program put_txs put_ops
first_filtered = refl

abbrev block : Block
block = new_block 10 [] (put_txs [] first) (kept ∷ [])

abbrev logged_files : Memory
logged_files = record { blocks = []; wal = some block }

abbrev appended_files : Memory
appended_files = record { blocks = block ∷ []; wal = some block }

abbrev cleared_files : Memory
cleared_files = record { blocks = block ∷ []; wal = none }

first_hash : last_hash [] ≢ block.header.record_hash
unfolding program
first_hash h = cc

commit-IsAtomic_example :
    (commit 10 fresh first ≡ (mount cleared_files true (install fresh block), committed block))
    × IsAtomic fresh block logged_files appended_files cleared_files false
commit-IsAtomic_example =
    commit-IsAtomic memory_log 10 fresh first [] kept (put_txs [] first) logged_files appended_files
      cleared_files false fresh-IsReplay refl refl first_filtered tt (omega arith) first_hash refl
      refl refl
