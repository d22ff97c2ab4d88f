-- ===== src/Engine/Outcome.antt =====
-- A call of `Commit` as a whole, over every answer of the storage.
use agidb_on_chain.Base.{ℕ, ◌≡◌, refl, ap, Option, none, some, List, [], ◌∷◌, Bytes}
use agidb_on_chain.Go.Maps.{GoMap, keys, Distinct}
use agidb_on_chain.Go.Json.{JsonText}
use agidb_on_chain.Go.Sha256.{Sha256}
use agidb_on_chain.Model.{Transaction, Block}
use agidb_on_chain.Result.{Error, Result, ok, err}
use agidb_on_chain.Engine.{Engine, Store, filter_txs}
use agidb_on_chain.Engine.Roots.{clone_state}
use agidb_on_chain.Engine.Committing.{
  Reply, committed, uncleared, rejected, installed, clear_reply, new_block, install, after_append,
  after_wal, write_block, commit_filtered, commit,
}
use agidb_on_chain.Engine.Loading.{apply_loaded}
use agidb_on_chain.Engine.Effects.{mount, install-mount}
use agidb_on_chain.Engine.Agreement.{apply_loaded-new_block}

installed-clear_reply : (b : Block) (o : Option Error) → installed (clear_reply b o) ≡ some b
unfolding clear_reply
installed-clear_reply b none = refl
installed-clear_reply b (some x) = refl

module _ {F : Type 0} where
  -- the block was written, and the memory is what installing it gives; or an error was returned, and
  -- the memory is as it was
  pub data Outcome (e : Engine F) (b : Block) (r : Engine F × Reply) : Type 0 where
    written :
        installed r.1 ≡ some b → r.0 ≡ mount r.0.store e.air_gapped (install e b) → Outcome e b r
    refused : installed r.1 ≡ none → r.0 ≡ mount r.0.store e.air_gapped e → Outcome e b r

module _ {F : Type 0} ⦃S : Store F⦄ where
  after_append-Outcome :
      (e : Engine F) (b : Block) (w : F × Option Error) → Outcome e b (after_append e b w)
  unfolding after_append
  after_append-Outcome e b (files, some x) = refused refl refl
  after_append-Outcome e b (files, none) =
      let cleared = S.clear_wal files in
      written (installed-clear_reply b cleared.1) (
        ap (λ (d : Engine F). record d { store = cleared.0 })
          (install-mount files e.air_gapped e b))

module _ ⦃H : Sha256⦄ ⦃J : JsonText⦄ {F : Type 0} ⦃S : Store F⦄ where
  after_wal-Outcome :
      (e : Engine F) (b : Block) (w : F × Option Error) → Outcome e b (after_wal e b w)
  unfolding after_wal
  after_wal-Outcome e b (files, some x) = refused refl refl
  after_wal-Outcome e b (files, none) = after_append-Outcome e b (S.append_block files b)

  write_block-Outcome : (e : Engine F) (b : Block) → Outcome e b (write_block e b)
  unfolding write_block
  write_block-Outcome e b = after_wal-Outcome e b (S.write_wal e.store b)

  -- what `Commit` does as a whole: nothing but to the files, or it installs a block that loads as it
  -- was installed
  pub data Committed (now : ℕ) (e : Engine F) (txs : List Transaction) (r : Engine F × Reply)
      : Type 0 where
    nothing : installed r.1 ≡ none → r.0 ≡ mount r.0.store e.air_gapped e → Committed now e txs r
    a_block :
        (next : GoMap Bytes) (kept : List Transaction) (b : Block)
        → filter_txs (clone_state e.state) txs ≡ ok (next, kept)
        → b ≡ new_block now e.blocks next kept
        → installed r.1 ≡ some b
        → apply_loaded e b ≡ ok (install e b)
        → r.0 ≡ mount r.0.store e.air_gapped (install e b)
        → Committed now e txs r

  of_Outcome :
      (now : ℕ) (e : Engine F) (txs kept : List Transaction) (next : GoMap Bytes)
      (r : Engine F × Reply)
      → Distinct (keys e.state)
      → filter_txs (clone_state e.state) txs ≡ ok (next, kept)
      → Outcome e (new_block now e.blocks next kept) r
      → Committed now e txs r
  of_Outcome now e txs kept next r d h (written i m) =
      a_block next kept _ h refl i (apply_loaded-new_block now e txs kept next d h) m
  of_Outcome now e txs kept next r d h (refused i m) = nothing i m

  commit_filtered-Committed :
      (now : ℕ) (e : Engine F) (txs : List Transaction)
      (f : Result (GoMap Bytes × List Transaction))
      → Distinct (keys e.state)
      → filter_txs (clone_state e.state) txs ≡ f
      → Committed now e txs (commit_filtered now e f)
  unfolding commit_filtered
  commit_filtered-Committed now e txs (err x) d h = nothing refl refl
  commit_filtered-Committed now e txs (ok (next, [])) d h = nothing refl refl
  commit_filtered-Committed now e txs (ok (next, tx ∷ kept)) d h =
      of_Outcome now e txs (tx ∷ kept) next _ d h (write_block-Outcome e _)

  -- A call of `Commit` on a state with distinct keys, whatever the storage answers, either reports no
  -- block and changes nothing but the files, or reports the new block over what the filter kept, which
  -- `applyLoaded` accepts, and leaves the memory that loading that block gives.
  pub commit-Committed :
      (now : ℕ) (e : Engine F) (txs : List Transaction)
      → Distinct (keys e.state)
      → Committed now e txs (commit now e txs)
  unfolding commit
  commit-Committed now e [] d = nothing refl refl
  commit-Committed now e (tx ∷ txs) d =
      commit_filtered-Committed now e (tx ∷ txs) (filter_txs (clone_state e.state) (tx ∷ txs)) d
        refl

module _ {F : Type 0} ⦃S : Store F⦄ where
  -- the block is in the files `f`, by the first two writes of `Commit`
  pub record IsWritten (e : Engine F) (b : Block) (f : F) : Type 0 where
    pub logged : F
    pub log : S.write_wal e.store b ≡ (logged, none)
    pub append : S.append_block logged b ≡ (f, none)

  -- what a reply says of the writes
  pub data Clearing (e : Engine F) (r : Engine F × Reply) : Type 0 where
    cleared_log :
        (b : Block) (f : F)
        → IsWritten e b f
        → S.clear_wal f ≡ (r.0.store, none)
        → r.1 ≡ committed b
        → Clearing e r
    kept_log :
        (b : Block) (f : F) (failure : Error)
        → IsWritten e b f
        → S.clear_wal f ≡ (r.0.store, some failure)
        → r.1 ≡ uncleared b failure
        → Clearing e r
    no_block : (failure : Error) → r.1 ≡ rejected failure → Clearing e r

  clear_reply-Clearing :
      (e d : Engine F) (b : Block) (f : F) (c : F × Option Error)
      → IsWritten e b f
      → S.clear_wal f ≡ c
      → Clearing e (record d { store = c.0 }, clear_reply b c.1)
  unfolding clear_reply
  clear_reply-Clearing e d b f (g, none) w h = cleared_log b f w h refl
  clear_reply-Clearing e d b f (g, some x) w h = kept_log b f x w h refl

  after_append-Clearing :
      (e : Engine F) (b : Block) (logged : F) (a : F × Option Error)
      → S.write_wal e.store b ≡ (logged, none)
      → S.append_block logged b ≡ a
      → Clearing e (after_append e b a)
  unfolding after_append
  after_append-Clearing e b logged (f, none) w h =
      clear_reply-Clearing e (install (record e { store = f }) b) b f (S.clear_wal f)
        record { logged = logged; log = w; append = h } refl
  after_append-Clearing e b logged (f, some x) w h = no_block x refl

  after_wal-Clearing :
      (e : Engine F) (b : Block) (w : F × Option Error)
      → S.write_wal e.store b ≡ w
      → Clearing e (after_wal e b w)
  unfolding after_wal
  after_wal-Clearing e b (f, none) h = after_append-Clearing e b f (S.append_block f b) h refl
  after_wal-Clearing e b (f, some x) h = no_block x refl

module _ ⦃H : Sha256⦄ ⦃J : JsonText⦄ {F : Type 0} ⦃S : Store F⦄ where
  commit_filtered-Clearing :
      (now : ℕ) (e : Engine F) (f : Result (GoMap Bytes × List Transaction))
      → Clearing e (commit_filtered now e f)
  unfolding commit_filtered write_block
  commit_filtered-Clearing now e (err x) = no_block x refl
  commit_filtered-Clearing now e (ok (next, [])) = no_block _ refl
  commit_filtered-Clearing now e (ok (next, tx ∷ kept)) = after_wal-Clearing e _ _ refl

  pub commit-Clearing :
      (now : ℕ) (e : Engine F) (txs : List Transaction) → Clearing e (commit now e txs)
  unfolding commit
  commit-Clearing now e [] = no_block _ refl
  commit-Clearing now e (tx ∷ txs) =
      commit_filtered-Clearing now e (filter_txs (clone_state e.state) (tx ∷ txs))
