-- ===== src/Enterprise/Compaction.antt =====
-- `Compact` of enterprise.go: the blocks of a database are appended to the files of a new directory,
-- which is opened and verified before its data take the place of the old ones.
use agidb_on_chain.Base.{
  ℕ, ◌+◌, ◌<◌, ◌^◌, ◌≡◌, refl, sym, ◌∙◌, ap, subst, true, Option, none, some, List, [], ◌∷◌, ◌++◌,
  Bytes, All, length, length-append, append_assoc,
}
use mathlib.Core.List.{append-nil}
use agidb_on_chain.Go.Json.{JsonText}
use agidb_on_chain.Go.Sha256.{Sha256}
use agidb_on_chain.Model.{Block}
use agidb_on_chain.Result.{Error, Result, ok, err, ◌>>=◌, ◌>>◌, ok_injective}
use agidb_on_chain.Engine.{Engine, Store}
use agidb_on_chain.Engine.Loading.{verify, open_engine}
use agidb_on_chain.Engine.Chain.{IsChain, IsReplay-IsChain}
use agidb_on_chain.Engine.Effects.{mount}
use agidb_on_chain.Engine.Opening.{LogStore, open_clean}
use agidb_on_chain.Engine.Replay.{IsReplay, verify-IsReplay}
use agidb_on_chain.Engine.Sessions.{opened, Session-IsReplay}
use agidb_on_chain.Engine.Status.{Counts, status}

-- `if err != nil { return err }`
abbrev pub no_error : Option Error → Result (Unit {0})
no_error none = ok tt
no_error (some x) = err x

-- the files of a directory that is closed and opened again
pub record Directory (F : Type 0) : Type 0 where
  pub reopen : F → Result F

pub record CompactReport : Type 0 where
  pub height : ℕ
  pub transactions : ℕ
  pub storage_bytes_before : ℕ
  pub storage_bytes_after : ℕ
  pub state_root : Bytes
  pub latest_hash : Bytes

module _ {F : Type 0} ⦃S : Store F⦄ where
  unfoldable pub after_rebuilt : (F → Result F) → F × Option Error → Result F
  after_rebuilt next (files, some x) = err x
  after_rebuilt next (files, none) = next files

  -- the loop over the blocks
  unfoldable pub rebuild : List Block → F → Result F
  unfolding after_rebuilt
  rebuild [] files = ok files
  rebuild (b ∷ bs) files = after_rebuilt (rebuild bs) (S.append_block files b)

module _ ⦃H : Sha256⦄ ⦃J : JsonText⦄ {F : Type 0} ⦃S : Store F⦄ ⦃N : Counts F⦄
    ⦃D : Directory F⦄ where
  unfoldable pub compact_report : Engine F → Engine F → CompactReport
  compact_report e after = record {
    height = (status e).height;
    transactions = (status e).transactions;
    storage_bytes_before = (status e).storage_bytes;
    storage_bytes_after = (status after).storage_bytes;
    state_root = (status e).state_root;
    latest_hash = (status e).latest_hash;
  }

  -- `Compact` on the files of the database and those of the new directory; the engine over the
  -- compacted files, whose data take the place of the old ones
  unfoldable pub compact : F → F → Result (Engine F × CompactReport)
  unfolding rebuild compact_report
  compact files fresh = do
    e ← (open_engine files true).1
    no_error (verify e)
    written ← rebuild e.blocks fresh
    again ← D.reopen written
    after ← (open_engine again true).1
    no_error (verify after)
    ok (after, compact_report e after)

module _ {F : Type 0} ⦃S : Store F⦄ where
  rebuild_inv :
      (b : Block) (cs : List Block) (f f' : F)
      → rebuild (b ∷ cs) f ≡ ok f'
      → (g : F) × (S.append_block f b ≡ (g, none)) × (rebuild cs g ≡ ok f')
  unfolding rebuild after_rebuilt
  rebuild_inv b cs f f' h = step (S.append_block f b) refl
    where
      step :
          (w : F × Option Error)
          → S.append_block f b ≡ w
          → (g : F) × (S.append_block f b ≡ (g, none)) × (rebuild cs g ≡ ok f')
      step (g, some x) w = cc h
      step (g, none) w = (g, w, sym (ap (after_rebuilt (rebuild cs)) w) ∙ h)

module _ ⦃H : Sha256⦄ ⦃J : JsonText⦄ {F : Type 0} ⦃S : Store F⦄ (L : LogStore F) where
  -- the files hold the blocks, and nothing is in the write-ahead log
  abbrev pub IsSettled : F → List Block → Type 0
  IsSettled f bs = L.IsLog f bs × (S.read_wal f ≡ ok none)

  -- blocks in order, behind those that are there
  rebuild-IsSettled :
      (prev : Bytes) (bs cs : List Block) (f f' : F)
      → IsChain prev (length bs) cs
      → All L.IsStored cs
      → IsSettled f bs
      → rebuild cs f ≡ ok f'
      → IsSettled f' (bs ++ cs)
  unfolding rebuild after_rebuilt
  rebuild-IsSettled prev bs [] f f' c stored i h =
      subst (IsSettled f') (sym (append-nil bs))
        (subst (λ g. IsSettled g bs) (ok_injective f f' h) i)
  rebuild-IsSettled prev bs (b ∷ cs) f f' c stored i h =
      let (g, w, next) = rebuild_inv b cs f f' h in
      let (log, wal) = L.log_append f g bs b i.0 stored.0 c.0 w in
      let size : length (bs ++ (b ∷ [])) ≡ length bs + 1 = length-append bs (b ∷ []) in
      subst (IsSettled f') (append_assoc bs (b ∷ []) cs) (
        rebuild-IsSettled b.header.record_hash (bs ++ (b ∷ [])) cs g f'
          (subst (λ n. IsChain b.header.record_hash n cs) (sym size) c.3) stored.1 (log, wal ∙ i.1)
          next)

  -- Let the files of a database open to an engine of fewer than 2^64 blocks, which the storage gives back
  -- as they are; let its blocks be appended without an error to files that hold none, and let these,
  -- closed and opened again, hold what they held. Then `Compact` succeeds: the files that it makes hold
  -- exactly the blocks of the database, and the engine over them has the same state, versions and
  -- counts.
  pub compact-IsSettled :
      ⦃N : Counts F⦄ ⦃D : Directory F⦄ (files fresh written again : F) (e : Engine F)
      → (open_engine files true).1 ≡ ok e
      → length e.blocks < 2 ^ 64
      → All L.IsStored e.blocks
      → IsSettled fresh []
      → rebuild e.blocks fresh ≡ ok written
      → D.reopen written ≡ ok again
      → (IsSettled written e.blocks → IsSettled again e.blocks)
      → (compact files fresh ≡ ok (mount again true e, compact_report e (mount again true e)))
        × IsSettled again e.blocks
  unfolding compact
  compact-IsSettled ⦃D⦄ files fresh written again e source small stored empty copied back holds =
      let r : IsReplay e = Session-IsReplay e (opened files true e source) in
      let settled = holds (
        rebuild-IsSettled [] [] e.blocks fresh written (IsReplay-IsChain e small r) stored empty
          copied) in
      let reads = L.read_log again e.blocks settled.0 in
      let reopened : (open_engine again true).1 ≡ ok (mount again true e) =
        ap (λ x. x.1) (open_clean e again true r reads settled.1) in
      let first = verify-IsReplay e r in
      let second =
        verify-IsReplay (mount again true e) (
          Session-IsReplay (mount again true e)
            (opened again true (mount again true e) reopened)) in
      (
        rw (compact, source) (rw first (rw copied (rw back (rw reopened (rw second refl))))),
        settled,
      )
