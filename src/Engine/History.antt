-- ===== src/Engine/History.antt =====
-- `GetAt` of engine.go beside the states that the first blocks of the log lead to.
use mathlib.Core.List.{reverse}
use agidb_on_chain.Base.{
  ℕ, zero, suc, ◌+◌, ◌^◌, ◌%◌, ◌<◌, ◌≡◌, refl, subst, sym, ◌∙◌, ap, Bool, false, List, [], ◌∷◌,
  ◌++◌, Bytes, length, length-append, take, take_all, take-append, ◌==◌, ==_iff, arith,
}
use agidb_on_chain.Go.Maps.{GoMap, lookup}
use agidb_on_chain.Go.Json.{JsonText}
use agidb_on_chain.Go.Sha256.{Sha256}
use agidb_on_chain.Model.{Block}
use agidb_on_chain.Engine.{Engine, versions_of, apply_txs, new_engine, u64}
use agidb_on_chain.Engine.Committing.{install}
use agidb_on_chain.Engine.Loading.{check_links, apply_loaded, load_all}
use agidb_on_chain.Engine.Effects.{
  put_txs, state-apply_txs, versions-count_txs, commit_txs-apply_txs,
}
use agidb_on_chain.Engine.Replay.{IsReplay, apply_loaded-inv, state-install, blocks-install}
use agidb_on_chain.Result.{ok, require, require_ok, links_of_ok, ok_injective}
use native.Mathlib.Decide.{dec_le}
use agidb_on_chain.Engine.Reading.{scan_back, get, get_at}
use agidb_on_chain.Engine.Versions.{found, ReadsState, get_at-apply_txs, get_at-apply_txs_later}

-- the state after a list of blocks, from a state
unfoldable pub state_from : GoMap Bytes → List Block → GoMap Bytes
state_from s [] = s
state_from s (b ∷ bs) = state_from (put_txs s b.transactions) bs

state_from-append :
    (s : GoMap Bytes) (bs : List Block) (b : Block)
    → state_from s (bs ++ (b ∷ [])) ≡ put_txs (state_from s bs) b.transactions
unfolding state_from
state_from-append s [] b = refl
state_from-append s (c ∷ bs) b = state_from-append (put_txs s c.transactions) bs b

module _ {F : Type 0} where
  get-found : (e : Engine F) (key : Bytes) → get e key ≡ found (lookup e.state key)
  unfolding get
  get-found e key = ground arith

  -- the state is that after the blocks, and a read at a height that after as many blocks
  pub record IsHistory (e : Engine F) : Type 0 where
    pub present : e.state ≡ state_from [] e.blocks
    pub past :
        (key : Bytes) (h : ℕ)
        → get_at e key h ≡ found (lookup (state_from [] (take h e.blocks)) key)

  get_at-install :
      (e : Engine F) (b : Block) (key : Bytes) (h : ℕ)
      → get_at (install e b) key h ≡ get_at (apply_txs b.header.height e b.transactions) key h
  unfolding get_at install
  get_at-install e b key h =
      ap (λ m. scan_back (reverse (versions_of m key)) h)
        (ap (λ (d : Engine F). d.versions) (commit_txs-apply_txs b.header.height e b.transactions)
          ∙ versions-count_txs (apply_txs b.header.height e b.transactions) b.transactions)

  past-install :
      (e : Engine F) (b : Block) (key : Bytes) (h : ℕ)
      → b.header.height ≡ length e.blocks + 1
      → IsHistory e
      → get_at (install e b) key h
        ≡ found (lookup (state_from [] (take h (e.blocks ++ (b ∷ [])))) key)
  past-install e b key h n i = elim (dec_le b.header.height h) [
    | no later ↦
        get_at-install e b key h
        ∙ get_at-apply_txs_later b.header.height e b.transactions key h (omega arith)
        ∙ i.past key h
        ∙ ap (λ bs. found (lookup (state_from [] bs) key))
            (sym (take-append h e.blocks (b ∷ []) (omega arith)))
    | yes there ↦
        let now : ReadsState e key h =
          i.past key h
          ∙ ap (λ bs. found (lookup (state_from [] bs) key)) (take_all h e.blocks (omega arith))
          ∙ ap (λ s. found (lookup s key)) (sym i.present) in
        let next : (apply_txs b.header.height e b.transactions).state
            ≡ state_from [] (e.blocks ++ (b ∷ [])) =
          state-apply_txs b.header.height e b.transactions
          ∙ ap (λ s. put_txs s b.transactions) i.present
          ∙ sym (state_from-append [] e.blocks b) in
        get_at-install e b key h
        ∙ get_at-apply_txs b.header.height e b.transactions key h there now
        ∙ ap (λ s. found (lookup s key)) next
        ∙ ap (λ bs. found (lookup (state_from [] bs) key))
            (sym
              (take_all h (e.blocks ++ (b ∷ [])) (omega (arith, length-append e.blocks (b ∷ [])))))
  ]

  install-IsHistory :
      (e : Engine F) (b : Block)
      → b.header.height ≡ length e.blocks + 1
      → IsHistory e
      → IsHistory (install e b)
  install-IsHistory e b n i = record {
    present =
        state-install e b
        ∙ ap (λ s. put_txs s b.transactions) i.present
        ∙ sym (state_from-append [] e.blocks b)
        ∙ ap (state_from []) (sym (blocks-install e b));
    past = λ key h.
        past-install e b key h n i
        ∙ ap (λ bs. found (lookup (state_from [] (take h bs)) key)) (sym (blocks-install e b));
  }

module _ ⦃H : Sha256⦄ ⦃J : JsonText⦄ where
  pub height_of_links :
      (blocks : List Block) (b : Block)
      → length blocks + 1 < 2 ^ 64
      → check_links blocks b ≡ ok tt
      → b.header.height ≡ length blocks + 1
  unfolding check_links
  height_of_links blocks b small h =
      let (u, first, _) =
        links_of_ok (require (b.header.height == u64 (length blocks + 1)) _) _ h in
      let same : b.header.height ≡ (length blocks + 1) % 2 ^ 64 =
        (==_iff b.header.height (u64 (length blocks + 1))).0 (require_ok _ _ u first) in
      omega arith

module _ ⦃H : Sha256⦄ ⦃J : JsonText⦄ {F : Type 0} where
  load_all-IsHistory :
      (e : Engine F) (bs : List Block) (e' : Engine F)
      → length e.blocks + length bs < 2 ^ 64
      → IsHistory e
      → load_all e bs ≡ ok e'
      → IsHistory e'
  unfolding load_all
  load_all-IsHistory e [] e' small i h = subst IsHistory (ok_injective e e' h) i
  load_all-IsHistory e (b ∷ bs) e' small i h =
      let (e₁, loaded, rest) = links_of_ok (apply_loaded e b) (λ x. load_all x bs) h in
      let (links, _, same) = apply_loaded-inv e b e₁ loaded in
      let n : b.header.height ≡ length e.blocks + 1 =
        height_of_links e.blocks b (omega arith) links in
      let grown : length e₁.blocks ≡ length e.blocks + 1 =
        ap (λ (d : Engine F). length d.blocks) (sym same)
        ∙ ap length (blocks-install e b)
        ∙ length-append e.blocks (b ∷ []) in
      load_all-IsHistory e₁ bs e' (omega arith) (subst IsHistory same (install-IsHistory e b n i))
        rest

  IsHistory-new_engine : (files : F) (air_gapped : Bool) → IsHistory (new_engine files air_gapped)
  unfolding get_at scan_back versions_of lookup state_from
  IsHistory-new_engine files air_gapped = record { present = refl; past = λ key h. take_nil key h }
    where
      take_nil :
          (key : Bytes) (h : ℕ)
          → ([], false) ≡ found (lookup (state_from [] (take {A = Block} h [])) key)
      take_nil key zero = refl
      take_nil key (suc h) = refl

  pub IsReplay-IsHistory : (e : Engine F) → length e.blocks < 2 ^ 64 → IsReplay e → IsHistory e
  IsReplay-IsHistory e small r =
      load_all-IsHistory (new_engine e.store e.air_gapped) e.blocks e (omega arith)
        (IsHistory-new_engine e.store e.air_gapped) r

  -- In an engine that is the replay of fewer than 2^64 blocks, `Get` returns what the state holds after
  -- all the blocks, and `GetAt` at a height what it holds after that many blocks, or after all of
  -- them where there are not so many.
  pub get_at-IsReplay :
      (e : Engine F) (key : Bytes) (height : ℕ)
      → length e.blocks < 2 ^ 64
      → IsReplay e
      → (get e key ≡ found (lookup (state_from [] e.blocks) key))
        × (get_at e key height ≡ found (lookup (state_from [] (take height e.blocks)) key))
  get_at-IsReplay e key height small r =
      let i = IsReplay-IsHistory e small r in
      (get-found e key ∙ ap (λ s. found (lookup s key)) i.present, i.past key height)
