-- ===== src/Engine/Replay.antt =====
-- The invariant of an open database: its memory is what loading its blocks from nothing gives.
use agidb_on_chain.Base.{ℕ, ◌≡◌, refl, sym, ◌∙◌, ap, Bool, false, none, List, [], ◌∷◌, ◌++◌}
use mathlib.Core.List.{append-nil, append_assoc}
use agidb_on_chain.Go.Maps.{keys, Distinct}
use agidb_on_chain.Go.Json.{JsonText}
use agidb_on_chain.Go.Sha256.{Sha256}
use agidb_on_chain.Model.{Transaction, Block}
use agidb_on_chain.Result.{Result, ok, err, ◌>>=◌, links_of_ok, ok_injective}
use agidb_on_chain.Engine.{Engine, Store, new_engine, apply_txs, count_txs}
use agidb_on_chain.Engine.Committing.{Reply, install}
use agidb_on_chain.Engine.Loading.{
  check_links, check_roots, apply_loaded, load_all, verify, error_of,
}
use agidb_on_chain.Engine.Effects.{
  mount, install-mount, apply_txs-mount, count_txs-mount, put_txs, put_txs-Distinct,
  state-apply_txs, state-count_txs, commit_txs-apply_txs, blocks-commit_txs,
}
use agidb_on_chain.Engine.Agreement.{apply_loaded-install}
use agidb_on_chain.Engine.Outcome.{Committed, nothing, a_block}

abbrev pub map_ok {ℓ κ} : {A : Type ℓ} {B : Type κ} → (A → B) → Result A → Result B
map_ok f (ok a) = ok (f a)
map_ok f (err e) = err e

-- a result after two checks
map_ok-checks {ℓ κ} :
    {A : Type ℓ} {B : Type κ} (f : A → B) (m n : Result (Unit {0})) (a : A)
    → (m >>= λ _. n >>= λ _. ok (f a)) ≡ map_ok f (m >>= λ _. n >>= λ _. ok a)
map_ok-checks f (ok u) (ok v) a = refl
map_ok-checks f (ok u) (err e) a = refl
map_ok-checks f (err e) n a = refl

module _ {F : Type 0} where
  pub state-install :
      (e : Engine F) (b : Block) → (install e b).state ≡ put_txs e.state b.transactions
  unfolding install
  state-install e b =
      ap (λ (d : Engine F). d.state) (commit_txs-apply_txs b.header.height e b.transactions)
      ∙ state-count_txs (apply_txs b.header.height e b.transactions) b.transactions
      ∙ state-apply_txs b.header.height e b.transactions

  pub blocks-install : (e : Engine F) (b : Block) → (install e b).blocks ≡ e.blocks ++ (b ∷ [])
  unfolding install
  blocks-install e b =
      ap (λ bs. bs ++ (b ∷ [])) (blocks-commit_txs b.header.height e b.transactions)

  install-Distinct :
      (e : Engine F) (b : Block) → Distinct (keys e.state) → Distinct (keys (install e b).state)
  install-Distinct e b d = rw state-install (put_txs-Distinct e.state b.transactions d)

module _ ⦃H : Sha256⦄ ⦃J : JsonText⦄ where
  module _ {F : Type 0} where
    -- A block that is loaded passed its checks, and is installed.
    pub apply_loaded-inv :
        (e : Engine F) (b : Block) (e' : Engine F)
        → apply_loaded e b ≡ ok e'
        → (check_links e.blocks b ≡ ok tt)
          × (check_roots (put_txs e.state b.transactions) b.header ≡ ok tt)
          × (install e b ≡ e')
    unfolding apply_loaded
    apply_loaded-inv e b e' h =
        let e₁ = apply_txs b.header.height e b.transactions in
        let (_, links, rest) =
          links_of_ok (check_links e.blocks b)
            (λ _. check_roots e₁.state b.header >>= λ _.
              ok (record (count_txs e₁ b.transactions) { blocks = e.blocks ++ (b ∷ []) }))
            h in
        let (_, roots, _) =
          links_of_ok (check_roots e₁.state b.header)
            (λ _. ok (record (count_txs e₁ b.transactions) { blocks = e.blocks ++ (b ∷ []) }))
            rest in
        let roots' : check_roots (put_txs e.state b.transactions) b.header ≡ ok tt =
          ap (λ s. check_roots s b.header) (sym (state-apply_txs b.header.height e b.transactions))
          ∙ roots in
        (links, roots', ok_injective _ e' (sym (apply_loaded-install e b links roots') ∙ h))

    pub load_all-append :
        (e : Engine F) (bs : List Block) (b : Block)
        → load_all e (bs ++ (b ∷ [])) ≡ (load_all e bs >>= λ e'. apply_loaded e' b)
    unfolding load_all
    load_all-append e [] b = bind-ok (apply_loaded e b)
      where
        bind-ok : (m : Result (Engine F)) → (m >>= λ d. ok d) ≡ m
        bind-ok (ok a) = refl
        bind-ok (err x) = refl
    load_all-append e (c ∷ bs) b = step (apply_loaded e c) (λ d. load_all-append d bs b)
      where
        step :
            (m : Result (Engine F))
            → ((d : Engine F)
                → load_all d (bs ++ (b ∷ [])) ≡ (load_all d bs >>= λ e'. apply_loaded e' b))
            → (m >>= λ d. load_all d (bs ++ (b ∷ [])))
              ≡ ((m >>= λ d. load_all d bs) >>= λ e'. apply_loaded e' b)
        step (ok a) f = f a
        step (err x) f = refl

    load_all-Distinct :
        (e : Engine F) (bs : List Block) (e' : Engine F)
        → Distinct (keys e.state)
        → load_all e bs ≡ ok e'
        → Distinct (keys e'.state)
    unfolding load_all
    load_all-Distinct e [] e' d h = rw (← ok_injective e e' h) d
    load_all-Distinct e (b ∷ bs) e' d h =
        let (e₁, loaded, rest) = links_of_ok (apply_loaded e b) (λ x. load_all x bs) h in
        let (_, _, same) = apply_loaded-inv e b e₁ loaded in
        load_all-Distinct e₁ bs e' (rw (← same) (install-Distinct e b d)) rest

  module _ {F G : Type 0} (files : G) (air_gapped : Bool) where
    pub apply_loaded-mount :
        (e : Engine F) (b : Block)
        → apply_loaded (mount files air_gapped e) b
          ≡ map_ok (mount files air_gapped) (apply_loaded e b)
    unfolding apply_loaded
    apply_loaded-mount e b =
        simp (apply_txs-mount, count_txs-mount)
          (map_ok-checks (mount files air_gapped) (check_links e.blocks b)
            (check_roots (apply_txs b.header.height e b.transactions).state b.header)
            (record (count_txs (apply_txs b.header.height e b.transactions) b.transactions) {
              blocks = e.blocks ++ (b ∷ []);
            }))

    pub load_all-mount :
        (e : Engine F) (bs : List Block)
        → load_all (mount files air_gapped e) bs ≡ map_ok (mount files air_gapped) (load_all e bs)
    unfolding load_all
    load_all-mount e [] = refl
    load_all-mount e (b ∷ bs) =
        rw (apply_loaded-mount e b) (step (apply_loaded e b) (λ d. load_all-mount d bs))
      where
        step :
            (m : Result (Engine F))
            → ((d : Engine F)
                → load_all (mount files air_gapped d) bs
                  ≡ map_ok (mount files air_gapped) (load_all d bs))
            → (map_ok (mount files air_gapped) m >>= λ d. load_all d bs)
              ≡ map_ok (mount files air_gapped) (m >>= λ d. load_all d bs)
        step (ok a) f = f a
        step (err x) f = refl

  module _ {F : Type 0} where
    -- loading the blocks from nothing gives the memory
    abbrev pub IsReplay : Engine F → Type 0
    IsReplay e = load_all (new_engine e.store e.air_gapped) e.blocks ≡ ok e

    pub IsReplay-Distinct : (e : Engine F) → IsReplay e → Distinct (keys e.state)
    IsReplay-Distinct e r = load_all-Distinct (new_engine e.store e.air_gapped) e.blocks e tt r

    -- `Verify` finds no error in an engine that is the replay of its blocks.
    pub verify-IsReplay : (e : Engine F) → IsReplay e → verify e ≡ none
    unfolding verify
    verify-IsReplay e r = ap error_of (
        load_all-mount tt false (new_engine e.store e.air_gapped) e.blocks
        ∙ ap (map_ok (mount tt false)) r)

    pub IsReplay-mount :
        (files : F) (e : Engine F) → IsReplay e → IsReplay (mount files e.air_gapped e)
    IsReplay-mount files e r =
        load_all-mount files e.air_gapped (new_engine e.store e.air_gapped) e.blocks
        ∙ ap (map_ok (mount files e.air_gapped)) r

    pub IsReplay-install :
        (e : Engine F) (b : Block)
        → IsReplay e
        → apply_loaded e b ≡ ok (install e b)
        → (files : F) → IsReplay (mount files e.air_gapped (install e b))
    IsReplay-install e b r h files =
        ap (load_all (new_engine files e.air_gapped)) (blocks-install e b)
        ∙ load_all-append (new_engine files e.air_gapped) e.blocks b
        ∙ ap (λ m. m >>= λ d. apply_loaded d b) (IsReplay-mount files e r)
        ∙ apply_loaded-mount files e.air_gapped e b
        ∙ ap (map_ok (mount files e.air_gapped)) h

    pub Committed-IsReplay :
        ⦃S : Store F⦄ (now : ℕ) (e : Engine F) (txs : List Transaction) (r : Engine F × Reply)
        → IsReplay e
        → Committed now e txs r
        → IsReplay r.0
    Committed-IsReplay now e txs r i (nothing _ m) = rw m (IsReplay-mount r.0.store e i)
    Committed-IsReplay now e txs r i (a_block next kept b _ _ _ loads m) =
        rw m (IsReplay-install e b i loads r.0.store)

    store-install : (e : Engine F) (b : Block) → (install e b).store ≡ e.store
    store-install e b = ap (λ (d : Engine F). d.store) (install-mount e.store e.air_gapped e b)

    air_gapped-install : (e : Engine F) (b : Block) → (install e b).air_gapped ≡ e.air_gapped
    air_gapped-install e b =
        ap (λ (d : Engine F). d.air_gapped) (install-mount e.store e.air_gapped e b)

    -- loading appends the blocks and leaves the files
    load_all-fields :
        (e : Engine F) (bs : List Block) (e' : Engine F)
        → load_all e bs ≡ ok e'
        → (e'.blocks ≡ e.blocks ++ bs) × (e'.store ≡ e.store) × (e'.air_gapped ≡ e.air_gapped)
    unfolding load_all
    load_all-fields e [] e' h =
        let same : e ≡ e' = ok_injective e e' h in
        rw (← same) (sym (append-nil e.blocks), refl, refl)
    load_all-fields e (b ∷ bs) e' h =
        let (e₁, loaded, rest) = links_of_ok (apply_loaded e b) (λ x. load_all x bs) h in
        let (_, _, same) = apply_loaded-inv e b e₁ loaded in
        let (blocks, store, air) = load_all-fields e₁ bs e' rest in
        (
          blocks
              ∙ ap (λ (d : Engine F). d.blocks ++ bs) (sym same)
              ∙ ap (λ l. l ++ bs) (blocks-install e b)
              ∙ append_assoc e.blocks (b ∷ []) bs,
          store ∙ ap (λ (d : Engine F). d.store) (sym same) ∙ store-install e b,
          air ∙ ap (λ (d : Engine F). d.air_gapped) (sym same) ∙ air_gapped-install e b,
        )

    -- What is loaded from nothing is a replay.
    pub load_all-IsReplay :
        (files : F) (air_gapped : Bool) (bs : List Block) (e : Engine F)
        → load_all (new_engine files air_gapped) bs ≡ ok e
        → IsReplay e
    load_all-IsReplay files air_gapped bs e h =
        let (blocks, store, air) = load_all-fields (new_engine files air_gapped) bs e h in
        (λ i. load_all (new_engine (store i) (air i)) (blocks i)) ∙ h
