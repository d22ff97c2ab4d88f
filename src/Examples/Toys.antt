-- ===== src/Examples/Toys.antt =====
-- Concrete parameters for the tests: a digest that keeps the first 32 bytes, a printer that forgets
-- its tree, and a storage that keeps blocks in memory.
use agidb_on_chain.Base.{
  ℕ, zero, suc, ◌%◌, ◌≡◌, refl, ap, true, false, Option, none, some, List, [], ◌∷◌, ◌++◌, Bytes,
  IsByte, All, length, codes, arith,
}
use agidb_on_chain.Go.Json.{JsonText}
use agidb_on_chain.Go.Sha256.{Sha256}
use agidb_on_chain.Go.Slices.{slice, nil_slice}
use agidb_on_chain.Model.{Operation, Transaction, Block}
use agidb_on_chain.Result.{ok}
use agidb_on_chain.Engine.{Store}

abbrev pub pad : ℕ → Bytes → Bytes
pad zero bs = []
pad (suc n) [] = 0 ∷ pad n []
pad (suc n) (b ∷ bs) = (b % 256) ∷ pad n bs

pub length-pad : (n : ℕ) (bs : Bytes) → length (pad n bs) ≡ n
length-pad zero bs = refl
length-pad (suc n) [] = ap suc (length-pad n [])
length-pad (suc n) (b ∷ bs) = ap suc (length-pad n bs)

pub pad-IsByte : (n : ℕ) (bs : Bytes) → All IsByte (pad n bs)
pad-IsByte zero bs = tt
pad-IsByte (suc n) [] = (omega arith, pad-IsByte n [])
pad-IsByte (suc n) (b ∷ bs) = (omega arith, pad-IsByte n bs)

instance abbrev pub toy_sha256 : Sha256
toy_sha256 = record {
  sum256 = pad 32;
  length-sum256 = length-pad 32;
  sum256-IsByte = pad-IsByte 32;
}

instance abbrev pub toy_json : JsonText
toy_json = record { print = λ j. codes "{}" }

pub record Memory : Type 0 where
  pub blocks : List Block
  pub wal : Option Block

abbrev pub no_files : Memory
no_files = record { blocks = []; wal = none }

instance abbrev pub memory_store : Store Memory
memory_store = record {
  write_wal = λ f b. (record f { wal = some b }, none);
  append_block = λ f b. (record f { blocks = f.blocks ++ (b ∷ []) }, none);
  clear_wal = λ f. (record f { wal = none }, none);
  read_all = λ f. ok f.blocks;
  read_wal = λ f. ok f.wal;
}

abbrev pub put : Bytes → Bytes → Operation
put k v = record { key = k; value = slice v; delete = false }

abbrev pub del : Bytes → Operation
del k = record { key = k; value = nil_slice; delete = true }

abbrev pub tx : List Operation → Transaction
tx ops = record {
  id = codes "t";
  timestamp = 1;
  sender = codes "cli";
  nonce = 0;
  ops = ops;
  payload = nil_slice;
  kind = [];
}
