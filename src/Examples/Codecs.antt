-- ===== src/Examples/Codecs.antt =====
-- Small concrete codecs for the tests of the storage: one that shortens payloads of zeros, and one for
-- blocks that hold no more than their height.
use agidb_on_chain.Base.{
  ℕ, zero, suc, ◌+◌, ◌%◌, ◌^◌, ◌<◌, ◌≡◌, refl, sym, ◌∙◌, ap, Bool, true, false, ◌&&◌, Option, none,
  some, inl, inr, List, [], ◌∷◌, Bytes, length, ◌==◌, if◌then◌else◌, Bool-cases, arith,
}
use agidb_on_chain.Model.{BlockHeader, Block}
use agidb_on_chain.Storage.Codec.{Codec, Gob, gob_block}

abbrev sum_bytes : Bytes → ℕ
sum_bytes [] = 0
sum_bytes (x ∷ s) = x + sum_bytes s

abbrev all_zero : Bytes → Bool
all_zero [] = true
all_zero (zero ∷ s) = all_zero s
all_zero (suc x ∷ s) = false

abbrev pub zeros : ℕ → Bytes
zeros zero = []
zeros (suc n) = 0 ∷ zeros n

zeros_lem : (s : Bytes) → all_zero s ≡ true → zeros (length s) ≡ s
zeros_lem [] h = refl
zeros_lem (zero ∷ s) h = ap (λ l. 0 ∷ l) (zeros_lem s h)
zeros_lem (suc x ∷ s) h = cc

abbrev shorten : Bytes → Option Bytes
shorten p = if all_zero p then some (1 ∷ length p ∷ []) else some (0 ∷ p)

abbrev lengthen : Bytes → Option Bytes
lengthen [] = none
lengthen (zero ∷ p) = some p
lengthen (suc x ∷ []) = none
lengthen (suc x ∷ n ∷ s) = some (zeros n)

pub lengthen-shorten : (p z : Bytes) → shorten p ≡ some z → lengthen z ≡ some p
lengthen-shorten p z h = elim (Bool-cases (all_zero p)) [
  | inl zs ↦
      let same : z ≡ 1 ∷ length p ∷ [] = ground (arith, h) in
      ap lengthen same ∙ ap some (zeros_lem p zs)
  | inr other ↦ let same : z ≡ 0 ∷ p = ground (arith, h) in ap lengthen same
]

pub shorten_nonempty : (p z : Bytes) → shorten p ≡ some z → 0 < length z
shorten_nonempty p z h = elim (Bool-cases (all_zero p)) [
  | inl zs ↦ let same : z ≡ 1 ∷ length p ∷ [] = ground (arith, h) in omega (arith, ap length same)
  | inr other ↦ let same : z ≡ 0 ∷ p = ground (arith, h) in omega (arith, ap length same)
]

instance abbrev pub toy_codec : Codec
toy_codec = record {
  crc32c = λ p. sum_bytes p % 2 ^ 32;
  deflate = shorten;
  inflate = lengthen;
  crc32c-lt = λ p. omega arith;
  inflate-deflate = lengthen-shorten;
  deflate_nonempty = shorten_nonempty;
}

-- a block of which only the height is set
abbrev pub bare_header : ℕ → BlockHeader
bare_header h = record {
  height = h;
  timestamp = 0;
  prev_hash = [];
  tx_root = [];
  state_root = [];
  contract_root = [];
  account_root = [];
  contract_code_root = [];
  contract_storage_root = [];
  log_root = [];
  zk_root = [];
  receipt_root = [];
  record_hash = [];
  schema = 4;
  compression = [];
}

abbrev pub bare : ℕ → Block
bare h = record { header = bare_header h; transactions = [] }

abbrev pub is_nil {ℓ} : {A : Type ℓ} → List A → Bool
is_nil [] = true
is_nil (x ∷ s) = false

pub nil_of {ℓ} : {A : Type ℓ} (s : List A) → is_nil s ≡ true → s ≡ []
nil_of [] h = refl
nil_of (x ∷ s) h = cc

and_left : (a b : Bool) → (a && b) ≡ true → a ≡ true
and_left true b h = refl
and_left false b h = cc

and_right : (a b : Bool) → (a && b) ≡ true → b ≡ true
and_right true b h = h
and_right false b h = cc

abbrev is_nil_header : BlockHeader → Bool
is_nil_header h =
    is_nil h.prev_hash
    && (is_nil h.tx_root
        && (is_nil h.state_root
            && (is_nil h.contract_root
                && (is_nil h.account_root
                    && (is_nil h.contract_code_root
                        && (is_nil h.contract_storage_root
                            && (is_nil h.log_root
                                && (is_nil h.zk_root
                                    && (is_nil h.receipt_root
                                        && (is_nil h.record_hash && (is_nil h.compression)))))))))))

-- nothing but the height is set
abbrev is_bare : Block → Bool
is_bare b =
    is_nil b.transactions
    && ((b.header.timestamp == 0) && ((b.header.schema == 4) && is_nil_header b.header))

bare_of : (b : Block) → is_bare b ≡ true → b ≡ bare b.header.height
bare_of b t = grind (arith, nil_of)

-- the block of height 9 is a long one
abbrev pub tail_of : ℕ → Bytes
tail_of h =
    if h == 9
    then 7 ∷ 6 ∷ 7 ∷ 6 ∷ 7 ∷ 6 ∷ 7 ∷ 6 ∷ 7 ∷ 6 ∷ 7 ∷ 6 ∷ 7 ∷ 6 ∷ 7 ∷ 6 ∷ 7 ∷ 6 ∷ []
    else []

abbrev bare_bytes : Block → Option Bytes
bare_bytes b = if is_bare b then some (b.header.height ∷ 0 ∷ 7 ∷ tail_of b.header.height) else none

abbrev bare_block : Bytes → Option Block
bare_block [] = none
bare_block (h ∷ s) = some (bare h)

pub bare_block-bare_bytes :
    (b : Block) (p : Bytes) → bare_bytes b ≡ some p → bare_block p ≡ some (gob_block b)
unfolding gob_block
bare_block-bare_bytes b p h = elim (Bool-cases (is_bare b)) [
  | inl only ↦
      let same : p ≡ b.header.height ∷ 0 ∷ 7 ∷ tail_of b.header.height = ground (arith, h) in
      ap bare_block same ∙ ap (λ c. some (gob_block c)) (sym (bare_of b only))
  | inr more ↦ ground (arith, h)
]

pub bare_bytes_nonempty : (b : Block) (p : Bytes) → bare_bytes b ≡ some p → 0 < length p
bare_bytes_nonempty b p h = elim (Bool-cases (is_bare b)) [
  | inl only ↦
      let same : p ≡ b.header.height ∷ 0 ∷ 7 ∷ tail_of b.header.height = ground (arith, h) in
      omega (arith, ap length same)
  | inr more ↦ ground (arith, h)
]

instance abbrev pub toy_gob : Gob
toy_gob = record {
  encode = bare_bytes;
  decode = bare_block;
  decode-encode = bare_block-bare_bytes;
  encode_nonempty = bare_bytes_nonempty;
}
