-- ===== src/Enterprise/Unpacking.antt =====
-- `decodeBackup` of enterprise.go on what `Backup` writes, and the names that `RestoreBackup` accepts.
use agidb_on_chain.Base.{
  ◌≡◌, ◌≢◌, refl, sym, ◌∙◌, ap, ap₂, false, [], ◌∷◌, ◌++◌, Bytes, beq, beq_of_ne, has_prefix,
  length, length-append, take, take_all, take-append, ltb, append_assoc, ◌⊎◌, inl, inr, arith,
}
use agidb_on_chain.Go.Sha256.{Sha256}
use agidb_on_chain.Result.{ok, err, passphrase_required}
use agidb_on_chain.Storage.Framing.{drop}
use agidb_on_chain.Enterprise.Backups.{
  Gcm, secret_mark, derive, encrypt, opened_or, decrypt, decode_backup, encode_backup,
}

drop_exact : (s t : Bytes) → drop (length s) (s ++ t) ≡ t
drop_exact [] t = refl
drop_exact (x ∷ s) t = drop_exact s t

-- the first and the second of three parts, and the third
split_three :
    (a b c : Bytes)
    → length a ≡ 16
    → length b ≡ 12
    → (take 16 ((a ++ b) ++ c) ≡ a)
      × (take 12 (drop 16 ((a ++ b) ++ c)) ≡ b)
      × (drop 28 ((a ++ b) ++ c) ≡ c)
split_three a b c la lb =
    let behind : drop 16 ((a ++ b) ++ c) ≡ b ++ c =
      ap (drop 16) (append_assoc a b c)
      ∙ ap (λ n. drop n (a ++ (b ++ c))) (sym la)
      ∙ drop_exact a (b ++ c) in
    let both : length (a ++ b) ≡ 28 = omega (arith, length-append a b, la, lb) in
    (
      ap (take 16) (append_assoc a b c)
          ∙ take-append 16 a (b ++ c) (omega (arith, la))
          ∙ take_all 16 a (omega (arith, la)),
      ap (take 12) behind
          ∙ take-append 12 b c (omega (arith, lb))
          ∙ take_all 12 b (omega (arith, lb)),
      ap (λ n. drop n ((a ++ b) ++ c)) (sym both) ∙ drop_exact (a ++ b) c,
    )

module _ ⦃H : Sha256⦄ ⦃G : Gcm⦄ where
  decrypt-encrypt :
      (salt nonce p pass : Bytes)
      → length salt ≡ 16
      → length nonce ≡ 12
      → decrypt (encrypt salt nonce p pass) pass ≡ ok p
  unfolding decrypt encrypt opened_or
  decrypt-encrypt salt nonce p pass ls ln =
      let sealed = G.seal (derive pass salt) nonce p in
      let (s, n, c) = split_three salt nonce sealed ls ln in
      let long : ltb (length ((salt ++ nonce) ++ sealed)) 28 ≡ false =
        ground (arith, length-append (salt ++ nonce) sealed, length-append salt nonce, ls, ln) in
      rw (decrypt, long)
        (ap opened_or (
          ap₂ (λ k m. G.open_sealed (derive pass k) m (drop 28 ((salt ++ nonce) ++ sealed))) s n
          ∙ ap (G.open_sealed (derive pass salt) nonce) c
          ∙ G.open-seal (derive pass salt) nonce p))

  secret_decodes :
      (x pass : Bytes) → pass ≢ [] → decode_backup (secret_mark ++ x) pass ≡ decrypt x pass
  unfolding decode_backup has_prefix
  secret_decodes x pass filled =
      let given : beq pass [] ≡ false = beq_of_ne pass [] filled in rw (decode_backup, given) refl

  -- What `Backup` makes of an archive, with a salt of 16 bytes and a nonce of 12, decodes to the archive
  -- with the passphrase of the backup, where that is empty too. Of one that was made with a
  -- passphrase, nothing is decoded without one.
  pub decode_backup-encode_backup :
      (salt nonce raw pass : Bytes)
      → length salt ≡ 16
      → length nonce ≡ 12
      → (decode_backup (encode_backup salt nonce raw pass) pass ≡ ok raw)
        × ((pass ≡ [])
            ⊎ (decode_backup (encode_backup salt nonce raw pass) [] ≡ err passphrase_required))
  unfolding encode_backup decode_backup has_prefix beq
  decode_backup-encode_backup salt nonce raw [] ls ln = (refl, inl refl)
  decode_backup-encode_backup salt nonce raw (c ∷ pass) ls ln = (
    secret_decodes (encrypt salt nonce raw (c ∷ pass)) (c ∷ pass) (λ h. cc)
        ∙ decrypt-encrypt salt nonce raw (c ∷ pass) ls ln,
    inr refl,
  )
