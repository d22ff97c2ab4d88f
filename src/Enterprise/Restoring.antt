-- ===== src/Enterprise/Restoring.antt =====
-- `RestoreBackup` of enterprise.go: which names it writes, and what it restores of a backup.
use agidb_on_chain.Base.{
  ℕ, zero, suc, ◌≡◌, refl, sym, ◌∙◌, ap, subst, Bool, true, false, not, ◌&&◌, ◌||◌, List, [], ◌∷◌,
  ◌++◌, Bytes, codes, beq, has_prefix, ◌==◌, All, Bool-cases, inl, inr, arith,
}
use mathlib.Core.List.{reverse, reverse_aux}
use agidb_on_chain.Go.Strings.{split, onto_first}
use agidb_on_chain.Enterprise.Backups.{
  go_up, clean_loop, dot_dots, slashed, or_dot, clean, is_unsafe,
}

-- no slash in it
abbrev has_no_slash : Bytes → Bool
has_no_slash [] = true
has_no_slash (c ∷ s) = not (c == 47) && has_no_slash s

abbrev IsFlat : Bytes → Type 0
IsFlat p = has_no_slash p ≡ true

-- a part that stays below the directory
abbrev pub IsBelow : Bytes → Type 0
IsBelow p = beq p (codes "..") ≡ false

abbrev IsName : Bytes → Type 0
IsName p = IsFlat p × IsBelow p

split-IsFlat : (s : Bytes) → All IsFlat (split 47 s)
unfolding split
split-IsFlat [] = (refl, tt)
split-IsFlat (c ∷ s) = elim (Bool-cases (c == 47)) [
  | inl slash ↦ rw slash (refl, split-IsFlat s)
  | inr other ↦ rw other (onto_first-IsFlat c (split 47 s) other (split-IsFlat s))
]
  where
    onto_first-IsFlat :
        (c : ℕ) (ps : List Bytes) → (c == 47) ≡ false → All IsFlat ps → All IsFlat (onto_first c ps)
    onto_first-IsFlat c [] h a = (ground (arith, h), tt)
    onto_first-IsFlat c (p ∷ ps) h a = (ground (arith, h, a.0), a.1)

clean_loop-IsName :
    (rooted : Bool) (ups : ℕ) (names ps : List Bytes)
    → All IsName names
    → All IsFlat ps
    → All IsName (clean_loop rooted ups names ps).names
unfolding clean_loop
clean_loop-IsName rooted ups names [] a flat = a
clean_loop-IsName rooted ups names (p ∷ ps) a flat =
    elim (Bool-cases (beq p [] || beq p (codes "."))) [
      | inl skip ↦ rw (clean_loop, skip) (clean_loop-IsName rooted ups names ps a flat.1)
      | inr kept ↦ elim (Bool-cases (beq p (codes ".."))) [
        | inl dots ↦
            rw (clean_loop, kept)
              (rw dots (
                clean_loop-IsName rooted (go_up rooted ups names).ups (go_up rooted ups names).names
                  ps (up-IsName rooted ups names a) flat.1))
        | inr name ↦
            rw (clean_loop, kept)
              (rw name (clean_loop-IsName rooted ups (p ∷ names) ps ((flat.0, name), a) flat.1))
      ]
    ]
  where
    up-IsName :
        (rooted : Bool) (ups : ℕ) (names : List Bytes)
        → All IsName names
        → All IsName (go_up rooted ups names).names
    up-IsName true ups [] a = tt
    up-IsName false ups [] a = tt
    up-IsName rooted ups (n ∷ ns) a = a.1

reverse-IsName :
    (xs ys : List Bytes) → All IsName xs → All IsName ys → All IsName (reverse_aux xs ys)
reverse-IsName [] ys a b = b
reverse-IsName (x ∷ xs) ys a b = reverse-IsName xs (x ∷ ys) a.1 (a.0, b)

split-flat : (p : Bytes) → IsFlat p → split 47 p ≡ p ∷ []
unfolding split
split-flat [] h = refl
split-flat (c ∷ p) h =
    let other : (c == 47) ≡ false = ground (arith, h) in
    let flat : IsFlat p = ground (arith, h) in
    rw (split, other) (ap (onto_first c) (split-flat p flat))

split-part : (p s : Bytes) → IsFlat p → split 47 (p ++ (47 ∷ s)) ≡ p ∷ split 47 s
unfolding split
split-part [] s h = refl
split-part (c ∷ p) s h =
    let other : (c == 47) ≡ false = ground (arith, h) in
    let flat : IsFlat p = ground (arith, h) in
    rw (split, other) (ap (onto_first c) (split-part p s flat))

-- the parts of a path are the names that it was made of
split-slashed :
    (n : Bytes) (ns : List Bytes) → All IsName (n ∷ ns) → split 47 (slashed (n ∷ ns)) ≡ n ∷ ns
unfolding slashed
split-slashed n [] a = split-flat n a.0.0
split-slashed n (m ∷ ms) a =
    split-part n (slashed (m ∷ ms)) a.0.0 ∙ ap (λ l. n ∷ l) (split-slashed m ms a.1)

-- a relative path that stays below the directory that it is relative to
pub record IsInside (name : Bytes) : Type 0 where
  pub relative : has_prefix name (codes "/") ≡ false
  pub below : All IsBelow (split 47 name)

or_dot-IsBelow : (s : Bytes) → All IsBelow (split 47 s) → All IsBelow (split 47 (or_dot s))
unfolding split beq
or_dot-IsBelow [] a = (refl, tt)
or_dot-IsBelow (c ∷ s) a = a

All-IsBelow : (ps : List Bytes) → All IsName ps → All IsBelow ps
All-IsBelow [] a = tt
All-IsBelow (p ∷ ps) a = (a.0.1, All-IsBelow ps a.1)

slashed-IsBelow : (ps : List Bytes) → All IsName ps → All IsBelow (split 47 (slashed ps))
unfolding slashed split beq
slashed-IsBelow [] a = (refl, tt)
slashed-IsBelow (p ∷ ps) a =
    subst (All IsBelow) (sym (split-slashed p ps a)) (All-IsBelow (p ∷ ps) a)

dots-is_unsafe :
    (n : ℕ) (ps : List Bytes) → is_unsafe (or_dot (slashed (dot_dots (suc n) ++ ps))) ≡ true
unfolding is_unsafe slashed has_prefix
dots-is_unsafe zero [] = refl
dots-is_unsafe zero (p ∷ ps) = refl
dots-is_unsafe (suc n) ps = refl

relative_of_safe : (s : Bytes) → is_unsafe s ≡ false → has_prefix s (codes "/") ≡ false
unfolding is_unsafe
relative_of_safe s h = ground (arith, h)

relative-IsInside :
    (ups : ℕ) (names : List Bytes)
    → All IsName names
    → is_unsafe (or_dot (slashed (dot_dots ups ++ names))) ≡ false
    → IsInside (or_dot (slashed (dot_dots ups ++ names)))
relative-IsInside zero names a safe = record {
  relative = relative_of_safe (or_dot (slashed names)) safe;
  below = or_dot-IsBelow (slashed names) (slashed-IsBelow names a);
}
relative-IsInside (suc n) names a safe = cc (dots-is_unsafe n names, safe)

rooted-is_unsafe : (s : Bytes) → is_unsafe (47 ∷ s) ≡ true
unfolding is_unsafe has_prefix
rooted-is_unsafe s = refl

pub clean-IsInside : (name : Bytes) → is_unsafe (clean name) ≡ false → IsInside (clean name)
unfolding clean
clean-IsInside name safe =
    let rooted = has_prefix name (codes "/") in
    let c = clean_loop rooted 0 [] (split 47 name) in
    let body = slashed (dot_dots c.ups ++ reverse c.names) in
    let names =
      reverse-IsName c.names []
        (clean_loop-IsName rooted 0 [] (split 47 name) tt (split-IsFlat name)) tt in
    elim (Bool-cases rooted) [
      | inl root ↦ cc (rooted-is_unsafe body)
      | inr here ↦
          let same : clean name ≡ or_dot body = rw here refl in
          subst IsInside (sym same)
            (relative-IsInside c.ups (reverse c.names) names (ap is_unsafe (sym same) ∙ safe))
    ]
