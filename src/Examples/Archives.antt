-- ===== src/Examples/Archives.antt =====
-- A cipher that hides nothing, and an archive whose names and contents end with marks of their own.
use agidb_on_chain.Base.{zero, suc, ◌≡◌, refl, ◌∙◌, ap, Option, some, [], ◌∷◌, Bytes}
use agidb_on_chain.Enterprise.Files.{Tree}
use agidb_on_chain.Enterprise.Backups.{Gcm, Zip}

instance abbrev pub toy_gcm : Gcm
toy_gcm = record {
  seal = λ key nonce p. p;
  open_sealed = λ key nonce c. some c;
  open-seal = λ key nonce p. refl;
}

-- the bytes behind the two marks: 0 ends a name, 1 ends a file
abbrev pub shifted : Bytes → Bytes → Bytes
shifted [] rest = rest
shifted (c ∷ s) rest = suc (suc c) ∷ shifted s rest

abbrev pub pack_toy : Tree → Bytes
pack_toy [] = []
pack_toy ((name, b) ∷ t) = shifted name (0 ∷ shifted b (1 ∷ pack_toy t))

-- what is read from within a name: the end of the name, and what is behind it
pub record Reading : Type 0 where
  pub name : Bytes
  pub content : Bytes
  pub files : Tree

abbrev pub files_of : Bytes → Reading → Tree
files_of [] r = []
files_of (c ∷ s) r = (r.name, r.content) ∷ r.files

unfoldable mutual
  pub in_name : Bytes → Reading
  in_name [] = record { name = []; content = []; files = [] }
  in_name (zero ∷ s) =
      let r = in_content s in record { name = []; content = r.content; files = r.files }
  in_name (suc zero ∷ s) = record { name = []; content = []; files = [] }
  in_name (suc (suc c) ∷ s) = let r = in_name s in record r { name = c ∷ r.name }

  pub in_content : Bytes → Reading
  in_content [] = record { name = []; content = []; files = [] }
  in_content (zero ∷ s) = record { name = []; content = []; files = [] }
  in_content (suc zero ∷ s) = record { name = []; content = []; files = files_of s (in_name s) }
  in_content (suc (suc c) ∷ s) = let r = in_content s in record r { content = c ∷ r.content }

abbrev pub unpack_toy : Bytes → Option Tree
unpack_toy s = some (files_of s (in_name s))

name-read :
    (name rest : Bytes)
    → in_name (shifted name (0 ∷ rest)) ≡ record (in_content rest) { name = name }
unfolding in_name
name-read [] rest = refl
name-read (c ∷ name) rest =
    ap (λ (r : Reading). record r { name = c ∷ Reading.name r }) (name-read name rest)

content-read :
    (b rest : Bytes)
    → in_content (shifted b (1 ∷ rest))
      ≡ record { name = []; content = b; files = files_of rest (in_name rest) }
unfolding in_content
content-read [] rest = refl
content-read (c ∷ b) rest =
    ap (λ (r : Reading). record r { content = c ∷ Reading.content r }) (content-read b rest)

files_of-shifted :
    (name s : Bytes) (r : Reading)
    → files_of (shifted name (0 ∷ s)) r ≡ (r.name, r.content) ∷ r.files
files_of-shifted [] s r = refl
files_of-shifted (c ∷ name) s r = refl

pub packed : (t : Tree) → files_of (pack_toy t) (in_name (pack_toy t)) ≡ t
packed [] = refl
packed ((name, b) ∷ t) =
    let rest = shifted b (1 ∷ pack_toy t) in
    files_of-shifted name rest (in_name (pack_toy ((name, b) ∷ t)))
    ∙ ap (λ r. (Reading.name r, Reading.content r) ∷ Reading.files r)
        (name-read name rest
          ∙ ap (λ (r : Reading). record r { name = name }) (content-read b (pack_toy t)))
    ∙ ap (λ fs. (name, b) ∷ fs) (packed t)

instance abbrev pub toy_zip : Zip
toy_zip = record {
  pack = pack_toy;
  unpack = unpack_toy;
  unpack-pack = λ t. ap (λ x. some x) (packed t);
}
