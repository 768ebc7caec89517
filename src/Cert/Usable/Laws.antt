-- ===== src/Cert/Usable/Laws.antt =====
-- What it means that a certificate is found usable.
use ppanel_node.Base.{
  ℕ, String, Option, none, some, List, [], ◌∷◌, Bool, true, false, ◌≡◌, refl, ltb, Bool-cases, inl,
  inr,
}
use mathlib.Core.Path.{subst}
use ppanel_node.Base.Eq.{string_eq}
use ppanel_node.Base.Map.{lookup}
use ppanel_node.Base.Text.{trim_space}
use ppanel_node.Cert.Store.{File, Files, bad_pair}
use ppanel_node.Cert.Usable.{
  Leaf, Pki, usable, unusable, serves, names, checked, check_leaf, parsed, first_of_chain,
  load_pair, load_usable_certificate, Serves,
}

checked_usable :
    (a b c d n : Bool) (leaf found : Leaf)
    → checked a b c d n leaf ≡ usable found
    → (a ≡ false) × (b ≡ true) × (c ≡ false) × (d ≡ true) × (n ≡ true) × (leaf ≡ found)
checked_usable true b c d n leaf found h = cc h
checked_usable false false c d n leaf found h = cc h
checked_usable false true true d n leaf found h = cc h
checked_usable false true false false n leaf found h = cc h
checked_usable false true false true false leaf found h = cc h
checked_usable false true false true true leaf found h =
    let same : leaf ≡ found = cc h in (refl, refl, refl, refl, refl, same)

module _ (p : Pki) (now : ℕ) (name : String) where
  check_leaf-Serves :
      (leaf found : Leaf) → check_leaf p now name leaf ≡ usable found → Serves p now name found
  check_leaf-Serves leaf found h =
      let (a, b, c, d, n, same) =
        checked_usable leaf.is_ca (serves leaf.ext_key_usage) (ltb now leaf.not_before)
          (ltb now leaf.not_after) (names p leaf (trim_space name)) leaf found h in
      let all : Serves p now name leaf = record {
        no_ca = a;
        for_servers = b;
        has_begun = c;
        is_current = d;
        is_named = n;
      } in
      subst (Serves p now name) same all

  first_of_chain-Serves :
      (chain : List (List ℕ)) (found : Leaf)
      → first_of_chain p now name chain ≡ usable found
      → Serves p now name found
  first_of_chain-Serves [] found h = cc h
  first_of_chain-Serves (der ∷ chain) found h = parsed-Serves (p.parse_certificate der) found h
    where
      parsed-Serves :
          (o : Option Leaf) (found : Leaf)
          → parsed p now name o ≡ usable found
          → Serves p now name found
      parsed-Serves none found h = cc h
      parsed-Serves (some leaf) found h = check_leaf-Serves leaf found h

  -- The pair that was loaded.
  abbrev pub IsLoaded : Option File → Option File → Leaf → Type 0
  IsLoaded c k leaf =
      (cert : File) × (key : File) × (c ≡ some cert)
      × (k ≡ some key)
      × (p.matches cert.contents key.contents ≡ true)
      × Serves p now name leaf

  load_pair-IsLoaded :
      (c k : Option File) (leaf : Leaf) → load_pair p now name c k ≡ usable leaf → IsLoaded c k leaf
  load_pair-IsLoaded none k leaf h = cc h
  load_pair-IsLoaded (some cert) none leaf h = cc h
  load_pair-IsLoaded (some cert) (some key) leaf h =
      elim (Bool-cases (p.matches cert.contents key.contents)) [
        | inl belong ↦
            let h' : first_of_chain p now name (p.chain cert.contents) ≡ usable leaf =
              rw belong at h in
            (cert, key, refl, refl, belong, first_of_chain-Serves (p.chain cert.contents) leaf h')
        | inr apart ↦ let clash : unusable bad_pair ≡ usable leaf = rw apart at h in cc clash
      ]

  -- A certificate is found usable only if its file and that of its key are there and belong together,
  -- and it serves for the name at the time.
  pub load_usable_certificate-IsLoaded :
      (fs : Files) (cert_path key_path : String) (leaf : Leaf)
      → load_usable_certificate p now fs cert_path key_path name ≡ usable leaf
      → IsLoaded (lookup cert_path fs) (lookup key_path fs) leaf
  unfolding load_usable_certificate
  load_usable_certificate-IsLoaded fs cert_path key_path leaf h =
      load_pair-IsLoaded (lookup cert_path fs) (lookup key_path fs) leaf h
