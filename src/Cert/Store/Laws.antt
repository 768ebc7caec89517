-- ===== src/Cert/Store/Laws.antt =====
-- A file is replaced as a whole or not at all, and a pair that is written is there.
use ppanel_node.Base.{
  ℕ, String, Option, none, some, List, Bool, true, false, if◌then◌else◌, ◌≡◌, refl, inl, inr,
  Bool-cases, ◌∙◌, ap,
}
use mathlib.Core.Path.{subst}
use ppanel_node.Base.Eq.{string_eq, ◌==◌, beq_refl}
use ppanel_node.Base.Map.{lookup, insert, delete, lookup-insert, lookup-delete, lookup-insert_self}
use ppanel_node.Cert.Store.{
  File, Files, CertError, bad_pair, Writing, private_mode, public_mode, write_temporary, move_in,
  clean_up, write_file_atomically, then_certificate, write_certificate_pair,
  secure_private_key_file,
}

-- After success the file is at its path and everything else is as it was, no temporary file included;
-- after an error everything is as it was.
abbrev pub IsAllOrNothing : Files → String → File → Files × Option CertError → Type 0
IsAllOrNothing fs path f (fs', none) =
    (k : String) → lookup k fs' ≡ (if path == k then some f else lookup k fs)
IsAllOrNothing fs path f (fs', some e) = (k : String) → lookup k fs' ≡ lookup k fs

forgotten :
    (fs : Files) (tmp k : String) (f : File)
    → lookup tmp fs ≡ none
    → lookup k (delete tmp (insert tmp f fs)) ≡ lookup k fs
forgotten fs tmp k f new = elim (Bool-cases (tmp == k)) [
  | inl same ↦
      let e : tmp ≡ k = (string_eq.beq_iff tmp k).0 same in
      let new' : lookup k fs ≡ none = rw e at new in
      lookup-delete tmp k (insert tmp f fs) ∙ (rw (same, new') refl)
  | inr other ↦
      lookup-delete tmp k (insert tmp f fs)
      ∙ (rw other (lookup-insert tmp k f fs ∙ (rw other refl)))
]

module _ (x : Writing) (fs : Files) (path : String) (new : lookup x.temporary fs ≡ none) where
  move_in-IsAllOrNothing :
      (f : File) (o : Option CertError)
      → IsAllOrNothing fs path f (clean_up x (move_in x fs path (f, o)))
  move_in-IsAllOrNothing f (some e) = λ k. forgotten fs x.temporary k f new
  move_in-IsAllOrNothing f none = elim (Bool-cases x.rename_fails) [
    | inl bad ↦ rw bad (λ k. forgotten fs x.temporary k f new)
    | inr good ↦ rw good (λ k.
        lookup-insert path k f (delete x.temporary (insert x.temporary f fs))
        ∙ (rw (forgotten fs x.temporary k f new) refl))
  ]

  write_temporary-IsAllOrNothing :
      (bytes : List ℕ) (mode : ℕ)
      → IsAllOrNothing fs path
          (record { contents = bytes; mode = mode })
          (clean_up x (move_in x fs path (write_temporary x bytes mode)))
  unfolding write_temporary
  write_temporary-IsAllOrNothing bytes mode = elim (Bool-cases x.chmod_fails) [
    | inl bad ↦ rw bad (λ k. forgotten fs x.temporary k _ new)
    | inr a ↦ elim (Bool-cases x.write_fails) [
      | inl bad ↦ rw (a, bad) (λ k. forgotten fs x.temporary k _ new)
      | inr b ↦ elim (Bool-cases x.sync_fails) [
        | inl bad ↦ rw (a, b, bad) (λ k. forgotten fs x.temporary k _ new)
        | inr c ↦ elim (Bool-cases x.close_fails) [
          | inl bad ↦ rw (a, b, c, bad) (λ k. forgotten fs x.temporary k _ new)
          | inr d ↦
              rw (a, b, c, d)
                (move_in-IsAllOrNothing (record { contents = bytes; mode = mode }) none)
        ]
      ]
    ]
  ]

  -- `writeFileAtomically` under a new temporary name replaces the file as a whole, with its mode, or,
  -- whatever call fails but the removal of the temporary file, changes nothing and leaves no temporary
  -- file behind.
  pub write_file_atomically-IsAllOrNothing :
      (bytes : List ℕ) (mode : ℕ)
      → IsAllOrNothing fs path
          (record { contents = bytes; mode = mode })
          (write_file_atomically x fs path bytes mode)
  unfolding write_file_atomically
  write_file_atomically-IsAllOrNothing bytes mode = elim (Bool-cases x.mkdir_fails) [
    | inl bad ↦ rw bad (λ k. refl)
    | inr a ↦ elim (Bool-cases x.create_fails) [
      | inl bad ↦ rw (a, bad) (λ k. refl)
      | inr b ↦ rw (a, b) (write_temporary-IsAllOrNothing bytes mode)
    ]
  ]

-- The files at the two paths belong together, and only the owner reads the key.
abbrev pub HasPair : (List ℕ → List ℕ → Bool) → Files → String → String → Type 0
HasPair matches fs cert_path key_path =
    (cert : File) × (key : File) × (lookup cert_path fs ≡ some cert)
    × (lookup key_path fs ≡ some key)
    × (matches cert.contents key.contents ≡ true)
    × (key.mode ≡ private_mode)

-- The temporary names are new, and the paths differ.
pub record AreFresh (x y : Writing) (fs : Files) (cert_path key_path : String) : Type 0 where
  pub first_is_new : lookup x.temporary fs ≡ none
  pub second_is_new : lookup y.temporary fs ≡ none
  pub first_is_no_key : (key_path == x.temporary) ≡ false
  pub second_is_no_key : (key_path == y.temporary) ≡ false
  pub paths_differ : (cert_path == key_path) ≡ false
  pub differ_paths : (key_path == cert_path) ≡ false

module _ (matches : List ℕ → List ℕ → Bool) (x y : Writing) (fs : Files)
    (cert_path key_path : String) (fresh : AreFresh x y fs cert_path key_path) where
  certificate-HasPair :
      (cert key : List ℕ) (r r' : Files × Option CertError)
      → matches cert key ≡ true
      → IsAllOrNothing fs key_path (record { contents = key; mode = private_mode }) r
      → then_certificate y cert_path cert r ≡ r'
      → r'.1 ≡ none
      → HasPair matches r'.0 cert_path key_path
  certificate-HasPair cert key (fs1, some e) r' belong h eq done =
      let clash : some e ≡ none = ap (λ (q : Files × Option CertError). q.1) eq ∙ done in cc clash
  certificate-HasPair cert key (fs1, none) (fs2, some e) belong h eq done = cc done
  certificate-HasPair cert key (fs1, none) (fs2, none) belong h eq done =
      let new : lookup y.temporary fs1 ≡ none =
        h y.temporary ∙ (rw (fresh.second_is_no_key, fresh.second_is_new) refl) in
      let written : IsAllOrNothing fs1 cert_path (record { contents = cert; mode = public_mode })
          (fs2, none) =
        subst (IsAllOrNothing fs1 cert_path (record { contents = cert; mode = public_mode })) eq
          (write_file_atomically-IsAllOrNothing y fs1 cert_path new cert public_mode) in
      (
        record { contents = cert; mode = public_mode },
        record { contents = key; mode = private_mode },
        written cert_path ∙ (rw (beq_refl cert_path) refl),
        written key_path ∙ (rw fresh.paths_differ (h key_path ∙ (rw (beq_refl key_path) refl))),
        belong,
        refl,
      )

  -- A pair that is written without an error belongs together and is at its paths.
  pub write_certificate_pair-HasPair :
      (cert key : List ℕ)
      → (write_certificate_pair matches x y fs cert_path key_path cert key).1 ≡ none
      → HasPair matches
          (write_certificate_pair matches x y fs cert_path key_path cert key).0
          cert_path
          key_path
  unfolding write_certificate_pair
  write_certificate_pair-HasPair cert key done = elim (Bool-cases (matches cert key)) [
    | inl belong ↦
        let step : (then_certificate y cert_path cert
              (write_file_atomically x fs key_path key private_mode)).1
            ≡ none =
          rw belong at done in
        rw belong (
          certificate-HasPair cert key (write_file_atomically x fs key_path key private_mode) _
            belong
            (write_file_atomically-IsAllOrNothing x fs key_path fresh.first_is_new key private_mode)
            refl step)
    | inr apart ↦ let clash : some bad_pair ≡ none = rw apart at done in cc clash
  ]

  -- Securing the key of a pair keeps the pair.
  pub secure_private_key_file-HasPair :
      (chmod_fails : Bool) (cert key : File)
      → lookup cert_path fs ≡ some cert
      → lookup key_path fs ≡ some key
      → matches cert.contents key.contents ≡ true
      → (secure_private_key_file chmod_fails fs key_path).1 ≡ none
      → HasPair matches (secure_private_key_file chmod_fails fs key_path).0 cert_path key_path
  unfolding secure_private_key_file
  secure_private_key_file-HasPair true cert key at_cert at_key belong done = cc done
  secure_private_key_file-HasPair false cert key at_cert at_key belong done = rw at_key (
    cert,
    record key { mode = private_mode },
    lookup-insert key_path cert_path _ fs ∙ (rw fresh.differ_paths at_cert),
    lookup-insert_self key_path _ fs,
    belong,
    refl,
  )

  -- The names are as new after the key is secured.
  pub insert_key-AreFresh : (key : File) → AreFresh x y (insert key_path key fs) cert_path key_path
  insert_key-AreFresh key = record {
    first_is_new =
        lookup-insert key_path x.temporary key fs
        ∙ (rw (fresh.first_is_no_key, fresh.first_is_new) refl);
    second_is_new =
        lookup-insert key_path y.temporary key fs
        ∙ (rw (fresh.second_is_no_key, fresh.second_is_new) refl);
    first_is_no_key = fresh.first_is_no_key;
    second_is_no_key = fresh.second_is_no_key;
    paths_differ = fresh.paths_differ;
    differ_paths = fresh.differ_paths;
  }
