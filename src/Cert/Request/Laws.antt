-- ===== src/Cert/Request/Laws.antt =====
-- After a request a node has a certificate and its key; a renewal keeps or replaces them.
use ppanel_node.Base.{Option, none, some, false, ◌≡◌, ◌||◌, refl, Bool-cases, inl, inr}
use ppanel_node.Base.Eq.{◌==◌, string_eq}
use ppanel_node.Base.Text.{trim_space}
use ppanel_node.Cert.Store.{Files, CertError}
use ppanel_node.Cert.Store.Laws.{
  HasPair, AreFresh, write_certificate_pair-HasPair, secure_private_key_file-HasPair,
}
use ppanel_node.Cert.Usable.{Leaf, Loaded, usable, unusable}
use ppanel_node.Cert.Usable.Laws.{load_usable_certificate-IsLoaded}
use ppanel_node.Cert.Request.{
  Pair, Issuer, Target, write_some, file_mode, keep_or, generate_self_ssl_certificate, create_cert,
  create_with_client, request_cert, load, secure,
}

module _ (i : Issuer) (t : Target) (fs : Files)
    (fresh : AreFresh i.key_writing i.cert_writing fs t.cert_path t.key_path) where
  -- If it ends without an error, the pair is there.
  abbrev pub Provides : Files × Option CertError → Type 0
  Provides r = r.1 ≡ none → HasPair i.pki.matches r.0 t.cert_path t.key_path

  failed-Provides : (e : CertError) → Provides (fs, some e)
  failed-Provides e h = cc h

  pub write_some-Provides : (e : CertError) (o : Option Pair) → Provides (write_some i t fs e o)
  write_some-Provides e none = failed-Provides e
  write_some-Provides e (some (cert, key)) =
      write_certificate_pair-HasPair i.pki.matches i.key_writing i.cert_writing fs t.cert_path
        t.key_path fresh cert key

  pub secure-Provides : (leaf : Leaf) → load i t fs ≡ usable leaf → Provides (secure i t fs)
  secure-Provides leaf h =
      let (cert, key, at_cert, at_key, belong, _s) =
        load_usable_certificate-IsLoaded i.pki i.now t.sni fs t.cert_path t.key_path leaf h in
      secure_private_key_file-HasPair i.pki.matches i.key_writing i.cert_writing fs t.cert_path
        t.key_path fresh i.chmod_fails cert key at_cert at_key belong

  file_mode-Provides : (l : Loaded) → load i t fs ≡ l → Provides (file_mode fs l (secure i t fs))
  file_mode-Provides (usable leaf) h = secure-Provides leaf h
  file_mode-Provides (unusable e) h = failed-Provides e

  keep_or-Provides :
      (l : Loaded) (replaced : Files × Option CertError)
      → load i t fs ≡ l
      → Provides replaced
      → Provides (keep_or l (secure i t fs) replaced)
  keep_or-Provides (unusable e) replaced h provides = provides
  keep_or-Provides (usable leaf) replaced h provides = elim (Bool-cases leaf.uses_p256) [
    | inl modern ↦ rw modern (secure-Provides leaf h)
    | inr old ↦ rw old provides
  ]

  create_with_client-Provides : Provides (create_with_client i t fs)
  unfolding create_with_client create_cert
  create_with_client-Provides = elim (Bool-cases i.client) [
    | inl there ↦ rw there (write_some-Provides _ (i.obtain t.sni))
    | inr fails ↦ rw fails (failed-Provides _)
  ]

  generate_self_ssl_certificate-Provides : Provides (generate_self_ssl_certificate i t fs)
  unfolding generate_self_ssl_certificate
  generate_self_ssl_certificate-Provides = elim (Bool-cases (trim_space t.sni == "")) [
    | inl blank ↦ rw blank (failed-Provides _)
    | inr named ↦ rw named (write_some-Provides _ _)
  ]

  -- If the certificate of a node is requested without an error, in whatever mode but none, then a
  -- certificate and a key that belong together are at the paths of the node, and the key is private. The
  -- temporary names are new and the two paths differ.
  pub request_cert-HasPair :
      (trim_space t.cert_mode == "none" || trim_space t.cert_mode == "") ≡ false
      → (request_cert i t fs).1 ≡ none
      → HasPair i.pki.matches (request_cert i t fs).0 t.cert_path t.key_path
  unfolding request_cert
  request_cert-HasPair wanted =
      let mode = trim_space t.cert_mode in
      elim (Bool-cases (mode == "file")) [
        | inl a ↦ rw (wanted, a) (file_mode-Provides (load i t fs) refl)
        | inr a ↦ elim (Bool-cases (mode == "dns" || mode == "http")) [
          | inl b ↦
              rw (wanted, a, b) (keep_or-Provides (load i t fs) _ refl create_with_client-Provides)
          | inr b ↦ elim (Bool-cases (mode == "self")) [
            | inl c ↦
                rw (wanted, a, b, c)
                  (keep_or-Provides (load i t fs) _ refl generate_self_ssl_certificate-Provides)
            | inr c ↦ rw (wanted, a, b, c) (failed-Provides _)
          ]
        ]
      ]
