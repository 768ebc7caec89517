-- ===== src/Cert/Request/Renewing.antt =====
-- What `RenewCert` promises of each of its results.
use ppanel_node.Base.{Option, none, some, true, ◌≡◌, ◌+◌, refl, ltb, Bool-cases, inl, inr}
use ppanel_node.Base.Eq.{string_eq}
use ppanel_node.Base.Map.{lookup}
use ppanel_node.Cert.Store.{
  File, Files, CertError, private_mode, secure_private_key_file, chmod_found,
}
use ppanel_node.Cert.Store.Laws.{HasPair, AreFresh, insert_key-AreFresh}
use ppanel_node.Cert.Usable.{Leaf, Loaded, usable, unusable}
use ppanel_node.Cert.Request.{
  Issuer, Target, write_some, create_cert, load, secure, Renewal, renewed, kept_as_is, not_renewed,
  as_renewal, renew_read, renewal_window, renew_secured, renew_loaded, renew_cert,
}
use ppanel_node.Cert.Request.Laws.{Provides, write_some-Provides, secure-Provides}

-- A renewed certificate is there with its key. One is kept only if it is usable, has a P-256 key and is
-- valid for more than thirty days from now, and its key is private then.
abbrev pub IsRenewal : Issuer → Target → Files → Files × Renewal → Type 0
IsRenewal i t fs (fs', renewed) = HasPair i.pki.matches fs' t.cert_path t.key_path
IsRenewal i t fs (fs', kept_as_is) =
    (leaf : Leaf) × (load i t fs ≡ usable leaf)
    × (leaf.uses_p256 ≡ true)
    × (ltb (i.now + renewal_window) leaf.not_after ≡ true)
    × HasPair i.pki.matches fs' t.cert_path t.key_path
IsRenewal i t fs (fs', not_renewed e) = Unit {0}

as_renewal-IsRenewal :
    (i : Issuer) (t : Target) (fs : Files) (r : Files × Option CertError)
    → (r.1 ≡ none → HasPair i.pki.matches r.0 t.cert_path t.key_path)
    → IsRenewal i t fs (as_renewal r)
as_renewal-IsRenewal i t fs (fs', none) provides = provides refl
as_renewal-IsRenewal i t fs (fs', some e) provides = tt

module _ (i : Issuer) (t : Target) (fs : Files)
    (fresh : AreFresh i.key_writing i.cert_writing fs t.cert_path t.key_path) where
  create_cert-IsRenewal : IsRenewal i t fs (as_renewal (create_cert i t fs))
  unfolding create_cert
  create_cert-IsRenewal =
      as_renewal-IsRenewal i t fs (create_cert i t fs)
        (write_some-Provides i t fs fresh _ (i.obtain t.sni))

  renew_read-IsRenewal :
      (fs' : Files) (c k : Option File)
      → AreFresh i.key_writing i.cert_writing fs' t.cert_path t.key_path
      → IsRenewal i t fs (renew_read i t fs' c k)
  renew_read-IsRenewal fs' none k fresh' = tt
  renew_read-IsRenewal fs' (some cert) none fresh' = tt
  renew_read-IsRenewal fs' (some cert) (some key) fresh' =
      as_renewal-IsRenewal i t fs (write_some i t fs' _ (i.renew t.sni cert.contents key.contents))
        (write_some-Provides i t fs' fresh' _ (i.renew t.sni cert.contents key.contents))

  renew_secured-IsRenewal :
      (leaf : Leaf) (r : Files × Option CertError)
      → load i t fs ≡ usable leaf
      → leaf.uses_p256 ≡ true
      → Provides i t fs fresh r
      → (r.1 ≡ none → AreFresh i.key_writing i.cert_writing r.0 t.cert_path t.key_path)
      → IsRenewal i t fs (renew_secured i t leaf r)
  renew_secured-IsRenewal leaf (fs', some e) h modern provides fresh' = tt
  renew_secured-IsRenewal leaf (fs', none) h modern provides fresh' =
      elim (Bool-cases (ltb (i.now + renewal_window) leaf.not_after)) [
        | inl long ↦ rw long (leaf, h, modern, long, provides refl)
        | inr short ↦ rw short (
            renew_read-IsRenewal fs' (lookup t.cert_path fs') (lookup t.key_path fs') (fresh' refl))
      ]

  chmod_found-AreFresh :
      (o : Option File)
      → (chmod_found fs t.key_path o).1 ≡ none
      → AreFresh i.key_writing i.cert_writing (chmod_found fs t.key_path o).0 t.cert_path t.key_path
  chmod_found-AreFresh none done = cc done
  chmod_found-AreFresh (some f) done =
      insert_key-AreFresh i.pki.matches i.key_writing i.cert_writing fs t.cert_path t.key_path fresh
        (record f { mode = private_mode })

  secure-AreFresh :
      (secure i t fs).1 ≡ none
      → AreFresh i.key_writing i.cert_writing (secure i t fs).0 t.cert_path t.key_path
  unfolding secure_private_key_file
  secure-AreFresh = elim (Bool-cases i.chmod_fails) [
    | inl bad ↦ rw bad (λ done. cc done)
    | inr good ↦ rw good (chmod_found-AreFresh (lookup t.key_path fs))
  ]

  renew_loaded-IsRenewal : (l : Loaded) → load i t fs ≡ l → IsRenewal i t fs (renew_loaded i t fs l)
  renew_loaded-IsRenewal (unusable e) h = create_cert-IsRenewal
  renew_loaded-IsRenewal (usable leaf) h = elim (Bool-cases leaf.uses_p256) [
    | inl modern ↦ rw modern (
        renew_secured-IsRenewal leaf (secure i t fs) h modern (secure-Provides i t fs fresh leaf h)
          secure-AreFresh)
    | inr old ↦ rw old create_cert-IsRenewal
  ]

  -- `RenewCert` reports a renewal only when a certificate and a key that belong together are in place,
  -- and reports that there is nothing to do only for a usable certificate with a P-256 key that is valid
  -- for more than thirty days yet. The temporary names are new and the two paths differ.
  pub renew_cert-IsRenewal : IsRenewal i t fs (renew_cert i t fs)
  unfolding renew_cert
  renew_cert-IsRenewal = renew_loaded-IsRenewal (load i t fs) refl
