-- ===== src/Inbound/Laws.antt =====
-- Where an inbound looks for its certificate, and where the node puts it.
use ppanel_node.Base.{String, true, false, ◌≡◌, ◌≢◌, refl, ap, sym, ◌∙◌}
use ppanel_node.Base.Text.{has_prefix}
use ppanel_node.Panel.Protocol.{NodeInfo}
use ppanel_node.Cert.Request.{certificate_paths}
use ppanel_node.Inbound.{apply_tls_settings}
use text.Mathlib.TextLemmas.{cons-append}
use Prim.Native.String.{◌++◌}

capital : (s : String) → has_prefix ("/etc/PPanel-node/" ++ s) "/etc/P" ≡ true
unfolding has_prefix
capital s = rw (cons-append, cons-append, cons-append, cons-append, cons-append, cons-append) refl

small : (s t : String) → has_prefix (("/etc/ppanel-node/" ++ s) ++ t) "/etc/P" ≡ false
unfolding has_prefix
small s t =
    rw
      (
        cons-append, cons-append, cons-append, cons-append, cons-append, cons-append, cons-append,
        cons-append, cons-append, cons-append, cons-append, cons-append,
      )
      refl

-- The files that the TLS settings of an inbound name are never those that the node's certificate and
-- key are written to: the directories differ in the case of a letter.
pub apply_tls_settings_elsewhere :
    (info : NodeInfo)
    → ((apply_tls_settings info).cert_file ≢ (certificate_paths info).0)
      × ((apply_tls_settings info).key_file ≢ (certificate_paths info).1)
unfolding apply_tls_settings certificate_paths
apply_tls_settings_elsewhere info = (
  λ same.
      let clash : true ≡ false =
        sym (capital _) ∙ (ap (λ s. has_prefix s "/etc/P") same ∙ small _ _) in
      cc clash,
  λ same.
      let clash : true ≡ false =
        sym (capital _) ∙ (ap (λ s. has_prefix s "/etc/P") same ∙ small _ _) in
      cc clash,
)
