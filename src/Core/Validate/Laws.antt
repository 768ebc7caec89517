-- ===== src/Core/Validate/Laws.antt =====
-- What a configuration that core/validate.go accepts is good for.
use ppanel_node.Base.{
  ℕ, suc, ◌≤◌, ◌≡◌, refl, Option, none, some, List, [], ◌∷◌, Bool, true, false, ◌||◌, arith, All,
  Option-cases, Bool-cases, inl, inr,
}
use ppanel_node.Base.Eq.{◌==◌, string_eq}
use ppanel_node.Base.Int.{ℤ, pos, negsuc}
use ppanel_node.Panel.Protocol.{Protocol, is_supported_protocol}
use ppanel_node.Core.Validate.{
  Problem, Check, and_then, require, validate_protocol, validate_protocols, validate_kind,
  validate_stream_protocol, validate_security, is_transport, config, valid, server_check,
  validate_server_config,
}

-- Of a protocol that is enabled and of a type that the node runs.
abbrev pub IsUsed : Protocol → Type 0
IsUsed p = (p.enable ≡ true) × (is_supported_protocol p.kind ≡ true)

accepted :
    (i : ℕ) (ps : List Protocol)
    → validate_protocols i ps ≡ none
    → All (λ (p : Protocol). IsUsed p → validate_protocol p ≡ none) ps
unfolding validate_protocols
accepted i [] e = tt
accepted i (p ∷ ps) e = elim (Bool-cases (is_supported_protocol p.kind)) [
  | inr other ↦ (λ used. cc (used.1, other), accepted (suc i) ps (rw other at e))
  | inl supported ↦ elim (Option-cases (validate_protocol p)) [
    | inr (problem, bad) ↦ cc (rw (supported, bad) at e)
    | inl good ↦ (λ used. good, accepted (suc i) ps (rw (supported, good) at e))
  ]
]

port_in_range :
    (p : Protocol)
    → p.enable ≡ true
    → validate_protocol p ≡ none
    → (n : ℕ) × (p.port ≡ pos n) × (1 ≤ n) × (n ≤ 65535)
unfolding validate_protocol
port_in_range p on e = go p.port refl
  where
    go : (port : ℤ) → p.port ≡ port → (n : ℕ) × (p.port ≡ pos n) × (1 ≤ n) × (n ≤ 65535)
    go (pos n) at = (n, at, ground arith, ground arith)
    go (negsuc n) at = absurd (ground arith)

-- In a server configuration that is accepted every protocol that is enabled and of a supported type
-- has a port from 1 to 65535.
pub validate_server_config-port :
    (ps : List Protocol)
    → validate_server_config (config ps) ≡ valid
    → All (λ (p : Protocol). IsUsed p → (n : ℕ) × (p.port ≡ pos n) × (1 ≤ n) × (n ≤ 65535)) ps
unfolding validate_server_config
validate_server_config-port ps e = ports ps (accepted 0 ps (none_of (validate_protocols 0 ps) e))
  where
    none_of : (r : Option (ℕ × Problem)) → server_check r ≡ valid → r ≡ none
    none_of none h = refl
    none_of (some (i, problem)) h = cc

    ports :
        (qs : List Protocol)
        → All (λ (p : Protocol). IsUsed p → validate_protocol p ≡ none) qs
        → All (λ (p : Protocol). IsUsed p → (n : ℕ) × (p.port ≡ pos n) × (1 ≤ n) × (n ≤ 65535)) qs
    ports [] a = tt
    ports (q ∷ qs) (good, a) = (λ used. port_in_range q used.0 (good used), ports qs a)

and_then-none : (a b : Check) → and_then a b ≡ none → (a ≡ none) × (b ≡ none)
and_then-none none b h = (refl, h)
and_then-none (some problem) b h = cc

require-none : (b : Bool) (problem : Problem) → require b problem ≡ none → b ≡ true
require-none true problem h = refl
require-none false problem h = cc

security_known :
    (p : Protocol)
    → validate_security p ≡ none
    → (p.security == "" || p.security == "none" || p.security == "tls" || p.security == "reality")
      ≡ true
unfolding validate_security
security_known p h = elim (Bool-cases (p.security == "" || p.security == "none")) [
  | inl plain ↦ ground arith
  | inr other ↦ elim (Bool-cases (p.security == "tls")) [
    | inl tls ↦ rw tls (ground arith)
    | inr more ↦ elim (Bool-cases (p.security == "reality")) [
      | inl reality ↦ rw reality (ground arith)
      | inr unknown ↦ cc (rw (other, more, unknown) at h)
    ]
  ]
]

stream_known :
    (p : Protocol)
    → validate_stream_protocol p ≡ none
    → (is_transport p.transport ≡ true) × (validate_security p ≡ none)
unfolding validate_stream_protocol
stream_known p h =
    let (present, rest) = and_then-none _ _ h in
    let (known, rest') = and_then-none _ _ rest in
    (require-none _ _ known, (and_then-none _ _ rest').0)

enabled_kind :
    (p : Protocol) → p.enable ≡ true → validate_protocol p ≡ none → validate_kind p ≡ none
unfolding validate_protocol
enabled_kind p on h =
    let (typed, rest) = and_then-none _ _ (rw on at h) in (and_then-none _ _ rest).1

-- An accepted, enabled stream protocol has a transport that the node builds, and its security is
-- none, TLS or REALITY.
pub validate_protocol-stream :
    (p : Protocol)
    → p.enable ≡ true
    → (p.kind == "vless" || (p.kind == "vmess" || p.kind == "trojan")) ≡ true
    → validate_protocol p ≡ none
    → (is_transport p.transport ≡ true)
      × ((p.security == ""
            || p.security == "none"
            || p.security == "tls"
            || p.security == "reality")
          ≡ true)
unfolding validate_kind
validate_protocol-stream p on stream h =
    let (transport, security) = stream_known p (rw stream at (enabled_kind p on h)) in
    (transport, security_known p security)
