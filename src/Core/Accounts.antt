-- ===== src/Core/Accounts.antt =====
-- core/user.go: the xray users that are built from the panel's users, protocol by protocol. The bytes
-- of a text are its UTF-8.
pub mod Emails
use Prim.Native.Char.{code}
use ppanel_node.Base.{
  ℕ, ◌+◌, ◌-◌, ◌*◌, ◌/◌, ◌%◌, String, Option, none, some, List, [], ◌∷◌, ◌++◌, Bool, true, false,
  ◌||◌, if◌then◌else◌, ltb, length, take,
}
use ppanel_node.Base.Eq.{◌==◌, string_eq}
use ppanel_node.Base.Text.{contains, to_lower}
use ppanel_node.Panel.Types.{UserInfo}
use ppanel_node.Panel.Format.{user_tag}

pub data CipherType : Type 0 where
  aes_128_gcm aes_256_gcm chacha20_poly1305 xchacha20_poly1305 unknown_cipher : CipherType

-- The account messages of xray-core, by the fields that are set; the key of Shadowsocks 2022 is the
-- ASCII of its base64.
pub data Account : Type 0 where
  vmess : (uuid security : String) → Account
  vless : (uuid flow : String) → Account
  trojan : (password : String) → Account
  shadowsocks : (password : String) (cipher : CipherType) → Account
  shadowsocks_2022 : (key : List ℕ) → Account
  hysteria : (auth : String) → Account
  tuic : (uuid password : String) → Account
  anytls : (password : String) → Account

pub record ProtocolUser : Type 0 where
  pub level : ℕ
  pub email : String
  pub account : Account

abbrev utf8 : ℕ → List ℕ
utf8 n =
    if ltb n 128
    then n ∷ []
    else if ltb n 2048
    then (192 + n / 64) ∷ (128 + n % 64) ∷ []
    else if ltb n 65536
    then (224 + n / 4096) ∷ (128 + n / 64 % 64) ∷ (128 + n % 64) ∷ []
    else (240 + n / 262144) ∷ (128 + n / 4096 % 64) ∷ (128 + n / 64 % 64) ∷ (128 + n % 64) ∷ []

unfoldable pub bytes_of : String → List ℕ
bytes_of String.[] = []
bytes_of (String.◌∷◌ c s) = utf8 (code c) ++ bytes_of s

-- The letters, digits, plus and slash of standard base64.
abbrev base64_digit : ℕ → ℕ
base64_digit n =
    if ltb n 26
    then 65 + n
    else if ltb n 52
    then 71 + n
    else if ltb n 62
    then n - 4
    else if ltb n 63
    then 43
    else 47

-- `base64.StdEncoding.EncodeToString`; 61 is the padding.
unfoldable pub base64 : List ℕ → List ℕ
base64 [] = []
base64 (a ∷ []) = base64_digit (a / 4) ∷ base64_digit (a % 4 * 16) ∷ 61 ∷ 61 ∷ []
base64 (a ∷ b ∷ []) =
    base64_digit (a / 4) ∷ base64_digit (a % 4 * 16 + b / 16) ∷ base64_digit (b % 16 * 4) ∷ 61 ∷ []
base64 (a ∷ b ∷ c ∷ rest) =
    base64_digit (a / 4)
    ∷ base64_digit (a % 4 * 16 + b / 16)
    ∷ base64_digit (b % 16 * 4 + c / 64)
    ∷ base64_digit (c % 64)
    ∷ base64 rest

unfoldable pub get_cipher_from_string : String → CipherType
get_cipher_from_string c =
    let lower = to_lower c in
    if lower == "aes-128-gcm" || lower == "aead_aes_128_gcm"
    then CipherType.aes_128_gcm
    else if lower == "aes-256-gcm" || lower == "aead_aes_256_gcm"
    then CipherType.aes_256_gcm
    else if lower == "chacha20-poly1305"
        || (lower == "aead_chacha20_poly1305" || lower == "chacha20-ietf-poly1305")
    then CipherType.chacha20_poly1305
    else if lower == "xchacha20-poly1305"
        || (lower == "aead_xchacha20_poly1305" || lower == "xchacha20-ietf-poly1305")
    then CipherType.xchacha20_poly1305
    else CipherType.unknown_cipher

unfoldable pub key_length : String → ℕ
key_length cipher =
    if cipher == "2022-blake3-aes-128-gcm"
    then 16
    else if cipher == "2022-blake3-aes-256-gcm"
    then 32
    else if cipher == "2022-blake3-chacha20-poly1305"
    then 32
    else 0

abbrev pub user_of : String → UserInfo → Account → ProtocolUser
user_of tag u account = record { level = 0; email = user_tag tag u.uuid; account = account }

unfoldable pub build_vmess_user : String → UserInfo → ProtocolUser
build_vmess_user tag u = user_of tag u (vmess u.uuid "auto")

unfoldable pub build_vless_user : String → UserInfo → String → ProtocolUser
build_vless_user tag u flow = user_of tag u (vless u.uuid (if flow == "none" then "" else flow))

unfoldable pub build_trojan_user : String → UserInfo → ProtocolUser
build_trojan_user tag u = user_of tag u (trojan u.uuid)

-- `none` is the panic of a slice `Uuid[:keyLength]` beyond the end of the uuid.
unfoldable pub build_ss_user : String → UserInfo → String → String → Option ProtocolUser
unfolding key_length get_cipher_from_string bytes_of base64
build_ss_user tag u cypher server_key =
    if contains cypher "2022"
    then (if ltb (length (bytes_of u.uuid)) (key_length cypher)
        then none
        else some (
            user_of tag u (shadowsocks_2022 (base64 (take (key_length cypher) (bytes_of u.uuid))))))
    else some (user_of tag u (shadowsocks u.uuid (get_cipher_from_string cypher)))

unfoldable pub build_hysteria2_user : String → UserInfo → ProtocolUser
build_hysteria2_user tag u = user_of tag u (hysteria u.uuid)

unfoldable pub build_tuic_user : String → UserInfo → ProtocolUser
build_tuic_user tag u = user_of tag u (tuic u.uuid u.uuid)

unfoldable pub build_any_tls_user : String → UserInfo → ProtocolUser
build_any_tls_user tag u = user_of tag u (anytls u.uuid)

-- The loop that all the builders of a list share.
unfoldable pub build_each :
    (UserInfo → Option ProtocolUser) → List UserInfo → Option (List ProtocolUser)
build_each build [] = some []
build_each build (u ∷ us) = prepend (build u) (build_each build us)
  where
    prepend : Option ProtocolUser → Option (List ProtocolUser) → Option (List ProtocolUser)
    prepend none more = none
    prepend (some p) none = none
    prepend (some p) (some more) = some (p ∷ more)

-- The users of a node type, a panic, or an unsupported type.
pub data Built : Type 0 where
  unsupported panicked : Built
  built : List ProtocolUser → Built

abbrev or_panic : Option (List ProtocolUser) → Built
or_panic none = panicked
or_panic (some us) = built us

unfoldable pub build_users : String → String → String → String → String → List UserInfo → Built
unfolding build_each build_vmess_user build_vless_user build_trojan_user build_ss_user
    build_hysteria2_user build_tuic_user build_any_tls_user
build_users kind flow cipher server_key tag users =
    if kind == "vmess"
    then or_panic (build_each (λ u. some (build_vmess_user tag u)) users)
    else if kind == "vless"
    then or_panic (build_each (λ u. some (build_vless_user tag u flow)) users)
    else if kind == "trojan"
    then or_panic (build_each (λ u. some (build_trojan_user tag u)) users)
    else if kind == "shadowsocks"
    then or_panic (build_each (λ u. build_ss_user tag u cipher server_key) users)
    else if kind == "hysteria2" || kind == "hysteria"
    then or_panic (build_each (λ u. some (build_hysteria2_user tag u)) users)
    else if kind == "tuic"
    then or_panic (build_each (λ u. some (build_tuic_user tag u)) users)
    else if kind == "anytls"
    then or_panic (build_each (λ u. some (build_any_tls_user tag u)) users)
    else unsupported
