-- ===== src/Panel/Format.antt =====
-- common/format/user.go: the key under which the node keeps a user of an inbound.
use Prim.Native.String.{◌++◌}
use text.Mathlib.TextLemmas.{append_cancel_left}
use ppanel_node.Base.{String, ◌≡◌, arith}
use ppanel_node.Base.Eq.{◌==◌, string_eq}

unfoldable pub user_tag : String → String → String
user_tag tag uuid = tag ++ ("|" ++ uuid)

-- Within one inbound the key determines the user.
pub user_tag-injective : (tag a b : String) → user_tag tag a ≡ user_tag tag b → a ≡ b
unfolding user_tag
user_tag-injective tag a b h =
    append_cancel_left "|" a b (append_cancel_left tag ("|" ++ a) ("|" ++ b) h)

pub user_tag-beq : (tag a b : String) → (user_tag tag a == user_tag tag b) ≡ (a == b)
user_tag-beq tag a b = ground (
  arith,
  string_eq.beq_iff (user_tag tag a) (user_tag tag b),
  string_eq.beq_iff a b,
  user_tag-injective tag a b,
)
