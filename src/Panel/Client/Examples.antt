-- ===== src/Panel/Client/Examples.antt =====
-- Answers of a panel: a configuration in JSON, and lists of users.
use ppanel_node.Base.{ℕ, ◌≡◌, String, none, some, List, [], ◌∷◌, true, false, refl}
use ppanel_node.Base.Int.{pos}
use ppanel_node.Panel.Client.{
  Exchange, ServerConfigResponse, Codec, fetched, ServerClient, get_server_config, NodeClient,
  get_user_list, read_config, check_config, check_panel_envelope,
}
use ppanel_node.Panel.Client.Laws.{IsTaken, get_server_config-IsTaken}
use ppanel_node.Panel.Client.UserList.{IsUserList, get_user_list-IsUserList}

abbrev config : ServerConfigResponse
config = record {
  code = pos 200;
  msg = "ok";
  config = some (record {
    traffic_report_threshold = pos 0;
    push_interval = pos 60;
    pull_interval = pos 60;
    target_version = "";
    protocols = some [];
  });
  use_protobuf = false;
}

hash : List ℕ → String
hash [] = "empty"
hash (b ∷ body) = "some"

abbrev codec : Codec
codec = record {
  json_envelope = λ body. some (pos 0, "");
  proto_result = λ body. none;
  json_config = λ body. some config;
  proto_config = λ body. none;
  json_users = λ body. some [];
  proto_users = λ body. none;
  sha256 = hash;
}

abbrev exchange : Exchange
exchange = record {
  response = some (record { status = 200; is_protobuf = false; etag = "v2"; body = 123 ∷ [] });
  failed = false;
}

abbrev client : ServerClient
client = record { server_config_etag = "v1"; response_body_hash = "other"; use_protobuf = true }

-- The configuration is taken, and the client remembers it.
taken : get_server_config codec client exchange ≡ (
  record { server_config_etag = "v2"; response_body_hash = "some"; use_protobuf = false },
  fetched (some config),
)
unfolding get_server_config read_config check_config check_panel_envelope hash
taken = refl

get_server_config-IsTaken_example :
    IsTaken codec client exchange
      (get_server_config codec client exchange).0
      (get_server_config codec client exchange).1
get_server_config-IsTaken_example = get_server_config-IsTaken codec client exchange

abbrev node_client : NodeClient
node_client = record {
  node_type = "vless";
  use_protobuf = false;
  user_etag = "a";
  certificate_sha256 = none;
}

-- An empty list is not the nil of "not modified".
all_removed : (get_user_list codec node_client exchange).1 ≡ fetched (some [])
unfolding get_user_list
all_removed = refl

get_user_list-IsUserList_example :
    IsUserList node_client exchange.response
      (get_user_list codec node_client exchange).0
      (get_user_list codec node_client exchange).1
get_user_list-IsUserList_example = get_user_list-IsUserList codec node_client exchange
