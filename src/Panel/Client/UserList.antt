-- ===== src/Panel/Client/UserList.antt =====
-- Which lists of users are taken.
use ppanel_node.Base.{
  Option, none, some, List, Bool, true, false, if◌then◌else◌, leb, nat_beq, nat_beq_iff, ◌≡◌, refl,
  inl, inr, Bool-cases,
}
use ppanel_node.Base.Eq.{string_eq}
use ppanel_node.Base.Int.{int_eq}
use ppanel_node.Panel.Types.{UserInfo}
use ppanel_node.Panel.Client.{
  Response, Exchange, Codec, request_failed, undecodable, Fetched, fetched, failed, or_failed,
  NodeClient, take_users, json_user_list, proto_user_list, proto_users_of, get_user_list,
}

-- The answer to a request for users: nil is 304 alone, and the ETag is that of the list taken.
abbrev pub IsUserList :
    NodeClient → Option Response → NodeClient → Fetched (Option (List UserInfo)) → Type 0
IsUserList client none client' (fetched o) = ⊥
IsUserList client (some r) client' (fetched none) = (r.status ≡ 304) × (client' ≡ client)
IsUserList client (some r) client' (fetched (some users)) =
    (client' ≡ record client { user_etag = r.etag }) × (leb 400 r.status ≡ false)
IsUserList client o client' (failed e) = client' ≡ client

failed-IsUserList :
    (client : NodeClient) (o : Option Response) → IsUserList client o client (failed request_failed)
failed-IsUserList client none = refl
failed-IsUserList client (some r) = refl

take_users-IsUserList :
    (client : NodeClient) (r : Response) (users : Fetched (List UserInfo))
    → leb 400 r.status ≡ false
    → IsUserList client (some r) (take_users client r users).0 (take_users client r users).1
take_users-IsUserList client r (failed e) good = refl
take_users-IsUserList client r (fetched users) good = (refl, good)

json_user_list-IsUserList :
    (c : Codec) (client : NodeClient) (bad : Bool) (o : Option Response)
    → IsUserList client o (json_user_list c client bad o).0 (json_user_list c client bad o).1
json_user_list-IsUserList c client bad none = refl
json_user_list-IsUserList c client bad (some r) = elim (Bool-cases (nat_beq r.status 304)) [
  | inl unchanged ↦ rw unchanged ((nat_beq_iff r.status 304).0 unchanged, refl)
  | inr other ↦ elim (Bool-cases bad) [
    | inl fails ↦ rw (other, fails) refl
    | inr works ↦ elim (Bool-cases (leb 400 r.status)) [
      | inl error ↦ rw (other, works, error) refl
      | inr good ↦
          rw (other, works, good)
            (take_users-IsUserList client r (or_failed (c.json_users r.body) undecodable) good)
    ]
  ]
]

proto_users_of-IsUserList :
    (c : Codec) (client : NodeClient) (o : Option Response)
    → IsUserList client o (proto_users_of c client o).0 (proto_users_of c client o).1
proto_users_of-IsUserList c client none = refl
proto_users_of-IsUserList c client (some r) = elim (Bool-cases (leb 400 r.status)) [
  | inl error ↦ rw error refl
  | inr good ↦ elim (Bool-cases (nat_beq r.status 304)) [
    | inl unchanged ↦ rw (good, unchanged) ((nat_beq_iff r.status 304).0 unchanged, refl)
    | inr other ↦ rw (good, other) (take_users-IsUserList client r (proto_user_list c r.body) good)
  ]
]

either-IsUserList :
    (client : NodeClient) (o : Option Response) (b : Bool)
    (u v : NodeClient × Fetched (Option (List UserInfo)))
    → IsUserList client o u.0 u.1
    → IsUserList client o v.0 v.1
    → IsUserList client o (if b then u else v).0 (if b then u else v).1
either-IsUserList client o true u v h k = h
either-IsUserList client o false u v h k = k

-- `GetUserList` gives nil for a response of status 304 alone, so an empty list, which removes all users,
-- is never mistaken for no change; and in both encodings the ETag that is sent next belongs to the list
-- that was taken last, whatever errors come between.
pub get_user_list-IsUserList :
    (c : Codec) (client : NodeClient) (x : Exchange)
    → IsUserList client x.response (get_user_list c client x).0 (get_user_list c client x).1
unfolding get_user_list
get_user_list-IsUserList c client x =
    either-IsUserList client x.response client.use_protobuf
      (if x.failed then (client, failed request_failed) else proto_users_of c client x.response)
      (json_user_list c client x.failed x.response)
      (either-IsUserList client x.response x.failed (client, failed request_failed)
        (proto_users_of c client x.response) (failed-IsUserList client x.response)
        (proto_users_of-IsUserList c client x.response))
      (json_user_list-IsUserList c client x.failed x.response)
