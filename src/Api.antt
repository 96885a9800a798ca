-- ===== src/Api.antt =====
-- api/merch/v1: the messages of the two gRPC services (gen/merch/v1/store.pb.go and auth.pb.go).
-- A `uint32` field is a number, an `int32` field an integer.
use merch_store.Base.{ℕ, Bool, String, List, Assoc}
use merch_store.Base.Int.{ℤ}

pub record InventoryItem : Type 0 where
  pub name : String
  pub quantity : ℕ

pub record ReceivedCoinsInfo : Type 0 where
  pub from_username : String
  pub amount : ℕ

pub record SentCoinsInfo : Type 0 where
  pub to_username : String
  pub amount : ℕ

pub record CoinHistory : Type 0 where
  pub received : List ReceivedCoinsInfo
  pub sent : List SentCoinsInfo

pub record GetUserInfoResponse : Type 0 where
  pub balance : ℕ
  pub inventory : List InventoryItem
  pub coin_history : CoinHistory

pub record SendCoinsRequest : Type 0 where
  pub to_username : String
  pub amount : ℕ

pub record SendCoinsResponse : Type 0 where
  pub success : Bool

pub record BuyItemRequest : Type 0 where
  pub item_name : String

pub record BuyItemResponse : Type 0 where
  pub success : Bool

pub record AuthRequest : Type 0 where
  pub username : String
  pub password : String

pub record AuthResponse : Type 0 where
  pub token : String

pub record GetUserIdRequest : Type 0 where
  pub username : String

pub record GetUserIdResponse : Type 0 where
  pub user_id : ℤ

pub record GetUsernamesRequest : Type 0 where
  pub user_ids : List ℤ

pub record GetUsernamesResponse : Type 0 where
  pub usernames : Assoc ℤ String
