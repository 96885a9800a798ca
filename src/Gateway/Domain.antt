-- ===== src/Gateway/Domain.antt =====
-- internal/gateway/domain, and what the gateway's parts share: requests to the services and HTTP
-- responses.
use merch_store.Base.{ℕ, String, Option, List, Assoc, Result}

pub record InventoryItem : Type 0 where
  pub name : String
  pub quantity : ℕ

pub record ReceivedTransfer : Type 0 where
  pub from : String
  pub amount : ℕ

pub record SentTransfer : Type 0 where
  pub to : String
  pub amount : ℕ

pub record TransferHistory : Type 0 where
  pub received : List ReceivedTransfer
  pub sent : List SentTransfer

pub record UserInfo : Type 0 where
  pub balance : ℕ
  pub inventory : List InventoryItem
  pub transfer_history : TransferHistory

-- The values of a context that the gateway reads: the one under `jwt.TokenContextKey`, and the
-- metadata of the outgoing call.
pub record Context : Type 0 where
  pub token : Option String
  pub outgoing : Assoc String (List String)

-- What a call of another process does: it changes the world `W` and answers, or fails with `E`.
abbrev pub Call : Type 0 → Type 0 → Type 0 → Type 0
Call W E A = W → Result E A × W

-- The bodies that the handlers write.
pub data Body : Type 0 where
  empty : Body
  errors : String → Body
  token : String → Body
  info : UserInfo → Body

pub record Response : Type 0 where
  pub status : ℕ
  pub body : Body

-- The interfaces `AuthService` and `StoreService`.
pub record AuthService (W E : Type 0) : Type 0 where
  pub authenticate : Context → String → String → Call W E String

pub record StoreService (W E : Type 0) : Type 0 where
  pub buy_item : Context → String → Call W E (Unit {0})
  pub send_coins : Context → String → ℕ → Call W E (Unit {0})
  pub get_user_info : Context → Call W E UserInfo
