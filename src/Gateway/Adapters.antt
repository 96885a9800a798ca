-- ===== src/Gateway/Adapters.antt =====
-- internal/gateway/grpc: the adapters from the gateway's services to the gRPC clients, and the
-- interceptor of outgoing calls. The clients are parameters; a time limit that passes is one of the
-- errors that they may return.
use merch_store.Base.{
  String, Option, none, some, List, [], ◌∷◌, ◌++◌, Result, ok, err, Assoc, lookup, insert,
  string_keys,
}
use merch_store.Api
use merch_store.Api.{
  GetUserInfoResponse, SendCoinsRequest, SendCoinsResponse, BuyItemRequest, BuyItemResponse,
  AuthRequest, AuthResponse, ReceivedCoinsInfo, SentCoinsInfo,
}
use merch_store.Jwt.{token_metadata_key}
use merch_store.Gateway.Domain.{
  InventoryItem, ReceivedTransfer, SentTransfer, UserInfo, Context, Call, AuthService, StoreService,
}

-- The generated clients `AuthServiceClient` and `MerchStoreServiceClient`; each call has the outgoing
-- metadata of its context.
pub record Clients (W E : Type 0) : Type 0 where
  pub authenticate : AuthRequest → Call W E AuthResponse
  pub buy_item : Assoc String (List String) → BuyItemRequest → Call W E BuyItemResponse
  pub send_coins : Assoc String (List String) → SendCoinsRequest → Call W E SendCoinsResponse
  pub get_user_info : Assoc String (List String) → Call W E GetUserInfoResponse

unfoldable pub values_of : Option (List String) → List String
values_of none = []
values_of (some vs) = vs

-- metadata.AppendToOutgoingContext with one pair
unfoldable pub append_to_outgoing :
    String → String → Assoc String (List String) → Assoc String (List String)
unfolding values_of
append_to_outgoing key value md = insert key (values_of (lookup key md) ++ value ∷ []) md

unfoldable pub with_token : Option String → Assoc String (List String) → Assoc String (List String)
with_token none md = md
with_token (some token) md = append_to_outgoing token_metadata_key token md

-- `NewJWTTokenInterceptor`: the metadata that the call is made with.
unfoldable pub jwt_token_interceptor : Context → Assoc String (List String)
unfolding with_token append_to_outgoing
jwt_token_interceptor ctx = with_token ctx.token ctx.outgoing

unfoldable pub inventory_items : List Api.InventoryItem → List InventoryItem
inventory_items [] = []
inventory_items (i ∷ is) = record { name = i.name; quantity = i.quantity } ∷ inventory_items is

unfoldable pub received_transfers : List ReceivedCoinsInfo → List ReceivedTransfer
received_transfers [] = []
received_transfers (r ∷ rs) =
    record { from = r.from_username; amount = r.amount } ∷ received_transfers rs

unfoldable pub sent_transfers : List SentCoinsInfo → List SentTransfer
sent_transfers [] = []
sent_transfers (s ∷ ss) = record { to = s.to_username; amount = s.amount } ∷ sent_transfers ss

-- `convertToUserInfo`
unfoldable pub convert_to_user_info : GetUserInfoResponse → UserInfo
unfolding inventory_items received_transfers sent_transfers
convert_to_user_info resp = record {
  balance = resp.balance;
  inventory = inventory_items resp.inventory;
  transfer_history = record {
    received = received_transfers resp.coin_history.received;
    sent = sent_transfers resp.coin_history.sent;
  };
}

module _ {W E : Type 0} where
  -- The answer of a call that is used, with `if err != nil { return err }`.
  abbrev pub answer : {A B : Type 0} → (A → B) → Result E A × W → Result E B × W
  answer f (ok a, w) = (ok (f a), w)
  answer f (err e, w) = (err e, w)

  -- `AuthAdapter`
  unfoldable pub auth_adapter : Clients W E → AuthService W E
  auth_adapter clients = record {
    authenticate = λ ctx username password w.
        answer (λ resp. resp.token)
          (clients.authenticate (record { username = username; password = password }) w);
  }

  -- `StoreAdapter`, on a connection with `NewJWTTokenInterceptor`
  unfoldable pub store_adapter : Clients W E → StoreService W E
  unfolding jwt_token_interceptor convert_to_user_info
  store_adapter clients = record {
    buy_item = λ ctx item_name w.
        answer (λ _. tt)
          (clients.buy_item (jwt_token_interceptor ctx) (record { item_name = item_name }) w);
    send_coins = λ ctx to_username amount w.
        answer (λ _. tt)
          (clients.send_coins (jwt_token_interceptor ctx)
            (record { to_username = to_username; amount = amount }) w);
    get_user_info =
        λ ctx w. answer convert_to_user_info (clients.get_user_info (jwt_token_interceptor ctx) w);
  }
