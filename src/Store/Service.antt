-- ===== src/Store/Service.antt =====
-- internal/store/grpc/store_service.go: the handlers of the store's gRPC server.
use merch_store.Base.{
  ℕ, true, String, Option, none, some, List, [], ◌∷◌, Result, ok, err, Assoc, if◌then◌else◌,
}
use merch_store.Base.Int.{ℤ}
use merch_store.Api.{
  InventoryItem, ReceivedCoinsInfo, SentCoinsInfo, GetUserInfoResponse, SendCoinsRequest,
  SendCoinsResponse, BuyItemRequest, BuyItemResponse,
}
use merch_store.Errors.{
  status, invalid_argument, not_found, failed_precondition, internal, errors_is, error_text,
}
use merch_store.Database.{◌>>=◌, ◌>>◌, pure, lift, rescue}
use merch_store.Store.Domain.{
  StoreError, error_msg, is_invalid_arguments, is_insufficient_balance, is_user_not_found,
  is_good_not_found, NamedDirectTransfer, TotalUserInfo,
}
use merch_store.Store.Cases.{send_coins, buy_item}
use merch_store.Store.UserInfo.{UsernameGetter, Goroutine, get_user_info}
use merch_store.Store.Interceptors.{Context, Handler}

unfoldable pub user_id_of : Option ℤ → Result StoreError ℤ
user_id_of none = err (status internal "user id not found in context")
user_id_of (some id) = ok id

-- `retrieveUserID`
unfoldable pub retrieve_user_id : Context → Result StoreError ℤ
unfolding user_id_of
retrieve_user_id ctx = user_id_of ctx.user_id

unfoldable pub inventory_items : Assoc String ℕ → List InventoryItem
inventory_items [] = []
inventory_items ((name, quantity) ∷ goods) =
    record { name = name; quantity = quantity } ∷ inventory_items goods

unfoldable pub sent_infos : List NamedDirectTransfer → List SentCoinsInfo
sent_infos [] = []
sent_infos (t ∷ ts) = record { to_username = t.target_username; amount = t.amount } ∷ sent_infos ts

unfoldable pub received_infos : List NamedDirectTransfer → List ReceivedCoinsInfo
received_infos [] = []
received_infos (t ∷ ts) =
    record { from_username = t.target_username; amount = t.amount } ∷ received_infos ts

-- `convertToUserInfoResponse`; Go ranges over the map of goods in no fixed order.
unfoldable pub convert_to_user_info_response : TotalUserInfo → GetUserInfoResponse
unfolding inventory_items sent_infos received_infos
convert_to_user_info_response info = record {
  balance = info.balance;
  inventory = inventory_items info.goods;
  coin_history = record {
    received = received_infos info.coin_transfer_history.incoming_transfers;
    sent = sent_infos info.coin_transfer_history.outcoming_transfers;
  };
}

-- `err.Error()`, where `other` gives the texts of errors that the service does not build.
abbrev pub text_of : (StoreError → String) → StoreError → String
text_of other = error_text error_msg other

-- The status that `GetUserInfo` answers an error with.
unfoldable pub user_info_status : (StoreError → String) → StoreError → StoreError
unfolding errors_is error_text
user_info_status other e =
    if errors_is is_user_not_found e
    then status not_found (text_of other e)
    else status internal "internal error"

-- The `switch` of `SendCoins`.
unfoldable pub send_coins_status : (StoreError → String) → StoreError → StoreError
unfolding errors_is error_text
send_coins_status other e =
    if errors_is is_invalid_arguments e
    then status invalid_argument (text_of other e)
    else if errors_is is_user_not_found e
    then status not_found "user not found"
    else if errors_is is_insufficient_balance e
    then status failed_precondition "insufficient funds"
    else status internal "internal error"

-- The `switch` of `BuyItem`.
unfoldable pub buy_item_status : StoreError → StoreError
unfolding errors_is
buy_item_status e =
    if errors_is is_good_not_found e
    then status invalid_argument "item not found"
    else if errors_is is_insufficient_balance e
    then status failed_precondition "insufficient funds"
    else if errors_is is_user_not_found e
    then status not_found "user not found"
    else status internal "internal error"

-- The adapter to the auth service, as the cases see it, and what stands outside the service.
pub record Dependencies : Type 0 where
  pub fetch_user_id : String → Result StoreError ℤ
  pub getter : UsernameGetter
  pub other_text : StoreError → String

module _ (d : Dependencies) where
  -- `StoreServerGRPC.GetUserInfo`
  unfoldable pub serve_get_user_info : List Goroutine → ℕ → Handler GetUserInfoResponse
  serve_get_user_info schedule received ctx = do
    user_id ← lift (retrieve_user_id ctx)
    user_info ←
        rescue (λ e. err (user_info_status d.other_text e))
          (get_user_info d.getter received schedule user_id)
    pure (convert_to_user_info_response user_info)

  -- `StoreServerGRPC.SendCoins`
  unfoldable pub serve_send_coins : SendCoinsRequest → Handler SendCoinsResponse
  serve_send_coins req ctx = do
    user_id ← lift (retrieve_user_id ctx)
    rescue (λ e. err (send_coins_status d.other_text e))
        (send_coins d.fetch_user_id user_id req.to_username req.amount)
    pure (record { success = true })

  -- `StoreServerGRPC.BuyItem`
  unfoldable pub serve_buy_item : BuyItemRequest → Handler BuyItemResponse
  serve_buy_item req ctx = do
    user_id ← lift (retrieve_user_id ctx)
    rescue (λ e. err (buy_item_status e)) (buy_item user_id req.item_name)
    pure (record { success = true })
