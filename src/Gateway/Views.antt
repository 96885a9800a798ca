-- ===== src/Gateway/Views.antt =====
-- The answer of GET /api/info against what the store service knows of a user: the two conversions,
-- convertToUserInfoResponse of internal/store/grpc/store_service.go and convertToUserInfo of
-- internal/gateway/grpc/store_adapter.go, one after the other.
use merch_store.Base.{ℕ, ◌≡◌, refl, ap, String, List, [], ◌∷◌, map, Assoc}
use merch_store.Store.Domain.{NamedDirectTransfer, TotalUserInfo}
use merch_store.Store.Service
use merch_store.Store.Service.{convert_to_user_info_response, received_infos, sent_infos}
use merch_store.Gateway.Domain.{InventoryItem, ReceivedTransfer, SentTransfer}
use merch_store.Gateway.Adapters.{
  convert_to_user_info, inventory_items, received_transfers, sent_transfers,
}

-- What a client reads back.
abbrev pub pairs_of_items : List InventoryItem → Assoc String ℕ
pairs_of_items = map (λ i. (i.name, i.quantity))

abbrev pub pairs_of_received : List ReceivedTransfer → Assoc String ℕ
pairs_of_received = map (λ r. (r.from, r.amount))

abbrev pub pairs_of_sent : List SentTransfer → Assoc String ℕ
pairs_of_sent = map (λ r. (r.to, r.amount))

abbrev pub pairs_of_transfers : List NamedDirectTransfer → Assoc String ℕ
pairs_of_transfers = map (λ t. (t.target_username, t.amount))

items_back :
    (goods : Assoc String ℕ)
    → pairs_of_items (inventory_items (Service.inventory_items goods)) ≡ goods
unfolding inventory_items Service.inventory_items
items_back [] = refl
items_back ((name, quantity) ∷ goods) = ap (λ rest. (name, quantity) ∷ rest) (items_back goods)

received_back :
    (ts : List NamedDirectTransfer)
    → pairs_of_received (received_transfers (received_infos ts)) ≡ pairs_of_transfers ts
unfolding received_transfers received_infos
received_back [] = refl
received_back (t ∷ ts) = ap (λ rest. (t.target_username, t.amount) ∷ rest) (received_back ts)

sent_back :
    (ts : List NamedDirectTransfer)
    → pairs_of_sent (sent_transfers (sent_infos ts)) ≡ pairs_of_transfers ts
unfolding sent_transfers sent_infos
sent_back [] = refl
sent_back (t ∷ ts) = ap (λ rest. (t.target_username, t.amount) ∷ rest) (sent_back ts)

-- The user information that the gateway gives out is the store's: the balance, each good with its
-- number, and the transfers in both directions, each with the other user's name and the amount, in
-- the same order.
pub convert_to_user_info-convert_to_user_info_response :
    (info : TotalUserInfo)
    → let u = convert_to_user_info (convert_to_user_info_response info) in
      (u.balance ≡ info.balance)
      × (pairs_of_items u.inventory ≡ info.goods)
      × (pairs_of_received u.transfer_history.received
          ≡ pairs_of_transfers info.coin_transfer_history.incoming_transfers)
      × (pairs_of_sent u.transfer_history.sent
          ≡ pairs_of_transfers info.coin_transfer_history.outcoming_transfers)
unfolding convert_to_user_info convert_to_user_info_response
convert_to_user_info-convert_to_user_info_response info = (
  refl,
  items_back info.goods,
  received_back info.coin_transfer_history.incoming_transfers,
  sent_back info.coin_transfer_history.outcoming_transfers,
)
