-- ===== src/Store/UserInfo.antt =====
-- internal/store/application/user_info_case.go. The three goroutines of the error group read and do
-- not write; `schedule` is the order in which they end, and the first error in it is the one that
-- `Wait` returns. The names of users come from the auth service, through a `UsernameGetter`.
use merch_store.Base.{
  ℕ, String, Option, none, some, List, [], ◌∷◌, map, Result, Assoc, int_keys, lookup, insert,
}
use merch_store.Base.Int.{ℤ}
use merch_store.Database.{◌>>=◌, pure, lift}
use merch_store.Store.Domain.{
  StoreError, MainUserInfo, DirectTransfer, TransferHistory, NamedDirectTransfer,
  NamedTransferHistory, TotalUserInfo,
}
use merch_store.Store.Repositories.{
  StoreAction, fetch_user_balance, fetch_user_purchases, fetch_user_coin_transfers,
}

-- The interface `UsernameGetter`.
pub record UsernameGetter : Type 0 where
  pub get_username : ℤ → Result StoreError String
  pub get_usernames : List ℤ → Result StoreError (Assoc ℤ String)

-- `userIDSet[transfer.TargetID] = struct{}{}` for each transfer.
unfoldable pub add_user_ids : Assoc ℤ (Unit {0}) → List DirectTransfer → Assoc ℤ (Unit {0})
add_user_ids ids [] = ids
add_user_ids ids (t ∷ ts) = add_user_ids (insert t.target_id tt ids) ts

-- `extractUserIDs`. Go gives the keys of a map in no fixed order; here they come as inserted.
unfoldable pub extract_user_ids : TransferHistory → List ℤ
unfolding add_user_ids
extract_user_ids tf =
    map (λ e. e.0) (add_user_ids (add_user_ids [] tf.incoming_transfers) tf.outcoming_transfers)

-- `usernames[id]`, which is "" for an id that is not there.
abbrev pub name_or_empty : Option String → String
name_or_empty none = ""
name_or_empty (some name) = name

unfoldable pub name_transfers : Assoc ℤ String → List DirectTransfer → List NamedDirectTransfer
name_transfers usernames [] = []
name_transfers usernames (t ∷ ts) =
    record { target_username = name_or_empty (lookup t.target_id usernames); amount = t.amount }
    ∷ name_transfers usernames ts

abbrev pub named_history : TransferHistory → Assoc ℤ String → NamedTransferHistory
named_history tf usernames = record {
  incoming_transfers = name_transfers usernames tf.incoming_transfers;
  outcoming_transfers = name_transfers usernames tf.outcoming_transfers;
}

-- The variables that the goroutines assign.
pub record Gathered : Type 0 where
  pub main_info : MainUserInfo
  pub purchases : Assoc String ℕ
  pub transfers : NamedTransferHistory

abbrev pub nothing_gathered : Gathered
nothing_gathered = record {
  main_info = record { username = ""; balance = 0 };
  purchases = [];
  transfers = record { incoming_transfers = []; outcoming_transfers = [] };
}

pub data Goroutine : Type 0 where
  main purchases transfers : Goroutine

-- `received` is how many rows of the purchases come if the database's answer to that query breaks off.
module _ (getter : UsernameGetter) (received : ℕ) where
  -- `convertToNamedTransferHistory`
  unfoldable pub convert_to_named_transfer_history :
      TransferHistory → StoreAction NamedTransferHistory
  convert_to_named_transfer_history tf = do
    usernames ← lift (getter.get_usernames (extract_user_ids tf))
    pure (named_history tf usernames)

  -- What one goroutine does.
  unfoldable pub go : ℤ → Goroutine → Gathered → StoreAction Gathered
  go user_id main g = do
    username ← lift (getter.get_username user_id)
    balance ← fetch_user_balance user_id
    pure (record g { main_info = record { username = username; balance = balance } })
  go user_id purchases g = do
    bought ← fetch_user_purchases received user_id
    pure (record g { purchases = bought })
  go user_id transfers g = do
    raw_transfers ← fetch_user_coin_transfers user_id
    named ← convert_to_named_transfer_history raw_transfers
    pure (record g { transfers = named })

  -- `group.Wait`
  unfoldable pub wait : ℤ → List Goroutine → Gathered → StoreAction Gathered
  unfolding go
  wait user_id [] g = pure g
  wait user_id (r ∷ rs) g = do g' ← go user_id r g; wait user_id rs g'

  -- `UserInfoCase.GetUserInfo`
  unfoldable pub get_user_info : List Goroutine → ℤ → StoreAction TotalUserInfo
  unfolding wait
  get_user_info schedule user_id = do
    g ← wait user_id schedule nothing_gathered
    pure (record {
      username = g.main_info.username;
      balance = g.main_info.balance;
      goods = g.purchases;
      coin_transfer_history = g.transfers;
    })
