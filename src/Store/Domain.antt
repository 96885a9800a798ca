-- ===== src/Store/Domain.antt =====
-- internal/store/domain: the error types, and the values that the layers exchange.
use merch_store.Base.{ℕ, Bool, true, false, List, String, Assoc}
use merch_store.Base.Int.{ℤ}
use merch_store.Errors.{Error}

-- domain/errors.go: one constructor for each error type, with its `Msg`.
pub data DomainError : Type 0 where
  invalid_arguments insufficient_balance user_not_found : String → DomainError
  good_not_found balance_not_found balance_existing : String → DomainError

abbrev pub StoreError : Type 0
StoreError = Error DomainError

-- The methods `Error`.
unfoldable pub error_msg : DomainError → String
error_msg (invalid_arguments msg) = msg
error_msg (insufficient_balance msg) = msg
error_msg (user_not_found msg) = msg
error_msg (good_not_found msg) = msg
error_msg (balance_not_found msg) = msg
error_msg (balance_existing msg) = msg

-- The methods `Is`, by the type of their target.
unfoldable pub is_invalid_arguments : DomainError → Bool
is_invalid_arguments (invalid_arguments _) = true
is_invalid_arguments _ = false

unfoldable pub is_insufficient_balance : DomainError → Bool
is_insufficient_balance (insufficient_balance _) = true
is_insufficient_balance _ = false

unfoldable pub is_user_not_found : DomainError → Bool
is_user_not_found (user_not_found _) = true
is_user_not_found _ = false

unfoldable pub is_good_not_found : DomainError → Bool
is_good_not_found (good_not_found _) = true
is_good_not_found _ = false

-- domain/users.go and domain/goods.go
abbrev pub start_balance : ℕ
start_balance = 1000

pub record GoodInfo : Type 0 where
  pub id : ℤ
  pub name : String
  pub price : ℕ

pub record MainUserInfo : Type 0 where
  pub username : String
  pub balance : ℕ

pub record DirectTransfer : Type 0 where
  pub target_id : ℤ
  pub amount : ℕ

pub record TransferHistory : Type 0 where
  pub incoming_transfers : List DirectTransfer
  pub outcoming_transfers : List DirectTransfer

pub record NamedDirectTransfer : Type 0 where
  pub target_username : String
  pub amount : ℕ

pub record NamedTransferHistory : Type 0 where
  pub incoming_transfers : List NamedDirectTransfer
  pub outcoming_transfers : List NamedDirectTransfer

-- `Goods` is a `map[Good]uint32`, and a `Good` is its name.
pub record TotalUserInfo : Type 0 where
  pub username : String
  pub balance : ℕ
  pub goods : Assoc String ℕ
  pub coin_transfer_history : NamedTransferHistory
