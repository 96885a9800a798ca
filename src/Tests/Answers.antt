-- ===== src/Tests/Answers.antt =====
-- Answers of the store's handlers at concrete inputs.
use merch_store.Base.{◌≡◌, ◌≢◌, refl, none, some, List, [], ◌∷◌, ok, err, arith, lookup, int_keys}
use merch_store.Base.Int.{pos, eqb_ℤ}
use merch_store.Errors.{status, invalid_argument, failed_precondition}
use merch_store.Api.{SendCoinsRequest, BuyItemRequest}
use merch_store.Store.UserInfo.{UsernameGetter, Goroutine, main, purchases, transfers}
use merch_store.Store.Interceptors.{Context}
use merch_store.Store.Service.{Dependencies, serve_send_coins, serve_buy_item}
use merch_store.Store.Refusals.{Refusal, too_little, serve_send_coins-Refusal}
use merch_store.Store.Tables.{find_good}
use merch_store.Store.RefusedPurchases.{row_named, no_such_good, serve_buy_item-RefusedPurchase}
use merch_store.Tests.Data.{two_users, session, id_of}

abbrev names : UsernameGetter
names = record {
  get_username = λ id. ok "alice";
  get_usernames = λ ids. ok ((pos 1, "alice") ∷ (pos 2, "bob") ∷ []);
}

abbrev schedule : List Goroutine
schedule = transfers ∷ main ∷ purchases ∷ []

abbrev dependencies : Dependencies
dependencies = record { fetch_user_id = id_of; getter = names; other_text = λ e. "" }

abbrev alice : Context
alice = record { metadata = none; user_id = some (pos 1) }

abbrev too_many : SendCoinsRequest
too_many = record { to_username = "bob"; amount = 5000 }

alice_balance : lookup (pos 1) two_users.balances ≡ some (pos 1000)
unfolding lookup eqb_ℤ
alice_balance = refl

two_is_not_one : pos 2 ≢ pos 1
two_is_not_one e = cc

refused_transfer :
    Refusal dependencies
      (pos 1)
      too_many
      two_users
      (status failed_precondition "insufficient funds")
refused_transfer =
    too_little (pos 2) 1000 refl two_is_not_one (omega arith, omega arith)
      (omega arith, omega arith) alice_balance (omega arith)

serve_send_coins-Refusal_example :
    (serve_send_coins dependencies too_many alice (session two_users [])).0
    ≡ err (status failed_precondition "insufficient funds")
serve_send_coins-Refusal_example =
    serve_send_coins-Refusal dependencies (pos 1) too_many alice (session two_users []) refl
      refused_transfer

abbrev hat : BuyItemRequest
hat = record { item_name = "hat" }

no_hat : row_named "hat" two_users ≡ none
unfolding find_good
no_hat = refl

serve_buy_item-RefusedPurchase_example :
    (serve_buy_item dependencies hat alice (session two_users [])).0
    ≡ err (status invalid_argument "item not found")
serve_buy_item-RefusedPurchase_example =
    serve_buy_item-RefusedPurchase dependencies (pos 1) hat alice (session two_users []) refl
      (no_such_good no_hat)
