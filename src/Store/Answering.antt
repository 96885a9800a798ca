-- ===== src/Store/Answering.antt =====
-- GetUserInfo of internal/store/application/user_info_case.go: it does not change the tables, and what
-- it answers is what they hold, in whatever order its goroutines end.
use merch_store.Base.{ℕ, ◌≡◌, String, some, List, [], ◌∷◌, ok, Assoc, lookup, int_keys, ◌⊎◌}
use merch_store.Base.Int.{ℤ, pos}
use merch_store.Store.Domain.{MainUserInfo, NamedTransferHistory, TotalUserInfo}
use merch_store.Store.Tables.{Tables}
use merch_store.Store.UserInfo.{
  UsernameGetter, Gathered, Goroutine, main, purchases, transfers, extract_user_ids, named_history,
}
use merch_store.Store.Answers.{Goods, history}

module _ (getter : UsernameGetter) (received : ℕ) (user : ℤ) where
  -- What each goroutine finds out, of the tables and from the auth service.
  abbrev pub Main : Tables → MainUserInfo → Type 0
  Main t i =
      (getter.get_username user ≡ ok i.username) × (lookup user t.balances ≡ some (pos i.balance))

  abbrev pub Transfers : Tables → NamedTransferHistory → Type 0
  Transfers t h =
      (usernames : Assoc ℤ String) × (getter.get_usernames (extract_user_ids (history user t))
        ≡ ok usernames)
      × (h ≡ named_history (history user t) usernames)

  abbrev Found : Goroutine → Tables → Gathered → Type 0
  Found main t g = Main t g.main_info
  Found purchases t g = Goods user received t g.purchases
  Found transfers t g = Transfers t g.transfers

  -- One goroutine sets its variable and leaves the others.
  abbrev Sets : Goroutine → Gathered → Tables → Gathered → Type 0
  Sets r g t g' = Found r t g' × ((r' : Goroutine) → Found r' t g → Found r' t g')

  abbrev pub Runs : Goroutine → List Goroutine → Type 0
  Runs r [] = ⊥
  Runs r (r' ∷ rs) = (r ≡ r') ⊎ Runs r rs

  -- The answer is what the tables and the auth service know of the user.
  pub record Describes (t : Tables) (info : TotalUserInfo) : Type 0 where
    pub name : getter.get_username user ≡ ok info.username
    pub balance : lookup user t.balances ≡ some (pos info.balance)
    pub goods : Goods user received t info.goods
    pub transfers : Transfers t info.coin_transfer_history
