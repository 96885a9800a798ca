-- ===== src/Apps/Shop/Users.antt =====
-- Registered users, from the login over HTTP to a transfer over HTTP, through all three processes.
use merch_store.Base.{
  ℕ, ◌+◌, ◌^◌, ◌≤◌, ◌<◌, ◌≡◌, ◌≢◌, refl, sym, ap, subst, ◌∙◌, String, some, Option, [], ok, arith,
  lookup, int_keys,
}
use merch_store.Base.Int.{ℤ, pos, ◌+ℤ◌, ◌≤ℤ◌, eqb_ℤ_iff}
use merch_store.Jwt.{Claims, parse_token}
use merch_store.Jwt.Tokens.{IsLibrary}
use merch_store.Database.{Session}
use merch_store.Database.Statement.{max_int4}
use merch_store.Auth.Domain.{AuthError, UserInfo}
use merch_store.Auth.Users
use merch_store.Auth.Users.{user_named}
use merch_store.Auth.Authenticator.{token_time_limit}
use merch_store.Auth.Registry
use merch_store.Store.Domain.{StoreError, start_balance}
use merch_store.Store.Tables
use merch_store.Store.AuthAdapter.{fetch_user_id}
use merch_store.Store.Updates.{AreBalances}
use merch_store.Store.Success.{FitsInt4}
use merch_store.Store.Opening.{
  Opened, Opened-AreBalances, lookup-Opened, ensure_balance_created-Ended,
}
use merch_store.Store.Sending.{balance_or_start, ensure_done}
use merch_store.Store.Transfers
use merch_store.Gateway.Domain
use merch_store.Gateway.Domain.{empty}
use merch_store.Gateway.Handlers.{
  AuthRequestBody, SendCoinRequestBody, status_ok, bind_auth, bind_send_coin,
}
use merch_store.Gateway.Bearer.{HasNoSpace}
use merch_store.Gateway.Routes.{transfer}
use merch_store.Apps.Config.{Environment, store_main}
use merch_store.Apps.Names.{client_of, names_agree}
use merch_store.Apps.Admitted.{signed_in-IssuedAs, granted_claims}
use merch_store.Apps.Shop.{Shop, shop_answer}
use merch_store.Apps.Shop.Made.{http_transfer_made}
use merch_store.Apps.Shop.Login.{Entrance, login_answer, login_state, login_token}

same_user : {o : Option UserInfo} {a b : UserInfo} → o ≡ some a → o ≡ some b → a ≡ b
same_user e f = cc

-- The tables once the sender's balance is there.
module _ (user : ℤ) (t u : Tables.Tables) (o : Opened user start_balance t u) where
  opened_balance :
      (balance : ℕ)
      → balance_or_start (lookup user t.balances) ≡ pos balance
      → lookup user u.balances ≡ some (pos balance)
  opened_balance balance h =
      ground (arith, lookup-Opened user start_balance t u o user, eqb_ℤ_iff user user)

  others_balance : (other : ℤ) → other ≢ user → lookup other u.balances ≡ lookup other t.balances
  others_balance other differ =
      ground (arith, lookup-Opened user start_balance t u o other, eqb_ℤ_iff user other)

-- The answer to a transfer of the user `from`, and the tables after it: the sender's balance is opened
-- and the transfer is made.
abbrev pub IsMade :
    Shop
    → ℤ
    → SendCoinRequestBody
    → Tables.Tables
    → Domain.Response × Session Tables.Tables
    → Type 0
IsMade shop from order before (response, after) =
    (response ≡ record { status = status_ok; body = empty })
    × ((opened : Tables.Tables) × Opened from start_balance before opened
        × Transfers.Transfer (fetch_user_id shop.client) from order.to_username order.amount opened
            after.committed)

module _ (shop : Shop) (token : String) (one_word : HasNoSpace token) (json : String)
    (order : SendCoinRequestBody) (bound : bind_send_coin shop.decode_send_coin json ≡ some order)
    (to : ℤ) (fetched : fetch_user_id shop.client order.to_username ≡ ok to)
    (w : Session Tables.Tables) (v : AreBalances w.committed.balances) (balance : ℕ)
    (covers : order.amount ≤ balance) (fits_to : FitsInt4 to)
    (fits_amount : FitsInt4 (pos order.amount))
    (room : balance_or_start (lookup to w.committed.balances) +ℤ pos order.amount
      ≤ℤ pos max_int4) where
  transfer_of :
      (claims : Claims)
      → parse_token shop.library shop.now shop.cfg.jwt_secret token ≡ ok claims
      → to ≢ claims.user_id
      → FitsInt4 claims.user_id
      → balance_or_start (lookup claims.user_id w.committed.balances) ≡ pos balance
      → IsMade shop claims.user_id order w.committed
          (shop_answer shop token (transfer json) (record w { fates = [] }))
  transfer_of claims parsed differ fits_from held =
      let (u, done) = ensure_done claims.user_id w fits_from in
      let o =
        rw done at
          (ensure_balance_created-Ended claims.user_id start_balance (record w { fates = [] })) in
      let (answered, made) =
        http_transfer_made shop token one_word claims parsed (record w { fates = [] })
          (record w { committed = u; fates = [] }) refl done json order bound to balance
          (Opened-AreBalances claims.user_id start_balance w.committed u o v) fetched differ
          fits_from fits_to fits_amount (opened_balance claims.user_id w.committed u o balance held)
          covers
          (subst (λ b. balance_or_start b +ℤ pos order.amount ≤ℤ pos max_int4)
            (sym (others_balance claims.user_id w.committed u o to differ)) room) in
      (answered, (u, o, made))

-- A shop with the store's configuration, and a login in front of it.
module _ (env : Environment) (shop : Shop) (laws : IsLibrary shop.library)
    (configured : shop.cfg ≡ (store_main env).1) (front : Entrance) (login_json : String)
    (body : AuthRequestBody) (bound_login : bind_auth front.decode_auth login_json ≡ some body)
    (s : Session Users.Tables) (token : String)
    (let_in : (login_answer env shop.library front login_json s).0
      ≡ record { status = status_ok; body = Domain.token token })
    (in_time : shop.now < front.issued + token_time_limit) (sender : UserInfo)
    (known : user_named body.username
        (login_answer env shop.library front login_json s).1.committed.users
      ≡ some sender) where
  -- The claims that the store reads from the token of the login.
  login_claims :
      (claims : Claims) × (claims.user_id ≡ sender.id)
      × (parse_token shop.library shop.now shop.cfg.jwt_secret token ≡ ok claims)
  login_claims =
      let (user, named, granted) =
        signed_in-IssuedAs env shop.library laws front.raise front.argon front.issued front.salt
          body.username body.password s (record { token = token })
          (login_token env shop.library front login_json body bound_login s token let_in) in
      let (claims, same, parsed) =
        granted_claims env shop.library laws front.raise front.argon front.issued shop.now user
          token granted in_time in
      (
        claims,
        same
            ∙ ap UserInfo.id (
                same_user named (
                  subst (λ t. user_named body.username t.committed.users ≡ some sender)
                    (login_state env shop.library front login_json body bound_login s) known)),
        rw configured parsed,
      )

  -- If golang-jwt keeps its laws and the processes have the same environment, the token that a
  -- login over HTTP is answered with makes, for an hour, transfers over HTTP from the user that
  -- logged in to any other registered user whose name the body gives: the answer is 200, the
  -- sender's balance is opened if it was not there, and the transfer is made, if the sender's
  -- balance covers the amount, the receiver's has room for it, the numbers fit their columns,
  -- the schema allows the balances, the table of users is well formed, its ids fit 32 bits, the
  -- token holds no space, and no database fails.
  pub login_then_transfer :
      HasNoSpace token
      → (carry : AuthError → StoreError) (later : Session Users.Tables)
      → shop.client ≡ client_of carry (record later { fates = [] })
      → Registry.IsValid later.committed
      → later.committed.next_id ≤ 2 ^ 31
      → (json : String) (order : SendCoinRequestBody)
      → bind_send_coin shop.decode_send_coin json ≡ some order
      → (receiver : UserInfo) → user_named order.to_username later.committed.users ≡ some receiver
      → receiver.id ≢ sender.id
      → (w : Session Tables.Tables) (balance : ℕ) → AreBalances w.committed.balances
      → balance_or_start (lookup sender.id w.committed.balances) ≡ pos balance
      → order.amount ≤ balance
      → balance_or_start (lookup receiver.id w.committed.balances) +ℤ pos order.amount
        ≤ℤ pos max_int4
      → FitsInt4 sender.id
      → FitsInt4 receiver.id
      → FitsInt4 (pos order.amount)
      → IsMade shop sender.id order w.committed
          (shop_answer shop token (transfer json) (record w { fates = [] }))
  login_then_transfer one_word carry later dialled valid small json order bound receiver named
        differ w balance v held covers room fits_from fits_to fits_amount =
      let (claims, same, parsed) = login_claims in
      let fetched =
        subst (λ c. fetch_user_id c order.to_username ≡ ok receiver.id) (sym dialled)
          (names_agree carry later order.to_username receiver valid small named).0 in
      subst
        (λ from.
          receiver.id ≢ from
          → FitsInt4 from
          → balance_or_start (lookup from w.committed.balances) ≡ pos balance
          → IsMade shop from order w.committed
              (shop_answer shop token (transfer json) (record w { fates = [] })))
        same
        (transfer_of shop token one_word json order bound receiver.id fetched w v balance covers
          fits_to fits_amount room claims parsed)
        differ fits_from held
