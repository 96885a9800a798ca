-- ===== src/Auth/Users.antt =====
-- internal/auth/infrastructure/postgres/users.go over the table of migrations/auth.
use Prim.Native.String.{count}
use merch_store.Base.{
  ℕ, ◌+◌, Bool, false, ◌||◌, String, Option, none, some, List, [], ◌∷◌, ◌++◌, Result, ok, err,
  Assoc, string_keys, int_keys, ◌==◌, insert, ltb, if◌then◌else◌,
}
use merch_store.Base.Int.{ℤ, pos}
use merch_store.Errors.{unique_violation, too_long, domain, no_rows, is_no_rows}
use merch_store.Database.{Action, pool, ◌>>=◌, pure, lift, query, rescue}
use merch_store.Database.Statement.{Sql}
use merch_store.Auth.Domain.{DomainError, AuthError, user_not_found, UserInfo}

-- `users`, with the next value of its SERIAL `id`.
pub record Tables : Type 0 where
  pub users : List UserInfo
  pub next_id : ℕ

abbrev pub AuthAction : Type 0 → Type 0
AuthAction = Action Tables DomainError

unfoldable pub find_user : (UserInfo → Bool) → List UserInfo → Option UserInfo
find_user matches [] = none
find_user matches (u ∷ us) = if matches u then some u else find_user matches us

abbrev pub user_named : String → List UserInfo → Option UserInfo
user_named name = find_user (λ u. u.username == name)

abbrev pub new_user : String → String → Tables → UserInfo
new_user username password_hash t = record {
  id = pos t.next_id;
  username = username;
  password_hash = password_hash;
}

-- INSERT INTO users (username, password_hash) VALUES ($1, $2)
--   RETURNING id, username, password_hash
-- The username is a VARCHAR(50) and UNIQUE; excess spaces at its end count as too long here.
unfoldable pub insert_user : String → String → Sql Tables UserInfo
unfolding find_user
insert_user username password_hash t =
    if ltb 50 (count username) then err too_long else elim (user_named username t.users) [
      | some _ ↦ err unique_violation
      | none ↦
          let u = new_user username password_hash t in
          ok (u, record { users = t.users ++ u ∷ []; next_id = t.next_id + 1 })
    ]

-- SELECT id, username, password_hash FROM users WHERE username = $1
unfoldable pub select_user : String → Sql Tables (Option UserInfo)
unfolding find_user
select_user username t = ok (user_named username t.users, t)

unfoldable pub contains : List ℤ → ℤ → Bool
contains [] id = false
contains (i ∷ is) id = i == id || contains is id

-- SELECT id, username FROM users WHERE id = ANY($1)
unfoldable pub users_with_ids : List ℤ → List UserInfo → List UserInfo
unfolding contains
users_with_ids ids [] = []
users_with_ids ids (u ∷ us) =
    if contains ids u.id then u ∷ users_with_ids ids us else users_with_ids ids us

unfoldable pub select_usernames : List ℤ → Sql Tables (List UserInfo)
unfolding users_with_ids
select_usernames ids t = ok (users_with_ids ids t.users, t)

abbrev pub row_or_error : Option UserInfo → Result AuthError UserInfo
row_or_error none = err no_rows
row_or_error (some u) = ok u

-- `CreateUser`
unfoldable pub create_user : String → String → AuthAction UserInfo
create_user username hashed_password = query pool (insert_user username hashed_password)

unfoldable pub found_or_error : Result AuthError UserInfo → Result AuthError (Option UserInfo)
found_or_error (ok u) = ok (some u)
found_or_error (err e) = if is_no_rows e then ok none else err e

-- `TryGetUserInfo`: `none` is the result with `found` false.
unfoldable pub try_get_user_info : String → AuthAction (Option UserInfo)
unfolding found_or_error is_no_rows
try_get_user_info username s =
    let (r, s') = (do row ← query pool (select_user username); lift (row_or_error row)) s in
    (found_or_error r, s')

abbrev pub id_error : AuthError → AuthError
id_error e = if is_no_rows e then domain (user_not_found "") else e

-- `GetUserID`
unfoldable pub get_user_id : String → AuthAction ℤ
unfolding is_no_rows
get_user_id username = do
  user ←
      rescue (λ e. err (id_error e))
        (do row ← query pool (select_user username); lift (row_or_error row))
  pure user.id

-- The loop of `GetUsernames`: `usernames[id] = username`.
unfoldable pub collect_usernames : Assoc ℤ String → List UserInfo → Assoc ℤ String
collect_usernames usernames [] = usernames
collect_usernames usernames (u ∷ us) = collect_usernames (insert u.id u.username usernames) us

-- `GetUsernames`
unfoldable pub get_usernames : List ℤ → AuthAction (Assoc ℤ String)
unfolding collect_usernames
get_usernames user_ids = do
  rows ← query pool (select_usernames user_ids)
  pure (collect_usernames [] rows)
