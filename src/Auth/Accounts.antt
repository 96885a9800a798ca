-- ===== src/Auth/Accounts.antt =====
-- Authenticate of internal/auth/application/auth_case.go against the table of users: who gets a
-- token, for whom, and what becomes of the table.
use merch_store.Base.{
  ℕ, ◌+◌, ◌≡◌, refl, ◌∙◌, Bool, true, false, String, Option, none, some, [], ◌∷◌, ◌++◌, Result, ok,
  err, arith, ap, subst, ◌⊎◌, inl, inr, Option-cases, string_keys,
}
use merch_store.Base.Int.{ℤ}
use merch_store.Database.{Session, query, pool, run, continue, lift, ◌>>=◌}
use merch_store.Database.Atomicity.{Ended, query-Ended}
use merch_store.Auth.Domain.{DomainError, AuthError, UserInfo, PasswordHasher}
use merch_store.Auth.Users.{
  Tables, user_named, new_user, insert_user, select_user, found_or_error, create_user,
  try_get_user_info,
}
use merch_store.Auth.Authenticator.{
  register, check_password, known_or_mismatch, sign_in, authenticate, token_time_limit,
}

abbrev pub with_user : UserInfo → Tables → Tables
with_user user t = record { users = t.users ++ user ∷ []; next_id = t.next_id + 1 }

insert_user_ok :
    (name hash : String) (t : Tables) (user : UserInfo) (u : Tables)
    → insert_user name hash t ≡ ok (user, u)
    → (user_named name t.users ≡ none) × (user ≡ new_user name hash t) × (u ≡ with_user user t)
unfolding insert_user
insert_user_ok name hash t user u h = ground arith

select_user_ok :
    (name : String) (t : Tables) (o : Option UserInfo) (u : Tables)
    → select_user name t ≡ ok (o, u)
    → (user_named name t.users ≡ o) × (u ≡ t)
unfolding select_user
select_user_ok name t o u h = ground arith

try_get_user_info_lem :
    (name : String) (s : Session Tables)
    → let (r, s') = try_get_user_info name s in
      (s'.committed ≡ s.committed)
      × ((o : Option UserInfo) → r ≡ ok o → user_named name s.committed.users ≡ o)
unfolding try_get_user_info select_user run found_or_error
try_get_user_info_lem name s = ground (arith, Option-cases (user_named name s.committed.users))

module _ (hasher : PasswordHasher) (name password : String) where
  -- The user is known with this password, and the table stays; or is new, and is added to it.
  abbrev pub Known : Tables → UserInfo → Tables → Type 0
  Known t user u =
      (user_named name t.users ≡ some user)
      × (hasher.verify_password password user.password_hash ≡ ok true)
      × (u ≡ t)

  abbrev pub Registered : Tables → UserInfo → Tables → Type 0
  Registered t user u =
      (user_named name t.users ≡ none)
      × ((hash : String) × (hasher.hash_password password ≡ ok hash)
          × (user ≡ new_user name hash t)
          × (u ≡ with_user user t))

  abbrev pub SignsIn : Tables → UserInfo → Tables → Type 0
  SignsIn t user u = Known t user u ⊎ Registered t user u

  created-Ended :
      (hash : String)
      → hasher.hash_password password ≡ ok hash
      → (t : Tables) → user_named name t.users ≡ none
      → (r : Result AuthError UserInfo) (u : Tables)
      → Ended (λ t' user u'. insert_user name hash t' ≡ ok (user, u')) t r u
      → Ended SignsIn t r u
  created-Ended hash e t new (ok user) u h =
      let (_, is_new, added) = insert_user_ok name hash t user u h in
      inr (new, (hash, e, is_new, added))
  created-Ended hash e t new (err x) u (inl same) = inl same
  created-Ended hash e t new (err x) u (inr (user, h)) =
      let (_, is_new, added) = insert_user_ok name hash t user u h in
      inr (user, inr (new, (hash, e, is_new, added)))

  hashed-Ended :
      (h : Result AuthError String)
      → hasher.hash_password password ≡ h
      → (s : Session Tables) → user_named name s.committed.users ≡ none
      → let (r, s') = continue (create_user name) h s in Ended SignsIn s.committed r s'.committed
  unfolding create_user
  hashed-Ended (ok hash) e s new =
      let (r, s') = query {D = DomainError} pool (insert_user name hash) s in
      created-Ended hash e s.committed new r s'.committed
        (query-Ended DomainError (insert_user name hash) s)
  hashed-Ended (err x) e s new = inl refl

  checked-Ended :
      (user : UserInfo) (v : Result AuthError Bool)
      → hasher.verify_password password user.password_hash ≡ v
      → (s : Session Tables) → user_named name s.committed.users ≡ some user
      → let (r, s') = continue (λ valid. lift (known_or_mismatch hasher user valid)) v s in
        Ended SignsIn s.committed r s'.committed
  unfolding known_or_mismatch
  checked-Ended user (ok true) e s known = inl (known, e, refl)
  checked-Ended user (ok false) e s known = inl refl
  checked-Ended user (err x) e s known = inl refl

  sign_in-Ended :
      (found : Option UserInfo) (s : Session Tables)
      → user_named name s.committed.users ≡ found
      → let (r, s') = sign_in hasher name password found s in
        Ended SignsIn s.committed r s'.committed
  unfolding sign_in register check_password
  sign_in-Ended none s e = hashed-Ended (hasher.hash_password password) refl s e
  sign_in-Ended (some user) s e =
      checked-Ended user (hasher.verify_password password user.password_hash) refl s e

  module _ (issue_token : ℤ → String → ℕ → Result AuthError String) where
    -- The token is issued for the user that signs in.
    pub record Granted (t : Tables) (token : String) (u : Tables) : Type 0 where
      pub user : UserInfo
      pub signs_in : SignsIn t user u
      pub issued : issue_token user.id user.username token_time_limit ≡ ok token

    -- How a call ends that began at the table `t` and ended at `u`.
    abbrev pub Outcome : Tables → Result AuthError String → Tables → Type 0
    Outcome t (ok token) u = Granted t token u
    Outcome t (err _) u = (u ≡ t) ⊎ ((user : UserInfo) × SignsIn t user u)

    issued-Outcome :
        (user : UserInfo) (t u : Tables)
        → SignsIn t user u
        → (r : Result AuthError String) → issue_token user.id user.username token_time_limit ≡ r
        → Outcome t r u
    issued-Outcome user t u h (ok token) e = record { user = user; signs_in = h; issued = e }
    issued-Outcome user t u h (err x) e = inr (user, h)

    signed-Outcome :
        (t : Tables) (r : Result AuthError UserInfo) (s : Session Tables)
        → Ended SignsIn t r s.committed
        → let (r', s') =
            continue (λ user. lift (issue_token user.id user.username token_time_limit)) r s in
          Outcome t r' s'.committed
    signed-Outcome t (ok user) s h =
        issued-Outcome user t s.committed h (issue_token user.id user.username token_time_limit)
          refl
    signed-Outcome t (err x) s h = h

    found-Outcome :
        (r : Result AuthError (Option UserInfo)) (s : Session Tables)
        → ((o : Option UserInfo) → r ≡ ok o → user_named name s.committed.users ≡ o)
        → let (r', s') =
            continue
              (λ found. sign_in hasher name password found >>= λ user.
                lift (issue_token user.id user.username token_time_limit))
              r
              s in
          Outcome s.committed r' s'.committed
    found-Outcome (ok found) s h =
        let (r, s') = sign_in hasher name password found s in
        signed-Outcome s.committed r s' (sign_in-Ended found s (h found refl))
    found-Outcome (err x) s h = inl refl

    -- Every sign-in ends in one of two ways, whatever the database and the hasher do: with a token
    -- for the user of that name, who is known with that password or has just been registered with
    -- it, or with an error, after which nothing has changed unless that user signed in.
    pub authenticate-Outcome :
        (s : Session Tables)
        → let (r, s') = authenticate hasher issue_token name password s in
          Outcome s.committed r s'.committed
    unfolding authenticate
    authenticate-Outcome s =
        let (r, s') = try_get_user_info name s in
        let (same, found) = try_get_user_info_lem name s in
        subst
          (λ t.
            let (r', s'') =
              continue
                (λ o. sign_in hasher name password o >>= λ user.
                  lift (issue_token user.id user.username token_time_limit))
                r s' in
            Outcome t r' s''.committed)
          same (found-Outcome r s' (λ o e. ap (λ t. user_named name t.users) same ∙ found o e))
