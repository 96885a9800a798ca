-- ===== src/Apps/Names.antt =====
-- The store's calls of the auth service (internal/store/grpc/auth_adapter.go against
-- internal/auth/grpc/auth_service.go): ids and names come back as the table of users has them.
use merch_store.Base.{
  ℕ, ◌<◌, ◌^◌, ◌≡◌, refl, ap, subst, ◌≤◌, ◌∙◌, Bool, String, none, some, List, [], ◌∷◌, Result, ok,
  err, arith, lookup, insert, int_keys, string_keys, Bool-cases, inl, inr,
}
use merch_store.Base.Int.{ℤ, pos, eqb_ℤ_iff}
use merch_store.Base.Words.{to_int32, to_uint32}
use merch_store.Database.{Session, run}
use merch_store.Auth.Domain.{AuthError, UserInfo}
use merch_store.Auth.Users
use merch_store.Auth.Users.{
  find_user, user_named, select_user, get_user_id, contains, users_with_ids, select_usernames,
  collect_usernames,
}
use merch_store.Auth.Service.{serve_get_user_id, serve_get_usernames, to_proto_usernames}
use merch_store.Auth.Registry
use merch_store.Auth.Return.{user_named_ok}
use merch_store.Auth.Registry.{user_at, IsUnique, AreBelow}
use merch_store.Store.Domain.{StoreError}
use merch_store.Store.AuthAdapter.{
  AuthClient, fetch_user_id, get_username, get_usernames, converted_usernames,
}

abbrev pub raise_auth :
    {A : Type 0} → (AuthError → StoreError) → Result AuthError A → Result StoreError A
raise_auth raise (ok a) = ok a
raise_auth raise (err e) = err (raise e)

-- The client of an auth service in the session `s`; `raise` is how gRPC carries an error over.
abbrev pub client_of : (AuthError → StoreError) → Session Users.Tables → AuthClient
client_of raise s = record {
  get_user_id = λ req. raise_auth raise (serve_get_user_id req s).0;
  get_usernames = λ req. raise_auth raise (serve_get_usernames req s).0;
}

to_int32_small : (n : ℕ) → n < 2 ^ 31 → to_int32 (pos n) ≡ pos n
unfolding to_int32 to_uint32
to_int32_small n lt = ground arith

some-none : {u : UserInfo} → some u ≡ none → ⊥
some-none h = cc

-- A user that is found by any test is the one with its id.
found_by_id :
    (matches : UserInfo → Bool) (us : List UserInfo) (user : UserInfo)
    → IsUnique UserInfo.id us
    → find_user matches us ≡ some user
    → user_at UserInfo.id user.id us ≡ some user
unfolding find_user
found_by_id matches [] user v h = cc
found_by_id matches (u ∷ us) user v h = elim (Bool-cases (matches u)) [
  | inl hit ↦ ground (arith, eqb_ℤ_iff u.id user.id)
  | inr miss ↦
      let found = found_by_id matches us user v.1 (rw miss at h) in
      ground (arith, eqb_ℤ_iff u.id user.id, found, v.0)
]

no_user_with_id :
    (id : ℤ) (us : List UserInfo)
    → user_at UserInfo.id id us ≡ none
    → users_with_ids (id ∷ []) us ≡ []
unfolding find_user users_with_ids contains
no_user_with_id id [] h = refl
no_user_with_id id (u ∷ us) h =
    ground (arith, no_user_with_id id us, eqb_ℤ_iff u.id id, eqb_ℤ_iff id u.id)

one_user_with_id :
    (id : ℤ) (us : List UserInfo) (user : UserInfo)
    → IsUnique UserInfo.id us
    → user_at UserInfo.id id us ≡ some user
    → users_with_ids (id ∷ []) us ≡ user ∷ []
unfolding find_user users_with_ids contains
one_user_with_id id [] user v h = cc
one_user_with_id id (u ∷ us) user v h = ground (
  arith,
  one_user_with_id id us user v.1,
  no_user_with_id id us,
  eqb_ℤ_iff u.id id,
  eqb_ℤ_iff id u.id,
  v.0,
)

below_found :
    (n : ℕ) (matches : UserInfo → Bool) (us : List UserInfo) (user : UserInfo)
    → AreBelow n us
    → find_user matches us ≡ some user
    → (k : ℕ) × (user.id ≡ pos k) × (k < n)
unfolding find_user
below_found n matches [] user v h = cc
below_found n matches (u ∷ us) user (first, v) h = elim (Bool-cases (matches u)) [
  | inl hit ↦
      let same : u ≡ user = ground (arith, hit, h) in
      subst {A = UserInfo} (λ w. (k : ℕ) × (w.id ≡ pos k) × (k < n)) same first
  | inr miss ↦ below_found n matches us user v (rw miss at h)
]

module _ (raise : AuthError → StoreError) (s : Session Users.Tables) (name : String) where
  abbrev client : AuthClient
  client = client_of raise (record s { fates = [] })

  module _ (user : UserInfo) (known : user_named name s.committed.users ≡ some user)
      (small : to_int32 user.id ≡ user.id) where
    known_id : fetch_user_id client name ≡ ok user.id
    unfolding fetch_user_id serve_get_user_id get_user_id run select_user
    known_id = rw (known, small) refl

    known_name :
        users_with_ids (user.id ∷ []) s.committed.users ≡ user ∷ []
        → get_username client user.id ≡ ok user.username
    unfolding get_username get_usernames serve_get_usernames Users.get_usernames run
        select_usernames collect_usernames to_proto_usernames converted_usernames insert lookup
    known_name one = rw (small, one, small, (eqb_ℤ_iff user.id user.id).1 refl) refl

  -- If the auth service's table of users is well formed, its database does not fail and its ids fit
  -- 32 bits, the store's FetchUserID finds the id of every registered user, and GetUsername gives
  -- the user's name for that id.
  pub names_agree :
      (user : UserInfo)
      → Registry.IsValid s.committed
      → s.committed.next_id ≤ 2 ^ 31
      → user_named name s.committed.users ≡ some user
      → (fetch_user_id client name ≡ ok user.id) × (get_username client user.id ≡ ok name)
  names_agree user v small known =
      let (k, is_k, lt) = below_found s.committed.next_id _ s.committed.users user v.below known in
      let fits : to_int32 user.id ≡ user.id = rw is_k (to_int32_small k (omega arith)) in
      let one =
        one_user_with_id user.id s.committed.users user v.ids
          (found_by_id _ s.committed.users user v.ids known) in
      (
        known_id user known fits,
        known_name user known fits one ∙ ap ok (user_named_ok name s.committed.users known),
      )
