-- ===== src/Auth/Registry.antt =====
-- The table of users over any sequence of sign-ins: names and ids stay unique, and accounts stay.
use merch_store.Base.{
  ℕ, ◌+◌, ◌≡◌, ◌<◌, refl, String, Option, none, some, List, [], ◌∷◌, ◌++◌, Result, ok, err, arith,
  inl, inr, if◌then◌else◌, string_keys, int_keys, HasKeys, same_refl,
}
use merch_store.Base.Int.{ℤ, pos, eqb_ℤ_iff}
use merch_store.Database.{Session}
use merch_store.Auth.Domain.{AuthError, UserInfo, PasswordHasher}
use merch_store.Auth.Users.{Tables, find_user, user_named}
use merch_store.Auth.Authenticator.{authenticate}
use merch_store.Auth.Accounts.{SignsIn, Outcome, authenticate-Outcome}

-- Rows found by a column that has an equality test.
module _ {K : Type 0} ⦃e : HasKeys K⦄ (key : UserInfo → K) where
  abbrev pub user_at : K → List UserInfo → Option UserInfo
  user_at k = find_user (λ u. e.same (key u) k)

  abbrev pub IsUnique : List UserInfo → Type 0
  IsUnique [] = Unit
  IsUnique (u ∷ us) = (user_at (key u) us ≡ none) × IsUnique us

  user_at-append :
      (k : K) (user : UserInfo) (us : List UserInfo)
      → user_at k (us ++ user ∷ []) ≡ elim (user_at k us) [
        | some u ↦ some u
        | none ↦ if e.same (key user) k then some user else none
      ]
  unfolding find_user
  user_at-append k user [] = refl
  user_at-append k user (u ∷ us) = ground (arith, user_at-append k user us)

  IsUnique-append :
      (user : UserInfo) (us : List UserInfo)
      → IsUnique us
      → user_at (key user) us ≡ none
      → IsUnique (us ++ user ∷ [])
  unfolding find_user
  IsUnique-append user [] v new = (refl, tt)
  IsUnique-append user (u ∷ us) v new = (
    ground (
      arith,
      user_at-append (key u) user us,
      e.same_iff (key u) (key user),
      e.same_iff (key user) (key u),
    ),
    IsUnique-append user us v.1 (ground arith),
  )

-- The ids come from the sequence.
abbrev pub AreBelow : ℕ → List UserInfo → Type 0
AreBelow n [] = Unit
AreBelow n (u ∷ us) = ((k : ℕ) × (u.id ≡ pos k) × (k < n)) × AreBelow n us

AreBelow-append :
    (n : ℕ) (user : UserInfo) (us : List UserInfo)
    → AreBelow n us
    → user.id ≡ pos n
    → AreBelow (n + 1) (us ++ user ∷ [])
AreBelow-append n user [] v e = ((n, e, omega arith), tt)
AreBelow-append n user (u ∷ us) ((k, is_k, lt), v) e =
    ((k, is_k, omega arith), AreBelow-append n user us v e)

below_fresh : (n : ℕ) (us : List UserInfo) → AreBelow n us → user_at UserInfo.id (pos n) us ≡ none
unfolding find_user
below_fresh n [] v = refl
below_fresh n (u ∷ us) ((k, is_k, lt), v) =
    ground (arith, below_fresh n us v, eqb_ℤ_iff u.id (pos n))

-- What migrations/auth promises of `users`: usernames are UNIQUE, and so are the ids.
pub record IsValid (t : Tables) : Type 0 where
  pub names : IsUnique UserInfo.username t.users
  pub ids : IsUnique UserInfo.id t.users
  pub below : AreBelow t.next_id t.users

-- A sign-in leaves the accounts that are there as they are.
abbrev pub Keeps : Tables → Tables → Type 0
Keeps t u =
    (name : String) (user : UserInfo)
    → user_named name t.users ≡ some user
    → user_named name u.users ≡ some user

module _ (hasher : PasswordHasher) (name password : String) (t u : Tables) (user : UserInfo)
    (h : SignsIn hasher name password t user u) where
  SignsIn-IsValid : IsValid t → IsValid u
  SignsIn-IsValid v = elim h [
    | inl (_, _, same) ↦ rw same v
    | inr (new, (hash, _, is_new, added)) ↦ rw added (record {
      names = IsUnique-append UserInfo.username user t.users v.names (rw is_new new);
      ids =
          IsUnique-append UserInfo.id user t.users v.ids
            (rw is_new (below_fresh t.next_id t.users v.below));
      below = AreBelow-append t.next_id user t.users v.below (rw is_new refl);
    })
  ]

  SignsIn-Keeps : Keeps t u
  SignsIn-Keeps other known e = elim h [
    | inl (_, _, same) ↦ rw same e
    | inr (new, (hash, _, is_new, added)) ↦
        rw (added, user_at-append UserInfo.username other user t.users, e) refl
  ]

  pub SignsIn_named : user_named name u.users ≡ some user
  SignsIn_named = elim h [
    | inl (known, _, same) ↦ rw same known
    | inr (new, (hash, _, is_new, added)) ↦
        rw (added, user_at-append UserInfo.username name user t.users, new, is_new, same_refl name)
          refl
  ]

module _ (hasher : PasswordHasher) (issue_token : ℤ → String → ℕ → Result AuthError String) where
  -- The tables after a sequence of sign-ins; the results go to the clients.
  unfoldable pub sign_in_all : List (String × String) → Session Tables → Session Tables
  sign_in_all [] s = s
  sign_in_all ((name, password) ∷ rest) s =
      sign_in_all rest (authenticate hasher issue_token name password s).1

  pub Outcome-kept :
      (name password : String) (t : Tables) (r : Result AuthError String) (u : Tables)
      → Outcome hasher name password issue_token t r u
      → IsValid t
      → IsValid u × Keeps t u
  Outcome-kept name password t (ok token) u o v = (
    SignsIn-IsValid hasher name password t u o.user o.signs_in v,
    SignsIn-Keeps hasher name password t u o.user o.signs_in,
  )
  Outcome-kept name password t (err x) u (inl same) v = (rw same v, λ other known e. rw same e)
  Outcome-kept name password t (err x) u (inr (user, h)) v = (
    SignsIn-IsValid hasher name password t u user h v,
    SignsIn-Keeps hasher name password t u user h,
  )

  -- If usernames and ids are unique, and the ids come from the sequence, they are so after any
  -- sequence of sign-ins, whatever the database does, and every account that was there is there
  -- unchanged.
  pub sign_in_all_kept :
      (logins : List (String × String)) (s : Session Tables)
      → IsValid s.committed
      → IsValid (sign_in_all logins s).committed
        × Keeps s.committed (sign_in_all logins s).committed
  unfolding sign_in_all
  sign_in_all_kept [] s v = (v, λ name user e. e)
  sign_in_all_kept ((name, password) ∷ rest) s v =
      let (r, s') = authenticate hasher issue_token name password s in
      let (v', kept) =
        Outcome-kept name password s.committed r s'.committed
          (authenticate-Outcome hasher name password issue_token s) v in
      let (v'', kept') = sign_in_all_kept rest s' v' in
      (v'', λ other user e. kept' other user (kept other user e))
