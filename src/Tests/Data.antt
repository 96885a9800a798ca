-- ===== src/Tests/Data.antt =====
-- Tables, sessions and stand-ins for the libraries that the tests use.
use merch_store.Base.{
  false, String, List, [], ◌∷◌, Result, ok, err, ◌==◌, string_keys, if◌then◌else◌,
}
use merch_store.Base.Int.{ℤ, pos}
use merch_store.Errors.{domain}
use merch_store.Database.{Session, Fate}
use merch_store.Store.Domain.{StoreError, user_not_found}
use merch_store.Store.Tables
use merch_store.Store.Tables.{GoodRow}

abbrev pub goods : List GoodRow
goods =
    record { id = pos 1; name = "t-shirt"; price = pos 80 }
    ∷ record { id = pos 2; name = "cup"; price = pos 20 }
    ∷ []

abbrev pub new_tables : Tables.Tables
new_tables = record { balances = []; goods = goods; transactions = []; purchases = [] }

abbrev pub two_users : Tables.Tables
two_users = record {
  balances = (pos 1, pos 1000) ∷ (pos 2, pos 1000) ∷ [];
  goods = goods;
  transactions = [];
  purchases = [];
}

abbrev pub session : {T : Type 0} → T → List Fate → Session T
session t fates = record { committed = t; work = t; aborted = false; fates = fates }

-- The auth service knows two users.
abbrev pub id_of : String → Result StoreError ℤ
id_of name =
    if name == "alice"
    then ok (pos 1)
    else if name == "bob"
    then ok (pos 2)
    else err (domain (user_not_found name))
