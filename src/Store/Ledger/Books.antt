-- ===== src/Store/Ledger/Books.antt =====
-- How one more record, and one more change of a balance, moves the books of a user.
use merch_store.Base.{
  ◌≡◌, refl, sym, subst, ◌∙◌, Bool, true, false, Option, none, some, List, [], ◌∷◌, ◌++◌, arith,
  int_keys, if◌then◌else◌, inl, inr, Bool-cases,
}
use merch_store.Base.Int.{ℤ, pos, ◌+ℤ◌, ◌-ℤ◌, eqb_ℤ, eqb_ℤ_iff, int_laws}
use merch_store.Store.Domain.{start_balance}
use merch_store.Store.Tables.{GoodRow, TransactionRow, PurchaseRow, find_good}
use merch_store.Store.Spec.{map_balance}
use merch_store.Store.Ledger.{
  sent_by, received_by, price_of, revenue, good_by_id, spent_by, Books, HasUniqueIds,
}

pub sent_by-append :
    (j : ℤ) (rs : List TransactionRow) (r : TransactionRow)
    → sent_by j (rs ++ r ∷ [])
      ≡ sent_by j rs +ℤ (if eqb_ℤ r.from_user_id j then r.amount else pos 0)
sent_by-append j [] r = grind int_laws
sent_by-append j (q ∷ rs) r = grind (int_laws, sent_by-append j rs r)

pub received_by-append :
    (j : ℤ) (rs : List TransactionRow) (r : TransactionRow)
    → received_by j (rs ++ r ∷ [])
      ≡ received_by j rs +ℤ (if eqb_ℤ r.to_user_id j then r.amount else pos 0)
received_by-append j [] r = grind int_laws
received_by-append j (q ∷ rs) r = grind (int_laws, received_by-append j rs r)

pub spent_by-append :
    (j : ℤ) (goods : List GoodRow) (ps : List PurchaseRow) (p : PurchaseRow)
    → spent_by j goods (ps ++ p ∷ [])
      ≡ spent_by j goods ps
        +ℤ (if eqb_ℤ p.user_id j then price_of (good_by_id p.good_id goods) else pos 0)
spent_by-append j goods [] p = grind int_laws
spent_by-append j goods (q ∷ ps) p = grind (int_laws, spent_by-append j goods ps p)

pub revenue-append :
    (goods : List GoodRow) (ps : List PurchaseRow) (p : PurchaseRow)
    → revenue goods (ps ++ p ∷ []) ≡ revenue goods ps +ℤ price_of (good_by_id p.good_id goods)
revenue-append goods [] p = grind int_laws
revenue-append goods (q ∷ ps) p = grind (int_laws, revenue-append goods ps p)

some-none : {g : GoodRow} → some g ≡ none → ⊥
some-none h = cc

-- A good that is found by any test is the one with its id.
pub find_good-by_id :
    (matches : GoodRow → Bool) (gs : List GoodRow) (g : GoodRow)
    → HasUniqueIds gs
    → find_good matches gs ≡ some g
    → good_by_id g.id gs ≡ some g
unfolding find_good
find_good-by_id matches [] g u h = cc
find_good-by_id matches (x ∷ gs) g u h = elim (Bool-cases (matches x)) [
  | inl hit ↦ ground (arith, eqb_ℤ_iff x.id g.id)
  | inr miss ↦
      let found = find_good-by_id matches gs g u.1 (ground arith) in
      elim (Bool-cases (eqb_ℤ x.id g.id)) [
        | inl same ↦ absurd (
            some-none (
              sym found ∙ subst (λ id. good_by_id id gs ≡ none) ((eqb_ℤ_iff x.id g.id).0 same) u.0))
        | inr other ↦ rw other found
      ]
]

-- One user's books when a transfer takes `amount` from them (`x`) or gives it to them (`y`).
pub Books-transfer :
    (o : Option ℤ) (sent received spent amount : ℤ) (x y : Bool)
    → Books o sent received spent
    → (x ≡ true → y ≡ false)
    → (o ≡ none → (x ≡ false) × (y ≡ false))
    → Books
        (map_balance (λ b. if x then b -ℤ amount else if y then b +ℤ amount else b) o)
        (sent +ℤ (if x then amount else pos 0))
        (received +ℤ (if y then amount else pos 0))
        spent
Books-transfer none sent received spent amount true y b one absent =
    absurd (ground (arith, absent refl))
Books-transfer none sent received spent amount false true b one absent =
    absurd (ground (arith, absent refl))
Books-transfer none sent received spent amount false false b one absent = grind int_laws
Books-transfer (some c) sent received spent amount true true b one absent =
    absurd (ground (arith, one refl))
Books-transfer (some c) sent received spent amount true false b one absent = grind int_laws
Books-transfer (some c) sent received spent amount false true b one absent = grind int_laws
Books-transfer (some c) sent received spent amount false false b one absent = grind int_laws

-- One user's books when a purchase takes `price` from them (`x`).
pub Books-purchase :
    (o : Option ℤ) (sent received spent price : ℤ) (x : Bool)
    → Books o sent received spent
    → (o ≡ none → x ≡ false)
    → Books
        (map_balance (λ b. if x then b -ℤ price else b) o)
        sent
        received
        (spent +ℤ (if x then price else pos 0))
Books-purchase none sent received spent price true b absent = absurd (ground (arith, absent refl))
Books-purchase none sent received spent price false b absent = grind int_laws
Books-purchase (some c) sent received spent price true b absent = grind int_laws
Books-purchase (some c) sent received spent price false b absent = grind int_laws

pub Books-opening :
    (o : Option ℤ) (sent received spent : ℤ) (x : Bool)
    → Books o sent received spent
    → Books
        (elim o [ some b ↦ some b | none ↦ if x then some (pos start_balance) else none ])
        sent
        received
        spent
Books-opening none sent received spent true b = grind int_laws
Books-opening none sent received spent false b = b
Books-opening (some c) sent received spent x b = b
