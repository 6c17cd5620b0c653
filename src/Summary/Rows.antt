-- ===== src/Summary/Rows.antt =====
-- The arguments that `get_for_group` hands to the debts module: a balance for each user, and the
-- settlements as transfers.
use ulutekproje.Common.Int.{ℤ, ◌+ℤ◌, int_laws}
use ulutekproje.Common.Dict.{Dict, value}
use ulutekproje.Common.Sums.{sum_over}
use ulutekproje.Common.Result.{ok}
use ulutekproje.Common.{
  ℕ, suc, ◌≡◌, refl, ◌∙◌, Bool, true, false, eq-suc, zero-eq_suc, suc-eq_zero, List, [], ◌∷◌, arith,
  ◌==◌, contains, IsDistinct, All, if◌then◌else◌,
}
use ulutekproje.Debts.{DebtBalance, DebtTransfer, make_balance, make_transfer}
use ulutekproje.Debts.Matching.{sent, received}
use ulutekproje.Debts.Booking.{IsWithin}
use ulutekproje.Debts.Validate.{ids, net_total}
use ulutekproje.Debts.Plan.{net_of, IsNamed}
use ulutekproje.Records.{GroupMember, Settlement}
use ulutekproje.Summary.{name_of, expense_balances, settlement_transfers}
use ulutekproje.Summary.Ids.{IsSettlementOf}
use ulutekproje.Summary.Net.{sent_by, received_by, IsPayable}

module _ (members : List GroupMember) (amounts : Dict) where
  abbrev pub rows : List ℕ → List DebtBalance
  rows [] = []
  rows (u ∷ us) =
      record {
        user_id = suc u;
        display_name = name_of u "Silinmiş kullanıcı" members;
        net_amount_in_minor = value u amounts;
      }
      ∷ rows us

  pub expense_balances-rows : (us : List ℕ) → expense_balances members amounts us ≡ ok (rows us)
  unfolding expense_balances make_balance
  expense_balances-rows [] = refl
  expense_balances-rows (u ∷ us) = rw (suc-eq_zero u, expense_balances-rows us)

  pub contains-rows : (u : ℕ) (us : List ℕ) → contains (suc u) (ids (rows us)) ≡ contains u us
  contains-rows u [] = refl
  contains-rows u (k ∷ us) = ground (arith, contains-rows u us)

  pub rows-IsNamed : (us : List ℕ) → IsNamed (rows us)
  rows-IsNamed [] = refl
  rows-IsNamed (u ∷ us) = rw (zero-eq_suc u) (rows-IsNamed us)

  pub rows-IsDistinct : (us : List ℕ) → IsDistinct us → IsDistinct (ids (rows us))
  rows-IsDistinct [] d = tt
  rows-IsDistinct (u ∷ us) d = (contains-rows u us ∙ d.0, rows-IsDistinct us d.1)

  pub net_total-rows : (us : List ℕ) → net_total (rows us) ≡ sum_over us (λ k. value k amounts)
  unfolding sum_over
  net_total-rows [] = refl
  net_total-rows (u ∷ us) = rw (net_total-rows us)

  pub net_of-rows :
      (u : ℕ) (us : List ℕ) → contains u us ≡ true → net_of (suc u) (rows us) ≡ value u amounts
  unfolding value
  net_of-rows u [] h = cc
  net_of-rows u (k ∷ us) h = ground (arith, net_of-rows u us)

-- The transfers of the settlements, the last first.
abbrev pub transfers : List Settlement → List DebtTransfer → List DebtTransfer
transfers [] ts = ts
transfers (s ∷ ss) ts = transfers ss (
    record {
      from_user_id = suc s.from_user_id;
      to_user_id = suc s.to_user_id;
      amount_in_minor = s.amount_in_minor;
    }
    ∷ ts)

pub settlement_transfers-ok :
    (ss : List Settlement) (ts : List DebtTransfer)
    → All IsPayable ss
    → settlement_transfers ss ts ≡ ok (transfers ss ts)
unfolding settlement_transfers
settlement_transfers-ok [] ts h = refl
settlement_transfers-ok (s ∷ ss) ts h = rw (payable s h.0) (settlement_transfers-ok ss _ h.1)
  where
    payable :
        (t : Settlement)
        → IsPayable t
        → make_transfer (suc t.from_user_id) (suc t.to_user_id) t.amount_in_minor
          ≡ ok (record {
            from_user_id = suc t.from_user_id;
            to_user_id = suc t.to_user_id;
            amount_in_minor = t.amount_in_minor;
          })
    payable t p = unfold make_transfer in (ground (arith, p.0, p.1))

regroup :
    (c b : Bool) (a x y : ℤ)
    → c ≡ b
    → x +ℤ (if c then a +ℤ y else y) ≡ (if b then a +ℤ x else x) +ℤ y
regroup c true a x y e = rw e (omega int_laws)
regroup c false a x y e = rw e refl

module _ (u : ℕ) where
  pub sent-transfers :
      (ss : List Settlement) (ts : List DebtTransfer)
      → sent (suc u) (transfers ss ts) ≡ sent_by u ss +ℤ sent (suc u) ts
  unfolding sent sent_by
  sent-transfers [] ts = omega int_laws
  sent-transfers (s ∷ ss) ts =
      sent-transfers ss _
      ∙ regroup (suc u == suc s.from_user_id) (u == s.from_user_id) s.amount_in_minor (sent_by u ss)
          (sent (suc u) ts) (eq-suc u s.from_user_id)

  pub received-transfers :
      (ss : List Settlement) (ts : List DebtTransfer)
      → received (suc u) (transfers ss ts) ≡ received_by u ss +ℤ received (suc u) ts
  unfolding received received_by
  received-transfers [] ts = omega int_laws
  received-transfers (s ∷ ss) ts =
      received-transfers ss _
      ∙ regroup (suc u == suc s.to_user_id) (u == s.to_user_id) s.amount_in_minor (received_by u ss)
          (received (suc u) ts) (eq-suc u s.to_user_id)

pub transfers-IsWithin :
    (us members : List ℕ) (ss : List Settlement) (ts : List DebtTransfer)
    → ((u : ℕ) → contains (suc u) us ≡ contains u members)
    → All (IsSettlementOf members) ss
    → All (IsWithin us) ts
    → All (IsWithin us) (transfers ss ts)
transfers-IsWithin us members [] ts e h w = w
transfers-IsWithin us members (s ∷ ss) ts e h w =
    transfers-IsWithin us members ss _ e h.1 ((e s.from_user_id ∙ h.0.0, e s.to_user_id ∙ h.0.1), w)
