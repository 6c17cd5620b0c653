-- ===== src/Summary/Aggregate/Agree.antt =====
-- The grouped sums beside the balance that the debt summary of each group shows.
use ulutekproje.Common.Int.{ℤ, pos, ◌+ℤ◌, ◌-ℤ◌, int_laws, parts_of_eq}
use ulutekproje.Common.Dict.{
  Dict, keys, value, add_default, value-add_default, add_default-IsDistinct, sum_at,
  value-eq-sum_at, value-absent,
}
use ulutekproje.Common.{
  ℕ, ◌≡◌, refl, Bool, true, false, ◌&&◌, List, [], ◌∷◌, arith, ◌==◌, ==_iff, contains, IsDistinct,
  is_none, if◌then◌else◌,
}
use ulutekproje.Records.{GroupExpense, Settlement, Database, list_expenses, list_settlements}
use ulutekproje.Summary.Net.{share_in, paid_by, owed_by, sent_by, received_by, group_net}
use ulutekproje.Summary.Aggregate.{
  paid_rows, joined_shares, share_rows, settlement_paid_rows, settlement_received_rows, add_rows,
  subtract_rows, get_group_net_balances,
}

value-add_rows : (g : ℕ) (rows d : Dict) → value g (add_rows d rows) ≡ value g d +ℤ sum_at g rows
unfolding add_rows sum_at
value-add_rows g [] d = omega int_laws
value-add_rows g ((k, v) ∷ rows) d =
    let d' = add_default k v d in
    step (g == k) (value g d) (value g d') (value g (add_rows d' rows)) v (sum_at g rows)
      (value-add_default g k v d) (value-add_rows g rows d')
  where
    step :
        (b : Bool) (x y z v s : ℤ)
        → y ≡ (if b then x +ℤ v else x)
        → z ≡ y +ℤ s
        → z ≡ x +ℤ (if b then v +ℤ s else s)
    step true x y z v s e h = omega (int_laws, parts_of_eq e, parts_of_eq h)
    step false x y z v s e h = omega (int_laws, parts_of_eq e, parts_of_eq h)

value-subtract_rows :
    (g : ℕ) (rows d : Dict) → value g (subtract_rows d rows) ≡ value g d -ℤ sum_at g rows
unfolding subtract_rows sum_at
value-subtract_rows g [] d = omega int_laws
value-subtract_rows g ((k, v) ∷ rows) d =
    let d' = add_default k (pos 0 -ℤ v) d in
    step (g == k) (value g d) (value g d') (value g (subtract_rows d' rows)) v (sum_at g rows)
      (value-add_default g k (pos 0 -ℤ v) d) (value-subtract_rows g rows d')
  where
    step :
        (b : Bool) (x y z v s : ℤ)
        → y ≡ (if b then x +ℤ (pos 0 -ℤ v) else x)
        → z ≡ y -ℤ s
        → z ≡ x -ℤ (if b then v +ℤ s else s)
    step true x y z v s e h = omega (int_laws, parts_of_eq e, parts_of_eq h)
    step false x y z v s e h = omega (int_laws, parts_of_eq e, parts_of_eq h)

module _ (u g : ℕ) (gs : List ℕ) (asked : contains g gs ≡ true) where
  asked_group : (k : ℕ) → (k == g) ≡ true → contains k gs ≡ true
  asked_group k e = rw ((==_iff k g).0 e) asked

  -- A row of another group leaves the group's sum alone.
  row_sum :
      (k : ℕ) (v : ℤ) (wanted : Bool) (rows : Dict)
      → value g (if contains k gs && wanted then add_default k v rows else rows)
        ≡ value g rows +ℤ (if k == g && wanted then v else pos 0)
  row_sum k v wanted rows = grind (int_laws, value-add_default g k v rows, asked_group k)

  paid_step :
      (e : GroupExpense) (es : List GroupExpense)
      → paid_by u (list_expenses g (e ∷ es))
        ≡ (if e.group_id == g && (e.payer_user_id == u && is_none e.deleted_at)
            then e.total_amount_in_minor
            else pos 0)
          +ℤ paid_by u (list_expenses g es)
  unfolding paid_by list_expenses
  paid_step e es = grind int_laws

  value-paid_rows :
      (es : List GroupExpense) (rows : Dict)
      → value g (paid_rows u gs es rows) ≡ value g rows +ℤ paid_by u (list_expenses g es)
  unfolding paid_rows paid_by list_expenses
  value-paid_rows [] rows = omega int_laws
  value-paid_rows (e ∷ es) rows =
      let wanted = e.payer_user_id == u && is_none e.deleted_at in
      let rows' =
        if contains e.group_id gs && wanted
        then add_default e.group_id e.total_amount_in_minor rows
        else rows in
      omega (
        int_laws,
        parts_of_eq (value-paid_rows es rows'),
        parts_of_eq (row_sum e.group_id e.total_amount_in_minor wanted rows),
        parts_of_eq (paid_step e es),
      )

  settlement_steps :
      (s : Settlement) (ss : List Settlement)
      → (sent_by u (list_settlements g (s ∷ ss))
          ≡ (if s.group_id == g && s.from_user_id == u then s.amount_in_minor else pos 0)
            +ℤ sent_by u (list_settlements g ss))
        × (received_by u (list_settlements g (s ∷ ss))
            ≡ (if s.group_id == g && s.to_user_id == u then s.amount_in_minor else pos 0)
              +ℤ received_by u (list_settlements g ss))
  unfolding sent_by received_by list_settlements
  settlement_steps s ss = (grind int_laws, grind int_laws)

  value-settlement_paid_rows :
      (ss : List Settlement) (rows : Dict)
      → value g (settlement_paid_rows u gs ss rows)
        ≡ value g rows +ℤ sent_by u (list_settlements g ss)
  unfolding settlement_paid_rows sent_by list_settlements
  value-settlement_paid_rows [] rows = omega int_laws
  value-settlement_paid_rows (s ∷ ss) rows =
      let wanted = s.from_user_id == u in
      let rows' =
        if contains s.group_id gs && wanted
        then add_default s.group_id s.amount_in_minor rows
        else rows in
      omega (
        int_laws,
        parts_of_eq (value-settlement_paid_rows ss rows'),
        parts_of_eq (row_sum s.group_id s.amount_in_minor wanted rows),
        parts_of_eq (settlement_steps s ss).0,
      )

  value-settlement_received_rows :
      (ss : List Settlement) (rows : Dict)
      → value g (settlement_received_rows u gs ss rows)
        ≡ value g rows +ℤ received_by u (list_settlements g ss)
  unfolding settlement_received_rows received_by list_settlements
  value-settlement_received_rows [] rows = omega int_laws
  value-settlement_received_rows (s ∷ ss) rows =
      let wanted = s.to_user_id == u in
      let rows' =
        if contains s.group_id gs && wanted
        then add_default s.group_id s.amount_in_minor rows
        else rows in
      omega (
        int_laws,
        parts_of_eq (value-settlement_received_rows ss rows'),
        parts_of_eq (row_sum s.group_id s.amount_in_minor wanted rows),
        parts_of_eq (settlement_steps s ss).1,
      )

  -- The joined shares of one expense count for its own group.
  value-joined_shares :
      (k : ℕ) (ss : List (ℕ × ℤ)) (rows : Dict)
      → value g (joined_shares u gs k ss rows)
        ≡ value g rows +ℤ (if k == g then share_in u ss else pos 0)
  unfolding joined_shares share_in
  value-joined_shares k [] rows = grind int_laws
  value-joined_shares k ((j, v) ∷ ss) rows =
      let rows' = if j == u then add_default k v rows else rows in
      step (k == g) (u == j) (j == u) (value g rows) (value g rows')
        (value g (joined_shares u gs k ss rows')) v (share_in u ss) (swapped u j) added
        (value-joined_shares k ss rows')
    where
      swapped : (a b : ℕ) → (b == a) ≡ (a == b)
      swapped a b = ground arith

      added :
          value g (if j == u then add_default k v rows else rows)
          ≡ (if j == u then (if k == g then value g rows +ℤ v else value g rows) else value g rows)
      added = ground (arith, value-add_default g k v rows)

      step :
          (c b b' : Bool) (x y z v s : ℤ)
          → b' ≡ b
          → y ≡ (if b' then (if c then x +ℤ v else x) else x)
          → z ≡ y +ℤ (if c then s else pos 0)
          → z ≡ x +ℤ (if c then (if b then v +ℤ s else s) else pos 0)
      step c b b' x y z v s d e h = grind (int_laws, parts_of_eq e, parts_of_eq h)

  owed_step :
      (e : GroupExpense) (es : List GroupExpense)
      → owed_by u (list_expenses g (e ∷ es))
        ≡ (if e.group_id == g && is_none e.deleted_at then share_in u e.shares else pos 0)
          +ℤ owed_by u (list_expenses g es)
  unfolding owed_by list_expenses
  owed_step e es = grind int_laws

  value-share_rows :
      (es : List GroupExpense) (rows : Dict)
      → value g (share_rows u gs es rows) ≡ value g rows +ℤ owed_by u (list_expenses g es)
  unfolding share_rows owed_by list_expenses
  value-share_rows [] rows = omega int_laws
  value-share_rows (e ∷ es) rows =
      let rows' =
        if contains e.group_id gs && is_none e.deleted_at
        then joined_shares u gs e.group_id e.shares rows
        else rows in
      omega (
        int_laws,
        parts_of_eq (value-share_rows es rows'),
        parts_of_eq (joined_sum e.group_id e.shares (is_none e.deleted_at) rows),
        parts_of_eq (owed_step e es),
      )
    where
      joined_sum :
          (k : ℕ) (ss : List (ℕ × ℤ)) (wanted : Bool) (rows : Dict)
          → value g (if contains k gs && wanted then joined_shares u gs k ss rows else rows)
            ≡ value g rows +ℤ (if k == g && wanted then share_in u ss else pos 0)
      joined_sum k ss wanted rows = grind (int_laws, value-joined_shares k ss rows, asked_group k)

-- The dicts of the queries have distinct keys.
added_or_kept :
    (b : Bool) (k : ℕ) (v : ℤ) (rows : Dict)
    → IsDistinct (keys rows)
    → IsDistinct (keys (if b then add_default k v rows else rows))
added_or_kept true k v rows d = add_default-IsDistinct k v rows d
added_or_kept false k v rows d = d

module _ (u : ℕ) (gs : List ℕ) where
  paid_rows-IsDistinct :
      (es : List GroupExpense) (rows : Dict)
      → IsDistinct (keys rows)
      → IsDistinct (keys (paid_rows u gs es rows))
  unfolding paid_rows
  paid_rows-IsDistinct [] rows d = d
  paid_rows-IsDistinct (e ∷ es) rows d = paid_rows-IsDistinct es _ (added_or_kept _ _ _ rows d)

  joined_shares-IsDistinct :
      (k : ℕ) (ss : List (ℕ × ℤ)) (rows : Dict)
      → IsDistinct (keys rows)
      → IsDistinct (keys (joined_shares u gs k ss rows))
  unfolding joined_shares
  joined_shares-IsDistinct k [] rows d = d
  joined_shares-IsDistinct k ((j, v) ∷ ss) rows d =
      joined_shares-IsDistinct k ss _ (added_or_kept (j == u) k v rows d)

  share_rows-IsDistinct :
      (es : List GroupExpense) (rows : Dict)
      → IsDistinct (keys rows)
      → IsDistinct (keys (share_rows u gs es rows))
  unfolding share_rows
  share_rows-IsDistinct [] rows d = d
  share_rows-IsDistinct (e ∷ es) rows d =
      share_rows-IsDistinct es _ (joined_or_kept (contains e.group_id gs && is_none e.deleted_at))
    where
      joined_or_kept :
          (b : Bool)
          → IsDistinct (keys (if b then joined_shares u gs e.group_id e.shares rows else rows))
      joined_or_kept true = joined_shares-IsDistinct e.group_id e.shares rows d
      joined_or_kept false = d

  settlement_paid_rows-IsDistinct :
      (ss : List Settlement) (rows : Dict)
      → IsDistinct (keys rows)
      → IsDistinct (keys (settlement_paid_rows u gs ss rows))
  unfolding settlement_paid_rows
  settlement_paid_rows-IsDistinct [] rows d = d
  settlement_paid_rows-IsDistinct (s ∷ ss) rows d =
      settlement_paid_rows-IsDistinct ss _ (added_or_kept _ _ _ rows d)

  settlement_received_rows-IsDistinct :
      (ss : List Settlement) (rows : Dict)
      → IsDistinct (keys rows)
      → IsDistinct (keys (settlement_received_rows u gs ss rows))
  unfolding settlement_received_rows
  settlement_received_rows-IsDistinct [] rows d = d
  settlement_received_rows-IsDistinct (s ∷ ss) rows d =
      settlement_received_rows-IsDistinct ss _ (added_or_kept _ _ _ rows d)

-- For every group that is asked for, the dict reads the user's net balance in the group: paid less
-- owed, settlements applied, over the rows that the group's debt summary is made of.
pub get_group_net_balances-eq-group_net :
    (u g : ℕ) (gs : List ℕ) (db : Database)
    → contains g gs ≡ true
    → value g (get_group_net_balances u gs db)
      ≡ group_net u (list_expenses g db.expenses) (list_settlements g db.settlements)
unfolding get_group_net_balances
get_group_net_balances-eq-group_net u g [] db h = cc
get_group_net_balances-eq-group_net u g (k ∷ ks) db h =
    let gs = k ∷ ks in
    let paid = paid_rows u gs db.expenses [] in
    let shared = share_rows u gs db.expenses [] in
    let sent = settlement_paid_rows u gs db.settlements [] in
    let received = settlement_received_rows u gs db.settlements [] in
    let t₁ = add_rows [] paid in
    let t₂ = subtract_rows t₁ shared in
    let t₃ = add_rows t₂ sent in
    omega (
      int_laws,
      parts_of_eq (value-absent g [] refl),
      parts_of_eq (value-add_rows g paid []),
      parts_of_eq (value-subtract_rows g shared t₁),
      parts_of_eq (value-add_rows g sent t₂),
      parts_of_eq (value-subtract_rows g received t₃),
      parts_of_eq (value-eq-sum_at g paid (paid_rows-IsDistinct u gs db.expenses [] tt)),
      parts_of_eq (value-eq-sum_at g shared (share_rows-IsDistinct u gs db.expenses [] tt)),
      parts_of_eq
          (value-eq-sum_at g sent (settlement_paid_rows-IsDistinct u gs db.settlements [] tt)),
      parts_of_eq (
          value-eq-sum_at g received
            (settlement_received_rows-IsDistinct u gs db.settlements [] tt)),
      parts_of_eq (value-paid_rows u g gs h db.expenses []),
      parts_of_eq (value-share_rows u g gs h db.expenses []),
      parts_of_eq (value-settlement_paid_rows u g gs h db.settlements []),
      parts_of_eq (value-settlement_received_rows u g gs h db.settlements []),
    )
