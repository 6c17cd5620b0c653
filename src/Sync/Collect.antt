-- ===== src/Sync/Collect.antt =====
-- What a client that follows the cursors of `pull` receives.
use mathlib.Core.List.{Perm, append_assoc}
use ulutekproje.Common.Result.{ok}
use ulutekproje.Common.{
  ℕ, zero, suc, ◌<◌, ◌≡◌, refl, sym, ap, subst, ◌∙◌, inl, inr, Option, none, some, false, List, [],
  ◌∷◌, ◌++◌, arith, ltb, length, IsDistinct, Bool-cases,
}
use ulutekproje.Sync.Cursor.{
  Text, Codec, IsCodec, encode_cursor, decode_cursor, decode-encode_cursor,
}
use ulutekproje.Sync.Pull.{
  Change, of_user, sort_changes, after_cursor, take, list_changes, next_cursor, page_of, pull_all,
}
use ulutekproje.Sync.Paging.{
  IsIncreasing, ids, sort_changes-IsIncreasing, sort_changes-perm, after_cursor-append, drop,
  take-drop, length-drop, take-take, length-take, take-all,
}

-- The last row of a page, and the cursor that leads behind it.
record Last {A : Type 0} (codec : Codec) (cursor : Option Text) (page : List (Change A))
    : Type 0 where
  init : List (Change A)
  row : Change A
  split : page ≡ init ++ (row ∷ [])
  next : next_cursor codec cursor page ≡ some (encode_cursor codec row.updated_at row.id)

module _ {A : Type 0} where
  page-Last :
      (codec : Codec) (cursor : Option Text) (x : Change A) (xs : List (Change A))
      → Last codec cursor (x ∷ xs)
  unfolding next_cursor
  page-Last codec cursor x [] = record { init = []; row = x; split = refl; next = refl }
  page-Last codec cursor x (y ∷ ys) =
      let l = page-Last codec cursor y ys in
      record { init = x ∷ l.init; row = l.row; split = ap (λ zs. x ∷ zs) (l.split); next = l.next }

  module _ (codec : Codec) (laws : IsCodec codec) (user_id n : ℕ) (table : List (Change A)) where
    all_rows : List (Change A)
    all_rows = sort_changes (of_user user_id table)

    listed_eq :
        (c : Option (ℕ × ℕ)) (rest : List (Change A))
        → after_cursor c all_rows ≡ rest
        → list_changes user_id (suc (suc n)) c table ≡ take (suc (suc n)) rest
    unfolding list_changes all_rows
    listed_eq c rest after = ap (take (suc (suc n))) after

    -- One request, for a client that has yet to see `rest`.
    page_of-rest :
        (cursor : Option Text) (c : Option (ℕ × ℕ)) (rest : List (Change A))
        → decode_cursor codec cursor ≡ ok c
        → after_cursor c all_rows ≡ rest
        → page_of codec user_id cursor (suc n) table
          ≡ ok (record {
            records = take (suc n) rest;
            next_cursor = next_cursor codec cursor (take (suc n) rest);
            has_more = ltb (suc n) (length rest);
          })
    unfolding page_of
    page_of-rest cursor c rest decoded after =
        let listed : list_changes user_id (suc (suc n)) c table ≡ take (suc (suc n)) rest =
          listed_eq c rest after in
        rw (decoded, listed, take-take (suc n) rest, length-take (suc n) rest) refl

    pull_all-rest :
        (rounds : ℕ) (cursor : Option Text) (c : Option (ℕ × ℕ)) (done rest : List (Change A))
        → decode_cursor codec cursor ≡ ok c
        → after_cursor c all_rows ≡ rest
        → all_rows ≡ done ++ rest
        → IsIncreasing all_rows
        → length rest < rounds
        → pull_all rounds codec user_id cursor (suc n) table ≡ ok rest
    unfolding pull_all take drop
    pull_all-rest zero cursor c done rest decoded after whole increasing enough =
        absurd (omega (arith, enough))
    pull_all-rest (suc rounds) cursor c done [] decoded after whole increasing enough =
        let none_left : ltb (suc n) 0 ≡ false = ground arith in
        rw (page_of-rest cursor c [] decoded after, none_left) refl
    pull_all-rest (suc rounds) cursor c done (x ∷ xs) decoded after whole increasing enough =
        let rest = x ∷ xs in
        let served = page_of-rest cursor c rest decoded after in
        elim (Bool-cases (ltb (suc n) (length rest))) [
          | inr last ↦ rw (served, last) (ap ok (take-all (suc n) rest last))
          | inl more ↦
              let l = page-Last codec cursor x (take n xs) in
              let d = drop n xs in
              let pieces : rest ≡ l.init ++ ((l.row) ∷ d) =
                sym (take-drop (suc n) rest)
                ∙ ap (λ ys. ys ++ d) (l.split)
                ∙ append_assoc (l.init) ((l.row) ∷ []) d in
              let whole' : all_rows ≡ (done ++ l.init) ++ ((l.row) ∷ d) =
                whole
                ∙ ap (λ ys. done ++ ys) pieces
                ∙ sym (append_assoc done (l.init) ((l.row) ∷ d)) in
              let after' : after_cursor (some ((l.row).updated_at, (l.row).id)) all_rows ≡ d =
                rw whole' (
                  after_cursor-append (done ++ l.init) (l.row) d
                    (subst IsIncreasing whole' increasing)) in
              let decoded' =
                ap (decode_cursor codec) (l.next)
                ∙ decode-encode_cursor codec (l.row).updated_at (l.row).id laws in
              let seen : all_rows ≡ (done ++ (x ∷ take n xs)) ++ d =
                whole
                ∙ ap (λ ys. done ++ ys) (sym (take-drop (suc n) rest))
                ∙ sym (append_assoc done (x ∷ take n xs) d) in
              let ih =
                pull_all-rest rounds (next_cursor codec cursor (x ∷ take n xs))
                  (some ((l.row).updated_at, (l.row).id)) (done ++ (x ∷ take n xs)) d decoded'
                  after' seen increasing (omega (arith, enough, length-drop n xs)) in
              rw (served, more, ih) (ap ok (take-drop (suc n) rest))
        ]

  after_cursor-none : (xs : List (Change A)) → after_cursor none xs ≡ xs
  unfolding after_cursor
  after_cursor-none [] = refl
  after_cursor-none (x ∷ xs) = ap (λ ys. x ∷ ys) (after_cursor-none xs)

  -- On a table that does not change and whose rows have distinct ids, a client that begins without a
  -- cursor and follows the cursors, with any positive page size, is done after at most one request
  -- more than the user has rows, and has received each of these rows exactly once, in the order of
  -- the server's instants.
  pub pull_all_collects :
      (codec : Codec) (user_id n : ℕ) (table : List (Change A))
      → IsCodec codec
      → IsDistinct (ids (of_user user_id table))
      → (rs : List (Change A)) × (pull_all (suc (length rs)) codec user_id none (suc n) table
          ≡ ok rs)
        × Perm rs (of_user user_id table)
        × IsIncreasing rs
  unfolding decode_cursor all_rows sort_changes
  pull_all_collects codec user_id n table laws distinct =
      let rs = sort_changes (of_user user_id table) in
      let increasing = sort_changes-IsIncreasing (of_user user_id table) distinct in
      (
        rs,
        pull_all-rest codec laws user_id n table (suc (length rs)) none none [] rs refl
            (after_cursor-none rs) refl increasing (omega arith),
        sort_changes-perm (of_user user_id table),
        increasing,
      )
