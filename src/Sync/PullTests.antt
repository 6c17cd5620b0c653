-- ===== src/Sync/PullTests.antt =====
-- Pages of two rows, with a codec that shifts every code point past the padding character.
use mathlib.Core.List.{Perm}
use ulutekproje.Common.Result.{ok}
use ulutekproje.Common.{
  ℕ, suc, ◌+◌, ◌-◌, ◌%◌, ◌≡◌, refl, ap, ◌∙◌, Option, none, some, true, false, List, [], ◌∷◌, ◌++◌,
  arith, length, length-append,
}
use ulutekproje.Sync.Cursor.{
  Text, Codec, IsCodec, equals, rstrip_equals, ends_in_equals, missing, encode_cursor,
  decode_cursor, length-equals, rstrip_equals-body, decode-encode_cursor,
}
use ulutekproje.Sync.Pull.{
  Change, of_user, pull_all, page_of, list_changes, sort_changes, insert_change, after_cursor, take,
  next_cursor,
}
use ulutekproje.Sync.Paging.{IsIncreasing}
use ulutekproje.Sync.Collect.{pull_all_collects}

abbrev shift : Text → Text
shift [] = []
shift (c ∷ cs) = (c + 62) ∷ shift cs

abbrev unshift : Text → Text
unshift [] = []
unshift (c ∷ cs) = (c - 62) ∷ unshift cs

abbrev pair_of : Text → Option (ℕ × ℕ)
pair_of [] = none
pair_of (t ∷ []) = none
pair_of (t ∷ i ∷ []) = some (t, i)
pair_of (t ∷ i ∷ c ∷ cs) = none

abbrev shifted : Codec
unfolding equals rstrip_equals
shifted = record {
  dumps = λ t i. t ∷ i ∷ [];
  loads = pair_of;
  b64encode = λ p. shift p ++ equals (missing (shift p));
  b64decode = λ s. some (unshift (rstrip_equals s));
}

unshift-shift : (cs : Text) → unshift (shift cs) ≡ cs
unshift-shift [] = refl
unshift-shift (c ∷ cs) =
    let here : (c + 62) - 62 ≡ c = omega arith in rw here (ap (λ ds. c ∷ ds) (unshift-shift cs))

shift_stops : (cs : Text) → ends_in_equals (shift cs) ≡ false
unfolding ends_in_equals
shift_stops [] = refl
shift_stops (c ∷ []) = ground arith
shift_stops (c ∷ d ∷ ds) = shift_stops (d ∷ ds)

shift_blocks : (p : Text) → length (shift p ++ equals (missing (shift p))) % 4 ≡ 0
shift_blocks p =
    rw (length-append (shift p) (equals (missing (shift p))), length-equals (missing (shift p)))
      (omega arith)

shifted-IsCodec : IsCodec shifted
unfolding equals rstrip_equals
shifted-IsCodec = record {
  json = λ t i. refl;
  base64 = λ p.
      ap (λ s. some (unshift s)) (rstrip_equals-body (shift p) (missing (shift p)) (shift_stops p))
      ∙ ap some (unshift-shift p);
  body = shift;
  padding = λ p. missing (shift p);
  parts = λ p. refl;
  stops = shift_stops;
  short = λ p. omega arith;
  blocks = shift_blocks;
}

decode-encode_cursor_example :
    decode_cursor shifted (some (encode_cursor shifted 7 3)) ≡ ok (some (7, 3))
decode-encode_cursor_example = decode-encode_cursor shifted 7 3 shifted-IsCodec

abbrev change : ℕ → ℕ → ℕ → Change ℕ
change user t i = record { user_id = user; updated_at = t; id = i; selected = true; content = i }

abbrev table : List (Change ℕ)
table = change 1 9 20 ∷ change 2 1 21 ∷ change 1 4 22 ∷ change 1 9 19 ∷ change 1 2 24 ∷ []

pull_all-table :
    pull_all 5 shifted 1 none 2 table
    ≡ ok (change 1 2 24 ∷ change 1 4 22 ∷ change 1 9 19 ∷ change 1 9 20 ∷ [])
unfolding pull_all page_of list_changes of_user sort_changes insert_change after_cursor take
    next_cursor encode_cursor decode_cursor rstrip_equals equals
pull_all-table = refl

pull_all_collects_example :
    (rs : List (Change ℕ)) × (pull_all (suc (length rs)) shifted 1 none 2 table ≡ ok rs)
    × Perm rs (of_user 1 table)
    × IsIncreasing rs
unfolding of_user
pull_all_collects_example =
    pull_all_collects shifted 1 1 table shifted-IsCodec (refl, (refl, (refl, (refl, tt))))
