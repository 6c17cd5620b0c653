-- ===== src/Sync/Cursor.antt =====
-- `encode_cursor` and `decode_cursor` of backend/app/services/sync_service.py. A text is its code
-- points. JSON with ISO instants and UUIDs, and URL-safe base64, are parameters.
use ulutekproje.Common.Result.{Result, ok, err}
use ulutekproje.Common.{
  ℕ, zero, suc, ◌+◌, ◌-◌, ◌%◌, ◌<◌, ◌≡◌, refl, sym, ap, ◌∙◌, Option, none, some, Bool, false, List,
  [], ◌∷◌, ◌++◌, arith, ◌==◌, length, length-append, if◌then◌else◌,
}

abbrev pub Text : Type 0
Text = List ℕ

-- `dumps` and `loads` with the conversions around them, `urlsafe_b64encode` and `urlsafe_b64decode`;
-- `none` is an exception that `decode_cursor` turns into its own.
pub record Codec : Type 0 where
  pub dumps : ℕ → ℕ → Text
  pub loads : Text → Option (ℕ × ℕ)
  pub b64encode : Text → Text
  pub b64decode : Text → Option Text

-- `InvalidSyncCursor`, and the model's own `out_of_rounds` for a client that has stopped too early.
pub data CursorError : Type 0 where
  invalid_cursor out_of_rounds : CursorError

-- `"=" * k`
unfoldable pub equals : ℕ → Text
equals zero = []
equals (suc k) = 61 ∷ equals k

-- `rstrip("=")`
unfoldable pub rstrip_equals : Text → Text
rstrip_equals [] = []
rstrip_equals (c ∷ cs) =
    let rest = rstrip_equals cs in
    elim rest [ [] ↦ (if c == 61 then [] else c ∷ []) | r ∷ rs ↦ c ∷ r ∷ rs ]

unfoldable pub encode_cursor : Codec → ℕ → ℕ → Text
unfolding rstrip_equals
encode_cursor codec updated_at record_id =
    rstrip_equals (codec.b64encode (codec.dumps updated_at record_id))

-- `-len(cursor) % 4`
abbrev pub missing : Text → ℕ
missing cursor = (4 - length cursor % 4) % 4

abbrev pub parsed : Codec → Option Text → Result CursorError (Option (ℕ × ℕ))
parsed codec none = err invalid_cursor
parsed codec (some text) = elim (codec.loads text) [
  | none ↦ err invalid_cursor
  | some key ↦ ok (some key)
]

-- `none` is the answer `(None, None)`.
unfoldable pub decode_cursor : Codec → Option Text → Result CursorError (Option (ℕ × ℕ))
unfolding equals
decode_cursor codec none = ok none
decode_cursor codec (some cursor) =
    parsed codec (codec.b64decode (cursor ++ equals (missing cursor)))

-- Whether a text ends in "=".
unfoldable pub ends_in_equals : Text → Bool
ends_in_equals [] = false
ends_in_equals (c ∷ cs) = elim cs [ [] ↦ c == 61 | d ∷ ds ↦ ends_in_equals cs ]

-- What the two libraries document: decoding undoes encoding, and base64 gives a multiple of four
-- characters, of which fewer than four are padding at the end.
pub record IsCodec (codec : Codec) : Type 0 where
  pub json : (t i : ℕ) → codec.loads (codec.dumps t i) ≡ some (t, i)
  pub base64 : (p : Text) → codec.b64decode (codec.b64encode p) ≡ some p
  pub body : Text → Text
  pub padding : Text → ℕ
  pub parts : (p : Text) → codec.b64encode p ≡ body p ++ equals (padding p)
  pub stops : (p : Text) → ends_in_equals (body p) ≡ false
  pub short : (p : Text) → padding p < 4
  pub blocks : (p : Text) → length (codec.b64encode p) % 4 ≡ 0

pub length-equals : (k : ℕ) → length (equals k) ≡ k
unfolding equals
length-equals zero = refl
length-equals (suc k) = ap suc (length-equals k)

rstrip_equals-equals : (k : ℕ) → rstrip_equals (equals k) ≡ []
unfolding rstrip_equals equals
rstrip_equals-equals zero = refl
rstrip_equals-equals (suc k) = cc (rstrip_equals-equals k)

pub rstrip_equals-body :
    (cs : Text) (k : ℕ) → ends_in_equals cs ≡ false → rstrip_equals (cs ++ equals k) ≡ cs
unfolding rstrip_equals ends_in_equals
rstrip_equals-body [] k h = rstrip_equals-equals k
rstrip_equals-body (c ∷ []) k h = cc (rstrip_equals-equals k, h)
rstrip_equals-body (c ∷ d ∷ ds) k h = cc (rstrip_equals-body (d ∷ ds) k h)

-- The cursor of an instant and an id is read as that instant and id: the padding that the encoding
-- strips is put back.
pub decode-encode_cursor :
    (codec : Codec) (t i : ℕ)
    → IsCodec codec
    → decode_cursor codec (some (encode_cursor codec t i)) ≡ ok (some (t, i))
unfolding encode_cursor decode_cursor
decode-encode_cursor codec t i laws =
    let p = codec.dumps t i in
    let b = laws.body p in
    let k = laws.padding p in
    let stripped : rstrip_equals (codec.b64encode p) ≡ b =
      ap rstrip_equals (laws.parts p) ∙ rstrip_equals-body b k (laws.stops p) in
    let whole : length b + k ≡ length (codec.b64encode p) = sym (
      ap length (laws.parts p)
      ∙ length-append b (equals k)
      ∙ ap (λ n. length b + n) (length-equals k)) in
    let restored : missing b ≡ k = omega (arith, whole, laws.short p, laws.blocks p) in
    let padded : b ++ equals (missing b) ≡ codec.b64encode p =
      ap (λ n. b ++ equals n) restored ∙ sym (laws.parts p) in
    let read : parsed codec (some p) ≡ ok (some (t, i)) = cc (laws.json t i) in
    rw (stripped, padded, laws.base64 p) read
