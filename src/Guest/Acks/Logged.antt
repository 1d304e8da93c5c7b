-- ===== src/Guest/Acks/Logged.antt =====
-- crates/hand-guest/src/acks.rs: the log behind a store: the entries that are durable, the entry
-- whose sync is uncertain, and what stands behind them in the file.
use text.Mathlib.TextEquality.{eq_iff}
use hands.Base.{
  ℕ, ◌≡◌, refl, sym, ap, ◌∙◌, ◌≢◌, ◌⊎◌, inl, inr, String, true, some, List, [], ◌∷◌, ◌++◌, arith,
  Option-cases,
}
use hands.Base.Result.{Result, ok, ◌>>=◌, Result-cases}
use hands.Base.Map
use hands.Base.Map.{Map, string_eq}
use hands.Guest.LogFile.{is_newline_free, append_assoc}
use hands.Guest.Acks.{Acknowledged, same_ack, AckError, AckCodec, validate, Index, load}

-- An entry of the log with its line.
abbrev pub Entry : Type 0
Entry = Acknowledged × List ℕ

abbrev pub bytes_of : List Entry → List ℕ
bytes_of [] = []
bytes_of ((a, line) ∷ log) = line ++ b'\n' ∷ bytes_of log

abbrev pub Holds : Acknowledged → List Entry → Type 0
Holds a [] = ⊥
Holds a ((b, line) ∷ log) = (b ≡ a) ⊎ Holds a log

pub Holds-append : (a : Acknowledged) (xs ys : List Entry) → Holds a xs → Holds a (xs ++ ys)
Holds-append a ((b, line) ∷ xs) ys (inl e) = inl e
Holds-append a ((b, line) ∷ xs) ys (inr h) = inr (Holds-append a xs ys h)
Holds-append a [] ys h = elim h [ ]

pub Holds-last :
    (a : Acknowledged) (line : List ℕ) (xs : List Entry) → Holds a (xs ++ (a, line) ∷ [])
Holds-last a line [] = inl refl
Holds-last a line ((b, l) ∷ xs) = inr (Holds-last a line xs)

pub bytes_of-append : (xs ys : List Entry) → bytes_of (xs ++ ys) ≡ bytes_of xs ++ bytes_of ys
bytes_of-append [] ys = refl
bytes_of-append ((a, line) ∷ xs) ys =
    ap (λ rest. line ++ b'\n' ∷ rest) (bytes_of-append xs ys)
    ∙ sym (append_assoc line (b'\n' ∷ bytes_of xs) (bytes_of ys))

pub same_ack_sound : (a b : Acknowledged) → same_ack a b ≡ true → a ≡ b
unfolding same_ack
same_ack_sound a b h = ground (
  arith,
  eq_iff a.operation_id b.operation_id,
  eq_iff a.request_digest b.request_digest,
  eq_iff a.operation_ref_digest b.operation_ref_digest,
  eq_iff a.terminal_digest b.terminal_digest,
)

module _ {Ref : Type 0} (codec : AckCodec Ref) where
  abbrev pub IsEncoded : Entry → Type 0
  IsEncoded (a, line) = codec.to_vec a ≡ some line

  -- What the code relies on of JSON: the text of a record is on one line and reads back.
  abbrev pub IsFaithful : Type 0
  IsFaithful =
      (a : Acknowledged) (line : List ℕ)
      → codec.to_vec a ≡ some line
      → (codec.from_slice line ≡ some a) × (is_newline_free line ≡ true) × (line ≢ [])

  -- The index after the entries of a log.
  abbrev pub load_all : List Entry → Index codec → Result AckError (Index codec)
  load_all [] records = ok records
  load_all ((a, line) ∷ log) records = load codec a records >>= load_all log

  pub load_all-append :
      (xs ys : List Entry) (records : Index codec)
      → load_all (xs ++ ys) records ≡ (load_all xs records >>= load_all ys)
  load_all-append [] ys records = refl
  load_all-append ((a, line) ∷ xs) ys records = elim (Result-cases (load codec a records)) [
    | inr (e, p) ↦ ground arith
    | inl (after, p) ↦ ground (arith, load_all-append xs ys after)
  ]

  -- A record that the index holds is in every later index.
  load_keeps :
      (a : Acknowledged) (records after : Index codec) (k : String) (x : Acknowledged)
      → load codec a records ≡ ok after
      → Map.get k records ≡ some x
      → Map.get k after ≡ some x
  unfolding load
  load_keeps a records after k x h g = elim (Option-cases (Map.get a.operation_id records)) [
    | inl p ↦ elim (Result-cases (validate a)) [
      | inr (e, q) ↦ absurd (ground arith)
      | inl (u, q) ↦
          ground (arith, Map.get-insert a.operation_id k a records, eq_iff a.operation_id k)
    ]
    | inr (y, p) ↦ ground arith
  ]

  load_all_keeps :
      (log : List Entry) (records after : Index codec) (k : String) (x : Acknowledged)
      → load_all log records ≡ ok after
      → Map.get k records ≡ some x
      → Map.get k after ≡ some x
  load_all_keeps [] records after k x h g = ground arith
  load_all_keeps ((a, line) ∷ log) records after k x h g =
      elim (Result-cases (load codec a records)) [
        | inr (e, p) ↦ absurd (ground arith)
        | inl (next, p) ↦
            ground (arith, load_all_keeps log next after k x, load_keeps a records next k x p g)
      ]

  load_finds :
      (a : Acknowledged) (records after : Index codec)
      → load codec a records ≡ ok after
      → Map.get a.operation_id after ≡ some a
  unfolding load
  load_finds a records after h = elim (Option-cases (Map.get a.operation_id records)) [
    | inl p ↦ ground (
      arith,
      Map.get-insert a.operation_id a.operation_id a records,
      eq_iff a.operation_id a.operation_id,
    )
    | inr (y, p) ↦ ground (arith, same_ack_sound y a)
  ]

  -- Every entry of a log is in its index.
  pub load_all_finds :
      (log : List Entry) (records after : Index codec) (a : Acknowledged)
      → load_all log records ≡ ok after
      → Holds a log
      → Map.get a.operation_id after ≡ some a
  load_all_finds [] records after a h m = elim m [ ]
  load_all_finds ((b, line) ∷ log) records after a h m =
      elim (Result-cases (load codec b records)) [
        | inr (e, p) ↦ absurd (ground arith)
        | inl (next, p) ↦ elim m [
          | inl same ↦
              ground
                (arith, load_all_keeps log next after b.operation_id b, load_finds b records next p)
          | inr later ↦ load_all_finds log next after a (ground arith) later
        ]
      ]

  -- And nothing else is.
  load_origin :
      (a : Acknowledged) (records after : Index codec) (k : String) (x : Acknowledged)
      → load codec a records ≡ ok after
      → Map.get k after ≡ some x
      → (a ≡ x) ⊎ (Map.get k records ≡ some x)
  unfolding load
  load_origin a records after k x h g = elim (Option-cases (Map.get a.operation_id records)) [
    | inl p ↦ ground (arith, Map.get-insert a.operation_id k a records, eq_iff a.operation_id k)
    | inr (y, p) ↦ inr (ground arith)
  ]

  pub load_all_origin :
      (log : List Entry) (records after : Index codec) (k : String) (x : Acknowledged)
      → load_all log records ≡ ok after
      → Map.get k after ≡ some x
      → Holds x log ⊎ (Map.get k records ≡ some x)
  load_all_origin [] records after k x h g = inr (ground arith)
  load_all_origin ((a, line) ∷ log) records after k x h g =
      elim (Result-cases (load codec a records)) [
        | inr (e, p) ↦ absurd (ground arith)
        | inl (next, p) ↦ elim (load_all_origin log next after k x (ground arith) g) [
          | inl held ↦ inl (inr held)
          | inr before ↦ elim (load_origin a records next k x p before) [
            | inl same ↦ inl (inl same)
            | inr old ↦ inr old
          ]
        ]
      ]
