-- ===== src/Guest/FileEffects/Reopen.antt =====
-- crates/hand-guest/src/file_effects.rs: what `open_with_limits` rebuilds from a file.
use hands.Base.{
  ℕ, ◌≡◌, refl, ap, fun_ext, ◌≢◌, ◌∙◌, true, some, List, [], ◌∷◌, ◌++◌, arith, inl, inr,
  Option-cases, ◌≤◌, length, length-append,
}
use hands.Base.Result.{Result, ok, Result-cases, ◌>>=◌}
use hands.Base.Map.{string_eq}
use hands.Guest.LogFile.{
  valid_len, split, is_newline_free, split-line, valid_len-line, valid_len-tail, take-length,
  append_line, append_assoc,
}
use hands.Guest.FileEffects.Effect.{Event, EffectError, Codec, encode_event}
use hands.Guest.FileEffects.Log.{
  read_back, Records, apply_event, read_lines, make_store, open_with_limits,
}

module _ {W C : Type 0} (codec : Codec W C) where
  -- What the code relies on of JSON: the text of an event is on one line and reads back.
  abbrev pub IsFaithful : Type 0
  IsFaithful =
      (event : Event W C) (line : List ℕ)
      → codec.to_vec event ≡ some line
      → (codec.from_slice line ≡ some event) × (is_newline_free line ≡ true) × (line ≢ [])

  -- The bytes of a log: its events, encoded one behind the other.
  unfoldable pub render : List (Event W C) → Result EffectError (List ℕ)
  render [] = ok []
  render (event ∷ events) = do
    line ← encode_event codec event
    rest ← render events
    ok (line ++ rest)

  -- The index after the events of a log.
  unfoldable pub apply_all : List (Event W C) → Records codec → Result EffectError (Records codec)
  apply_all [] records = ok records
  apply_all (event ∷ events) records = apply_event codec event records >>= apply_all events

  render_cons :
      (event : Event W C) (events : List (Event W C)) (bytes : List ℕ)
      → render (event ∷ events) ≡ ok bytes
      → (line : List ℕ) × (rest : List ℕ) × (codec.to_vec event ≡ some line)
        × (render events ≡ ok rest)
        × (bytes ≡ line ++ b'\n' ∷ rest)
  unfolding render encode_event
  render_cons event events bytes h = elim (Option-cases (codec.to_vec event)) [
    | inl q ↦ absurd (ground arith)
    | inr (line, q) ↦ elim (Result-cases (render events)) [
      | inr (e, p) ↦ absurd (ground arith)
      | inl (rest, p) ↦ (line, rest, q, p, ground (arith, append_line line rest b'\n'))
    ]
  ]

  valid_len-render :
      IsFaithful
      → (log : List (Event W C)) (bytes tail : List ℕ) → render log ≡ ok bytes
      → is_newline_free tail ≡ true
      → valid_len (bytes ++ tail) ≡ length bytes
  unfolding render
  valid_len-render f [] bytes tail h k = ground (arith, valid_len-tail tail)
  valid_len-render f (event ∷ events) bytes tail h k =
      let (line, rest, q, p, z) = render_cons event events bytes h in
      ground (
        arith,
        append_assoc line (b'\n' ∷ rest) tail,
        valid_len-line line (rest ++ tail),
        valid_len-render f events rest tail p k,
        length-append line (b'\n' ∷ rest),
      )

  read_lines-line :
      (event : Event W C) (line : List ℕ) (lines : List (List ℕ)) (records : Records codec)
      → codec.from_slice line ≡ some event
      → line ≢ []
      → read_lines codec (line ∷ lines) records
        ≡ (apply_event codec event records >>= read_lines codec lines)
  unfolding read_lines
  read_lines-line event [] lines records h k = absurd (k refl)
  read_lines-line event (b ∷ line) lines records h k = ground arith

  read_lines-render :
      IsFaithful
      → (log : List (Event W C)) (bytes : List ℕ) (records : Records codec) → render log ≡ ok bytes
      → read_lines codec (split bytes) records ≡ apply_all log records
  unfolding render apply_all split read_lines
  read_lines-render f [] bytes records h = ground arith
  read_lines-render f (event ∷ events) bytes records h =
      let (line, rest, q, p, z) = render_cons event events bytes h in
      ap (λ bs. read_lines codec (split bs) records) z
      ∙ ap (λ ls. read_lines codec ls records) (split-line line rest (f event line q).1)
      ∙ read_lines-line event line (split rest) records (f event line q).0 (f event line q).2
      ∙ ap (λ k. apply_event codec event records >>= k)
          (fun_ext λ after. read_lines-render f events rest after p)

  -- Where JSON reads back what it wrote, a file that holds the rendered events of a log and behind
  -- them a torn append (any bytes without a newline) opens to the index after exactly those events,
  -- over exactly their bytes, within the limit on the size of the file.
  pub open-render :
      IsFaithful
      → (log : List (Event W C)) (bytes tail : List ℕ) → render log ≡ ok bytes
      → is_newline_free tail ≡ true
      → (max_effects max_bytes : ℕ) → length (bytes ++ tail) ≤ max_bytes
      → open_with_limits codec (read_back (bytes ++ tail)) max_effects max_bytes ≡ (
          apply_all log []
          >>= make_store codec (read_back (bytes ++ tail)) max_effects max_bytes bytes)
  unfolding open_with_limits
  open-render f log bytes tail h k max_effects max_bytes fits =
      elim (Result-cases (apply_all log [])) [
        | inr (e, p) ↦ ground (
          arith,
          valid_len-render f log bytes tail h k,
          take-length bytes tail,
          read_lines-render f log bytes [] h,
        )
        | inl (records, p) ↦ ground (
          arith,
          valid_len-render f log bytes tail h k,
          take-length bytes tail,
          read_lines-render f log bytes [] h,
        )
      ]
