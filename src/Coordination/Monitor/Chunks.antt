-- ===== src/Coordination/Monitor/Chunks.antt =====
-- That `poll` of src/ddsleuth/coordination.py reads the same of a log in however many chunks the log
-- arrives.
use ddsleuth.Coordination.{LogEvent}
use ddsleuth.Coordination.Monitor.{
  read_pieces, CoordinationError, Lines, events_of_line, line_too_long, put_byte, put_newline,
  read_chunk, read_lines, split_lines,
}
use ddsleuth.Json.{JsonValue}
use ddsleuth.Prelude.{
  le→leb, from_ok, ok-injective, subst, All, Bool-cases, List, Option, Result, String, [], ap,
  append_assoc, arith, eq_nat, err, false, from_guard, inl, inr, leb, leb→le, length, ok, refl, suc,
  sym, true, ℕ, ◌++◌, ◌>>=◌, ◌↔◌, ◌∙◌, ◌∷◌, ◌≡◌, ◌≤◌,
}

-- What is split so far, with more bytes behind it.
abbrev continued : Lines → List ℕ → Lines
continued (lines, rest) more =
    (lines ++ (split_lines (rest ++ more)).0, (split_lines (rest ++ more)).1)

put_byte-continued :
    (c : ℕ) (so_far : Lines) (more : List ℕ)
    → eq_nat c 10 ≡ false
    → put_byte c (continued so_far more) ≡ continued (put_byte c so_far) more
put_byte-continued c ([], rest) more e = rw (e, split_lines) refl
put_byte-continued c (line ∷ lines, rest) more e = refl

split_lines-append :
    (bytes more : List ℕ) → split_lines (bytes ++ more) ≡ continued (split_lines bytes) more
split_lines-append [] more = refl
split_lines-append (c ∷ bytes) more = elim (Bool-cases (eq_nat c 10)) [
  | inl e ↦ rw (e, split_lines) (ap put_newline (split_lines-append bytes more))
  | inr e ↦
      rw (e, split_lines)
        (ap (put_byte c) (split_lines-append bytes more)
          ∙ put_byte-continued c (split_lines bytes) more e)
]

abbrev HasNoNewline : List ℕ → Type 0
HasNoNewline bytes = All (λ c. eq_nat c 10 ≡ false) bytes

split_lines-HasNoNewline : (bytes : List ℕ) → HasNoNewline (split_lines bytes).1
split_lines-HasNoNewline [] = tt
split_lines-HasNoNewline (c ∷ bytes) = elim (Bool-cases (eq_nat c 10)) [
  | inl e ↦ rw (e, split_lines) (split_lines-HasNoNewline bytes)
  | inr e ↦
      rw (e, split_lines)
        (put_byte-HasNoNewline (split_lines bytes) e (split_lines-HasNoNewline bytes))
]
  where
    put_byte-HasNoNewline :
        (so_far : Lines)
        → eq_nat c 10 ≡ false
        → HasNoNewline so_far.1
        → HasNoNewline (put_byte c so_far).1
    put_byte-HasNoNewline ([], rest) e clean = (e, clean)
    put_byte-HasNoNewline (line ∷ lines, rest) e clean = clean

abbrev length_of_first : Lines → ℕ
length_of_first ([], rest) = length rest
length_of_first (line ∷ lines, rest) = length line

-- Bytes without a newline are within the first piece.
first_piece :
    (bytes more : List ℕ)
    → HasNoNewline bytes
    → length bytes ≤ length_of_first (split_lines (bytes ++ more))
first_piece [] more clean = omega arith
first_piece (c ∷ bytes) more (e, clean) =
    let shorter = first_piece bytes more clean in
    rw (e, split_lines) (longer (split_lines (bytes ++ more)) shorter)
  where
    longer :
        (so_far : Lines)
        → length bytes ≤ length_of_first so_far
        → suc (length bytes) ≤ length_of_first (put_byte c so_far)
    longer ([], rest) h = omega arith
    longer (line ∷ lines, rest) h = omega arith

abbrev pub joined : List ℕ → List (List ℕ) → List ℕ
joined chunk [] = chunk
joined chunk (next ∷ chunks) = chunk ++ joined next chunks

module _ (loads : List ℕ → Option JsonValue) (max_line_bytes : ℕ) (actor source : String) where
  read_lines-append :
      (events : List LogEvent) (lines more : List (List ℕ))
      → read_lines loads max_line_bytes actor source events (lines ++ more) ≡ (
          read_lines loads max_line_bytes actor source events lines >>= λ further.
          read_lines loads max_line_bytes actor source further more)
  unfolding read_lines
  read_lines-append events [] more = refl
  read_lines-append events (line ∷ lines) more =
      elim (Bool-cases (leb (length line) max_line_bytes)) [
        | inr long ↦ rw long refl
        | inl short ↦ rw short (
            with_found (events_of_line loads max_line_bytes actor source line)
              (λ found. read_lines-append (events ++ found) lines more))
      ]
    where
      with_found :
          (r : Result CoordinationError (List LogEvent))
          → ((found : List LogEvent)
              → read_lines loads max_line_bytes actor source (events ++ found) (lines ++ more) ≡ (
                  read_lines loads max_line_bytes actor source (events ++ found) lines
                  >>= λ further. read_lines loads max_line_bytes actor source further more))
          → (r >>= λ found.
              read_lines loads max_line_bytes actor source (events ++ found) (lines ++ more))
            ≡ ((r >>= λ found. read_lines loads max_line_bytes actor source (events ++ found) lines)
                >>= λ further. read_lines loads max_line_bytes actor source further more)
      with_found (ok found) same = same found
      with_found (err error) same = refl

  -- A piece that is read is no longer than the limit.
  within_limit :
      (pieces : Lines) (events result : List LogEvent)
      → leb (length pieces.1) max_line_bytes ≡ true
      → read_lines loads max_line_bytes actor source events pieces.0 ≡ ok result
      → length_of_first pieces ≤ max_line_bytes
  unfolding read_lines
  within_limit ([], rest) events result short h = leb→le _ _ short
  within_limit (line ∷ lines, rest) events result short h =
      from_guard (leb (length line) max_line_bytes) (line_too_long actor) _ h
        λ within h1. leb→le _ _ within

  module _ (events : List LogEvent) (buffer chunk more : List ℕ)
      (result : List LogEvent × List ℕ) where
    abbrev first : Lines
    first = split_lines (buffer ++ chunk)

    abbrev second : Lines
    second = split_lines (first.1 ++ more)

    whole : split_lines (buffer ++ (chunk ++ more)) ≡ (first.0 ++ second.0, second.1)
    whole =
        ap split_lines (sym (append_assoc buffer chunk more))
        ∙ split_lines-append (buffer ++ chunk) more

    abbrev read : List LogEvent → Lines → Result CoordinationError (List LogEvent × List ℕ)
    unfolding read_pieces
    read = read_pieces loads max_line_bytes actor source

    abbrev in_parts : Result CoordinationError (List LogEvent × List ℕ)
    unfolding read
    in_parts = read events first >>= λ (state : List LogEvent × List ℕ).
        read state.0 (split_lines (state.1 ++ more))

    to_parts : read events (first.0 ++ second.0, second.1) ≡ ok result → in_parts ≡ ok result
    unfolding in_parts
    to_parts h =
        from_guard (leb (length second.1) max_line_bytes) (line_too_long actor) _ h λ short h1.
          from_ok (read_lines loads max_line_bytes actor source events (first.0 ++ second.0)) _ h1
            λ all both made.
              from_ok (read_lines loads max_line_bytes actor source events first.0) _
                (sym (read_lines-append events first.0 second.0) ∙ both)
                λ further front back.
                  let lower =
                    first_piece first.1 more (split_lines-HasNoNewline (buffer ++ chunk)) in
                  let upper = within_limit second further all short back in
                  let bound : length first.1 ≤ max_line_bytes = omega arith in
                  let fits : leb (length first.1) max_line_bytes ≡ true = le→leb _ _ bound in
                  rw (fits, front, short, back) made

    from_parts : in_parts ≡ ok result → read events (first.0 ++ second.0, second.1) ≡ ok result
    unfolding in_parts
    from_parts h = from_ok (read events first) _ h λ state front back.
        from_guard (leb (length first.1) max_line_bytes) (line_too_long actor) _ front
          λ fits front1.
            from_ok (read_lines loads max_line_bytes actor source events first.0) _ front1
              λ further front2 made.
                let back1 : read further second ≡ ok result =
                  subst
                    (λ (s : List LogEvent × List ℕ).
                      read s.0 (split_lines (s.1 ++ more)) ≡ ok result)
                    (sym (ok-injective (further, first.1) state made)) back in
                from_guard (leb (length second.1) max_line_bytes) (line_too_long actor) _ back1
                  λ short back2.
                    from_ok (read_lines loads max_line_bytes actor source further second.0) _ back2
                      λ all back3 made1.
                        rw (short, read_lines-append events first.0 second.0, front2, back3) made1

    -- Bytes that are appended at once, or one part after the other.
    pub read_chunk-append :
        (read_chunk loads max_line_bytes actor source events buffer (chunk ++ more) ≡ ok result) ↔ (
          (read_chunk loads max_line_bytes actor source events buffer chunk
            >>= λ (state : List LogEvent × List ℕ).
                read_chunk loads max_line_bytes actor source state.0 state.1 more)
          ≡ ok result)
    unfolding read_chunk in_parts
    read_chunk-append = (
      λ h. to_parts (subst (λ (l : Lines). read events l ≡ ok result) whole h),
      λ h. subst (λ (l : Lines). read events l ≡ ok result) (sym whole) (from_parts h),
    )

  -- Polls of a log, each with what was appended since the one before it.
  unfoldable pub read_chunks :
      List LogEvent
      → List ℕ
      → List ℕ
      → List (List ℕ)
      → Result CoordinationError (List LogEvent × List ℕ)
  unfolding read_chunk
  read_chunks events buffer chunk [] =
      read_chunk loads max_line_bytes actor source events buffer chunk
  read_chunks events buffer chunk (next ∷ chunks) =
      read_chunk loads max_line_bytes actor source events buffer chunk
      >>= λ (state : List LogEvent × List ℕ). read_chunks state.0 state.1 next chunks

  -- If the chunks of a log are read one after the other and this returns, one reading of all their
  -- bytes returns the same events and the same rest; and conversely.
  pub read_chunks_iff :
      (events : List LogEvent) (buffer chunk : List ℕ) (chunks : List (List ℕ))
      (result : List LogEvent × List ℕ)
      → (read_chunks events buffer chunk chunks ≡ ok result) ↔ (
          read_chunk loads max_line_bytes actor source events buffer (joined chunk chunks)
          ≡ ok result)
  unfolding read_chunks
  read_chunks_iff events buffer chunk [] result = (λ h. h, λ h. h)
  read_chunks_iff events buffer chunk (next ∷ chunks) result =
      let whole = read_chunk-append events buffer chunk (joined next chunks) result in
      (
        λ h.
            from_ok (read_chunk loads max_line_bytes actor source events buffer chunk) _ h
              λ state made later.
                whole.1 (rw made ((read_chunks_iff state.0 state.1 next chunks result).0 later)),
        λ h.
            from_ok (read_chunk loads max_line_bytes actor source events buffer chunk) _ (whole.0 h)
              λ state made later.
                rw made ((read_chunks_iff state.0 state.1 next chunks result).1 later),
      )
