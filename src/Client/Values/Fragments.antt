-- ===== src/Client/Values/Fragments.antt =====
-- The bodies of two event-log fragments, appended as `query_event_log_for_device` of
-- crates/inverter-client/src/session.rs appends them, and read by `parse_event_log_records`.
use hass_sma_rs.Prelude.{
  ℕ, suc, ◌+◌, ◌-◌, ◌≤◌, ◌≡◌, ap, ◌∙◌, List, [], ◌∷◌, ◌++◌, true, false, leb, length, drop, le→leb,
  le→ltb_false, All, arith,
}
use hass_sma_rs.Prelude.Words.{IsU32, u32_bytes, u32_of_bytes}
use hass_sma_rs.Client.Values.EventLog.{
  EventRecord, record_at, is_padding, event_loop, parse_event_log_records, event_bytes,
  all_event_bytes, IsEvent, event_loop-event_bytes,
}

-- A fragment: the three words of the prefix, and the events.
unfoldable pub fragment : ℕ → ℕ → ℕ → List EventRecord → List ℕ → List ℕ
fragment command first last es rest =
    u32_bytes command (u32_bytes first (u32_bytes last (all_event_bytes es rest)))

event_loop-append :
    (m : ℕ) (es : List EventRecord) (rest : List ℕ)
    → All IsEvent es
    → event_loop (length es + m) (all_event_bytes es rest) ≡ es ++ event_loop m rest
unfolding all_event_bytes
event_loop-append m [] rest h = ap (λ n. event_loop n rest) (omega arith)
event_loop-append m (e ∷ es) rest (he, h) =
    let more : suc (length es) + m ≡ suc (length es + m) = omega arith in
    ap (λ n. event_loop n (event_bytes e (all_event_bytes es rest))) more
    ∙ event_loop-event_bytes (length es + m) e (all_event_bytes es rest) he
    ∙ ap (λ (q : List EventRecord). e ∷ q) (event_loop-append m es rest h)

-- The events of the first fragment, and what the loop makes of the bytes behind them.
parse_first :
    (command first last : ℕ) (es : List EventRecord) (rest : List ℕ) (m : ℕ)
    → All IsEvent es
    → length (all_event_bytes es rest) ≡ length es + m
    → parse_event_log_records (fragment command first last es rest) ≡ es ++ event_loop m rest
unfolding parse_event_log_records fragment
parse_first command first last es rest m h enough =
    let long =
      le→ltb_false (length (fragment command first last es rest)) 12
        (unfold fragment in omega arith) in
    rw (parse_event_log_records, long, enough) (event_loop-append m es rest h)

-- The events leave the fuel for the bytes behind them.
length-events :
    (es : List EventRecord) (rest : List ℕ)
    → length es + length rest ≤ length (all_event_bytes es rest)
unfolding all_event_bytes event_bytes
length-events [] rest = omega arith
length-events (e ∷ es) rest = omega (arith, length-events es rest)

-- What stands twelve bytes before an event, read as one.
abbrev pub misread : ℕ → ℕ → ℕ → EventRecord → EventRecord
misread command first last e = record {
  entry_id = command;
  timestamp = first;
  event_code = last;
  device_id = e.entry_id;
  param1 = e.timestamp;
  param2 = e.event_code;
}

module _ (command first last : ℕ) (e : EventRecord) (es : List EventRecord) (rest : List ℕ)
    (c : IsU32 command) (f : IsU32 first) (l : IsU32 last) (he : IsEvent e)
    (used : is_padding (misread command first last e) ≡ false) where
  record_at-fragment :
      record_at (fragment command first last (e ∷ es) rest) ≡ misread command first last e
  unfolding fragment all_event_bytes event_bytes
  record_at-fragment = rw (
    u32_of_bytes command c,
    u32_of_bytes first f,
    u32_of_bytes last l,
    u32_of_bytes e.entry_id he.entry_id,
    u32_of_bytes e.timestamp he.timestamp,
    u32_of_bytes e.event_code he.event_code,
  )

  length-fragment : 36 ≤ length (fragment command first last (e ∷ es) rest)
  unfolding fragment all_event_bytes event_bytes
  length-fragment = omega arith

  event_loop-fragment :
      (n : ℕ)
      → event_loop (suc n) (fragment command first last (e ∷ es) rest)
        ≡ misread command first last e
          ∷ event_loop n (drop 24 (fragment command first last (e ∷ es) rest))
  unfolding event_loop
  event_loop-fragment n =
      let body = fragment command first last (e ∷ es) rest in
      let long : leb 24 (length body) ≡ true =
        le→leb 24 (length body) (omega (arith, length-fragment)) in
      let taken : is_padding (record_at body) ≡ false = ap is_padding record_at-fragment ∙ used in
      rw (event_loop, long, taken)
        (ap (λ (q : EventRecord). q ∷ event_loop n (drop 24 body)) record_at-fragment)

  -- When the bodies of two fragments are appended, the events of the first are read, and then, in
  -- place of the first event of the second, a record made of the second prefix and of the first
  -- half of that event (unless the prefix is zero, which is taken for padding).
  pub parse_event_log_records-fragment :
      (command_1 first_1 last_1 : ℕ) (es_1 : List EventRecord)
      → All IsEvent es_1
      → (tail : List EventRecord) × (parse_event_log_records
            (fragment command_1 first_1 last_1 es_1 (fragment command first last (e ∷ es) rest))
          ≡ es_1 ++ misread command first last e ∷ tail)
  parse_event_log_records-fragment command_1 first_1 last_1 es_1 h =
      let second = fragment command first last (e ∷ es) rest in
      let m = length (all_event_bytes es_1 second) - length es_1 - 1 in
      (
        event_loop m (drop 24 second),
        parse_first command_1 first_1 last_1 es_1 second (suc m) h
              (omega (arith, length-events es_1 second, length-fragment))
            ∙ ap (λ (q : List EventRecord). es_1 ++ q) (event_loop-fragment m),
      )
