-- ===== src/Client/Values/EventLog.antt =====
-- `parse_event_log_records` of crates/inverter-client/src/values.rs.
use hass_sma_rs.Prelude.{
  ℕ, zero, suc, ◌%◌, ◌≤◌, ◌<◌, ◌≡◌, refl, sym, ap, ◌∙◌, List, [], ◌∷◌, ◌++◌, Bool, true, false,
  ◌&&◌, leb, ltb, ◌==◌, if◌then◌else◌, length, length-append, drop, drop-append, le→leb,
  lt→leb_false, le→ltb_false, Bool-cases, inl, inr, slice, All, arith,
}
use hass_sma_rs.Prelude.Words.{IsU32, read_u32, u32_bytes, u32_of_bytes}

pub record EventRecord : Type 0 where
  pub entry_id : ℕ
  pub timestamp : ℕ
  pub event_code : ℕ
  pub device_id : ℕ
  pub param1 : ℕ
  pub param2 : ℕ

-- The tag id, the low sixteen bits of the event code.
unfoldable pub tag : EventRecord → ℕ
tag e = e.event_code % 65536

-- The record in the first 24 bytes.
abbrev pub record_at : List ℕ → EventRecord
record_at rec = record {
  entry_id = read_u32 (slice rec 0 4);
  timestamp = read_u32 (slice rec 4 8);
  event_code = read_u32 (slice rec 8 12);
  device_id = read_u32 (slice rec 12 16);
  param1 = read_u32 (slice rec 16 20);
  param2 = read_u32 (slice rec 20 24);
}

-- A zero-filled record is padding.
unfoldable pub is_padding : EventRecord → Bool
is_padding e = e.entry_id == 0 && e.event_code == 0 && e.timestamp == 0

-- `while off + 24 <= payload.len()`, on fuel, over the payload from `off` on.
unfoldable pub event_loop : ℕ → List ℕ → List EventRecord
event_loop zero payload = []
event_loop (suc n) payload = elim (leb 24 (length payload)) [
  | false ↦ []
  | true ↦ elim (is_padding (record_at payload)) [
    | true ↦ []
    | false ↦ record_at payload ∷ event_loop n (drop 24 payload)
  ]
]

-- A record has a byte, so a payload has no more records than bytes.
unfoldable pub parse_event_log_records : List ℕ → List EventRecord
parse_event_log_records body =
    if ltb (length body) 12 then [] else event_loop (length (drop 12 body)) (drop 12 body)

-- The 24 bytes of a record, in front of the rest.
unfoldable pub event_bytes : EventRecord → List ℕ → List ℕ
event_bytes e rest = u32_bytes e.entry_id (
    u32_bytes e.timestamp (
      u32_bytes e.event_code
        (u32_bytes e.device_id (u32_bytes e.param1 (u32_bytes e.param2 rest)))))

unfoldable pub all_event_bytes : List EventRecord → List ℕ → List ℕ
all_event_bytes [] rest = rest
all_event_bytes (e ∷ es) rest = event_bytes e (all_event_bytes es rest)

-- The fields of an event fit their width, and it is not taken for padding.
pub record IsEvent (e : EventRecord) : Type 0 where
  pub entry_id : IsU32 e.entry_id
  pub timestamp : IsU32 e.timestamp
  pub event_code : IsU32 e.event_code
  pub device_id : IsU32 e.device_id
  pub param1 : IsU32 e.param1
  pub param2 : IsU32 e.param2
  pub is_used : is_padding e ≡ false

record_at-event_bytes :
    (e : EventRecord) (rest : List ℕ) → IsEvent e → record_at (event_bytes e rest) ≡ e
unfolding event_bytes
record_at-event_bytes e rest h = rw (
  u32_of_bytes e.entry_id h.entry_id,
  u32_of_bytes e.timestamp h.timestamp,
  u32_of_bytes e.event_code h.event_code,
  u32_of_bytes e.device_id h.device_id,
  u32_of_bytes e.param1 h.param1,
  u32_of_bytes e.param2 h.param2,
)

-- Where a payload ends: too short for a record, or padding.
pub data IsEnd (payload : List ℕ) : Type 0 where
  short : length payload < 24 → IsEnd payload
  padded : is_padding (record_at payload) ≡ true → IsEnd payload

event_loop-IsEnd : (n : ℕ) (payload : List ℕ) → IsEnd payload → event_loop n payload ≡ []
unfolding event_loop
event_loop-IsEnd zero payload end = refl
event_loop-IsEnd (suc n) payload (short lt) = rw (event_loop, lt→leb_false 24 (length payload) lt)
event_loop-IsEnd (suc n) payload (padded h) = elim (Bool-cases (leb 24 (length payload))) [
  | inl long ↦ rw (event_loop, long, h)
  | inr few ↦ rw (event_loop, few)
]

pub event_loop-event_bytes :
    (n : ℕ) (e : EventRecord) (rest : List ℕ)
    → IsEvent e
    → event_loop (suc n) (event_bytes e rest) ≡ e ∷ event_loop n rest
unfolding event_loop
event_loop-event_bytes n e rest h =
    let long : leb 24 (length (event_bytes e rest)) ≡ true =
      le→leb 24 (length (event_bytes e rest)) (unfold event_bytes in omega arith) in
    let same : record_at (event_bytes e rest) ≡ e = record_at-event_bytes e rest h in
    let dropped : drop 24 (event_bytes e rest) ≡ rest = unfold event_bytes in refl in
    let used : is_padding (record_at (event_bytes e rest)) ≡ false =
      ap is_padding same ∙ h.is_used in
    rw (event_loop, long, used, dropped) (ap (λ (q : EventRecord). q ∷ event_loop n rest) same)

event_loop-all_event_bytes :
    (n : ℕ) (es : List EventRecord) (rest : List ℕ)
    → length es ≤ n
    → All IsEvent es
    → IsEnd rest
    → event_loop n (all_event_bytes es rest) ≡ es
unfolding all_event_bytes
event_loop-all_event_bytes n [] rest few h end = event_loop-IsEnd n rest end
event_loop-all_event_bytes zero (e ∷ es) rest few h end = absurd (omega arith)
event_loop-all_event_bytes (suc n) (e ∷ es) rest few (he, h) end =
    event_loop-event_bytes n e (all_event_bytes es rest) he
    ∙ ap (λ (q : List EventRecord). e ∷ q)
        (event_loop-all_event_bytes n es rest (omega arith) h end)

drop-prefix : (n : ℕ) (xs ys : List ℕ) → length xs ≡ n → drop n (xs ++ ys) ≡ ys
drop-prefix n xs ys e = rw (sym e) (drop-append xs ys)

pub length-all_event_bytes :
    (es : List EventRecord) (rest : List ℕ) → length es ≤ length (all_event_bytes es rest)
unfolding all_event_bytes event_bytes
length-all_event_bytes [] rest = omega arith
length-all_event_bytes (e ∷ es) rest = omega (arith, length-all_event_bytes es rest)

-- The events of one fragment are read back in order, from behind any prefix of twelve bytes up to
-- padding or a rest that is too short for a record.
pub parse_event_log_records-all_event_bytes :
    (prefix : List ℕ) (es : List EventRecord) (rest : List ℕ)
    → length prefix ≡ 12
    → All IsEvent es
    → IsEnd rest
    → parse_event_log_records (prefix ++ all_event_bytes es rest) ≡ es
unfolding parse_event_log_records
parse_event_log_records-all_event_bytes prefix es rest twelve h end =
    let dropped : drop 12 (prefix ++ all_event_bytes es rest) ≡ all_event_bytes es rest =
      drop-prefix 12 prefix (all_event_bytes es rest) twelve in
    rw (
      le→ltb_false (length (prefix ++ all_event_bytes es rest)) 12
          (omega (arith, length-append prefix (all_event_bytes es rest))),
      dropped,
      event_loop-all_event_bytes (length (all_event_bytes es rest)) es rest
          (length-all_event_bytes es rest) h end,
    )
