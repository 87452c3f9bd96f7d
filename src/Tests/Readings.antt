-- ===== src/Tests/Readings.antt =====
-- Reply bodies at concrete bytes.
use mathlib.Core.List.{foldl}
use hass_sma_rs.Prelude.{ℕ, ◌≡◌, refl, List, [], ◌∷◌, ◌++◌, none, some, All, replicate, arith}
use hass_sma_rs.Client.Values.{
  negsuc, to_i32, records_region, record_lri, visit, walk_28, for_each_28_record, i32_value_28,
}
use hass_sma_rs.Client.Values.Readings.{
  OperationTime, AcPerPhase, on_spot_ac_power, on_spot_ac_total_power, no_readings,
  parse_spot_ac_total_power,
}
use hass_sma_rs.Client.Values.EventLog.{
  EventRecord, is_padding, parse_event_log_records, all_event_bytes, IsEvent, IsEnd, padded,
  parse_event_log_records-all_event_bytes,
}
use hass_sma_rs.Client.Values.Fragments.{fragment, misread, parse_event_log_records-fragment}
use hass_sma_rs.Client.Values.Electrical.{selected_tag, label_in}
use hass_sma_rs.Client.Values.Labels.{first_label}
use hass_sma_rs.Client.Values.Walk.{joined, HasLength, for_each_28_record-joined}

abbrev prefix : List ℕ
prefix = replicate 12 0x5a

-- An operating time of 65536 s, and a feed-in time.
abbrev time_records : List (List ℕ)
time_records =
    (0x01 ∷ 0x2e ∷ 0x46 ∷ 0x00 ∷ 0x11 ∷ 0x22 ∷ 0x33 ∷ 0x44 ∷ 0 ∷ 0 ∷ 1 ∷ 0 ∷ 0 ∷ 0 ∷ 0 ∷ 0 ∷ [])
    ∷ (0x01 ∷ 0x2f ∷ 0x46 ∷ 0x00 ∷ 0x11 ∷ 0x22 ∷ 0x33 ∷ 0x44 ∷ 7 ∷ 0 ∷ 0 ∷ 0 ∷ 0 ∷ 0 ∷ 0 ∷ 0 ∷ [])
    ∷ []

abbrev no_time : OperationTime
no_time = record { total_op_time_s = none; feed_in_time_s = none }

time_records-HasLength : All (HasLength 16) time_records
unfolding HasLength
time_records-HasLength = (refl, (refl, tt))

abbrev power_record : List ℕ
power_record =
    0x01 ∷ 0x40 ∷ 0x46 ∷ 0x40 ∷ 1 ∷ 0 ∷ 0 ∷ 0 ∷ replicate 8 0 ++ 0xd2 ∷ 0x04 ∷ 0 ∷ 0 ∷ replicate 8 0

-- The same for the second phase, cut down to twenty bytes.
abbrev cut_record : List ℕ
cut_record =
    0x01 ∷ 0x41 ∷ 0x46 ∷ 0x40 ∷ 1 ∷ 0 ∷ 0 ∷ 0 ∷ replicate 8 0 ++ 0xff ∷ 0xff ∷ 0xff ∷ 0xff ∷ []

abbrev no_power : AcPerPhase
no_power = record { pac1_w = none; pac2_w = none; pac3_w = none; timestamp = none }

power_record-HasLength : All (HasLength 28) (power_record ∷ [])
unfolding HasLength
power_record-HasLength = (refl, tt)

for_each_28_record-joined_example :
    for_each_28_record on_spot_ac_power
      (prefix ++ joined (power_record ∷ []) (cut_record ++ 9 ∷ []))
      no_power
    ≡ visit on_spot_ac_power
        (foldl (visit on_spot_ac_power) no_power (power_record ∷ []))
        cut_record
for_each_28_record-joined_example =
    for_each_28_record-joined on_spot_ac_power prefix (power_record ∷ []) cut_record (9 ∷ [])
      no_power refl power_record-HasLength refl (omega arith)

-- A power of -1 W.
total_power :
    parse_spot_ac_total_power (
      prefix
      ++ 0x01 ∷ 0x3f ∷ 0x26 ∷ 0x40 ∷ 5 ∷ 0 ∷ 0 ∷ 0 ∷ replicate 8 0
      ++ 0xff ∷ 0xff ∷ 0xff ∷ 0xff ∷ [])
    ≡ record no_readings { pac_total_w = some (negsuc 0); timestamp = some 5 }
unfolding parse_spot_ac_total_power for_each_28_record walk_28 records_region record_lri
    on_spot_ac_total_power i32_value_28 to_i32
total_power = refl

abbrev first_event : EventRecord
first_event = record {
  entry_id = 901;
  timestamp = 1700000000;
  event_code = 307;
  device_id = 7864440;
  param1 = 0;
  param2 = 4294967295;
}

first_event-IsEvent : IsEvent first_event
unfolding is_padding
first_event-IsEvent = record {
  entry_id = omega arith;
  timestamp = omega arith;
  event_code = omega arith;
  device_id = omega arith;
  param1 = omega arith;
  param2 = omega arith;
  is_used = refl;
}

padding-IsEnd : IsEnd (replicate 24 0)
unfolding is_padding
padding-IsEnd = padded refl

parse_event_log_records-all_event_bytes_example :
    parse_event_log_records
      (prefix ++ all_event_bytes (first_event ∷ first_event ∷ []) (replicate 24 0))
    ≡ first_event ∷ first_event ∷ []
parse_event_log_records-all_event_bytes_example =
    parse_event_log_records-all_event_bytes prefix (first_event ∷ first_event ∷ []) (replicate 24 0)
      refl (first_event-IsEvent, (first_event-IsEvent, tt)) padding-IsEnd

parse_event_log_records-fragment_example :
    (tail : List EventRecord) × (parse_event_log_records
        (fragment 0x70100200 0 1 (first_event ∷ []) (fragment 0x70100200 2 3 (first_event ∷ []) []))
      ≡ (first_event ∷ []) ++ misread 0x70100200 2 3 first_event ∷ tail)
unfolding is_padding
parse_event_log_records-fragment_example =
    parse_event_log_records-fragment 0x70100200 2 3 first_event [] [] (omega arith) (omega arith)
      (omega arith) first_event-IsEvent refl 0x70100200 0 1 (first_event ∷ [])
      (first_event-IsEvent, tt)

-- Two records of the type label; the second tag is selected.
abbrev label_records : List (List ℕ)
label_records =
    replicate 40 0
    ∷ (0x01 ∷ 0x1e ∷ 0x82 ∷ 0x08 ∷ replicate 4 0
        ++ 0x6e ∷ 0x23 ∷ 0 ∷ 0 ∷ 0x72 ∷ 0x23 ∷ 0 ∷ 1 ∷ replicate 24 0)
    ∷ []

label_records-HasLength : All (HasLength 40) label_records
unfolding HasLength
label_records-HasLength = (refl, (refl, tt))

selected_label : first_label label_records ≡ some 9074
unfolding first_label label_in selected_tag record_lri
selected_label = refl
