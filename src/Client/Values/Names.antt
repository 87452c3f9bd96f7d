-- ===== src/Client/Values/Names.antt =====
-- crates/inverter-client/src/values.rs: the tables of texts and the software version.
use Prim.Native.String.{String}
use hass_sma_rs.Prelude.{
  ℕ, ◌/◌, ◌%◌, ◌^◌, ◌≡◌, refl, not, List, [], ◌∷◌, Option, none, some, Bool, ◌&&◌, ◌||◌, leb, ◌==◌,
  if◌then◌else◌, length, get_or, slice,
}
use hass_sma_rs.Prelude.Texts.{◌<>◌, decimal, padded}
use hass_sma_rs.Prelude.Words.{read_u32}
use hass_sma_rs.Client.Values.{for_each_28_record, u32_nan}
use hass_sma_rs.Client.Values.Lri.{sw_version}
use hass_sma_rs.Client.Values.EventLog.{EventRecord, tag}

-- A `match` on numbers: the first arm that fits.
abbrev pub text_of : List (ℕ × String) → ℕ → Option String
text_of [] n = none
text_of ((m, t) ∷ rest) n = if n == m then some t else text_of rest n

abbrev pub or_else : Option String → String → String
or_else none t = t
or_else (some s) t = s

abbrev pub type_labels : List (ℕ × String)
type_labels =
    (9070, "STP 17000TL-10")
    ∷ (9071, "SB 2000HF-30")
    ∷ (9072, "SB 2500HF-30")
    ∷ (9073, "SB 3000HF-30")
    ∷ (9074, "SB 3000TL-21")
    ∷ (9075, "SB 4000TL-21")
    ∷ (9076, "SB 5000TL-21")
    ∷ (9077, "SB 2000HFUS-30")
    ∷ (9078, "SB 2500HFUS-30")
    ∷ (9079, "SB 3000HFUS-30")
    ∷ (9080, "SB 8000TLUS")
    ∷ (9081, "SB 9000TLUS")
    ∷ (9082, "SB 10000TLUS")
    ∷ (9084, "WB 3600TL-20")
    ∷ (9085, "WB 5000TL-20")
    ∷ (9086, "SB 3800US-10")
    ∷ []

unfoldable pub type_label_text : ℕ → Option String
type_label_text n = text_of type_labels n

abbrev pub status_texts : List (ℕ × String)
status_texts =
    (35, "Error")
    ∷ (51, "Closed")
    ∷ (303, "Off")
    ∷ (304, "Island mode")
    ∷ (307, "Ok")
    ∷ (311, "Open")
    ∷ (350, "Waiting for feed-in")
    ∷ (396, "Derating (temperature)")
    ∷ (455, "Warning")
    ∷ (456, "Waiting for DC")
    ∷ (457, "Waiting for grid")
    ∷ (141, "Derating active")
    ∷ (155, "Grid island")
    ∷ (261, "Derating active")
    ∷ (264, "SMA Grid Guard OK")
    ∷ (366, "Params set OK")
    ∷ (369, "Update file OK")
    ∷ (1266, "Rated current warning")
    ∷ (86, "Fault: AC offset current sensor")
    ∷ (97, "Fault: AC offset voltage")
    ∷ (117, "Fault: DC current sensor A")
    ∷ (118, "Fault: DC current sensor B")
    ∷ (137, "Waiting for main CPU")
    ∷ (192, "Fault: interior temp sensor")
    ∷ (193, "Fault: power-unit temp sensor")
    ∷ (468, "Fault: CAN init")
    ∷ (469, "Fault: DA converter")
    ∷ (470, "Fault: reverse current")
    ∷ (471, "Fault: IPC communication")
    ∷ (472, "Fault: RTC init")
    ∷ (473, "Fault: overvoltage protector")
    ∷ (503, "Fault: ambient temp sensor")
    ∷ (504, "Fault: battery temp sensor")
    ∷ (505, "Fault: DC voltage sensor")
    ∷ (506, "Fault: power-unit temp sensor 2")
    ∷ (507, "Fault: fan permanently on")
    ∷ (508, "Fault: transformer temp sensor")
    ∷ []

unfoldable pub status_text : ℕ → String
status_text n = or_else (text_of status_texts n) "Unknown"

abbrev pub event_tag_texts : List (ℕ × String)
event_tag_texts =
    (295, "SMA Grid Guard code entered")
    ∷ (301, "Waiting for grid voltage")
    ∷ (302, "Waiting for grid frequency")
    ∷ (303, "Off")
    ∷ (304, "Starting")
    ∷ (305, "MPP search")
    ∷ (306, "Feeding")
    ∷ (307, "Normal operation")
    ∷ (308, "Standby")
    ∷ (309, "Stop")
    ∷ (311, "System OK")
    ∷ (326, "Grid voltage too low")
    ∷ (327, "Grid voltage too high")
    ∷ (328, "Grid frequency too low")
    ∷ (329, "Grid frequency too high")
    ∷ (330, "Grid voltage window error")
    ∷ (331, "Grid frequency window error")
    ∷ (332, "10-min average grid voltage exceeded")
    ∷ (401, "Insulation resistance fault")
    ∷ (402, "Residual current fault")
    ∷ (403, "DC voltage too high — grid feed interrupted")
    ∷ (404, "DC voltage too low")
    ∷ (405, "Temperature inside device too high")
    ∷ (406, "Self-test failure")
    ∷ (407, "Derating due to temperature")
    ∷ (408, "Derating due to excessive grid voltage")
    ∷ (501, "Communication error with grid")
    ∷ (601, "System start")
    ∷ (602, "System stop")
    ∷ (603, "Firmware update initiated")
    ∷ (604, "Firmware update successful")
    ∷ (605, "Firmware update failed")
    ∷ (701, "User logoff")
    ∷ (702, "User login successful")
    ∷ (703, "Invalid password")
    ∷ []

unfoldable pub event_tag_text : ℕ → Option String
event_tag_text n = text_of event_tag_texts n

unfoldable pub event_text : EventRecord → Option String
unfolding event_tag_text
event_text r = event_tag_text (tag r)

-- `"NEABRS".as_bytes()[vtype]`, with a question mark past its end.
abbrev pub release_type : ℕ → String
release_type vtype = get_or ("N" ∷ "E" ∷ "A" ∷ "B" ∷ "R" ∷ "S" ∷ []) vtype "?"

-- Two decimal digits, one for each half of the byte.
abbrev pub bcd : ℕ → String
bcd b = decimal (b / 16) <> decimal (b % 16)

unfoldable pub version_text : ℕ → String
version_text v =
    bcd (v / 2 ^ 24 % 256)
    <> "."
    <> bcd (v / 2 ^ 16 % 256)
    <> "."
    <> padded 2 (v / 2 ^ 8 % 256)
    <> "."
    <> release_type (v % 256)

abbrev pub has_version : ℕ → Bool
has_version v = not (v == u32_nan || v == 0)

unfoldable pub on_software_version : Option String → ℕ → ℕ → List ℕ → Option String
unfolding version_text
on_software_version out lri dt rec =
    if lri == sw_version && leb 28 (length rec)
    then (if has_version (read_u32 (slice rec 24 28))
        then some (version_text (read_u32 (slice rec 24 28)))
        else out)
    else out

unfoldable pub parse_software_version : List ℕ → Option String
unfolding on_software_version
parse_software_version body = for_each_28_record on_software_version body none

-- 0x02300604, as the documentation of the function has it.
version_text_documented : version_text 0x02300604 ≡ "02.30.06.R"
unfolding version_text decimal padded
version_text_documented = refl
