-- ===== src/Storage/Writer.antt =====
-- crates/storage/src/schema.rs and writer.rs, and the sinks of lib.rs: the archive in a database. The
-- database is a parameter.
use Prim.Native.String.{String, [], ◌∷◌}
use Prim.Native.Char.{Char, code}
use hass_sma_rs.Prelude.{
  ℕ, zero, suc, ◌≤◌, ◌<◌, ◌≡◌, ◌≢◌, refl, sym, ap, ◌∙◌, List, [], ◌∷◌, ◌++◌, append-nil,
  append_assoc, Bool, true, false, not, ◌&&◌, ◌||◌, Bool-cases, inl, inr, leb, if◌then◌else◌,
  Result, ok, err, All, length, arith, take,
}
use hass_sma_rs.Prelude
use hass_sma_rs.Prelude.Texts.{◌<>◌}
use hass_sma_rs.Storage.Csv.{Row, StorageError, sqlx, Files, CsvSink, append}

abbrev pub create_schema : String
create_schema =
    "\n" <> "CREATE EXTENSION IF NOT EXISTS timescaledb;\n" <> "\n"
    <> "CREATE TABLE IF NOT EXISTS inverter_readings (\n"
    <> "    time    TIMESTAMPTZ      NOT NULL,\n" <> "    slot    TEXT             NOT NULL,\n"
    <> "    serial  BIGINT           NOT NULL,\n" <> "    metric  TEXT             NOT NULL,\n"
    <> "    value   DOUBLE PRECISION NOT NULL\n" <> ");\n" <> "\n"
    <> "SELECT create_hypertable('inverter_readings', 'time', if_not_exists => TRUE);\n" <> "\n"
    <> "CREATE INDEX IF NOT EXISTS idx_inv_slot_metric\n"
    <> "    ON inverter_readings (slot, metric, time DESC);\n" <> "\n"
    <> "SELECT add_retention_policy('inverter_readings', INTERVAL '90 days', if_not_exists => TRUE);\n"
    <> "\n" <> "ALTER TABLE inverter_readings\n" <> "    SET (timescaledb.compress,\n"
    <> "         timescaledb.compress_segmentby = 'slot,metric');\n" <> "\n"
    <> "SELECT add_compression_policy('inverter_readings', INTERVAL '7 days', if_not_exists => TRUE);\n"
    <> "\n" <> "CREATE MATERIALIZED VIEW IF NOT EXISTS hourly_avg\n"
    <> "WITH (timescaledb.continuous) AS\n" <> "SELECT\n"
    <> "    time_bucket('1 hour', time) AS bucket,\n" <> "    slot,\n" <> "    metric,\n"
    <> "    AVG(value) AS avg_value,\n" <> "    MAX(value) AS max_value,\n"
    <> "    MIN(value) AS min_value,\n" <> "    COUNT(*)   AS samples\n"
    <> "FROM inverter_readings\n" <> "GROUP BY bucket, slot, metric\n" <> "WITH NO DATA;\n" <> "\n"
    <> "SELECT add_continuous_aggregate_policy('hourly_avg',\n"
    <> "    start_offset      => INTERVAL '1 day',\n"
    <> "    end_offset        => INTERVAL '1 hour',\n"
    <> "    schedule_interval => INTERVAL '30 minutes',\n" <> "    if_not_exists     => TRUE);\n"

-- `str::split(';')`: the parts between the separators, at least one.
abbrev pub onto_first : Char → List String → List String
onto_first c [] = (c ∷ []) ∷ []
onto_first c (part ∷ parts) = (c ∷ part) ∷ parts

unfoldable pub split_text : ℕ → String → List String
split_text sep [] = "" ∷ []
split_text sep (c ∷ s) =
    let rest = split_text sep s in
    if Prelude.◌==◌ (code c) sep then "" ∷ rest else onto_first c rest

-- `char::is_whitespace`
abbrev pub is_whitespace : ℕ → Bool
is_whitespace c =
    (leb 9 c && leb c 13)
    || Prelude.◌==◌ c 32
    || Prelude.◌==◌ c 133
    || Prelude.◌==◌ c 160
    || Prelude.◌==◌ c 5760
    || (leb 8192 c && leb c 8202)
    || Prelude.◌==◌ c 8232
    || Prelude.◌==◌ c 8233
    || Prelude.◌==◌ c 8239
    || Prelude.◌==◌ c 8287
    || Prelude.◌==◌ c 12288

abbrev pub is_blank : String → Bool
is_blank [] = true
is_blank (c ∷ s) = false

-- `str::trim`
unfoldable pub trim_start : String → String
trim_start [] = []
trim_start (c ∷ s) = let rest = trim_start s in if is_whitespace (code c) then rest else c ∷ s

unfoldable pub trim_end : String → String
trim_end [] = []
trim_end (c ∷ s) =
    let rest = trim_end s in if is_blank rest && is_whitespace (code c) then [] else c ∷ rest

abbrev pub trim : String → String
trim s = trim_end (trim_start s)

-- The parts that are not empty once they are trimmed.
unfoldable pub trimmed : List String → List String
trimmed [] = []
trimmed (part ∷ parts) =
    let rest = trimmed parts in if is_blank (trim part) then rest else trim part ∷ rest

unfoldable pub statements : String → List String
unfolding split_text trim_start trim_end trimmed
statements sql = trimmed (split_text 59 sql)

-- The calls of a pool: `false` for one that fails. `insert` runs the one statement of the source
-- with a row bound to it.
pub record Database (D : Type 0) : Type 0 where
  pub execute : D → String → Bool × D
  pub insert : D → String → Row → Bool × D

abbrev pub insert_statement : String
insert_statement =
    "INSERT INTO inverter_readings (time, slot, serial, metric, value) VALUES ($1, $2, $3, $4, $5)"

module _ {D : Type 0} (pool : Database D) where
  abbrev pub Executed : Type 0
  Executed = Result StorageError (Unit {0}) × D

  -- `execute(..).await?` for each statement, behind the answer to the one before.
  unfoldable pub execute_each : List String → Bool × D → Executed
  execute_each rest (false, d) = (err sqlx, d)
  execute_each [] (true, d) = (ok tt, d)
  execute_each (stmt ∷ rest) (true, d) = execute_each rest (pool.execute d stmt)

  unfoldable pub init_schema : D → Executed
  unfolding execute_each statements
  init_schema d = execute_each (statements create_schema) (true, d)

  abbrev pub executed : Bool × D → Executed
  executed (true, d) = (ok tt, d)
  executed (false, d) = (err sqlx, d)

  unfoldable pub insert_row : Row → D → Executed
  insert_row r d = executed (pool.insert d insert_statement r)

-- The two implementations of `ReadingSink::write`.
pub record ReadingSink (S : Type 0) : Type 0 where
  pub write : Row → S → Result StorageError (Unit {0}) × S

abbrev pub writer_sink : {D : Type 0} → Database D → ReadingSink D
writer_sink pool = record { write = insert_row pool }

abbrev pub csv_sink : {S : Type 0} → Files S → CsvSink → ReadingSink S
csv_sink files sink = record { write = append files sink }
