-- ===== src/Daemon/Archive.antt =====
-- The choice of the archive in `main` of crates/daemon/src/main.rs. Connecting to the database and
-- making its schema are parameters.
use Prim.Native.String.{String}
use hass_sma_rs.Prelude.{Bool, true, false, Option, none, some}
use hass_sma_rs.Daemon.Config.{ArchiveCfg}

pub data Archiver : Type 0 where
  disabled : Archiver
  timescale csv : String → Archiver

abbrev pub connected_to : String → Bool → Bool → Archiver
connected_to url false init = disabled
connected_to url true false = disabled
connected_to url true true = timescale url

abbrev pub csv_in : Option String → Archiver
csv_in none = disabled
csv_in (some dir) = csv dir

-- The database goes first if both are set; one that fails is not replaced by the files.
abbrev pub of_cfg : (String → Bool) → (String → Bool) → Option String → Option String → Archiver
of_cfg connects makes_schema (some url) dir = connected_to url (connects url) (makes_schema url)
of_cfg connects makes_schema none dir = csv_in dir

unfoldable pub choose_archiver : (String → Bool) → (String → Bool) → Option ArchiveCfg → Archiver
choose_archiver connects makes_schema none = disabled
choose_archiver connects makes_schema (some a) =
    of_cfg connects makes_schema a.timescale_url a.csv_dir
