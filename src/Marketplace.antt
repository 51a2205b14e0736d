-- ===== src/Marketplace.antt =====
-- core/marketplace/registry.go: the manifests, the index of the installed plugins, and what the
-- registry reads of the system. The lock makes each method one step, except that Install checks and
-- unpacks before it takes it. Log lines, events and the catalogue's download are left out.
pub mod Versions
pub mod Checks
pub mod Operations
pub mod Vetting
pub mod Effects
pub mod Histories
pub mod Running
pub mod Saving
mod Tests
use hisnos_secure_workstatio.Common.{
  ℕ, Bool, true, false, ◌&&◌, not, Option, none, some, List, [], ◌∷◌, String, if◌then◌else◌,
}
use hisnos_secure_workstatio.AtomicFile.{Disk, FileStep}

pub record PluginManifest : Type 0 where
  pub name : String
  pub version : String
  pub description : String
  pub author : String
  pub archive_url : String
  pub sha256 : String
  pub signature : String
  pub min_version : String
  pub arch : String
  pub sandbox : String

pub record InstalledPlugin : Type 0 where
  pub name : String
  pub version : String
  pub install_dir : String
  pub installed_at : ℕ
  pub sandbox : String
  pub enabled : Bool

-- `marketplaceIndex`, keyed by the plugin's name.
abbrev pub Index : Type 0
Index = List (String × InstalledPlugin)

-- The index in memory and on disk, and for each directory the archives unpacked there.
pub record Registry (B : Type 0) : Type 0 where
  pub index : Index
  pub disk : Disk B
  pub dirs : String → Option (List String)

-- What the calls into other code answer during one call of the registry.
pub record Env : Type 0 where
  -- `uname -m`, trimmed
  pub uname : Option String
  -- the status and the body that a GET gives
  pub get : String → Option (ℕ × String)
  -- the archive is stored in a temporary file
  pub archive_saved : Bool
  pub archive_opens : Bool
  -- the archive's hash in hexadecimal digits, and strings.ToLower
  pub sha256 : String → String
  pub to_lower : String → String
  pub keyring_found : Bool
  -- json.Marshal of a manifest
  pub marshal : PluginManifest → Option String
  pub payload_file_made : Bool
  pub signature_file_made : Bool
  -- `gpg --verify` of a signature and the bytes signed
  pub gpg : String → String → Bool
  -- filepath.Join of the marketplace's directory with a name and a version
  pub join : String → String → String
  pub dir_made : Bool
  pub tar : Bool
  pub now : ℕ
  -- the directory of the index, and the calls that fail while it is written
  pub index_dir_made : Bool
  pub fails : FileStep → Bool
  -- os.Stat of the entry point below an install directory
  pub entrypoint_found : String → Bool

pub data Refusal : Type 0 where
  arch_mismatch version_too_old not_https get_failed archive_unsaved archive_unopened : Refusal
  hash_mismatch keyring_missing marshal_failed files_unmade signature_bad : Refusal
  privileged_refused mkdir_failed extract_failed : Refusal
  bad_status : ℕ → Refusal
