-- ===== src/Marketplace/Checks.antt =====
-- core/marketplace/registry.go: what Install looks at before it unpacks an archive.
use text.Mathlib.Text.{◌==◌ as str_eq, starts_with}
use hisnos_secure_workstatio.Common.{
  ◌⊎◌, inl, inr, ◌&&◌, not, Option, none, some, String, ◌==◌, if◌then◌else◌,
}
use hisnos_secure_workstatio.Marketplace.Versions.{version_ge}
use hisnos_secure_workstatio.Marketplace.{
  PluginManifest, Env, Refusal, arch_mismatch, version_too_old, not_https, get_failed,
  archive_unsaved, archive_unopened, hash_mismatch, keyring_missing, marshal_failed, files_unmade,
  signature_bad, bad_status,
}

abbrev pub hisnos_version : String
hisnos_version = "1.0.0"

abbrev pub current_arch : Option String → String
current_arch none = "amd64"
current_arch (some arch) =
    if str_eq arch "x86_64" then "amd64" else if str_eq arch "aarch64" then "arm64" else arch

unfoldable pub check_compat : Env → PluginManifest → Option Refusal
check_compat env m =
    if not (str_eq m.arch "any") && not (str_eq m.arch (current_arch env.uname))
    then some arch_mismatch
    else if not (str_eq m.min_version "") && not (version_ge hisnos_version m.min_version)
    then some version_too_old
    else none

unfoldable pub download : Env → String → String ⊎ Refusal
download env url = if not (starts_with url "https://") then inr not_https else elim (env.get url) [
  | none ↦ inr get_failed
  | some (status, body) ↦
      if not (status == 200)
      then inr (bad_status status)
      else if env.archive_saved
      then inl body
      else inr archive_unsaved
]

unfoldable pub verify_hash : Env → String → String → Option Refusal
verify_hash env archive expected =
    if not env.archive_opens
    then some archive_unopened
    else if str_eq (env.sha256 archive) (env.to_lower expected)
    then none
    else some hash_mismatch

abbrev pub unsigned : PluginManifest → PluginManifest
unsigned m = record m { signature = "" }

-- The errors of Write and Close are not looked at: what was to be written is in the files.
unfoldable pub verify_gpg : Env → PluginManifest → Option Refusal
verify_gpg env m =
    if not env.keyring_found then some keyring_missing else elim (env.marshal (unsigned m)) [
      | none ↦ some marshal_failed
      | some payload ↦
          if not (env.payload_file_made && env.signature_file_made)
          then some files_unmade
          else if env.gpg m.signature payload
          then none
          else some signature_bad
    ]
