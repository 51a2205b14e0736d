-- ===== src/Marketplace/Vetting.antt =====
-- core/marketplace/registry.go: which plugins Install accepts.
use text.Mathlib.Text.{◌==◌ as str_eq, starts_with}
use hisnos_secure_workstatio.Common.{
  ℕ, ◌≡◌, ◌≢◌, refl, sym, ap, ◌∙◌, ◌⊎◌, inl, inr, Bool, true, false, ◌&&◌, ◌||◌, not, Option, none,
  some, String, ◌==◌, Bool-cases, Option-cases, if◌then◌else◌,
}
use hisnos_secure_workstatio.AtomicFile.{Json}
use hisnos_secure_workstatio.Marketplace.Versions.{version_ge}
use hisnos_secure_workstatio.Marketplace.{
  PluginManifest, Index, Registry, Env, Refusal, arch_mismatch, version_too_old, keyring_missing,
  marshal_failed, files_unmade, extract_failed, signature_bad, not_https, get_failed, bad_status,
  archive_unsaved, archive_unopened, hash_mismatch, privileged_refused,
}
use hisnos_secure_workstatio.Marketplace.Checks.{
  hisnos_version, current_arch, check_compat, download, verify_hash, unsigned, verify_gpg,
}
use hisnos_secure_workstatio.Marketplace.Operations.{install, unpack}

-- The plugin is for this architecture and version.
abbrev pub compatible : Env → PluginManifest → Bool
compatible env m =
    (str_eq m.arch "any" || str_eq m.arch (current_arch env.uname))
    && (str_eq m.min_version "" || version_ge hisnos_version m.min_version)

-- The archive comes by HTTPS and has the hash of the manifest.
abbrev pub genuine_body : Env → PluginManifest → Option (ℕ × String) → Bool
genuine_body env m none = false
genuine_body env m (some (status, body)) =
    (status == 200)
    && (env.archive_saved
        && (env.archive_opens && str_eq (env.sha256 body) (env.to_lower m.sha256)))

abbrev pub genuine : Env → PluginManifest → Bool
genuine env m = starts_with m.archive_url "https://" && genuine_body env m (env.get m.archive_url)

-- gpg accepts the manifest's signature of the rest of the manifest, by a key of the keyring.
abbrev pub signed_payload : Env → PluginManifest → Option String → Bool
signed_payload env m none = false
signed_payload env m (some payload) =
    env.payload_file_made && (env.signature_file_made && env.gpg m.signature payload)

abbrev pub signed : Env → PluginManifest → Bool
signed env m = env.keyring_found && signed_payload env m (env.marshal (unsigned m))

abbrev pub vetted : Env → PluginManifest → Bool
vetted env m =
    compatible env m && (genuine env m && (signed env m && not (str_eq m.sandbox "privileged")))

abbrev pub unpacks : Env → Bool
unpacks env = env.dir_made && env.tar

abbrev extraction : Refusal → Bool
extraction extract_failed = true
extraction _ = false

-- A check agrees with its Boolean description, and does not fail the way tar does.
abbrev Agrees : Option Refusal → Bool → Type 0
Agrees c b =
    (c ≡ none) × (b ≡ true) ⊎ ((e : Refusal) × (c ≡ some e) × (b ≡ false) × (extraction e ≡ false))

not-extraction : (e : Refusal) → extraction e ≡ false → e ≢ extract_failed
not-extraction e h q = let bad : false ≡ true = sym h ∙ ap extraction q in cc

compat_of :
    (a b c d : Bool)
    → Agrees
        (if not a && not b
          then some arch_mismatch
          else if not c && not d
          then some version_too_old
          else none)
        ((a || b) && (c || d))
compat_of false false c d = inr (arch_mismatch, refl, refl, refl)
compat_of true b true d = inl (refl, refl)
compat_of true b false true = inl (refl, refl)
compat_of true b false false = inr (version_too_old, refl, refl, refl)
compat_of false true true d = inl (refl, refl)
compat_of false true false true = inl (refl, refl)
compat_of false true false false = inr (version_too_old, refl, refl, refl)

check_compat-Agrees :
    (env : Env) (m : PluginManifest) → Agrees (check_compat env m) (compatible env m)
unfolding check_compat
check_compat-Agrees env m =
    compat_of (str_eq m.arch "any") (str_eq m.arch (current_arch env.uname))
      (str_eq m.min_version "") (version_ge hisnos_version m.min_version)

gpg_of :
    (found a b : Bool) (payload : Option String) (accepts : String → Bool)
    → Agrees
        (if not found then some keyring_missing else elim payload [
          | none ↦ some marshal_failed
          | some p ↦
              if not (a && b)
              then some files_unmade
              else if accepts p
              then none
              else some signature_bad
        ])
        (found && elim payload [ none ↦ false | some p ↦ a && (b && accepts p) ])
gpg_of false a b payload accepts = inr (keyring_missing, refl, refl, refl)
gpg_of true a b none accepts = inr (marshal_failed, refl, refl, refl)
gpg_of true false b (some p) accepts = inr (files_unmade, refl, refl, refl)
gpg_of true true false (some p) accepts = inr (files_unmade, refl, refl, refl)
gpg_of true true true (some p) accepts = elim (Bool-cases (accepts p)) [
  | inl y ↦ inl (rw y refl, y)
  | inr n ↦ inr (signature_bad, rw n refl, n, refl)
]

verify_gpg-Agrees : (env : Env) (m : PluginManifest) → Agrees (verify_gpg env m) (signed env m)
unfolding verify_gpg
verify_gpg-Agrees env m = elim (Option-cases (env.marshal (unsigned m))) [
  | inl e ↦
      rw (e, verify_gpg, signed_payload)
        (gpg_of env.keyring_found env.payload_file_made env.signature_file_made none
          (env.gpg m.signature))
  | inr (p, e) ↦
      rw (e, verify_gpg, signed_payload)
        (gpg_of env.keyring_found env.payload_file_made env.signature_file_made (some p)
          (env.gpg m.signature))
]

hash_of :
    (opens same : Bool)
    → Agrees
        (if not opens then some archive_unopened else if same then none else some hash_mismatch)
        (opens && same)
hash_of false same = inr (archive_unopened, refl, refl, refl)
hash_of true true = inl (refl, refl)
hash_of true false = inr (hash_mismatch, refl, refl, refl)

-- The download and the hash check together.
fetched_of :
    (env : Env) (m : PluginManifest)
    → ((archive : String) × (download env m.archive_url ≡ inl archive)
        × Agrees (verify_hash env archive m.sha256) (genuine env m))
      ⊎ ((e : Refusal) × (download env m.archive_url ≡ inr e)
          × (genuine env m ≡ false)
          × (extraction e ≡ false))
unfolding download verify_hash
fetched_of env m = elim (Bool-cases (starts_with m.archive_url "https://")) [
  | inr n ↦ rw n (inr (not_https, refl, refl, refl))
  | inl y ↦ elim (Option-cases (env.get m.archive_url)) [
    | inl e ↦ rw (y, e, genuine_body) (inr (get_failed, refl, refl, refl))
    | inr ((status, body), e) ↦ elim (Bool-cases (status == 200)) [
      | inr n ↦ rw (y, e, genuine_body, n) (inr (bad_status status, refl, refl, refl))
      | inl ok ↦ elim (Bool-cases env.archive_saved) [
        | inr n ↦ rw (y, e, genuine_body, ok, n) (inr (archive_unsaved, refl, refl, refl))
        | inl kept ↦
            rw (y, e, genuine_body, ok, kept)
              (inl (
                body,
                refl,
                hash_of env.archive_opens (str_eq (env.sha256 body) (env.to_lower m.sha256)),
              ))
      ]
    ]
  ]
]

-- Install unpacks what passes all the checks, and otherwise leaves the registry as it was; the
-- refusal is then none of tar's.
pub install-cases :
    {B : Type 0} (json : Json Index B) (env : Env) (m : PluginManifest) (r : Registry B)
    → ((archive : String) × (vetted env m ≡ true)
        × (install json env m r ≡ unpack json env m archive r))
      ⊎ ((e : Refusal) × (vetted env m ≡ false)
          × (install json env m r ≡ (r, some e))
          × (e ≢ extract_failed))
unfolding install
install-cases json env m r = elim (check_compat-Agrees env m) [
  | inr (e, c, b, x) ↦ inr (e, rw b refl, rw (install, c) refl, not-extraction e x)
  | inl (c, b) ↦ elim (fetched_of env m) [
    | inr (e, d, g, x) ↦ inr (e, rw (b, g) refl, rw (install, c, d) refl, not-extraction e x)
    | inl (archive, d, a) ↦ elim a [
      | inr (e, h, g, x) ↦ inr (e, rw (b, g) refl, rw (install, c, d, h) refl, not-extraction e x)
      | inl (h, g) ↦ elim (verify_gpg-Agrees env m) [
        | inr (e, v, k, x) ↦
            inr (e, rw (b, g, k) refl, rw (install, c, d, h, v) refl, not-extraction e x)
        | inl (v, k) ↦ elim (Bool-cases (str_eq m.sandbox "privileged")) [
          | inl p ↦
              inr (
                privileged_refused,
                rw (b, g, k, p) refl,
                rw (install, c, d, h, v, p) refl,
                λ q. cc,
              )
          | inr p ↦ inl (archive, rw (b, g, k, p) refl, rw (install, c, d, h, v, p) refl)
        ]
      ]
    ]
  ]
]
