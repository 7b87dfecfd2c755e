-- ===== src/Release/Artifact.antt =====
-- apps/mobile/scripts/verify-release-artifact.mjs: the native libraries that an archive must hold.
pub mod Scans
pub mod Manifest
pub mod Judged
pub mod Verification
pub mod Libraries
pub mod Contents
pub mod Trees
pub mod Manifests
pub mod Steps
pub mod Packages
pub mod Bundles
pub mod Returning
pub mod Passing
pub mod Approved
pub mod Decided
mod Tests
mod Runs
use you_tube_gradian_devin.Common.{
  ℕ, ◌==◌, Text, text, text_eq, truthy, starts_with, split, add_some, drop, Bool, not, Option, none,
  some, List, [], ◌∷◌, ◌++◌, map, any, filter, if◌then◌else◌, ◌or_default◌,
}
use you_tube_gradian_devin.Release.Patterns.{trim}
use you_tube_gradian_devin.Release.Artifact.Scans.{up_to}

abbrev pub default_required_apk_abis : List Text
default_required_apk_abis = text "armeabi-v7a" ∷ text "arm64-v8a" ∷ text "x86" ∷ text "x86_64" ∷ []

abbrev pub configured_or_default : List Text → List Text
configured_or_default [] = default_required_apk_abis
configured_or_default (abi ∷ abis) = abi ∷ abis

-- `requiredApkAbis`, of the variable GUARDIAN_RELEASE_REQUIRED_ABIS.
unfoldable pub required_apk_abis : Option Text → List Text
required_apk_abis variable =
    configured_or_default (filter truthy (map trim (split b',' (variable or_default []))))

-- What stands before the first slash, where there is one.
abbrev pub before_slash : Text → Option Text
before_slash = up_to b'/'

abbrev pub non_empty : Option Text → Option Text
non_empty none = none
non_empty (some []) = none
non_empty (some (c ∷ cs)) = some (c ∷ cs)

-- `entry.match(/^lib\/([^/]+)\//)?.[1]`
unfoldable pub abi_of : Text → Option Text
abi_of entry =
    if starts_with (text "lib/") entry then non_empty (before_slash (drop 4 entry)) else none

-- The set of the ABIs that the entries name, as a list.
unfoldable pub present_abis : List Text → List Text
present_abis [] = []
present_abis (entry ∷ entries) = add_some (abi_of entry) (present_abis entries)

abbrev pub missing_abi : Text → Text
missing_abi abi = text "Release APK is missing native libraries for ABI " ++ (abi ++ text ".")

-- `verifyApkAbis`
unfoldable pub verify_apk_abis : (entries required : List Text) → List Text
verify_apk_abis entries required =
    map missing_abi (filter (λ abi. not (any (λ p. text_eq p abi) (present_abis entries))) required)
