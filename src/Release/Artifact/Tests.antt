-- ===== src/Release/Artifact/Tests.antt =====
-- The libraries of an archive that names two ABIs, and the theorem on them.
use you_tube_gradian_devin.Common.{
  Text, text, starts_with, split, some, List, [], ◌∷◌, filter, any, text_eq, ◌≡◌, refl,
}
use you_tube_gradian_devin.Release.Patterns.{trim, trim_start, trim_end}
use you_tube_gradian_devin.Release.Artifact.{
  required_apk_abis, abi_of, present_abis, verify_apk_abis,
}
use you_tube_gradian_devin.Release.Artifact.Scans.{up_to}

abbrev entries : List Text
entries =
    text "lib/x86/libguardian.so"
    ∷ text "lib/arm64-v8a/libguardian.so"
    ∷ text "lib/x86_64"
    ∷ text "assets/lib/x86_64/a"
    ∷ []

abbrev required : List Text
required = text "x86" ∷ text "x86_64" ∷ []

-- A file is no folder, and a folder elsewhere is no library.
one_missing :
    verify_apk_abis entries required
    ≡ text "Release APK is missing native libraries for ABI x86_64." ∷ []
unfolding verify_apk_abis present_abis abi_of up_to starts_with filter any text_eq
one_missing = refl

spaces_trimmed : required_apk_abis (some (text "x86, ,x86_64")) ≡ required
unfolding required_apk_abis split trim trim_start trim_end filter
spaces_trimmed = refl
