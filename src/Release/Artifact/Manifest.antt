-- ===== src/Release/Artifact/Manifest.antt =====
-- `verifyArtifactManifestXml`, `verifyArtifactManifestTree` and `fixtureMarkerErrors`.
use you_tube_gradian_devin.Common.{
  Text, text, text_eq, starts_with, split, drop, Bool, true, false, ◌&&◌, ◌||◌, not, Option, none,
  some, List, [], ◌∷◌, ◌++◌, map, any, find, if◌then◌else◌,
}
use you_tube_gradian_devin.Policy.Domain.{includes}
use you_tube_gradian_devin.Release.Patterns.{trim_start}
use you_tube_gradian_devin.Release.Artifact.Scans.{
  reports, at_end_of_word, is_fixture, first_at, has_false, has_zero, tag_at, tags, without,
}

abbrev pub prohibited_permissions : List Text
prohibited_permissions =
    text "ACCESS_FINE_LOCATION"
    ∷ text "ACCESS_COARSE_LOCATION"
    ∷ text "RECORD_AUDIO"
    ∷ text "READ_SMS"
    ∷ text "QUERY_ALL_PACKAGES"
    ∷ []

abbrev pub required_services : List Text
required_services =
    text "GuardianVpnService"
    ∷ text "GuardianAccessibilityService"
    ∷ text "GuardianNotificationListenerService"
    ∷ []

-- The keys of `REQUIRED_METADATA` but for `isMonitoringTool`, which come after it.
abbrev pub required_declarations : List Text
required_declarations =
    text "com.guardian.family.CHILD_MONITORING_DISCLOSURE"
    ∷ text "com.guardian.family.ACCESSIBILITY_DECLARATION"
    ∷ text "com.guardian.family.VPN_DECLARATION"
    ∷ []

-- `name="value"`
abbrev pub assigned : Text → Text → Text
assigned name value = name ++ (b'=' ∷ b'"' ∷ (value ++ b'"' ∷ []))

abbrev pub permission : Text → Text
permission name = text "android.permission." ++ name

abbrev pub check_service : (subject contents service : Text) → Bool × Text
check_service subject contents service =
    (includes service contents, subject ++ (text " is missing " ++ (service ++ text ".")))

abbrev pub check_permission : (subject contents name : Text) → Bool × Text
check_permission subject contents name = (
  not (includes (permission name) contents),
  subject ++ (text " contains prohibited permission " ++ (name ++ text ".")),
)

-- What both checks say of the services, the permissions and the fixtures.
abbrev pub common_checks : (subject fixtures contents : Text) → List (Bool × Text)
common_checks subject fixtures contents =
    map (check_service subject contents) required_services
    ++ (map (check_permission subject contents) prohibited_permissions
        ++ (not (is_fixture contents), subject ++ fixtures) ∷ [])

abbrev pub is_set : Text → Option Text → Bool
is_set wanted none = false
is_set wanted (some tag) = includes wanted tag

abbrev pub metadata_tag : Text → Text → Option Text
metadata_tag xml name =
    find (includes (assigned (text "android:name") name)) (tags (text "meta-data") false xml)

abbrev pub is_there : Option Text → Bool
is_there none = false
is_there (some tag) = true

abbrev pub check_declaration : (xml subject name : Text) → Bool × Text
check_declaration xml subject name = (
  is_there (metadata_tag xml name),
  subject ++ (text " is missing required metadata " ++ (name ++ text ".")),
)

abbrev pub xml_checks : Text → Text → List (Bool × Text)
xml_checks xml label =
    let subject = text "Release " ++ (label ++ text " manifest") in
    let application = first_at (tag_at (text "application")) xml in
    (
      is_set (assigned (text "android:allowBackup") (text "false")) application,
      subject ++ text " must set android:allowBackup=false.",
    )
    ∷ (
      is_set (assigned (text "android:usesCleartextTraffic") (text "false")) application,
      subject ++ text " must set android:usesCleartextTraffic=false.",
    )
    ∷ (
      is_set (assigned (text "android:value") (text "child_monitoring"))
          (metadata_tag xml (text "isMonitoringTool")),
      subject ++ text " must declare isMonitoringTool=child_monitoring.",
    )
    ∷ (map (check_declaration xml subject) required_declarations
        ++ common_checks subject (text " must not contain fixture declarations.") xml)

-- `verifyArtifactManifestXml`
unfoldable pub verify_manifest_xml : (xml label : Text) → List Text
verify_manifest_xml xml label = reports (xml_checks xml label)

-- `/^\s*E:/`
abbrev pub is_element : Text → Bool
is_element line = starts_with (text "E:") (trim_start line)

-- `/^(\s*)E:\s+meta-data\b/`
abbrev pub begins_metadata : Text → Bool
begins_metadata line =
    let after = drop 2 (trim_start line) in
    let name = trim_start after in
    is_element line
    && (not (text_eq name after)
        && (starts_with (text "meta-data") name && at_end_of_word (drop 9 name)))

unfoldable pub before_element : List Text → List Text
before_element [] = []
before_element (line ∷ lines) =
    let rest = before_element lines in if is_element line then [] else line ∷ rest

-- `xmlTreeMetadataNodes`, where a node is its lines.
unfoldable pub metadata_nodes : List Text → List (List Text)
metadata_nodes [] = []
metadata_nodes (line ∷ lines) =
    let rest = metadata_nodes lines in
    if begins_metadata line then (line ∷ before_element lines) ∷ rest else rest

-- `xmlTreeNodeHasStringAttribute`
unfoldable pub has_attribute : Text → Text → List Text → Bool
has_attribute attribute value node =
    any
      (λ line.
        starts_with (text "A: android:" ++ (attribute ++ b'(' ∷ [])) (trim_start line)
        && includes (b'"' ∷ (value ++ b'"' ∷ [])) line)
      node

abbrev pub is_false_line : Option Text → Bool
is_false_line none = false
is_false_line (some line) =
    (has_false true line || has_zero line) && not (includes (text "0xffffffff") line)

abbrev pub is_false : Text → Text → Bool
is_false tree attribute =
    is_false_line (find (includes (text "android:" ++ (attribute ++ b'(' ∷ []))) (split 10 tree))

abbrev pub check_node : List (List Text) → (subject name : Text) → Bool × Text
check_node nodes subject name = (
  any (has_attribute (text "name") name) nodes,
  subject ++ (text " is missing metadata " ++ (name ++ text ".")),
)

abbrev pub tree_checks : Text → List (Bool × Text)
tree_checks tree =
    let subject = text "Release APK manifest tree" in
    let nodes = metadata_nodes (split 10 tree) in
    map
      (λ attribute. (
        is_false tree attribute,
        subject ++ (text " must set android:" ++ (attribute ++ text "=false.")),
      ))
      (text "allowBackup" ∷ text "usesCleartextTraffic" ∷ [])
    ++ ((
      any
          (λ node.
            has_attribute (text "name") (text "isMonitoringTool") node
            && has_attribute (text "value") (text "child_monitoring") node)
          nodes,
      subject ++ text " must declare isMonitoringTool=child_monitoring.",
    )
        ∷ (map (check_node nodes subject) required_declarations
            ++ common_checks subject (text " contains fixture content.") tree))

-- `verifyArtifactManifestTree`
unfoldable pub verify_manifest_tree : Text → List Text
verify_manifest_tree tree = reports (tree_checks tree)

abbrev pub check_entry : Text → Bool × Text
check_entry entry =
    (not (is_fixture entry), text "Release archive contains fixture entry " ++ (entry ++ text "."))

abbrev pub check_content : Text → Bool × Text
check_content content = (
  not (is_fixture (without (text "GUARDIAN_NON_RELEASE_FIXTURES_ENABLED") 0 content)),
  text "Release archive contains fixture bytes.",
)

-- `fixtureMarkerErrors`, on contents that are decoded.
unfoldable pub fixture_marker_errors : (entries contents : List Text) → List Text
fixture_marker_errors entries contents =
    reports (map check_entry entries ++ map check_content contents)
