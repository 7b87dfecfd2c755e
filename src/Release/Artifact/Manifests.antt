-- ===== src/Release/Artifact/Manifests.antt =====
-- The manifests and archives for which the checks of
-- apps/mobile/scripts/verify-release-artifact.mjs report nothing.
use you_tube_gradian_devin.Common.{
  Text, text, Bool, any, starts_with, split, true, Option, none, some, List, [], ◌∷◌, ◌++◌, map,
  All, In, ◌≡◌, ◌↔◌, refl, subst, arith,
}
use you_tube_gradian_devin.Policy.Domain.{includes}
use you_tube_gradian_devin.Release.Patterns.{trim_start}
use you_tube_gradian_devin.Release.Artifact.Scans.{without, first_at, tag_at}
use you_tube_gradian_devin.Release.Artifact.Manifest.{
  required_declarations, assigned, is_set, metadata_tag, is_there, check_declaration, check_node,
  check_entry, check_content, verify_manifest_xml, metadata_nodes, has_attribute,
  verify_manifest_tree, fixture_marker_errors,
}
use you_tube_gradian_devin.Release.Artifact.Trees.{
  ReadsFalse, is_false_iff, IsNode, metadata_nodes_iff,
}
use you_tube_gradian_devin.Release.Artifact.Contents.{
  Contains, includes_iff, and_iff, any_iff, report_iff, reports-map_iff, reports-only_map_iff,
  IsFixtureFree, is_fixture-not_iff, IsGuarded, common_checks_iff,
}

-- The tag is there and assigns the value to the name.
abbrev pub Assigns : Option Text → (name value : Text) → Type 0
Assigns found name value = (tag : Text) × (found ≡ some tag) × Contains (assigned name value) tag

is_set_iff :
    (found : Option Text) (name value : Text)
    → (is_set (assigned name value) found ≡ true) ↔ Assigns found name value
is_set_iff none name value = (λ h. cc, λ (tag, e, c). cc)
is_set_iff (some tag) name value = (
  λ h. (tag, refl, (includes_iff (assigned name value) tag).0 h),
  λ (other, e, c).
      let same : other ≡ tag = ground arith in
      subst (λ t. includes (assigned name value) t ≡ true) same
        ((includes_iff (assigned name value) other).1 c),
)

is_there_iff : (found : Option Text) → (is_there found ≡ true) ↔ ((tag : Text) × (found ≡ some tag))
is_there_iff none = (λ h. cc, λ (tag, e). cc)
is_there_iff (some tag) = (λ h. (tag, refl), λ found. refl)

-- A manifest of XML that backs nothing up, sends nothing in clear text and declares the monitoring.
pub record IsSafeXml (xml : Text) : Type 0 where
  pub no_backup :
      Assigns
        (first_at (tag_at (text "application")) xml)
        (text "android:allowBackup")
        (text "false")
  pub no_clear_text :
      Assigns
        (first_at (tag_at (text "application")) xml)
        (text "android:usesCleartextTraffic")
        (text "false")
  pub monitoring :
      Assigns
        (metadata_tag xml (text "isMonitoringTool"))
        (text "android:value")
        (text "child_monitoring")
  pub declarations :
      All (λ name. (tag : Text) × (metadata_tag xml name ≡ some tag)) required_declarations
  pub guarded : IsGuarded xml

-- The manifest of a bundle raises no error exactly where its tag of the application forbids backups and
-- clear text, its tags of metadata declare the monitoring tool and the three disclosures, and it names
-- the three services, none of the prohibited permissions and no fixture.
pub verify_manifest_xml_iff :
    (xml label : Text) → (verify_manifest_xml xml label ≡ []) ↔ IsSafeXml xml
unfolding verify_manifest_xml
verify_manifest_xml_iff xml label =
    let subject : Text = text "Release " ++ (label ++ text " manifest") in
    let application = first_at (tag_at (text "application")) xml in
    let backup =
      report_iff _ _ _ (is_set_iff application (text "android:allowBackup") (text "false")) in
    let clear =
      report_iff _ _ _
        (is_set_iff application (text "android:usesCleartextTraffic") (text "false")) in
    let tool = report_iff _ _ _ (
      is_set_iff (metadata_tag xml (text "isMonitoringTool")) (text "android:value")
        (text "child_monitoring")) in
    let declared =
      reports-map_iff (check_declaration xml subject)
        (λ name. (tag : Text) × (metadata_tag xml name ≡ some tag)) required_declarations _
        (λ name. is_there_iff (metadata_tag xml name)) in
    let common = common_checks_iff subject (text " must not contain fixture declarations.") xml in
    (
      λ h.
          let (a, h1) = backup.0 h in
          let (b, h2) = clear.0 h1 in
          let (c, h3) = tool.0 h2 in
          let (d, h4) = declared.0 h3 in
          record {
            no_backup = a;
            no_clear_text = b;
            monitoring = c;
            declarations = d;
            guarded = common.0 h4;
          },
      λ s. backup.1 (
        s.no_backup,
        clear.1 (
          s.no_clear_text,
          tool.1 (s.monitoring, declared.1 (s.declarations, common.1 s.guarded)),
        ),
      ),
    )

-- A line of the node gives the attribute with the value between quotes.
abbrev pub HasAttribute : (attribute value : Text) → List Text → Type 0
HasAttribute attribute value node =
    (line : Text) × In line node
    × ((starts_with (text "A: android:" ++ (attribute ++ b'(' ∷ [])) (trim_start line) ≡ true)
        × Contains (b'"' ∷ (value ++ b'"' ∷ [])) line)

has_attribute_iff :
    (attribute value : Text) (node : List Text)
    → (has_attribute attribute value node ≡ true) ↔ HasAttribute attribute value node
unfolding has_attribute
has_attribute_iff attribute value node =
    any_iff _
      (λ line.
        (starts_with (text "A: android:" ++ (attribute ++ b'(' ∷ [])) (trim_start line) ≡ true)
        × Contains (b'"' ∷ (value ++ b'"' ∷ [])) line)
      node (λ line. and_iff _ _ (λ h. h, λ h. h) (includes_iff (b'"' ∷ (value ++ b'"' ∷ [])) line))

-- Some node of metadata in the tree is as told.
abbrev pub HasNode : Text → (List Text → Type 0) → Type 0
HasNode tree P = (node : List Text) × (IsNode (split 10 tree) node × P node)

has_node_iff :
    (tree : Text) (p : List Text → Bool) (P : List Text → Type 0)
    → ((node : List Text) → (p node ≡ true) ↔ P node)
    → (any p (metadata_nodes (split 10 tree)) ≡ true) ↔ HasNode tree P
has_node_iff tree p P k =
    let found = any_iff p P (metadata_nodes (split 10 tree)) k in
    (
      λ h. let (node, m, q) = found.0 h in (node, ((metadata_nodes_iff _ node).0 m, q)),
      λ (node, (n, q)). found.1 (node, (metadata_nodes_iff _ node).1 n, q),
    )

-- The same of the tree that `aapt` prints.
pub record IsSafeTree (tree : Text) : Type 0 where
  pub no_backup : ReadsFalse tree (text "allowBackup")
  pub no_clear_text : ReadsFalse tree (text "usesCleartextTraffic")
  pub monitoring : HasNode tree (λ node.
      HasAttribute (text "name") (text "isMonitoringTool") node
      × HasAttribute (text "value") (text "child_monitoring") node)
  pub declarations :
      All (λ name. HasNode tree (HasAttribute (text "name") name)) required_declarations
  pub guarded : IsGuarded tree

-- The tree of an application's manifest raises no error exactly where this holds. Each of the two
-- attributes has a line, and the first one has the word `false` or a zero and no number of true. One
-- node of metadata, which is a line that begins it and the lines up to the next element, declares the
-- monitoring tool, and one declares each of the three disclosures. The tree names the three services,
-- none of the prohibited permissions and no fixture.
pub verify_manifest_tree_iff : (tree : Text) → (verify_manifest_tree tree ≡ []) ↔ IsSafeTree tree
unfolding verify_manifest_tree
verify_manifest_tree_iff tree =
    let nodes = metadata_nodes (split 10 tree) in
    let subject : Text = text "Release APK manifest tree" in
    let backup = report_iff _ _ _ (is_false_iff tree (text "allowBackup")) in
    let clear = report_iff _ _ _ (is_false_iff tree (text "usesCleartextTraffic")) in
    let tool = report_iff _ _ _ (
      has_node_iff tree _ _ (λ node.
        and_iff _ _ (has_attribute_iff (text "name") (text "isMonitoringTool") node)
          (has_attribute_iff (text "value") (text "child_monitoring") node))) in
    let declared =
      reports-map_iff (check_node nodes subject)
        (λ name. HasNode tree (HasAttribute (text "name") name)) required_declarations _
        (λ name. has_node_iff tree _ _ (has_attribute_iff (text "name") name)) in
    let common = common_checks_iff subject (text " contains fixture content.") tree in
    (
      λ h.
          let (a, h1) = backup.0 h in
          let (b, h2) = clear.0 h1 in
          let (c, h3) = tool.0 h2 in
          let (d, h4) = declared.0 h3 in
          record {
            no_backup = a;
            no_clear_text = b;
            monitoring = c;
            declarations = d;
            guarded = common.0 h4;
          },
      λ s. backup.1 (
        s.no_backup,
        clear.1 (
          s.no_clear_text,
          tool.1 (s.monitoring, declared.1 (s.declarations, common.1 s.guarded)),
        ),
      ),
    )

abbrev pub fixture_guard : Text
fixture_guard = text "GUARDIAN_NON_RELEASE_FIXTURES_ENABLED"

-- Neither the names of the entries nor the contents hold `fixture`, but for the name of the guard.
abbrev pub IsFixtureFreeArchive : (entries contents : List Text) → Type 0
IsFixtureFreeArchive entries contents =
    All IsFixtureFree entries
    × All (λ content. IsFixtureFree (without fixture_guard 0 content)) contents

pub fixture_marker_errors_iff :
    (entries contents : List Text)
    → (fixture_marker_errors entries contents ≡ []) ↔ IsFixtureFreeArchive entries contents
unfolding fixture_marker_errors
fixture_marker_errors_iff entries contents =
    let others =
      reports-only_map_iff (check_content)
        (λ content. IsFixtureFree (without fixture_guard 0 content)) contents
        (λ content. is_fixture-not_iff (without fixture_guard 0 content)) in
    let first =
      reports-map_iff check_entry IsFixtureFree entries (map check_content contents)
        is_fixture-not_iff in
    (λ h. let (es, rest) = first.0 h in (es, others.0 rest), λ (es, cs). first.1 (es, others.1 cs))
