-- ===== src/Release/Artifact/Trees.antt =====
-- The lines and the nodes of the tree of a manifest that the checks of
-- apps/mobile/scripts/verify-release-artifact.mjs look at.
use you_tube_gradian_devin.Common.{
  Text, text, split, Bool, Bool-cases, true, false, ◌&&◌, ◌||◌, not, Option, none, some, List, [],
  ◌∷◌, ◌++◌, find, All, In, if◌then◌else◌, ◌≡◌, ◌↔◌, ◌⊎◌, inl, inr, refl, sym, ap, ◌∙◌, subst,
  arith,
}
use you_tube_gradian_devin.Policy.Domain.{includes}
use you_tube_gradian_devin.Release.Artifact.Scans.{has_false, has_zero}
use you_tube_gradian_devin.Release.Artifact.Manifest.{
  is_element, begins_metadata, before_element, metadata_nodes, is_false_line, is_false,
}
use you_tube_gradian_devin.Release.Artifact.Contents.{Contains, includes_iff, not_iff}

-- The first line that passes the test.
pub record IsFirst (p : Text → Bool) (lines : List Text) (line : Text) : Type 0 where
  pub before : List Text
  pub after : List Text
  pub parts : lines ≡ before ++ (line ∷ after)
  pub none_before : All (λ l. p l ≡ false) before
  pub passes : p line ≡ true

find_sound-IsFirst :
    (p : Text → Bool) (lines : List Text) (line : Text)
    → find p lines ≡ some line
    → IsFirst p lines line
unfolding find
find_sound-IsFirst p [] line h = cc
find_sound-IsFirst p (l ∷ lines) line h = elim (Bool-cases (p l)) [
  | inl here ↦
      let same : l ≡ line = ground arith in
      record {
        before = [];
        after = lines;
        parts = ap (λ x. x ∷ lines) same;
        none_before = tt;
        passes = subst (λ x. p x ≡ true) same here;
      }
  | inr other ↦
      let later : IsFirst p lines line = find_sound-IsFirst p lines line (ground arith) in
      record {
        before = l ∷ later.before;
        after = later.after;
        parts = ap (λ rest. l ∷ rest) later.parts;
        none_before = (other, later.none_before);
        passes = later.passes;
      }
]

find_complete-IsFirst :
    (p : Text → Bool) (before after : List Text) (line : Text)
    → All (λ l. p l ≡ false) before
    → p line ≡ true
    → find p (before ++ (line ∷ after)) ≡ some line
unfolding find
find_complete-IsFirst p [] after line none_before passes = rw passes refl
find_complete-IsFirst p (l ∷ before) after line (other, rest) passes =
    rw other (find_complete-IsFirst p before after line rest passes)

-- The first line that gives the attribute has the word `false` or a zero, and no number of true.
pub record ReadsFalse (tree attribute : Text) : Type 0 where
  pub line : Text
  pub first : IsFirst (includes (text "android:" ++ (attribute ++ b'(' ∷ []))) (split 10 tree) line
  pub says_false : (has_false true line ≡ true) ⊎ (has_zero line ≡ true)
  pub not_true : Contains (text "0xffffffff") line → ⊥

no_truth : false ≡ true → ⊥
no_truth e = cc

false_line_iff :
    (line : Text)
    → (is_false_line (some line) ≡ true) ↔ (
        ((has_false true line ≡ true) ⊎ (has_zero line ≡ true))
        × (Contains (text "0xffffffff") line → ⊥))
false_line_iff line =
    let marked =
      not_iff (includes (text "0xffffffff") line) (includes_iff (text "0xffffffff") line) in
    both (has_false true line) (has_zero line) (not (includes (text "0xffffffff") line)) marked
  where
    both :
        {P : Type 0} (a b c : Bool)
        → (c ≡ true) ↔ P
        → (((a || b) && c) ≡ true) ↔ (((a ≡ true) ⊎ (b ≡ true)) × P)
    both true b c k = (λ h. (inl refl, k.0 h), λ h. k.1 (h.1))
    both false true c k = (λ h. (inr refl, k.0 h), λ h. k.1 (h.1))
    both false false c k =
        (λ h. cc, λ h. elim (h.0) [ inl e ↦ absurd (no_truth e) | inr e ↦ absurd (no_truth e) ])

pub is_false_iff :
    (tree attribute : Text) → (is_false tree attribute ≡ true) ↔ ReadsFalse tree attribute
is_false_iff tree attribute = (
  λ h. found (find p (split 10 tree)) refl h,
  λ r.
      ap is_false_line (
        ap (find p) r.first.parts
        ∙ find_complete-IsFirst p r.first.before r.first.after r.line r.first.none_before
            r.first.passes)
      ∙ (false_line_iff r.line).1 (r.says_false, r.not_true),
)
  where
    p : Text → Bool
    p = includes (text "android:" ++ (attribute ++ b'(' ∷ []))

    found :
        (o : Option Text)
        → find p (split 10 tree) ≡ o
        → is_false_line o ≡ true
        → ReadsFalse tree attribute
    found none e h = cc
    found (some line) e h =
        let (says_false, not_true) = (false_line_iff line).0 h in
        record {
          line = line;
          first = find_sound-IsFirst p (split 10 tree) line e;
          says_false = says_false;
          not_true = not_true;
        }

-- The lines are over, or another element begins.
pub data Ends : List Text → Type 0 where
  at_end : Ends []
  at_element : (line : Text) (rest : List Text) → is_element line ≡ true → Ends (line ∷ rest)

-- A node of metadata: a line that begins one, and the lines after it up to the next element.
pub record IsNode (lines node : List Text) : Type 0 where
  pub before : List Text
  pub head : Text
  pub body : List Text
  pub after : List Text
  pub node_is : node ≡ head ∷ body
  pub parts : lines ≡ before ++ (head ∷ (body ++ after))
  pub begins : begins_metadata head ≡ true
  pub no_element : All (λ line. is_element line ≡ false) body
  pub ends : Ends after

before_element_sound :
    (lines : List Text)
    → (after : List Text) × ((lines ≡ before_element lines ++ after)
        × (All (λ line. is_element line ≡ false) (before_element lines) × Ends after))
unfolding before_element
before_element_sound [] = ([], (refl, (tt, at_end)))
before_element_sound (line ∷ lines) = elim (Bool-cases (is_element line)) [
  | inl here ↦ rw here (line ∷ lines, (refl, (tt, at_element line lines here)))
  | inr other ↦
      let (after, (parts, (plain, ends))) = before_element_sound lines in
      rw other (after, (ap (λ rest. line ∷ rest) parts, ((other, plain), ends)))
]

before_element-Ends : (after : List Text) → Ends after → before_element after ≡ []
unfolding before_element
before_element-Ends [] at_end = refl
before_element-Ends (line ∷ rest) (at_element _ _ e) = rw e refl

before_element_complete :
    (body after : List Text)
    → All (λ line. is_element line ≡ false) body
    → Ends after
    → before_element (body ++ after) ≡ body
unfolding before_element
before_element_complete [] after h e = before_element-Ends after e
before_element_complete (line ∷ body) after (other, rest) e =
    rw other (ap (λ ls. line ∷ ls) (before_element_complete body after rest e))

-- The node is among those of some lines, the first of which begins one or not.
abbrev NodeAfter : Text → List Text → List Text → Bool → Type 0
NodeAfter line lines node b =
    In node
      (if b then (line ∷ before_element lines) ∷ metadata_nodes lines else metadata_nodes lines)

nodes_sound : (lines node : List Text) → In node (metadata_nodes lines) → IsNode lines node
unfolding metadata_nodes
nodes_sound [] node m = elim m [ ]
nodes_sound (line ∷ lines) node m = elim (Bool-cases (begins_metadata line)) [
  | inl here ↦
      let listed : In node ((line ∷ before_element lines) ∷ metadata_nodes lines) =
        subst (NodeAfter line lines node) here m in
      elim listed [ inl e ↦ first here e | inr rest ↦ later (nodes_sound lines node rest) ]
  | inr other ↦
      let listed : In node (metadata_nodes lines) = subst (NodeAfter line lines node) other m in
      later (nodes_sound lines node listed)
]
  where
    first :
        begins_metadata line ≡ true
        → node ≡ line ∷ before_element lines
        → IsNode (line ∷ lines) node
    first here e =
        let (after, (parts, (plain, ends))) = before_element_sound lines in
        record {
          before = [];
          head = line;
          body = before_element lines;
          after = after;
          node_is = e;
          parts = ap (λ rest. line ∷ rest) parts;
          begins = here;
          no_element = plain;
          ends = ends;
        }

    later : IsNode lines node → IsNode (line ∷ lines) node
    later n = record {
      before = line ∷ n.before;
      head = n.head;
      body = n.body;
      after = n.after;
      node_is = n.node_is;
      parts = ap (λ rest. line ∷ rest) n.parts;
      begins = n.begins;
      no_element = n.no_element;
      ends = n.ends;
    }

nodes_complete :
    (before body after : List Text) (head : Text)
    → begins_metadata head ≡ true
    → All (λ line. is_element line ≡ false) body
    → Ends after
    → In (head ∷ body) (metadata_nodes (before ++ (head ∷ (body ++ after))))
unfolding metadata_nodes
nodes_complete [] body after head begins plain ends =
    rw begins (inl (ap (λ ls. head ∷ ls) (sym (before_element_complete body after plain ends))))
nodes_complete (line ∷ before) body after head begins plain ends =
    let rest = nodes_complete before body after head begins plain ends in
    elim (Bool-cases (begins_metadata line)) [
      | inl here ↦ rw here (inr rest)
      | inr other ↦ rw other rest
    ]

pub metadata_nodes_iff :
    (lines node : List Text) → In node (metadata_nodes lines) ↔ IsNode lines node
metadata_nodes_iff lines node = (
  nodes_sound lines node,
  λ n.
      subst (λ ls. In node (metadata_nodes ls)) (sym n.parts)
        (subst (λ d. In d (metadata_nodes (n.before ++ (n.head ∷ (n.body ++ n.after)))))
          (sym n.node_is)
          (nodes_complete n.before n.body n.after n.head n.begins n.no_element n.ends)),
)
